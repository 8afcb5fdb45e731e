-- ===== src/Lead.antt =====
-- app/modules/lead_qualification: the mirror of the CRM's leads and the buyer's profile.
pub mod Stage
pub mod Profile
pub mod Mirror
pub mod Repository
pub mod Sync
pub mod WacrmClient
pub mod Wiring
pub mod Guard
pub mod ProfileStore
pub mod Capture
