-- ===== src/Conversation.antt =====
-- app/modules/conversation_ownership: the conversation aggregate, its policy and its services.
pub mod State
pub mod Model
pub mod Policy
pub mod Guardrail
pub mod Repository
pub mod Sidebar
pub mod Coordinator
pub mod ChatwootClient
pub mod Decay
pub mod Ownership
pub mod LeadLinker
pub mod Webhook
