-- ===== src/Lead/Capture.antt =====
-- app/modules/lead_qualification/application/profile_capture.py. The threshold is in percent.
use leadto_sales_re.Base.{
  ℕ, ◌≤◌, ◌<◌, ◌≡◌, refl, sym, subst, ◌⊎◌, inl, inr, Bool, true, false, ◌&&◌, not, Option, some, [],
  ◌∷◌, ◌++◌, arith, leb, if◌then◌else◌, Bool-cases, or_else,
}
use leadto_sales_re.Event.{DomainEvent, Stamp, event_at, profile_completed}
use leadto_sales_re.EventBus.{publish, outbox_row}
use leadto_sales_re.Result.{Result, ok, value_error}
use leadto_sales_re.Session.{◌>>=◌, ◌>>◌, Action, Session, pure, raise, lift}
use leadto_sales_re.Lead.Mirror.{Lead}
use leadto_sales_re.Lead.Repository
use leadto_sales_re.Lead.Sync.Access
use leadto_sales_re.Lead.Sync.{or_not_found}
use leadto_sales_re.Lead.Profile.{
  ProfilePatch, patch_is_empty, BuyerProfile, new_profile, apply, completeness, snapshot,
}
use leadto_sales_re.Lead.ProfileStore

-- `ProfileCompleted(…)` with the profile as it is after the patch.
abbrev pub completed : Stamp → ℕ → Lead → BuyerProfile → DomainEvent
completed t lead l p =
    event_at t l.organization_id
      (profile_completed lead l.crm_lead_id (completeness p) (snapshot p))

abbrev publish_if : Bool → DomainEvent → Action (Unit {0})
publish_if true e = publish (e ∷ [])
publish_if false e = pure tt

-- `update_profile` from the profile on, which `_profiles.get_by_lead_id` found or not.
abbrev pub update_found : ℕ → (ℕ → Stamp) → ℕ → Lead → ProfilePatch → BuyerProfile → Action ℕ
update_found threshold clock lead l patch before = do
  let p = apply (clock 1).now patch before
  ProfileStore.save l.organization_id p
  publish_if (leb threshold (completeness p) && not (leb threshold (completeness before)))
      (completed (clock 2) lead l p)
  pure (completeness p)

abbrev pub profile_or_new : Stamp → ℕ → Option BuyerProfile → BuyerProfile
profile_or_new t lead found = or_else found (new_profile t.new_id t.now lead)

unfoldable pub update_profile : ℕ → (ℕ → Stamp) → ℕ → ProfilePatch → Action ℕ
update_profile threshold clock lead patch =
    if patch_is_empty patch then raise (value_error "ProfilePatch carries no dimension") else (do
      found ← Repository.get lead
      l ← lift (or_not_found lead found)
      profile ← ProfileStore.get_by_lead_id lead
      update_found threshold clock lead l patch (profile_or_new (clock 0) lead profile))

module _ (threshold : ℕ) (clock : ℕ → Stamp) (lead : ℕ) (patch : ProfilePatch) (s : Session) where
  abbrev before : Option BuyerProfile → BuyerProfile
  before found = profile_or_new (clock 0) lead found

  abbrev after : Option BuyerProfile → BuyerProfile
  after found = apply (clock 1).now patch (before found)

  -- What the database shows of one increment.
  abbrev pub Captured : Lead → Option BuyerProfile → Result ℕ × Session → Type 0
  Captured l found o =
      (o.0 ≡ ok (completeness (after found)))
      × (o.1.working.buyer_profiles
          ≡ ProfileStore.save_rows l.organization_id (after found) s.working.buyer_profiles)
      × (((threshold ≤ completeness (after found))
            × (completeness (before found) < threshold)
            × (o.1.working.outbox_events
                ≡ s.working.outbox_events
                  ++ outbox_row (completed (clock 2) lead l (after found)) ∷ []))
          ⊎ (¬ (
                (threshold ≤ completeness (after found))
                × (completeness (before found) < threshold))
              × (o.1.working.outbox_events ≡ s.working.outbox_events)))

  update_found_outcome :
      (l : Lead) (found : Option BuyerProfile)
      → Captured l found (update_found threshold clock lead l patch (before found) s)
  unfolding publish ProfileStore.save
  update_found_outcome l found = elim (Bool-cases (leb threshold (completeness (after found)))) [
    | inr short ↦ rw short (refl, refl, inr (ground arith, refl))
    | inl reached ↦ elim (Bool-cases (leb threshold (completeness (before found)))) [
      | inl held ↦ rw reached (rw held (refl, refl, inr (ground arith, refl)))
      | inr crossed ↦ rw reached (rw crossed (refl, refl, inl (ground arith, ground arith, refl)))
    ]
  ]

  update_profile_found :
      (l : Lead) (found : Option BuyerProfile)
      → patch_is_empty patch ≡ false
      → Access.loaded lead s.working ≡ ok (some l)
      → ProfileStore.profile_of lead s.working ≡ ok found
      → update_profile threshold clock lead patch s
        ≡ update_found threshold clock lead l patch (before found) s
  unfolding update_profile Repository.get ProfileStore.get_by_lead_id
  update_profile_found l found e h f = rw e (rw h (rw f refl))

  -- A patch that is not empty, on a known lead whose profile can be read: the completeness of the
  -- patched profile is returned and the profile is saved; `ProfileCompleted` is published exactly
  -- if the completeness has reached the threshold with this patch.
  pub update_profile_outcome :
      (l : Lead) (found : Option BuyerProfile)
      → patch_is_empty patch ≡ false
      → Access.loaded lead s.working ≡ ok (some l)
      → ProfileStore.profile_of lead s.working ≡ ok found
      → Captured l found (update_profile threshold clock lead patch s)
  update_profile_outcome l found e h f =
      subst (Captured l found) (sym (update_profile_found l found e h f))
        (update_found_outcome l found)
