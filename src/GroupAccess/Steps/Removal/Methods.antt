-- ===== src/GroupAccess/Steps/Removal/Methods.antt =====
-- A group that is gone at a revision, and what the methods of home/home-group-access-facade.service.ts
-- but the lookups and departures do to it.
use zwei.Common.{
  ℕ, ◌<◌, ◌≤◌, ◌≡◌, Bool, true, false, not, ◌&&◌, ◌||◌, Option, none, some, arith, ltb, leb, max,
  is_some, All, if-keeps, if-cases,
}
use zwei.GroupAccess.{
  Access, Context, AccessOutcome, authorized, emit, mark_projection_changed, mark_authorized,
  supersede, raise_revision, lift_removal, forget_removal, is_removed_at, cancel_request,
  fetch_latest, request_group, quarantine, mark_removed, remove, definitive_removal,
  accept_projection, membership_changed, conversation_created, quarantine_for_verification,
  verify_quarantined, retry_one, finish_departure, removal_observed,
}

-- An outcome that restores the group has a revision above this.
abbrev pub IsOver : ℕ → AccessOutcome → Type 0
IsOver r (authorized g _ _) = r < g.membership_revision
IsOver r _ = Unit

abbrev pub is_gone : ℕ → Access → Bool
is_gone r a = is_removed_at a.removed_revision r || ltb r a.revision

-- The group is out at this revision: nothing has restored it, and what may is newer.
pub record IsOut (r : ℕ) (a : Access) : Type 0 where
  pub told : All (IsOver r) a.outcomes
  pub gone : is_gone r a ≡ true

revision-supersede : (n : ℕ) (a : Access) → (supersede n a).revision ≡ a.revision
unfolding supersede
revision-supersede n a = ground arith

revision-raise : (n : ℕ) (a : Access) → n ≤ (raise_revision n a).revision
unfolding raise_revision mark_projection_changed
revision-raise n a = grind (arith, revision-supersede)

-- A newer revision lifts the removal, and nothing older restores the group even then.
pub is_gone-lifted :
    (r n v : ℕ) (o : Option ℕ)
    → is_removed_at o n ≡ false
    → n ≤ v
    → (is_removed_at o r || ltb r v) ≡ true
    → (is_removed_at none r || ltb r v) ≡ true
is_gone-lifted r n v none open_at le gone = gone
is_gone-lifted r n v (some x) open_at le gone = ground arith

-- A revision that is not out-dated nor removed is newer than one at which the group is gone.
pub newer_than_gone :
    (r n v : ℕ) (o : Option ℕ)
    → is_removed_at o n ≡ false
    → v ≤ n
    → (is_removed_at o r || ltb r v) ≡ true
    → r < n
newer_than_gone r n v none open_at le gone = ground arith
newer_than_gone r n v (some x) open_at le gone = ground arith

module _ {r : ℕ} where
  pub IsOut-fetch : (a : Access) → IsOut r a → IsOut r (fetch_latest a)
  unfolding fetch_latest emit
  IsOut-fetch a h =
      if-keeps (IsOut r) (not a.serves_groups) (record { told = (tt, h.told); gone = h.gone })
        (record { told = h.told; gone = h.gone })

  pub IsOut-cancel : (a : Access) → IsOut r a → IsOut r (cancel_request a)
  unfolding cancel_request
  IsOut-cancel a h = record { told = h.told; gone = h.gone }

  pub IsOut-request :
      (n : ℕ) (c : Option Context) (a : Access) → IsOut r a → IsOut r (request_group n c a)
  unfolding request_group
  IsOut-request n c a h =
      if-keeps (IsOut r) a.in_flight (record { told = h.told; gone = h.gone })
        (IsOut-fetch _ (record { told = h.told; gone = h.gone }))

  pub IsOut-quarantine : (c : Context) (a : Access) → IsOut r a → IsOut r (quarantine c a)
  unfolding quarantine emit mark_projection_changed
  IsOut-quarantine c a h =
      if-keeps (IsOut r) (not a.quarantined) (record { told = (tt, h.told); gone = h.gone })
        (if-keeps (IsOut r) (not (is_some a.context) && c.selected)
          (record { told = h.told; gone = h.gone }) h)

  pub IsOut-remove : (n : ℕ) (a : Access) → IsOut r a → IsOut r (remove n a)
  unfolding remove mark_removed emit
  IsOut-remove n a h = record { told = (tt, h.told); gone = ground (arith, h.gone) }

  pub IsOut-supersede : (n : ℕ) (a : Access) → IsOut r a → IsOut r (supersede n a)
  unfolding supersede
  IsOut-supersede n a h = if-keeps (IsOut r) a.in_flight (record { told = h.told; gone = h.gone }) h

  -- A revision that grows keeps the group out.
  pub IsOut-revision :
      (n : ℕ) (a : Access) → a.revision ≤ n → IsOut r a → IsOut r (record a { revision = n })
  IsOut-revision n a le h = record { told = h.told; gone = ground (arith, h.gone) }

  pub IsOut-raise : (n : ℕ) (a : Access) → IsOut r a → IsOut r (raise_revision n a)
  unfolding raise_revision mark_projection_changed
  IsOut-raise n a h =
      if-cases (IsOut r) (ltb a.revision n)
        (λ newer.
          let s =
            IsOut-supersede n (record a { revision = n }) (IsOut-revision n a (ground arith) h) in
          record { told = s.told; gone = s.gone })
        (λ _. h)

  pub IsOut-lift : (n : ℕ) (a : Access) → n ≤ a.revision → IsOut r a → IsOut r (lift_removal n a)
  unfolding lift_removal mark_projection_changed
  IsOut-lift n a le h =
      if-cases (IsOut r) (is_some a.removed_revision && not (is_removed_at a.removed_revision n))
        (λ lifted. record {
          told = h.told;
          gone = is_gone-lifted r n a.revision a.removed_revision (ground arith) le h.gone;
        })
        (λ _. h)

  pub IsOut-forget :
      (n : ℕ) (a : Access) → n ≤ a.revision → IsOut r a → IsOut r (forget_removal n a)
  unfolding forget_removal
  IsOut-forget n a le h =
      if-cases (IsOut r) (not (is_removed_at a.removed_revision n))
        (λ lifted. record {
          told = h.told;
          gone = is_gone-lifted r n a.revision a.removed_revision (ground arith) le h.gone;
        })
        (λ _. h)

  pub IsOut-accept : (n : ℕ) (a : Access) → IsOut r a → IsOut r (accept_projection n a).0
  unfolding accept_projection
  IsOut-accept n a h =
      if-keeps (λ (x : Access × Bool). IsOut r x.0)
        (ltb n a.revision || is_removed_at a.removed_revision n) h
        (IsOut-lift n _ (revision-raise n a) (IsOut-raise n a h))

  pub IsOut-authorizes : (n : ℕ) (a : Access) → IsOut r a → IsOut r (mark_authorized n a)
  unfolding mark_authorized mark_projection_changed
  IsOut-authorizes n a h =
      if-cases (IsOut r) (ltb a.revision n)
        (λ newer. record { told = h.told; gone = ground (arith, h.gone) }) (λ _. h)

  pub IsOut-definitive : (n : ℕ) (a : Access) → IsOut r a → IsOut r (definitive_removal n a)
  unfolding definitive_removal
  IsOut-definitive n a h =
      if-keeps (IsOut r) (is_removed_at a.removed_revision (max n a.revision) && not a.quarantined)
        h (IsOut-remove n _ (IsOut-cancel a h))

  pub IsOut-created : (c : Context) (a : Access) → IsOut r a → IsOut r (conversation_created c a)
  unfolding conversation_created
  IsOut-created c a h = IsOut-request _ (some c) a h

  pub IsOut-waits :
      (c : Context) (a : Access) → IsOut r a → IsOut r (quarantine_for_verification c a)
  unfolding quarantine_for_verification
  IsOut-waits c a h = if-keeps (IsOut r) (not a.quarantined) (IsOut-quarantine c a h) (
      if-keeps (IsOut r) (not (is_some a.context) && c.selected)
        (record { told = h.told; gone = h.gone }) h)

  pub IsOut-verifies : (c : Context) (a : Access) → IsOut r a → IsOut r (verify_quarantined c a)
  unfolding verify_quarantined
  IsOut-verifies c a h =
      let b = IsOut-waits c a h in
      if-keeps (IsOut r) (not (quarantine_for_verification c a).in_flight)
        (IsOut-request _ (some c) _ b) b

  pub IsOut-retries : (a : Access) → IsOut r a → IsOut r (retry_one a)
  unfolding retry_one
  IsOut-retries a h =
      if-keeps (IsOut r) ((a.quarantined || removal_observed a.departure) && not a.in_flight)
        (IsOut-request _ none a h) h

  pub IsOut-finish_departure : (a : Access) → IsOut r a → IsOut r (finish_departure a)
  unfolding finish_departure emit
  IsOut-finish_departure a h = record { told = (tt, h.told); gone = h.gone }

  pub IsOut-changes :
      (n : ℕ) (deleted : Bool) (c : Context) (a : Access)
      → IsOut r a
      → IsOut r (membership_changed n deleted c a)
  unfolding membership_changed mark_projection_changed
  IsOut-changes n deleted c a h =
      if-cases (IsOut r) (leb n (max a.revision c.projection_revision)) (λ _. h)
        λ newer.
          let s =
            IsOut-supersede n (record a { revision = n }) (IsOut-revision n a (ground arith) h) in
          if-keeps (IsOut r) deleted
            (IsOut-remove n _ (IsOut-cancel _ (record { told = s.told; gone = s.gone })))
            (IsOut-request n none _ (
              IsOut-quarantine c _ (
                IsOut-forget n _ (omega (arith, revision-supersede n (record a { revision = n })))
                  (record { told = s.told; gone = s.gone }))))
