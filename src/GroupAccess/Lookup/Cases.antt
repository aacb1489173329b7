-- ===== src/GroupAccess/Lookup/Cases.antt =====
-- What the handler of a projection in `fetchLatest` may do, of home/home-group-access-facade.service.ts:
-- a property of its result is shown for each of its branches, with what the code has tested there.
use zwei.Common.{◌≡◌, Bool, true, false, not, ◌&&◌, ◌||◌, ltb, ◌==◌, max, is_some, arith, if-cases}
use zwei.Js.Text.{text_eq}
use zwei.Wire.Groups.{GroupConversation}
use zwei.GroupAccess.{Access, Fetch, is_removed_at, removal_observed, remove, finish_departure}
use zwei.GroupAccess.Lookup.{
  departs_below, is_behind_fence, quarantine_leaving, unfit_projection, authorize, received,
}

module _ (k : Fetch) (g : GroupConversation) (a : Access) where
  -- The projection is older than what the group is known at, or removed.
  abbrev pub is_unfit : Bool
  is_unfit =
      not (text_eq g.id a.group_id)
      || ltb g.membership_revision (max k.target_revision a.revision)
      || is_removed_at a.removed_revision g.membership_revision
      || not (k.fetch_revision == a.request_revision)

  -- It is another group's, or no fence holds it back.
  abbrev pub is_unfenced : Bool
  is_unfenced = not (
      is_behind_fence a.departure_fence k.departure_generation g.membership_revision
      && text_eq g.id a.group_id)

  pub received-cases {κ} :
      (P : Access × Bool → Type κ)
      → (text_eq g.id a.group_id ≡ true
          → P (
            quarantine_leaving a.departure
                (record a { revision = max a.revision g.membership_revision }),
            false,
          ))
      → (text_eq g.id a.group_id ≡ true
          → P (
            record a {
              revision = max a.revision g.membership_revision;
              quarantined = true;
              failed = false;
            },
            not (k.fetch_revision == a.request_revision),
          ))
      → (is_unfenced ≡ true → P (finish_departure a, false))
      → (is_unfenced ≡ true → P (remove (max k.target_revision a.revision) a, false))
      → (is_unfenced ≡ true → P (unfit_projection k g a))
      → (is_unfenced ≡ true
          → is_unfit ≡ false
          → P (record a { revision = g.membership_revision; failed = false }, false))
      → (is_unfenced ≡ true → is_unfit ≡ false → P (authorize k g a, false))
      → P (received k g a)
  unfolding received
  received-cases P departing fenced finished removed unfit departed fits =
      if-cases P (departs_below a.departure g.membership_revision && text_eq g.id a.group_id)
        (λ d. departing (ground arith))
        (λ _.
          if-cases P
            (is_behind_fence a.departure_fence k.departure_generation g.membership_revision
              && text_eq g.id a.group_id)
            (λ f. fenced (ground arith))
            (λ f.
              let free : is_unfenced ≡ true = ground arith in
              if-cases P (removal_observed a.departure && is_some a.removed_revision)
                (λ _. finished free)
                (λ _.
                  if-cases P (removal_observed a.departure && not a.quarantined) (λ _. removed free)
                    (λ _.
                      if-cases P is_unfit (λ _. unfit free)
                        (λ fit.
                          if-cases P (departs_below a.departure a.revision) (λ _. departed free fit)
                            (λ _. fits free fit))))))
