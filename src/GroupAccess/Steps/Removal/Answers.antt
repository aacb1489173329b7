-- ===== src/GroupAccess/Steps/Removal/Answers.antt =====
-- A group that is gone at a revision, and what the answers of lookups and the list of
-- home/home-group-access-facade.service.ts do to it.
use zwei.Common.{
  ℕ, ◌<◌, ◌≡◌, refl, Bool, not, ◌&&◌, ◌||◌, Option, none, some, arith, ltb, leb, ◌==◌, max, is_some,
  All, if-keeps, if-cases,
}
use zwei.Js.Text.{text_eq}
use zwei.Wire.Groups.{GroupConversation}
use zwei.GroupAccess.{
  Access, Fetch, Leaving, authorized, emit, mark_projection_changed, is_removed_at, cancel_request,
  accept_projection, is_fenced,
}
use zwei.GroupAccess.Lookup.{
  LookupError, not_found, failure, other, is_behind_fence, quarantine_leaving, fail_departure,
  tell_retryable, refused_with, departs_below, superseded_projection, unfit_projection, authorize,
  received, refused, finish_lookup,
}
use zwei.GroupAccess.Lookup.Cases.{received-cases}
use zwei.GroupAccess.Listing.{restore_listed, project_group, remove_absent}
use zwei.GroupAccess.Steps.Removal.Methods.{
  newer_than_gone, IsOut-fetch, IsOut-quarantine, IsOut-remove, IsOut-revision, IsOut-accept,
  IsOut-finish_departure, IsOver, IsOut,
}

module _ {r : ℕ} where
  pub IsOut-quarantine_leaving :
      (d : Option Leaving) (a : Access) → IsOut r a → IsOut r (quarantine_leaving d a)
  unfolding quarantine_leaving
  IsOut-quarantine_leaving none a h = h
  IsOut-quarantine_leaving (some d) a h = IsOut-quarantine _ a h

  -- A restoration at a newer revision.
  pub IsOut-restored :
      (g : GroupConversation) (s : Bool) (i : Option ℕ) (a : Access)
      → r < g.membership_revision
      → All (IsOver r) a.outcomes
      → a.revision ≡ g.membership_revision
      → IsOut r (emit (authorized g s i) a)
  unfolding emit
  IsOut-restored g s i a lt told e = record { told = (lt, told); gone = ground arith }

  pub IsOut-restore_listed :
      (g : GroupConversation) (a : Access)
      → r < g.membership_revision
      → IsOut r a
      → IsOut r (restore_listed g a)
  unfolding restore_listed mark_projection_changed cancel_request
  IsOut-restore_listed g a lt h = IsOut-restored g _ _ _ lt h.told refl

  pub IsOut-lists :
      (existing : Option GroupConversation) (g : GroupConversation) (a : Access)
      → IsOut r a
      → IsOut r (project_group existing g a).0
  unfolding project_group
  IsOut-lists existing g a h =
      if-keeps (λ (x : Access × Option GroupConversation). IsOut r x.0)
        (departs_below a.departure g.membership_revision)
        (IsOut-quarantine_leaving a.departure _ (IsOut-revision _ a (omega arith) h))
        (if-cases (λ (x : Access × Option GroupConversation). IsOut r x.0)
          (a.quarantined
            && not (is_fenced a)
            && leb a.revision g.membership_revision
            && not (is_removed_at a.removed_revision g.membership_revision))
          (λ fits.
            IsOut-restore_listed g a
              (newer_than_gone r _ a.revision a.removed_revision (ground arith) (ground arith)
                h.gone)
              h)
          (λ _.
            if-keeps (λ (x : Access × Option GroupConversation). IsOut r x.0) a.quarantined h
              (if-keeps (λ (x : Access × Option GroupConversation). IsOut r x.0)
                (accept_projection g.membership_revision a).1
                (IsOut-accept g.membership_revision a h) (IsOut-accept g.membership_revision a h))))

  pub IsOut-omits : (g : GroupConversation) (a : Access) → IsOut r a → IsOut r (remove_absent g a)
  unfolding remove_absent
  IsOut-omits g a h =
      if-keeps (IsOut r) (not a.quarantined && not (is_some a.removed_revision))
        (IsOut-remove _ a h) h

  pub IsOut-superseded :
      (k : Fetch) (g : GroupConversation) (a : Access)
      → r < g.membership_revision
      → IsOut r a
      → IsOut r (superseded_projection k g a)
  unfolding superseded_projection mark_projection_changed
  IsOut-superseded k g a lt h =
      if-keeps (IsOut r)
        (is_fenced a
          || is_behind_fence a.departure_fence k.departure_generation g.membership_revision)
        (record { told = h.told; gone = ground arith }) (IsOut-restored g _ _ _ lt h.told refl)

  pub IsOut-unfit :
      (k : Fetch) (g : GroupConversation) (a : Access)
      → IsOut r a
      → IsOut r (unfit_projection k g a).0
  unfolding unfit_projection emit
  IsOut-unfit k g a h =
      let b =
        if-cases (IsOut r)
          (text_eq g.id a.group_id
            && ltb a.revision g.membership_revision
            && not (k.fetch_revision == a.request_revision)
            && not (is_removed_at a.removed_revision g.membership_revision))
          (λ newer.
            IsOut-superseded k g a
              (newer_than_gone r _ a.revision a.removed_revision (ground arith) (ground arith)
                h.gone)
              h)
          (λ _. h) in
      if-keeps (λ (x : Access × Bool). IsOut r x.0) _ b
        (if-keeps (λ (x : Access × Bool). IsOut r x.0)
          (not (k.fetch_revision == a.request_revision)) b
          (record { told = (tt, b.told); gone = b.gone }))

  pub IsOut-authorize :
      (k : Fetch) (g : GroupConversation) (a : Access)
      → r < g.membership_revision
      → IsOut r a
      → IsOut r (authorize k g a)
  unfolding authorize mark_projection_changed
  IsOut-authorize k g a lt h = IsOut-restored g _ _ _ lt h.told refl

  pub IsOut-received :
      (k : Fetch) (g : GroupConversation) (a : Access) → IsOut r a → IsOut r (received k g a).0
  IsOut-received k g a h =
      let s = IsOut-revision (max a.revision g.membership_revision) a (omega arith) h in
      received-cases k g a (λ (x : Access × Bool). IsOut r x.0)
        (λ _. IsOut-quarantine_leaving a.departure _ s)
        (λ _. record { told = s.told; gone = s.gone }) (λ _. IsOut-finish_departure a h)
        (λ _. IsOut-remove _ a h) (λ _. IsOut-unfit k g a h)
        (λ _ fit.
          let t = IsOut-revision g.membership_revision a (ground arith) h in
          record { told = t.told; gone = t.gone })
        (λ _ fit.
          IsOut-authorize k g a
            (newer_than_gone r g.membership_revision a.revision a.removed_revision (ground arith)
              (ground arith) h.gone)
            h)

  pub IsOut-fail_departure :
      (d : Option Leaving) (a : Access) → IsOut r a → IsOut r (fail_departure d a)
  unfolding fail_departure emit
  IsOut-fail_departure none a h = h
  IsOut-fail_departure (some d) a h =
      let q = IsOut-quarantine d.context a h in
      if-keeps (IsOut r) (ltb d.revision a.revision && not d.removal_observed)
        (record { told = (tt, q.told); gone = q.gone }) h

  pub IsOut-refused_with :
      (k : Fetch) (e : LookupError) (a : Access) → IsOut r a → IsOut r (refused_with k e a)
  unfolding refused_with tell_retryable emit
  IsOut-refused_with k not_found a h = IsOut-remove _ a h
  IsOut-refused_with k (failure f) a h = record { told = (tt, h.told); gone = h.gone }
  IsOut-refused_with k other a h = record { told = (tt, h.told); gone = h.gone }

  pub IsOut-refused :
      (k : Fetch) (e : LookupError) (a : Access) → IsOut r a → IsOut r (refused k e a).0
  unfolding refused
  IsOut-refused k e a h =
      if-keeps (λ (x : Access × Bool). IsOut r x.0) (not (k.fetch_revision == a.request_revision)) h
        (IsOut-refused_with k e _ (IsOut-fail_departure a.departure a h))

  pub IsOut-finish_lookup :
      (k : Fetch) (x : Access × Bool) → IsOut r x.0 → IsOut r (finish_lookup k x)
  unfolding finish_lookup
  IsOut-finish_lookup k (a, again) h =
      if-keeps (IsOut r) (again && not (is_some a.removed_revision && not a.quarantined))
        (IsOut-fetch _ (record { told = h.told; gone = h.gone }))
        (record { told = h.told; gone = h.gone })
