-- ===== src/GroupAccess/Steps/Fences/Answers.antt =====
-- Fences along the answers of lookups and the list, of home/home-group-access-facade.service.ts.
use zwei.Common.{
  ◌≤◌, Bool, not, ◌&&◌, Option, none, some, arith, ltb, leb, ◌==◌, max, is_some, if-keeps, if-cases,
}
use zwei.Js.Text.{text_eq}
use zwei.Wire.Groups.{GroupConversation}
use zwei.GroupAccess.{
  Access, Fetch, Leaving, emit, mark_projection_changed, is_removed_at, cancel_request,
  accept_projection, without_number, is_fenced,
}
use zwei.GroupAccess.Lookup.{
  LookupError, not_found, failure, other, superseded_projection, unfit_projection, authorize,
  received, refused, finish_lookup, quarantine_leaving, tell_retryable, fail_departure,
  refused_with, departs_below,
}
use zwei.GroupAccess.Lookup.Cases.{received-cases}
use zwei.GroupAccess.Listing.{restore_listed, project_group, remove_absent}
use zwei.GroupAccess.Steps.Fences.Methods.{
  Fenced, IsFenced, All-without_number, grown, IsFenced-fetch, IsFenced-cancel, IsFenced-quarantine,
  IsFenced-remove, IsFenced-revision, IsFenced-accept, IsFenced-finish_departure,
}

pub IsFenced-quarantine_leaving :
    (d : Option Leaving) (a : Access) → IsFenced a → IsFenced (quarantine_leaving d a)
unfolding quarantine_leaving
IsFenced-quarantine_leaving none a h = h
IsFenced-quarantine_leaving (some d) a h = IsFenced-quarantine _ a h

pub IsFenced-restore_listed :
    (g : GroupConversation) (a : Access)
    → a.revision ≤ g.membership_revision
    → IsFenced a
    → IsFenced (restore_listed g a)
unfolding restore_listed mark_projection_changed emit cancel_request
IsFenced-restore_listed g a le h = grown le (omega arith) (IsFenced-cancel a h)

pub IsFenced-lists :
    (existing : Option GroupConversation) (g : GroupConversation) (a : Access)
    → IsFenced a
    → IsFenced (project_group existing g a).0
unfolding project_group
IsFenced-lists existing g a h =
    if-keeps (λ (x : Access × Option GroupConversation). IsFenced x.0)
      (departs_below a.departure g.membership_revision)
      (IsFenced-quarantine_leaving a.departure _
        (IsFenced-revision (max a.revision g.membership_revision) a (omega arith) h))
      (if-cases (λ (x : Access × Option GroupConversation). IsFenced x.0)
        (a.quarantined
          && not (is_fenced a)
          && leb a.revision g.membership_revision
          && not (is_removed_at a.removed_revision g.membership_revision))
        (λ fits. IsFenced-restore_listed g a (ground arith) h)
        (λ _.
          if-keeps (λ (x : Access × Option GroupConversation). IsFenced x.0) a.quarantined h
            (if-keeps (λ (x : Access × Option GroupConversation). IsFenced x.0)
              (accept_projection g.membership_revision a).1
              (IsFenced-accept g.membership_revision a h)
              (IsFenced-accept g.membership_revision a h))))

pub IsFenced-omits :
    (g : GroupConversation) (a : Access) → IsFenced a → IsFenced (remove_absent g a)
unfolding remove_absent
IsFenced-omits g a h =
    if-keeps IsFenced (not a.quarantined && not (is_some a.removed_revision))
      (IsFenced-remove _ a h) h

pub IsFenced-unfit :
    (k : Fetch) (g : GroupConversation) (a : Access)
    → IsFenced a
    → IsFenced (unfit_projection k g a).0
unfolding unfit_projection superseded_projection mark_projection_changed emit
IsFenced-unfit k g a h =
    let b =
      if-cases IsFenced
        (text_eq g.id a.group_id
          && ltb a.revision g.membership_revision
          && not (k.fetch_revision == a.request_revision)
          && not (is_removed_at a.removed_revision g.membership_revision))
        (λ newer.
          let s = IsFenced-revision g.membership_revision a (ground arith) h in
          if-keeps IsFenced _ s s)
        (λ _. h) in
    if-keeps (λ (x : Access × Bool). IsFenced x.0) _ b
      (if-keeps (λ (x : Access × Bool). IsFenced x.0) (not (k.fetch_revision == a.request_revision))
        b b)

pub IsFenced-received :
    (k : Fetch) (g : GroupConversation) (a : Access) → IsFenced a → IsFenced (received k g a).0
unfolding authorize emit mark_projection_changed
IsFenced-received k g a h =
    let s = IsFenced-revision (max a.revision g.membership_revision) a (omega arith) h in
    received-cases k g a (λ (x : Access × Bool). IsFenced x.0)
      (λ _. IsFenced-quarantine_leaving a.departure _ s) (λ _. s)
      (λ _. IsFenced-finish_departure a h) (λ _. IsFenced-remove _ a h)
      (λ _. IsFenced-unfit k g a h)
      (λ _ fit. IsFenced-revision g.membership_revision a (ground arith) h)
      (λ _ fit. IsFenced-revision g.membership_revision a (ground arith) h)

IsFenced-fail_departure :
    (d : Option Leaving) (a : Access) → IsFenced a → IsFenced (fail_departure d a)
unfolding fail_departure emit
IsFenced-fail_departure none a h = h
IsFenced-fail_departure (some d) a h =
    if-keeps IsFenced (ltb d.revision a.revision && not d.removal_observed)
      (IsFenced-quarantine d.context a h) h

IsFenced-refused_with :
    (k : Fetch) (e : LookupError) (a : Access) → IsFenced a → IsFenced (refused_with k e a)
unfolding refused_with tell_retryable emit
IsFenced-refused_with k not_found a h = IsFenced-remove _ a h
IsFenced-refused_with k (failure f) a h = h
IsFenced-refused_with k other a h = h

pub IsFenced-refused :
    (k : Fetch) (e : LookupError) (a : Access) → IsFenced a → IsFenced (refused k e a).0
unfolding refused
IsFenced-refused k e a h =
    if-keeps (λ (x : Access × Bool). IsFenced x.0) (not (k.fetch_revision == a.request_revision)) h
      (IsFenced-refused_with k e _ (IsFenced-fail_departure a.departure a h))

pub IsFenced-finish_lookup :
    (k : Fetch) (x : Access × Bool) → IsFenced x.0 → IsFenced (finish_lookup k x)
unfolding finish_lookup
IsFenced-finish_lookup k (a, again) h =
    let ended : Fenced a.revision a.request_revision a.departure_generation a.departure_fence
        (without_number k.number a.lookups) =
      record { low = h.low; known = All-without_number _ k.number a.lookups h.known } in
    if-keeps IsFenced (again && not (is_some a.removed_revision && not a.quarantined))
      (IsFenced-fetch _ ended) ended
