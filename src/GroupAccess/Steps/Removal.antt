-- ===== src/GroupAccess/Steps/Removal.antt =====
-- Removed groups along all that may happen in home/home-group-access-facade.service.ts.
mod Methods
mod Answers
pub use Methods.{IsOver, is_gone}
use zwei.Common.{
  ℕ, ◌+◌, ◌<◌, ◌≤◌, ◌≡◌, refl, Bool, true, false, not, ◌&&◌, ◌||◌, Option, none, some, List, [],
  ◌∷◌, arith, ltb, leb, ◌==◌, if◌then◌else◌, max, is_some, All, if-keeps, if-cases,
}
use zwei.Js.Text.{text_eq}
use zwei.Wire.Groups.{GroupConversation}
use zwei.GroupAccess.{
  Access, Context, Fetch, Leaving, AccessOutcome, authorized, quarantined_outcome, removed_outcome,
  retryable, departure_pending, departure_finished, emit, mark_projection_changed, mark_authorized,
  supersede, raise_revision, lift_removal, observe_removal, forget_removal, is_removed_at,
  cancel_request, fetch_latest, request_group, quarantine, mark_removed, remove, definitive_removal,
  accept_projection, membership_changed, conversation_created, quarantine_for_verification,
  verify_quarantined, retry_one, finish_departure, is_fenced, or_context, removal_observed,
  revision_for,
}
use zwei.GroupAccess.Lookup.{
  LookupError, not_found, failure, other, is_behind_fence, quarantine_leaving, fail_departure,
  tell_retryable, refused_with, departs_below, superseded_projection, unfit_projection, authorize,
  received, refused, finish_lookup, lookup_next, lookup_error,
}
use zwei.GroupAccess.Lookup.Cases.{is_unfit, is_unfenced, received-cases}
use zwei.GroupAccess.Departure.{
  depart, raise_fence, succeed, fail, of_departure-keeps, departure_succeeds, departure_fails,
}
use zwei.GroupAccess.Steps.{
  Action, authorizes, removes, accepts, lists, omits, changes, is_created, verifies, waits_for_list,
  retries, departs, departed, stays, answers, refuses, find_lookup, when_live-keeps, perform, run,
}
use zwei.GroupAccess.Listing.{restore_listed, project_group, remove_absent}
use zwei.GroupAccess.Steps.Removal.Methods.{
  is_gone-lifted, newer_than_gone, IsOut-fetch, IsOut-cancel, IsOut-request, IsOut-quarantine,
  IsOut-remove, IsOut-supersede, IsOut-revision, IsOut-raise, IsOut-lift, IsOut-forget,
  IsOut-accept, IsOut-authorizes, IsOut-definitive, IsOut-created, IsOut-waits, IsOut-verifies,
  IsOut-retries, IsOut-finish_departure, IsOut-changes, IsOver, is_gone, IsOut,
}
use zwei.GroupAccess.Steps.Removal.Answers.{
  IsOut-quarantine_leaving, IsOut-restored, IsOut-restore_listed, IsOut-lists, IsOut-omits,
  IsOut-superseded, IsOut-unfit, IsOut-authorize, IsOut-received, IsOut-fail_departure,
  IsOut-refused_with, IsOut-refused, IsOut-finish_lookup,
}

module _ {r : ℕ} where
  pub IsOut-departs : (n : ℕ) (c : Context) (a : Access) → IsOut r a → IsOut r (depart n c a)
  unfolding depart emit cancel_request revision_for
  IsOut-departs n c a h =
      let b = IsOut-revision (max a.revision n) a (omega arith) h in
      let q =
        IsOut-revision (max (max a.revision n) (max n (max a.revision n))) a (omega arith) h in
      if-keeps (IsOut r) (is_some a.departure) h (record { told = (tt, b.told); gone = q.gone })

  pub IsOut-raise_fence : (d : Leaving) (a : Access) → IsOut r a → IsOut r (raise_fence d a)
  unfolding raise_fence cancel_request
  IsOut-raise_fence d a h = record { told = h.told; gone = h.gone }

  pub IsOut-succeed : (d : Leaving) (a : Access) → IsOut r a → IsOut r (succeed d a)
  unfolding succeed
  IsOut-succeed d a h =
      let b = if-keeps (IsOut r) _ (IsOut-raise_fence d a h) h in
      let q = IsOut-finish_departure _ (if-keeps (IsOut r) _ (IsOut-remove d.revision _ b) b) in
      if-keeps (IsOut r) (d.removal_observed && is_some a.removed_revision)
        (IsOut-finish_departure a h) (if-keeps (IsOut r) _ (IsOut-fetch _ q) q)

  pub IsOut-fail : (d : Leaving) (a : Access) → IsOut r a → IsOut r (fail d a)
  unfolding fail emit
  IsOut-fail d a h =
      let q = IsOut-cancel _ (IsOut-quarantine d.context a h) in
      let b =
        if-keeps (IsOut r) d.removal_observed h
          (IsOut-fetch _ (record { told = q.told; gone = q.gone })) in
      record { told = (tt, b.told); gone = b.gone }

  pub perform-IsOut : (x : Action) (a : Access) → IsOut r a → IsOut r (perform x a)
  unfolding perform departure_succeeds departure_fails lookup_next lookup_error
  perform-IsOut (authorizes n) a h = IsOut-authorizes n a h
  perform-IsOut (removes n) a h = IsOut-definitive n a h
  perform-IsOut (accepts n) a h = IsOut-accept n a h
  perform-IsOut (lists existing g) a h = IsOut-lists existing g a h
  perform-IsOut (omits g) a h = IsOut-omits g a h
  perform-IsOut (changes n deleted c) a h = IsOut-changes n deleted c a h
  perform-IsOut (is_created c) a h = IsOut-created c a h
  perform-IsOut (verifies c) a h = IsOut-verifies c a h
  perform-IsOut (waits_for_list c) a h = IsOut-waits c a h
  perform-IsOut retries a h = IsOut-retries a h
  perform-IsOut (departs n c) a h = IsOut-departs n c a h
  perform-IsOut (departed n) a h =
      of_departure-keeps (IsOut r) n succeed a.departure a (λ d. IsOut-succeed d a h) h
  perform-IsOut (stays n) a h =
      of_departure-keeps (IsOut r) n fail a.departure a (λ d. IsOut-fail d a h) h
  perform-IsOut (answers n g) a h =
      when_live-keeps (IsOut r) (λ k. lookup_next k g) (find_lookup n a.lookups) a
        (λ k. IsOut-finish_lookup k (received k g a) (IsOut-received k g a h)) h
  perform-IsOut (refuses n e) a h =
      when_live-keeps (IsOut r) (λ k. lookup_error k e) (find_lookup n a.lookups) a
        (λ k. IsOut-finish_lookup k (refused k e a) (IsOut-refused k e a h)) h

  pub run-IsOut : (xs : List Action) (a : Access) → IsOut r a → IsOut r (run xs a)
  run-IsOut [] a h = h
  run-IsOut (x ∷ xs) a h = run-IsOut xs (perform x a) (perform-IsOut x a h)

pub removed_at_least :
    (r n v : ℕ) (o : Option ℕ)
    → is_removed_at o n ≡ true
    → r ≤ n
    → (is_removed_at o r || ltb r v) ≡ true
removed_at_least r n v none at_n le = cc
removed_at_least r n v (some x) at_n le = ground arith

IsOut-removal : (r : ℕ) (a : Access) → a.outcomes ≡ [] → IsOut r (definitive_removal r a)
unfolding definitive_removal remove mark_removed cancel_request emit
IsOut-removal r a quiet =
    let told : All (IsOver r) a.outcomes = rw quiet tt in
    if-cases (IsOut r) (is_removed_at a.removed_revision (max r a.revision) && not a.quarantined)
      (λ gone. record {
        told = told;
        gone =
            removed_at_least r (max r a.revision) a.revision a.removed_revision (ground arith)
              (omega arith);
      })
      (λ _. record { told = (tt, told); gone = ground arith })

-- A removed group stays out: whatever happens after its definitive removal at a revision, each outcome
-- that restores it has a newer revision, and as long as the group is not known at a newer revision, it
-- counts as removed.
pub removed_stays_out :
    (r : ℕ) (xs : List Action) (a : Access)
    → a.outcomes ≡ []
    → All (IsOver r) (run xs (definitive_removal r a)).outcomes
      × (is_gone r (run xs (definitive_removal r a)) ≡ true)
removed_stays_out r xs a quiet =
    let h = run-IsOut xs (definitive_removal r a) (IsOut-removal r a quiet) in (h.told, h.gone)
