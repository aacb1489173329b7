-- ===== src/GroupAccess/Steps/Fences.antt =====
-- Fences and lookups along all that may happen to a group in home/home-group-access-facade.service.ts.
mod Methods
mod Answers
pub use Methods.{IsKnown, IsLow, Fenced, IsFenced}
use zwei.Common.{
  ℕ, ◌+◌, ◌<◌, ◌≤◌, ◌≡◌, refl, Bool, true, false, not, ◌&&◌, ◌||◌, Option, none, some, List, [],
  ◌∷◌, arith, ltb, leb, ◌==◌, if◌then◌else◌, max, is_some, All, if-keeps, if-cases,
}
use zwei.Js.Text.{Text, text_eq}
use zwei.Wire.Groups.{GroupConversation}
use zwei.GroupAccess.{
  Access, Context, Fetch, Fence, Leaving, emit, mark_projection_changed, mark_authorized,
  is_removed_at, cancel_request, fetch_latest, request_group, quarantine, mark_removed, remove,
  definitive_removal, accept_projection, membership_changed, conversation_created, without_number,
  without_request, quarantine_for_verification, verify_quarantined, retry_one, finish_departure,
  is_fenced, or_context, removal_observed, supersede, raise_revision, lift_removal, observe_removal,
  forget_removal, revision_for,
}
use zwei.GroupAccess.Lookup.{
  LookupError, not_found, failure, other, superseded_projection, unfit_projection, authorize,
  received, refused, finish_lookup, lookup_next, lookup_error, quarantine_leaving, is_behind_fence,
  is_past_fence, tell_retryable, fail_departure, refused_with, departs_below,
}
use zwei.GroupAccess.Lookup.Cases.{is_unfit, is_unfenced, received-cases}
use zwei.GroupAccess.Departure.{
  depart, departure_succeeds, departure_fails, raise_fence, succeed, fail, of_departure-keeps,
}
use zwei.GroupAccess.Listing.{restore_listed, project_group, remove_absent}
use zwei.GroupAccess.Steps.{
  Action, authorizes, removes, accepts, lists, omits, changes, is_created, verifies, waits_for_list,
  retries, departs, departed, stays, answers, refuses, find_lookup, when_live-keeps, perform, run,
}
use zwei.GroupAccess.{new_access}
use zwei.GroupAccess.Steps.Fences.Methods.{
  grown, IsFenced-fetch, IsFenced-cancel, IsFenced-quarantine, IsFenced-remove, IsFenced-accept,
  IsFenced-authorizes, IsFenced-definitive, IsFenced-created, IsFenced-waits, IsFenced-verifies,
  IsFenced-retries, IsFenced-finish_departure, IsFenced-changes,
}
use zwei.GroupAccess.Steps.Fences.Answers.{
  IsFenced-lists, IsFenced-omits, IsFenced-received, IsFenced-refused, IsFenced-finish_lookup,
}

IsFenced-departs : (n : ℕ) (c : Context) (a : Access) → IsFenced a → IsFenced (depart n c a)
unfolding depart emit revision_for cancel_request
IsFenced-departs n c a h =
    let q = IsFenced-cancel a h in
    if-keeps IsFenced (is_some a.departure) h (grown (omega arith) (omega arith) q)

-- A fence is raised: all lookups that there are began before.
known-fenced :
    (f g : Option Fence) (rr dg : ℕ) (ks : List Fetch)
    → All (IsKnown f rr dg) ks
    → All (IsKnown g (rr + 1) (dg + 1)) ks
known-fenced f g rr dg [] h = tt
known-fenced f g rr dg (k ∷ ks) h = (
  record {
    fetched = omega (arith, h.0.fetched);
    begun = omega (arith, h.0.begun);
    superseded = λ _ _. omega (arith, h.0.fetched);
  },
  known-fenced f g rr dg ks h.1,
)

IsFenced-raise_fence :
    (d : Leaving) (a : Access) → d.revision < a.revision → IsFenced a → IsFenced (raise_fence d a)
unfolding raise_fence cancel_request
IsFenced-raise_fence d a lt h = record {
  low = (omega arith, lt);
  known = known-fenced a.departure_fence _ _ _ _ (IsFenced-cancel a h).known;
}

IsFenced-succeed : (d : Leaving) (a : Access) → IsFenced a → IsFenced (succeed d a)
unfolding succeed
IsFenced-succeed d a h =
    let b =
      if-cases IsFenced
        (ltb d.revision a.revision && (not d.removal_observed || not (is_some a.removed_revision)))
        (λ behind. IsFenced-raise_fence d a (ground arith) h) (λ _. h) in
    let q = IsFenced-finish_departure _ (if-keeps IsFenced _ (IsFenced-remove d.revision _ b) b) in
    if-keeps IsFenced (d.removal_observed && is_some a.removed_revision)
      (IsFenced-finish_departure a h) (if-keeps IsFenced _ (IsFenced-fetch _ q) q)

IsFenced-fail : (d : Leaving) (a : Access) → IsFenced a → IsFenced (fail d a)
unfolding fail emit
IsFenced-fail d a h =
    let q = IsFenced-cancel _ (IsFenced-quarantine d.context a h) in
    if-keeps IsFenced d.removal_observed h (IsFenced-fetch _ (grown (omega arith) (omega arith) q))

perform-IsFenced : (x : Action) (a : Access) → IsFenced a → IsFenced (perform x a)
unfolding perform departure_succeeds departure_fails lookup_next lookup_error
perform-IsFenced (authorizes n) a h = IsFenced-authorizes n a h
perform-IsFenced (removes n) a h = IsFenced-definitive n a h
perform-IsFenced (accepts n) a h = IsFenced-accept n a h
perform-IsFenced (lists existing g) a h = IsFenced-lists existing g a h
perform-IsFenced (omits g) a h = IsFenced-omits g a h
perform-IsFenced (changes n deleted c) a h = IsFenced-changes n deleted c a h
perform-IsFenced (is_created c) a h = IsFenced-created c a h
perform-IsFenced (verifies c) a h = IsFenced-verifies c a h
perform-IsFenced (waits_for_list c) a h = IsFenced-waits c a h
perform-IsFenced retries a h = IsFenced-retries a h
perform-IsFenced (departs n c) a h = IsFenced-departs n c a h
perform-IsFenced (departed n) a h =
    of_departure-keeps IsFenced n succeed a.departure a (λ d. IsFenced-succeed d a h) h
perform-IsFenced (stays n) a h =
    of_departure-keeps IsFenced n fail a.departure a (λ d. IsFenced-fail d a h) h
perform-IsFenced (answers n g) a h =
    when_live-keeps IsFenced (λ k. lookup_next k g) (find_lookup n a.lookups) a
      (λ k. IsFenced-finish_lookup k (received k g a) (IsFenced-received k g a h)) h
perform-IsFenced (refuses n e) a h =
    when_live-keeps IsFenced (λ k. lookup_error k e) (find_lookup n a.lookups) a
      (λ k. IsFenced-finish_lookup k (refused k e a) (IsFenced-refused k e a h)) h

pub run-IsFenced : (xs : List Action) (a : Access) → IsFenced a → IsFenced (run xs a)
run-IsFenced [] a h = h
run-IsFenced (x ∷ xs) a h = run-IsFenced xs (perform x a) (perform-IsFenced x a h)

pub new_access-IsFenced : (id : Text) → IsFenced (new_access id)
new_access-IsFenced id = record { low = tt; known = tt }
