-- ===== src/GroupAccess/Lookup.antt =====
-- What a lookup of `fetchLatest` brings: a projection of the group, or an error; of
-- home/home-group-access-facade.service.ts. The request for a group has one answer, behind which
-- `finalize` runs.
pub mod Cases
use zwei.Common.{
  ℕ, Bool, true, false, not, ◌&&◌, ◌||◌, Option, none, some, ltb, leb, ◌==◌, if◌then◌else◌, max,
  is_some,
}
use zwei.Js.Text.{text_eq}
use zwei.Wire.Groups.{GroupConversation}
use zwei.GroupAccess.{
  Access, Fetch, Fence, Leaving, Context, FailureReason, unavailable, authorized, retryable,
  departure_finished, emit, mark_projection_changed, is_selecting, is_removed_at, removal_observed,
  or_context, without_number, fetch_latest, quarantine, remove, finish_departure, is_fenced,
}

-- `GroupProjectionNotFoundError`, `GroupProjectionFailureError` and any other error.
pub data LookupError : Type 0 where
  not_found : LookupError
  failure : FailureReason → LookupError
  other : LookupError

-- `failureReason`.
abbrev pub failure_reason : LookupError → FailureReason
failure_reason not_found = unavailable
failure_reason (failure r) = r
failure_reason other = unavailable

abbrev pub intent_version : Option Context → Option ℕ
intent_version none = none
intent_version (some c) = some c.navigation_intent_version

-- A departure is pending, from a revision below this.
abbrev pub departs_below : Option Leaving → ℕ → Bool
departs_below none n = false
departs_below (some d) n = ltb d.revision n

abbrev pub leaving_context : Option Leaving → Context → Context
leaving_context none c = c
leaving_context (some d) c = d.context

-- The lookup began before a departure that has ended well from a revision below this.
abbrev pub is_behind_fence : Option Fence → ℕ → ℕ → Bool
is_behind_fence none generation revision = false
is_behind_fence (some f) generation revision =
    ltb generation f.generation && ltb f.revision revision

abbrev pub is_past_fence : Option Fence → ℕ → Bool
is_past_fence none generation = false
is_past_fence (some f) generation = leb f.generation generation

-- `quarantine` with the context at hand, or that of the departure.
unfoldable pub quarantine_leaving : Option Leaving → Access → Access
quarantine_leaving none a = a
quarantine_leaving (some d) a = quarantine (or_context a.context d.context) a

abbrev pub restored_state : Access → Access
restored_state a = record a { removed_revision = none; quarantined = false; failed = false }

-- A projection that is newer than what is known, of a lookup that was superseded.
unfoldable pub superseded_projection : Fetch → GroupConversation → Access → Access
superseded_projection k g a =
    let b = record a { revision = g.membership_revision } in
    if is_fenced a || is_behind_fence a.departure_fence k.departure_generation g.membership_revision
    then record b { quarantined = true; failed = false }
    else emit (authorized g false none) (mark_projection_changed (restored_state b))

-- A projection that does not fit the request, and whether to fetch again.
unfoldable pub unfit_projection : Fetch → GroupConversation → Access → Access × Bool
unfit_projection k g a =
    let superseded = not (k.fetch_revision == a.request_revision) in
    let b =
      if text_eq g.id a.group_id
        && ltb a.revision g.membership_revision
        && superseded
        && not (is_removed_at a.removed_revision g.membership_revision)
      then superseded_projection k g a
      else a in
    if superseded
      && not (is_some b.departure)
      && not (is_some b.removed_revision && not b.quarantined)
    then (b, true)
    else if superseded
    then (b, false)
    else (
      emit (retryable b.group_id unavailable b.quarantined) (record b { failed = b.quarantined }),
      false,
    )

-- The projection is taken for the group.
unfoldable pub authorize : Fetch → GroupConversation → Access → Access
authorize k g a = emit (authorized g (is_selecting a.context) (intent_version a.context)) (
    mark_projection_changed (record (restored_state a) {
      revision = g.membership_revision;
      departure_reconciliation_required =
          a.departure_reconciliation_required
          && not (is_past_fence a.departure_fence k.departure_generation);
      context = none;
    }))

-- The handler of a projection, and whether to fetch again.
unfoldable pub received : Fetch → GroupConversation → Access → Access × Bool
received k g a =
    let same = text_eq g.id a.group_id in
    if departs_below a.departure g.membership_revision && same
    then (
      quarantine_leaving a.departure (record a { revision = max a.revision g.membership_revision }),
      false,
    )
    else if is_behind_fence a.departure_fence k.departure_generation g.membership_revision && same
    then (
      record a {
        revision = max a.revision g.membership_revision;
        quarantined = true;
        failed = false;
      },
      not (k.fetch_revision == a.request_revision),
    )
    else if removal_observed a.departure && is_some a.removed_revision
    then (finish_departure a, false)
    else if removal_observed a.departure && not a.quarantined
    then (remove (max k.target_revision a.revision) a, false)
    else if not same
        || ltb g.membership_revision (max k.target_revision a.revision)
        || is_removed_at a.removed_revision g.membership_revision
        || not (k.fetch_revision == a.request_revision)
    then unfit_projection k g a
    else if departs_below a.departure a.revision
    then (record a { revision = g.membership_revision; failed = false }, false)
    else (authorize k g a, false)

unfoldable pub fail_departure : Option Leaving → Access → Access
fail_departure none a = a
fail_departure (some d) a =
    if ltb d.revision a.revision && not d.removal_observed
    then emit (departure_finished a.group_id true)
        (record (quarantine d.context a) { failed = true; departure = none })
    else a

unfoldable pub tell_retryable : FailureReason → Access → Access
tell_retryable reason a =
    emit (retryable a.group_id reason a.quarantined)
      (record a { failed = if removal_observed a.departure then true else a.quarantined })

unfoldable pub refused_with : Fetch → LookupError → Access → Access
refused_with k not_found a = remove (max k.target_revision a.revision) a
refused_with k (failure r) a = tell_retryable (failure_reason (failure r)) a
refused_with k other a = tell_retryable (failure_reason other) a

-- The handler of an error, and whether to fetch again.
unfoldable pub refused : Fetch → LookupError → Access → Access × Bool
refused k e a =
    if not (k.fetch_revision == a.request_revision)
    then (a, true)
    else (refused_with k e (fail_departure a.departure a), false)

-- The lookup ends: `finalize`, and what forgets its subscription.
unfoldable pub finish_lookup : Fetch → Access × Bool → Access
finish_lookup k (a, again) =
    let b = record a {
      in_flight = false;
      lookups = without_number k.number a.lookups;
      request = elim a.request [ none ↦ none | some n ↦ if n == k.number then none else some n ];
    } in
    if again && not (is_some b.removed_revision && not b.quarantined) then fetch_latest b else b

-- The callbacks of a lookup, up to its end.
unfoldable pub lookup_next : Fetch → GroupConversation → Access → Access
lookup_next k g a = finish_lookup k (received k g a)

unfoldable pub lookup_error : Fetch → LookupError → Access → Access
lookup_error k e a = finish_lookup k (refused k e a)

-- `retryLatest`.
unfoldable pub retry_latest : Access → Access
retry_latest a =
    if a.in_flight || (is_some a.removed_revision && not a.quarantined) then a else fetch_latest a
