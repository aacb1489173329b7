-- ===== src/GroupAccess.antt =====
-- Who may see a group: `HomeGroupAccessFacade` of
-- frontend-app/src/app/home/home-group-access-facade.service.ts. The methods here are those on one group;
-- Listing has those on all of them. A subscription to `outcomes$` does not call back while it is told.
mod State
pub mod Lookup
pub mod Departure
pub mod Listing
pub mod Steps
mod Examples
unfoldable pub use State.*
use zwei.Common.{
  ℕ, ◌+◌, Bool, true, false, not, ◌&&◌, ◌||◌, Option, none, some, List, [], ◌∷◌, ltb, leb, ◌==◌,
  if◌then◌else◌, max, is_some,
}
use zwei.Js.Text.{Text}
use zwei.Wire.Groups.{GroupConversation}

-- The lookup that `requests` knows is unsubscribed and forgotten.
unfoldable pub cancel_request : Access → Access
cancel_request a = record a {
  lookups = without_request a.request a.lookups;
  request = none;
  in_flight = false;
}

-- `fetchLatest`, up to what its lookup brings.
unfoldable pub fetch_latest : Access → Access
fetch_latest a =
    if not a.serves_groups
    then emit (retryable a.group_id unavailable a.quarantined) (record a { in_flight = false })
    else record a {
      in_flight = true;
      request = some a.next_lookup;
      next_lookup = a.next_lookup + 1;
      lookups =
          (record {
            number = a.next_lookup;
            fetch_revision = a.request_revision;
            departure_generation = a.departure_generation;
            target_revision = a.requested_revision;
          })
          ∷ a.lookups;
    }

-- The part of `requestGroup` behind the context.
abbrev request_latest : ℕ → Access → Access
request_latest latest a =
    let b = record a {
      request_revision =
          if not a.in_flight || ltb a.requested_revision latest
          then a.request_revision + 1
          else a.request_revision;
      requested_revision = latest;
    } in
    if a.in_flight then b else fetch_latest b

-- `requestGroup`.
unfoldable pub request_group : ℕ → Option Context → Access → Access
request_group requested context a =
    request_latest (max a.requested_revision requested)
      (record a { context = if is_some a.context then a.context else context })

-- `quarantine`.
unfoldable pub quarantine : Context → Access → Access
quarantine c a =
    if not a.quarantined
    then emit (quarantined_outcome a.group_id c.selected) (
        mark_projection_changed (record a { quarantined = true; failed = false; context = some c }))
    else keep_context c a

-- `markRemoved`.
unfoldable pub mark_removed : ℕ → Access → Access
mark_removed revision a = record a {
  revision = max revision a.revision;
  request_revision = if a.in_flight then a.request_revision + 1 else a.request_revision;
  in_flight = false;
  removed_revision = some (max (or_zero_revision a.removed_revision) (max revision a.revision));
  quarantined = false;
  failed = false;
  departure_reconciliation_required = false;
  context = none;
  projection_generation = a.projection_generation + 1;
}

-- `markRemoved`, told with the revision that it leaves.
unfoldable pub remove : ℕ → Access → Access
remove revision a =
    let b = mark_removed revision a in emit (removed_outcome b.group_id b.revision) b

-- `definitiveRemoval`.
unfoldable pub definitive_removal : ℕ → Access → Access
definitive_removal revision a =
    if is_removed_at a.removed_revision (max revision a.revision) && not a.quarantined
    then a
    else remove revision (cancel_request a)

-- `revisionFor`.
unfoldable pub revision_for : ℕ → Access → ℕ
revision_for projection a = max projection a.revision

-- A lookup that is under way is superseded by what is known of a revision.
unfoldable pub supersede : ℕ → Access → Access
supersede revision a =
    if a.in_flight
    then record a {
      requested_revision = max a.requested_revision revision;
      request_revision = a.request_revision + 1;
    }
    else a

unfoldable pub raise_revision : ℕ → Access → Access
raise_revision revision a =
    if ltb a.revision revision
    then mark_projection_changed (supersede revision (record a { revision = revision }))
    else a

unfoldable pub lift_removal : ℕ → Access → Access
lift_removal revision a =
    if is_some a.removed_revision && not (is_removed_at a.removed_revision revision)
    then mark_projection_changed (record a { removed_revision = none })
    else a

-- `acceptProjection`.
unfoldable pub accept_projection : ℕ → Access → Access × Bool
accept_projection revision a =
    if ltb revision a.revision || is_removed_at a.removed_revision revision
    then (a, false)
    else (let b = lift_removal revision (raise_revision revision a) in
        (b, not b.quarantined && ((revision == a.revision) || (revision == b.revision))))

unfoldable pub observe_removal : ℕ → Option Leaving → Option Leaving
observe_removal previous none = none
observe_removal previous (some d) =
    some (record d { removal_observed = d.removal_observed || (previous == d.revision) })

unfoldable pub forget_removal : ℕ → Access → Access
forget_removal revision a =
    if not (is_removed_at a.removed_revision revision)
    then record a { removed_revision = none }
    else a

-- `membershipChanged`.
unfoldable pub membership_changed : ℕ → Bool → Context → Access → Access
membership_changed revision deleted c a =
    let previous = max a.revision c.projection_revision in
    if leb revision previous
    then a
    else (let b = mark_projection_changed (supersede revision (record a { revision = revision })) in
        if deleted
        then remove revision
            (cancel_request (record b { departure = observe_removal previous b.departure }))
        else request_group revision none (quarantine c (forget_removal revision b)))

-- `conversationCreated`.
unfoldable pub conversation_created : Context → Access → Access
conversation_created c a = request_group (revision_for 0 a) (some c) a

-- `quarantineForVerification`.
unfoldable pub quarantine_for_verification : Context → Access → Access
quarantine_for_verification c a = if not a.quarantined then quarantine c a else keep_context c a

-- `verifyQuarantined`.
unfoldable pub verify_quarantined : Context → Access → Access
verify_quarantined c a =
    let b = quarantine_for_verification c a in
    if not b.in_flight then request_group b.revision (some c) b else b

-- The round of `retryQuarantined` for one group.
unfoldable pub retry_one : Access → Access
retry_one a =
    if (a.quarantined || removal_observed a.departure) && not a.in_flight
    then request_group a.revision none a
    else a

-- `finishDeparture`, for the departure that is there.
unfoldable pub finish_departure : Access → Access
finish_departure a = emit (departure_finished a.group_id false) (record a { departure = none })

-- `departureProjectionIsFenced`.
unfoldable pub is_fenced : Access → Bool
is_fenced a = a.departure_reconciliation_required || is_some a.departure
