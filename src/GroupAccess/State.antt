-- ===== src/GroupAccess/State.antt =====
-- The state of the access to a group: `GroupAccessState` and what `HomeGroupAccessFacade` of
-- home/home-group-access-facade.service.ts tells of it.
use zwei.Common.{
  ℕ, ◌+◌, Bool, true, false, not, ◌&&◌, Option, none, some, List, [], ◌∷◌, ltb, leb, ◌==◌,
  if◌then◌else◌, is_some,
}
use zwei.Js.Text.{Text}
use zwei.Wire.Groups.{GroupConversation}

-- `HomeGroupAccessContext`.
pub record Context : Type 0 where
  pub selected : Bool
  pub navigation_intent_version : ℕ
  pub projection_revision : ℕ

-- `GroupProjectionFailureReason`.
pub data FailureReason : Type 0 where
  session_expired unavailable : FailureReason

-- `HomeGroupAccessOutcome`.
pub data AccessOutcome : Type 0 where
  quarantined_outcome : Text → Bool → AccessOutcome
  authorized : GroupConversation → Bool → Option ℕ → AccessOutcome
  removed_outcome : Text → ℕ → AccessOutcome
  retryable : Text → FailureReason → Bool → AccessOutcome
  departure_pending : Text → AccessOutcome
  departure_finished : Text → Bool → AccessOutcome

-- `departureFence`.
pub record Fence : Type 0 where
  pub generation : ℕ
  pub revision : ℕ

-- `departure`; its number tells it from all others.
pub record Leaving : Type 0 where
  pub number : ℕ
  pub revision : ℕ
  pub context : Context
  pub removal_observed : Bool

-- A lookup that has not ended, with what `fetchLatest` has kept for it. Its number stands for its
-- subscription.
pub record Fetch : Type 0 where
  pub number : ℕ
  pub fetch_revision : ℕ
  pub departure_generation : ℕ
  pub target_revision : ℕ

-- `GroupAccessState` of one group, with its entry of `requests`, its lookups that have not ended, and the
-- numbers of the next lookup and departure. `projection_generation` and `outcomes`, the last outcome first,
-- are the facade's; `serves_groups` tells that `getGroup` is a function.
pub record Access : Type 0 where
  pub group_id : Text
  pub revision : ℕ
  pub removed_revision : Option ℕ
  pub quarantined : Bool
  pub failed : Bool
  pub context : Option Context
  pub request_revision : ℕ
  pub requested_revision : ℕ
  pub in_flight : Bool
  pub departure_generation : ℕ
  pub departure_fence : Option Fence
  pub departure_reconciliation_required : Bool
  pub departure : Option Leaving
  pub request : Option ℕ
  pub lookups : List Fetch
  pub next_lookup : ℕ
  pub next_departure : ℕ
  pub serves_groups : Bool
  pub projection_generation : ℕ
  pub outcomes : List AccessOutcome

-- The state that `stateFor` makes.
abbrev pub new_access : Text → Access
new_access id = record {
  group_id = id;
  revision = 0;
  removed_revision = none;
  quarantined = false;
  failed = false;
  context = none;
  request_revision = 0;
  requested_revision = 0;
  in_flight = false;
  departure_generation = 0;
  departure_fence = none;
  departure_reconciliation_required = false;
  departure = none;
  request = none;
  lookups = [];
  next_lookup = 0;
  next_departure = 0;
  serves_groups = true;
  projection_generation = 0;
  outcomes = [];
}

unfoldable pub emit : AccessOutcome → Access → Access
emit o a = record a { outcomes = o ∷ a.outcomes }

-- `markProjectionChanged`.
unfoldable pub mark_projection_changed : Access → Access
mark_projection_changed a = record a { projection_generation = a.projection_generation + 1 }

-- `markAuthorized`.
unfoldable pub mark_authorized : ℕ → Access → Access
mark_authorized revision a =
    if ltb a.revision revision
    then mark_projection_changed (record a { revision = revision })
    else a

abbrev pub is_selecting : Option Context → Bool
is_selecting none = false
is_selecting (some c) = c.selected

-- `state.removedRevision >= n`, and `n <= state.removedRevision`, where none is there.
abbrev pub is_removed_at : Option ℕ → ℕ → Bool
is_removed_at none n = false
is_removed_at (some r) n = leb n r

abbrev pub or_zero_revision : Option ℕ → ℕ
or_zero_revision none = 0
or_zero_revision (some r) = r

abbrev pub removal_observed : Option Leaving → Bool
removal_observed none = false
removal_observed (some d) = d.removal_observed

-- `a ?? b`.
abbrev pub or_context : Option Context → Context → Context
or_context none c = c
or_context (some d) c = d

-- What every `context` that is kept does where none is there.
abbrev pub keep_context : Context → Access → Access
keep_context c a =
    if not (is_some a.context) && c.selected then record a { context = some c } else a

abbrev pub without_number : ℕ → List Fetch → List Fetch
without_number n [] = []
without_number n (k ∷ r) = let rest = without_number n r in if k.number == n then rest else k ∷ rest

abbrev pub without_request : Option ℕ → List Fetch → List Fetch
without_request none ks = ks
without_request (some n) ks = without_number n ks
