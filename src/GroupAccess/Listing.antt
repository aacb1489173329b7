-- ===== src/GroupAccess/Listing.antt =====
-- The methods of `HomeGroupAccessFacade` on all groups, of home/home-group-access-facade.service.ts: the
-- list of conversations that the server sends is projected onto what is known of each group.
pub mod Shown
use zwei.Common.{
  ℕ, ◌+◌, Bool, true, false, not, ◌&&◌, ◌||◌, Option, none, some, List, [], ◌∷◌, ◌++◌, leb, ◌==◌,
  if◌then◌else◌, max, is_some, any,
}
use zwei.Js.Text.{Text, text_eq}
use zwei.Wire.Groups.{GroupConversation}
use zwei.Wire.Messages.{Conversation, direct, group}
use zwei.GroupAccess.{
  Access, Leaving, AccessOutcome, authorized, new_access, emit, mark_projection_changed,
  is_selecting, is_removed_at, or_zero_revision, cancel_request, quarantine, remove,
  accept_projection, or_context, retry_one, is_fenced,
}
use zwei.GroupAccess.Lookup.{departs_below, quarantine_leaving, intent_version}

-- A group of the list supersedes a lookup that is under way.
unfoldable pub restore_listed : GroupConversation → Access → Access
restore_listed g a =
    let b = cancel_request (record a {
      requested_revision = max a.requested_revision g.membership_revision;
      request_revision = a.request_revision + 1;
    }) in
    emit (authorized g (is_selecting a.context) (intent_version a.context)) (
      mark_projection_changed (record b {
        revision = g.membership_revision;
        removed_revision = none;
        quarantined = false;
        failed = false;
        departure_reconciliation_required = false;
        context = none;
      }))

-- `existing && !removedRevision`, where a revision 0 counts as none.
abbrev existing_if_kept : Option GroupConversation → Option ℕ → Option GroupConversation
existing_if_kept existing removed = if or_zero_revision removed == 0 then existing else none

-- The round of `projectConversationList` for a group of the list, and what it projects.
unfoldable pub project_group :
    Option GroupConversation → GroupConversation → Access → Access × Option GroupConversation
project_group existing g a =
    if departs_below a.departure g.membership_revision
    then (
      quarantine_leaving a.departure (record a { revision = max a.revision g.membership_revision }),
      none,
    )
    else if a.quarantined
        && not (is_fenced a)
        && leb a.revision g.membership_revision
        && not (is_removed_at a.removed_revision g.membership_revision)
    then (restore_listed g a, some g)
    else if a.quarantined
    then (a, none)
    else (let (b, accepted) = accept_projection g.membership_revision a in
        if accepted then (b, some g) else (b, existing_if_kept existing b.removed_revision))

-- The round of its second loop, for a group that is shown and absent from the list.
unfoldable pub remove_absent : GroupConversation → Access → Access
remove_absent g a =
    if not a.quarantined && not (is_some a.removed_revision)
    then remove g.membership_revision a
    else a

-- `HomeGroupAccessFacade`, with the states of the groups in the order in which they were made.
pub record AccessFacade : Type 0 where
  pub states : List Access
  pub projection_generation : ℕ
  pub outcomes : List AccessOutcome
  pub is_completed : Bool

-- `stateFor`.
abbrev pub state_for : Text → List Access → Access
state_for id [] = new_access id
state_for id (a ∷ r) = if text_eq a.group_id id then a else state_for id r

abbrev pub put_state : Access → List Access → List Access
put_state a [] = a ∷ []
put_state a (b ∷ r) =
    let rest = put_state a r in if text_eq b.group_id a.group_id then a ∷ r else b ∷ rest

-- The state of a group, with the counter of the facade and no outcome yet.
abbrev pub view : Text → AccessFacade → Access
view id f = record (state_for id f.states) {
  projection_generation = f.projection_generation;
  outcomes = [];
}

abbrev pub write_back : Access → AccessFacade → AccessFacade
write_back a f = record f {
  states = put_state a f.states;
  projection_generation = a.projection_generation;
  outcomes = if f.is_completed then f.outcomes else a.outcomes ++ f.outcomes;
}

-- A method on the group of an ID.
unfoldable pub at_group : Text → (Access → Access) → AccessFacade → AccessFacade
at_group id method f = write_back (method (view id f)) f

-- `hasQuarantinedGroups` and `hasFailedQuarantines`.
unfoldable pub has_quarantined_groups : AccessFacade → Bool
has_quarantined_groups f = any (λ a. a.quarantined) f.states

unfoldable pub has_failed_quarantines : AccessFacade → Bool
has_failed_quarantines f = any (λ a. a.quarantined && a.failed) f.states

-- `isQuarantined`.
unfoldable pub is_quarantined : Text → AccessFacade → Bool
is_quarantined id f = (view id f).quarantined

-- `current.get(id)`; of two groups with one ID the last one is there.
abbrev pub current_group : Text → List GroupConversation → Option GroupConversation
current_group id [] = none
current_group id (g ∷ r) = elim (current_group id r) [
  | some h ↦ some h
  | none ↦ if text_eq g.id id then some g else none
]

abbrev shown_before : Option GroupConversation → List Conversation → List Conversation
shown_before none rest = rest
shown_before (some g) rest = group g ∷ rest

-- The first loop of `projectConversationList`.
unfoldable pub project_items :
    List Conversation → List GroupConversation → AccessFacade → AccessFacade × List Conversation
project_items [] current f = (f, [])
project_items (direct d ∷ r) current f =
    let (e, rest) = project_items r current f in (e, direct d ∷ rest)
project_items (group g ∷ r) current f =
    let (a, projected) = project_group (current_group g.id current) g (view g.id f) in
    let (e, rest) = project_items r current (write_back a f) in (e, shown_before projected rest)

abbrev is_listed : Text → List Conversation → Bool
is_listed id [] = false
is_listed id (direct _ ∷ r) = is_listed id r
is_listed id (group g ∷ r) = text_eq g.id id || is_listed id r

-- Its second loop.
unfoldable pub remove_absentees :
    List Conversation → List GroupConversation → AccessFacade → AccessFacade
remove_absentees items [] f = f
remove_absentees items (g ∷ r) f =
    remove_absentees items r (if is_listed g.id items then f else at_group g.id (remove_absent g) f)

-- `projectConversationList`.
unfoldable pub project_conversation_list :
    List Conversation
    → List GroupConversation
    → Bool
    → AccessFacade
    → AccessFacade × List Conversation
project_conversation_list items current authoritative f =
    let (e, projected) = project_items items current f in
    (if authoritative then remove_absentees items current e else e, projected)

-- `retryQuarantined`, for the groups of these IDs.
abbrev retry_each : List Access → AccessFacade → AccessFacade
retry_each [] f = f
retry_each (a ∷ r) f = retry_each r (at_group a.group_id retry_one f)

unfoldable pub retry_quarantined : AccessFacade → AccessFacade
retry_quarantined f = retry_each f.states f

-- `ngOnDestroy`.
unfoldable pub destroy_access : AccessFacade → AccessFacade
destroy_access f = record f { states = []; is_completed = true }
