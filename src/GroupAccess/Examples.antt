-- ===== src/GroupAccess/Examples.antt =====
-- Runs of home/home-group-access-facade.service.ts on concrete groups.
use zwei.Common.{length, ◌++◌, ℕ, ◌≡◌, refl, true, false, none, some, List, [], ◌∷◌, All}
use zwei.Js.Text.{Text, codes, text_eq}
use zwei.Wire.Groups.{GroupConversation}
use zwei.Wire.Messages.{group}
use zwei.GroupAccess.{
  conversation_created, Context, Fetch, new_access, emit, mark_projection_changed, supersede,
  quarantine, request_group, fetch_latest, cancel_request, remove, mark_removed, definitive_removal,
  membership_changed, forget_removal, finish_departure, revision_for, is_fenced,
}
use zwei.GroupAccess.Lookup.{received, lookup_next, finish_lookup, authorize, is_behind_fence}
use zwei.GroupAccess.Departure.{depart, departure_succeeds, succeed, raise_fence}
use zwei.GroupAccess.Listing.{
  project_group, restore_listed, AccessFacade, project_conversation_list, project_items,
  remove_absentees, remove_absent,
}
use zwei.GroupAccess.Listing.Shown.{IsShown, project_group-IsShown}
use zwei.GroupAccess.Steps.{
  Action, changes, is_created, omits, departs, departed, answers, run, perform, find_lookup,
}
use zwei.GroupAccess.Steps.Removal.{removed_stays_out, IsOver, is_gone}
use zwei.GroupAccess.Steps.Fenced.{
  restorations, IsStale, is_behind_fence-stale, stale_lookup_restores_nothing,
  stale_lookup_is_repeated,
}

abbrev id : Text
id = codes "g"

abbrev at_revision : ℕ → GroupConversation
at_revision n = record {
  id = id;
  name = [];
  avatar_seed = [];
  owner_id = [];
  membership_revision = n;
  created_at = [];
  last_message_at = [];
  unread_count = 0;
  members = [];
}

abbrev open_screen : Context
open_screen = record { selected = true; navigation_intent_version = 4; projection_revision = 1 }

-- The membership changes, the group is looked up, and it is restored with the screen that showed it.
abbrev changed : List Action
changed = changes 2 false open_screen ∷ answers 0 (at_revision 2) ∷ []

changed_outcomes : restorations (run changed (new_access id)).outcomes ≡ at_revision 2 ∷ []
unfolding perform membership_changed mark_projection_changed supersede quarantine emit request_group
    fetch_latest forget_removal lookup_next finish_lookup received authorize
changed_outcomes = refl

-- A lookup is forgotten when the list omits its group and another begins. Then the membership changes
-- while the user leaves, and the departure ends well: a fence holds the old lookup back.
abbrev left : List Action
left =
    is_created open_screen
    ∷ omits (at_revision 1)
    ∷ changes 3 false open_screen
    ∷ departs 5 open_screen
    ∷ changes 6 false open_screen
    ∷ departed 0
    ∷ []

abbrev early : Fetch
early = record { number = 0; fetch_revision = 1; departure_generation = 0; target_revision = 0 }

left_ends :
    (find_lookup 0 (run left (new_access id)).lookups ≡ some early)
    × ((run left (new_access id)).departure ≡ none)
    × (text_eq id (run left (new_access id)).group_id ≡ true)
    × (is_behind_fence (run left (new_access id)).departure_fence early.departure_generation 6
        ≡ true)
unfolding perform conversation_created remove_absent depart cancel_request revision_for
    membership_changed mark_projection_changed supersede quarantine emit request_group fetch_latest
    forget_removal departure_succeeds succeed raise_fence remove mark_removed finish_departure
left_ends = (refl, refl, refl, refl)

left-IsStale : IsStale early (run left (new_access id))
left-IsStale = is_behind_fence-stale (run left (new_access id)).departure_fence 0 6 left_ends.3

stale_lookup_restores_nothing_example :
    restorations (perform (answers 0 (at_revision 6)) (run left (new_access id))).outcomes
    ≡ restorations (run left (new_access id)).outcomes
stale_lookup_restores_nothing_example =
    stale_lookup_restores_nothing id left 0 (at_revision 6) early left_ends.0 left-IsStale

stale_lookup_is_repeated_example :
    ((perform (answers 0 (at_revision 6)) (run left (new_access id))).quarantined ≡ true)
    × ((perform (answers 0 (at_revision 6)) (run left (new_access id))).in_flight
        ≡ (run left (new_access id)).serves_groups)
stale_lookup_is_repeated_example =
    stale_lookup_is_repeated id left 0 (at_revision 6) early left_ends.0 left_ends.1 left_ends.2
      left_ends.3

removed_stays_out_example :
    All (IsOver 3) (run changed (definitive_removal 3 (new_access id))).outcomes
    × (is_gone 3 (run changed (definitive_removal 3 (new_access id))) ≡ true)
removed_stays_out_example = removed_stays_out 3 changed (new_access id) refl

project_group-IsShown_example :
    IsShown none
      (at_revision 5)
      (run left (new_access id))
      (project_group none (at_revision 5) (run left (new_access id)))
project_group-IsShown_example =
    project_group-IsShown none (at_revision 5) (run left (new_access id))

-- The server's list restores a quarantined group, and leaves out what a pending departure has outrun.
abbrev listed : AccessFacade
listed = record {
  states = run (changes 2 false open_screen ∷ []) (new_access id) ∷ [];
  projection_generation = 0;
  outcomes = [];
  is_completed = false;
}

list_restores :
    ((project_conversation_list (group (at_revision 2) ∷ []) [] true listed).1
      ≡ group (at_revision 2) ∷ [])
    × (restorations
          (project_conversation_list (group (at_revision 2) ∷ []) [] true listed).0.outcomes
        ≡ at_revision 2 ∷ [])
unfolding project_conversation_list project_items remove_absentees project_group restore_listed
    perform membership_changed mark_projection_changed supersede quarantine emit request_group
    fetch_latest forget_removal cancel_request is_fenced
list_restores = (refl, refl)

-- A lookup that the removal has left running clears `inFlight` when it ends, so two lookups run at once.
left_fetches_twice :
    length (run (left ++ answers 0 (at_revision 6) ∷ []) (new_access id)).lookups ≡ 2
unfolding perform conversation_created remove_absent depart cancel_request revision_for
    membership_changed mark_projection_changed supersede quarantine emit request_group fetch_latest
    forget_removal departure_succeeds succeed raise_fence remove mark_removed finish_departure
    lookup_next finish_lookup received
left_fetches_twice = refl
