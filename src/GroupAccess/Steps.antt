-- ===== src/GroupAccess/Steps.antt =====
-- The access to one group as a state machine: what may happen to it in `HomeGroupAccessFacade` of
-- home/home-group-access-facade.service.ts, in any order.
pub mod Removal
pub mod Fences
pub mod Fenced
use zwei.Common.{ℕ, Bool, true, false, Option, none, some, List, [], ◌∷◌, ◌==◌, if◌then◌else◌}
use zwei.Js.Text.{Text}
use zwei.Wire.Groups.{GroupConversation}
use zwei.GroupAccess.{
  Access, Context, Fetch, mark_authorized, definitive_removal, accept_projection,
  membership_changed, conversation_created, verify_quarantined, quarantine_for_verification,
  retry_one,
}
use zwei.GroupAccess.Lookup.{LookupError, lookup_next, lookup_error}
use zwei.GroupAccess.Departure.{depart, departure_succeeds, departure_fails}
use zwei.GroupAccess.Listing.{project_group, remove_absent}

-- Lookups and departures are given by their numbers. `lists` has what is shown of the group, and what the
-- list of the server has of it.
pub data Action : Type 0 where
  authorizes removes accepts : ℕ → Action
  lists : Option GroupConversation → GroupConversation → Action
  omits : GroupConversation → Action
  changes : ℕ → Bool → Context → Action
  is_created verifies waits_for_list : Context → Action
  retries : Action
  departs : ℕ → Context → Action
  departed stays : ℕ → Action
  answers : ℕ → GroupConversation → Action
  refuses : ℕ → LookupError → Action

abbrev pub find_lookup : ℕ → List Fetch → Option Fetch
find_lookup n [] = none
find_lookup n (k ∷ r) = let rest = find_lookup n r in if k.number == n then some k else rest

-- A lookup that has ended calls nothing back.
abbrev pub when_live : (Fetch → Access → Access) → Option Fetch → Access → Access
when_live f none a = a
when_live f (some k) a = f k a

-- What the answer keeps, whichever lookup it belongs to.
pub when_live-keeps {κ} :
    (P : Access → Type κ) (f : Fetch → Access → Access) (k : Option Fetch) (a : Access)
    → ((e : Fetch) → P (f e a))
    → P a
    → P (when_live f k a)
when_live-keeps P f none a keeps h = h
when_live-keeps P f (some k) a keeps h = keeps k

unfoldable pub perform : Action → Access → Access
perform (authorizes n) a = mark_authorized n a
perform (removes n) a = definitive_removal n a
perform (accepts n) a = (accept_projection n a).0
perform (lists existing g) a = (project_group existing g a).0
perform (omits g) a = remove_absent g a
perform (changes n deleted c) a = membership_changed n deleted c a
perform (is_created c) a = conversation_created c a
perform (verifies c) a = verify_quarantined c a
perform (waits_for_list c) a = quarantine_for_verification c a
perform retries a = retry_one a
perform (departs n c) a = depart n c a
perform (departed n) a = departure_succeeds n a
perform (stays n) a = departure_fails n a
perform (answers n g) a = when_live (λ k. lookup_next k g) (find_lookup n a.lookups) a
perform (refuses n e) a = when_live (λ k. lookup_error k e) (find_lookup n a.lookups) a

abbrev pub run : List Action → Access → Access
run [] a = a
run (x ∷ r) a = run r (perform x a)
