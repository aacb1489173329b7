-- ===== src/Call/Steps/Retired.antt =====
-- What `CallFacade` of home/call-facade.service.ts makes of events about a call that is over.
use zwei.Common.{
  ℕ, suc, ◌≤◌, ◌≡◌, refl, inl, inr, true, false, Option, none, some, List, [], ◌∷◌, ◌++◌, arith,
  String, Bool-cases, length, any, ◌==◌, ◌∙◌,
}
use zwei.Js.Text.{Text, is_empty, text_eq, text_eq_refl}
use zwei.Call.{
  CallPhase, CallPayload, Facade, finish, terminal, set_error, cleanup, shrink, add,
  invalidate_call_generation, retire_current_call, is_retired_call, log_farewell, ended, error,
}
use zwei.Call.Events.{
  CallEvent, recovered, rejected, incoming_event, ringing_event, accepted_event, declined_event,
  ended_event, signal_event, handle_event, handle_ringing, handle_over,
}
use zwei.Call.Steps.{Reach}
use zwei.Call.Steps.Bounds.Reached.{Reach-Bounded}

-- The call that an event is about.
abbrev call_of : CallEvent → Option Text
call_of recovered = none
call_of (rejected r w f) = none
call_of (incoming_event q) = some q.call_id
call_of (ringing_event q) = some q.call_id
call_of (accepted_event q) = some q.call_id
call_of (declined_event q) = some q.call_id
call_of (ended_event q) = some q.call_id
call_of (signal_event c v) = some c

-- The call that is shown, its connection and its generation are the same.
pub record IsSame (s t : Facade) : Type 0 where
  pub state : t.state ≡ s.state
  pub connection : t.connection ≡ s.connection
  pub generation : t.call_generation ≡ s.call_generation
  pub requests : t.pending_requests ≡ s.pending_requests
  pub retired : t.retired_call_ids ≡ s.retired_call_ids

IsSame-ringing :
    (i : Text) (q : CallPayload) (s : Facade)
    → is_retired_call q.call_id s ≡ true
    → IsSame s (handle_ringing i q s)
unfolding handle_ringing
IsSame-ringing i q s h = ground arith

-- An event about a retired call leaves the call that is shown as it is.
handle_event-IsSame :
    (n : ℕ) (i c : Text) (event : CallEvent) (s : Facade)
    → call_of event ≡ some c
    → is_retired_call c s ≡ true
    → IsSame s (handle_event n i event s)
unfolding handle_event handle_over
handle_event-IsSame n i c recovered s e h = ground arith
handle_event-IsSame n i c (rejected r w f) s e h = ground arith
handle_event-IsSame n i c (incoming_event q) s e h = ground arith
handle_event-IsSame n i c (ringing_event q) s e h = IsSame-ringing i q s (ground arith)
handle_event-IsSame n i c (accepted_event q) s e h = ground arith
handle_event-IsSame n i c (declined_event q) s e h = ground arith
handle_event-IsSame n i c (ended_event q) s e h = ground arith
handle_event-IsSame n i c (signal_event d v) s e h = ground arith

any-snoc : (t : Text) (xs : List Text) → any (text_eq t) (xs ++ t ∷ []) ≡ true
any-snoc t [] = ground (arith, text_eq_refl t)
any-snoc t (x ∷ xs) = ground (arith, any-snoc t xs)

any-shrink_snoc :
    (n : ℕ) (t : Text) (xs : List Text) → any (text_eq t) (shrink (suc n) (xs ++ t ∷ [])) ≡ true
unfolding shrink
any-shrink_snoc n t [] = ground (arith, text_eq_refl t)
any-shrink_snoc n t (x ∷ xs) = ground (arith, any-shrink_snoc n t xs, any-snoc t xs)

shrink_all : (n : ℕ) (xs : List Text) → length xs ≤ n → shrink n xs ≡ xs
unfolding shrink
shrink_all n [] le = refl
shrink_all n (x ∷ xs) le = ground arith

any-shrink-add :
    (t : Text) (xs : List Text) → length xs ≤ 32 → any (text_eq t) (shrink 32 (add t xs)) ≡ true
any-shrink-add t xs le = elim (Bool-cases (any (text_eq t) xs)) [
  | inl there ↦ rw (there, shrink_all 32 xs le) there
  | inr new ↦ rw new (any-shrink_snoc 31 t xs)
]

finish-retires :
    (phase : CallPhase) (label : String) (failure : Option String) (c : Text) (s : Facade)
    → length s.retired_call_ids ≤ 32
    → s.state.call_id ≡ some c
    → is_empty c ≡ false
    → is_retired_call c (finish phase label failure s) ≡ true
unfolding finish retire_current_call cleanup invalidate_call_generation
finish-retires phase label failure c s le e filled =
    rw (e, filled) (any-shrink-add c s.retired_call_ids le)

==_refl : (n : ℕ) → (n == n) ≡ true
==_refl n = ground arith

-- An event, with the time and the ID of an answer, and a sequence of them.
abbrev pub Heard : Type 0
Heard = ℕ × Text × CallEvent

abbrev pub hear_all : List Heard → Facade → Facade
hear_all [] s = s
hear_all ((n, i, event) ∷ r) s = hear_all r (handle_event n i event s)

abbrev pub AreAbout : Text → List Heard → Type 0
AreAbout c [] = Unit
AreAbout c ((n, i, event) ∷ r) = (call_of event ≡ some c) × AreAbout c r

IsSame-trans : (s t u : Facade) → IsSame s t → IsSame t u → IsSame s u
IsSame-trans s t u p q = record {
  state = q.state ∙ p.state;
  connection = q.connection ∙ p.connection;
  generation = q.generation ∙ p.generation;
  requests = q.requests ∙ p.requests;
  retired = q.retired ∙ p.retired;
}

hear_all-IsSame :
    (c : Text) (events : List Heard) (s : Facade)
    → AreAbout c events
    → is_retired_call c s ≡ true
    → IsSame s (hear_all events s)
hear_all-IsSame c [] s about gone = record {
  state = refl;
  connection = refl;
  generation = refl;
  requests = refl;
  retired = refl;
}
hear_all-IsSame c ((n, i, event) ∷ r) s about gone =
    let one = handle_event-IsSame n i c event s about.0 gone in
    IsSame-trans s (handle_event n i event s) (hear_all r (handle_event n i event s)) one
      (hear_all-IsSame c r (handle_event n i event s) about.1 (rw one.retired gone))

-- When a call of a state that can be reached ends or fails, the events that come next, however many,
-- as long as each is about that call, change nothing of what is shown, of the connection, of the
-- generation, of the requests that wait and of the calls that are known to be over.
pub over_call-IsSame :
    (j c : Text) (label failure : String) (events : List Heard) (s : Facade)
    → Reach s
    → s.state.call_id ≡ some c
    → is_empty c ≡ false
    → AreAbout c events
    → IsSame
        (terminal label s.call_generation s)
        (hear_all events (terminal label s.call_generation s))
      × IsSame
          (set_error j failure s.call_generation s)
          (hear_all events (set_error j failure s.call_generation s))
unfolding terminal set_error
over_call-IsSame j c label failure events s r e filled about =
    let t = record s { log = log_farewell j s.state s.log } in
    let le = (Reach-Bounded r).retired in
    let ended_now = finish-retires ended label none c s le e filled in
    let failed_now = finish-retires error failure (some failure) c t le e filled in
    rw (==_refl s.call_generation) (
      hear_all-IsSame c events (finish ended label none s) about ended_now,
      hear_all-IsSame c events (finish error failure (some failure) t) about failed_now,
    )
