-- ===== src/Call/Steps/Bounds.antt =====
-- How much `CallFacade` of home/call-facade.service.ts remembers of the calls and the requests that are
-- over.
pub mod Control
pub mod Events
pub mod Media
pub mod Screen
pub mod Reached
use zwei.Common.{
  ℕ, ◌+◌, ◌≤◌, ◌≡◌, refl, ◌⊎◌, inl, inr, Bool, true, false, not, ◌&&◌, ◌||◌, Option, none, some,
  List, [], ◌∷◌, ◌++◌, arith, if◌then◌else◌, String, is_some, Bool-cases, Option-cases, length, any,
  leb, leb→le, length-append,
}
use zwei.Js.Text.{Text, is_empty, text_eq}
use zwei.Js.Value.{Value}
use zwei.Call.{
  CallPhase, idle, ended, error, requesting, outgoing, incoming, connecting, active, CallState,
  CallPayload, Facade, Pending, Request, RequestType, initial, is_resting, finish, terminal,
  set_error, cleanup, invalidate_call_generation, retire_current_call, begin_call_generation,
  dismiss, shrink, add, control, same_text, call_accept, is_current_generation, log_farewell,
  stop_stream, caller, call_start, call_decline, call_cancel, call_end, is_truthy, is_retired_call,
  matches, Effect, call_signal,
}
use zwei.Call.Requests.{
  send_request, prune_pending_requests, drop_expired, delete, set, get, clear,
  clear_pending_requests, pending_of, same_type,
}
use zwei.Call.Control.{
  show_recovered_ringing, start, start_granted, microphone_failure, accept, decline, cancel, end,
  toggle_mute, close, ready_changes, send_control, is_incoming, is_phase_requesting, or_empty,
  is_outgoing, orphan,
}
use zwei.Call.Events.{
  CallEvent, recovered, rejected, incoming_event, ringing_event, accepted_event, declined_event,
  ended_event, signal_event, handle_event, handle_rejected, handle_incoming, take_accepted,
  take_signal, handle_ringing, handle_over, can_adopt_early_accepted, adopt, note_support,
  is_caller, without, pending_for, drop_orphan,
}
use zwei.Call.Media.{
  accepted_begins, accepted_goes_on, handle_signal_now, audio_track, connection_failed,
  ice_candidate, is_acceptable, create_connection, connected, apply_signal, apply_signals,
  send_signal, stop_new, same_stream, same_connection, or_else, peer_for, offer_to,
}
use zwei.Call.Steps.{
  Action, shows_ringing, starts, microphone, no_microphone, accepts, declines, cancels, ends, mutes,
  dismisses, closes, readies, hears, begins_accepted, goes_on, signals, hears_audio, fails,
  finds_candidate, perform, Allowed, Reach, begun, then_does,
}

length-shrink {ℓ} : {A : Type ℓ} (n : ℕ) (xs : List A) → length (shrink n xs) ≤ n
unfolding shrink
length-shrink n [] = omega arith
length-shrink n (x ∷ xs) = ground (arith, length-shrink n xs)

length-add : (t : Text) (xs : List Text) → length (add t xs) ≤ length xs + 1
length-add t xs = ground (arith, length-append xs (t ∷ []))

length-set : (q : Pending) (ps : List Pending) → length (set q ps) ≤ length ps + 1
unfolding set
length-set q [] = omega arith
length-set q (p ∷ ps) = ground (arith, length-set q ps)

length-delete : (id : Text) (ps : List Pending) → length (delete id ps) ≤ length ps
unfolding delete
length-delete id [] = omega arith
length-delete id (p ∷ ps) = ground (arith, length-delete id ps)

length-clear :
    (g : ℕ) (type : RequestType) (ps : List Pending) → length (clear g type ps) ≤ length ps
unfolding clear
length-clear g type [] = omega arith
length-clear g type (p ∷ ps) = ground (arith, length-clear g type ps)

pub record Bounded (s : Facade) : Type 0 where
  pub retired : length s.retired_call_ids ≤ 32
  pub orphaned : length s.orphaned_starts ≤ 32
  pub pending : length s.pending_requests ≤ 129

Bounded-retire : (s : Facade) → Bounded s → Bounded (retire_current_call s)
unfolding retire_current_call
Bounded-retire s h = elim (Option-cases s.state.call_id) [
  | inl e ↦ ground arith
  | inr (id, e) ↦ ground (arith, length-shrink 32 (add id s.retired_call_ids))
]

Bounded-finish :
    (phase : CallPhase) (label : String) (failure : Option String) (s : Facade)
    → Bounded s
    → Bounded (finish phase label failure s)
unfolding finish cleanup invalidate_call_generation
Bounded-finish phase label failure s h = ground (arith, Bounded-retire s h)

Bounded-terminal :
    (label : String) (generation : ℕ) (s : Facade)
    → Bounded s
    → Bounded (terminal label generation s)
unfolding terminal
Bounded-terminal label generation s h = ground (arith, h, Bounded-finish ended label none s h)

Bounded-logged : (l : List Effect) (s : Facade) → Bounded s → Bounded (record s { log = l })
Bounded-logged l s h = ground arith

Bounded-state : (x : CallState) (s : Facade) → Bounded s → Bounded (record s { state = x })
Bounded-state x s h = ground arith

Bounded-if : (b : Bool) (s t : Facade) → Bounded s → Bounded t → Bounded (if b then s else t)
Bounded-if true s t hs ht = hs
Bounded-if false s t hs ht = ht

Bounded-if-pair :
    (b : Bool) (x y : Facade × Bool) → Bounded x.0 → Bounded y.0 → Bounded (if b then x else y).0
Bounded-if-pair true x y hx hy = hx
Bounded-if-pair false x y hx hy = hy

Bounded-pending :
    (l : List Pending) (s : Facade)
    → length l ≤ 129
    → Bounded s
    → Bounded (record s { pending_requests = l })
Bounded-pending l s le h = ground arith

Bounded-set_error :
    (id : Text) (label : String) (generation : ℕ) (s : Facade)
    → Bounded s
    → Bounded (set_error id label generation s)
unfolding set_error
Bounded-set_error id label generation s h =
    Bounded-if (not (is_current_generation generation s)) _ _ h (
      Bounded-finish error label (some label) _
        (Bounded-logged (log_farewell id s.state s.log) s h))

Bounded-send_request :
    (now : ℕ) (b : Bool) (e : Text) (r : Request) (g : ℕ) (s : Facade)
    → Bounded s
    → Bounded (send_request now b e r g s).0
unfolding send_request prune_pending_requests
Bounded-send_request now b e r g s h =
    let kept = shrink 128 (drop_expired now s.pending_requests) in
    let le : length (set (pending_of now g r) kept) ≤ 129 = omega (
      arith,
      length-set (pending_of now g r) kept,
      length-shrink 128 (drop_expired now s.pending_requests),
    ) in
    let le' : length (delete r.request_id (set (pending_of now g r) kept)) ≤ 129 =
      omega (arith, length-delete r.request_id (set (pending_of now g r) kept), le) in
    Bounded-if-pair (not (is_current_generation g s)) _ _ h (
      Bounded-if-pair b _ _ (record { retired = h.retired; orphaned = h.orphaned; pending = le })
        (Bounded-set_error e _ g _
          (record { retired = h.retired; orphaned = h.orphaned; pending = le' })))

Bounded-orphans :
    (l : List Text) (s : Facade)
    → length l ≤ 32
    → Bounded s
    → Bounded (record s { orphaned_starts = l })
Bounded-orphans l s le h = ground arith

Bounded-cleared :
    (g : ℕ) (type : RequestType) (s : Facade)
    → Bounded s
    → Bounded (clear_pending_requests g type s)
unfolding clear_pending_requests
Bounded-cleared g type s h =
    Bounded-pending (clear g type s.pending_requests) s
      (omega (arith, length-clear g type s.pending_requests, h.pending)) h
