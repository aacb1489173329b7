-- ===== src/Call/Steps/Rest.antt =====
-- `CallFacade` of home/call-facade.service.ts while no call is under way.
pub mod Control
pub mod Events
pub mod Media
pub mod Screen
pub mod Reached
pub mod Released
use zwei.Common.{
  ℕ, ◌+◌, ◌≤◌, ◌≡◌, refl, ◌⊎◌, inl, inr, Bool, true, false, not, ◌&&◌, ◌||◌, Option, none, some,
  List, [], ◌∷◌, ◌++◌, arith, if◌then◌else◌, String, is_some, Bool-cases, &&-true, Option-cases,
}
use zwei.Js.Text.{Text, is_empty}
use zwei.Js.Value.{Value}
use zwei.Call.{
  CallPhase, idle, ended, error, requesting, outgoing, incoming, connecting, active, CallState,
  CallPayload, Facade, Pending, Request, RequestType, initial, is_resting, finish, terminal,
  set_error, cleanup, invalidate_call_generation, retire_current_call, begin_call_generation,
  dismiss, shrink, control, is_current_generation, log_farewell, stop_stream, caller, call_start,
  call_decline, call_cancel, call_end, is_truthy, is_retired_call, matches, Effect, call_signal,
}
use zwei.Call.Requests.{
  send_request, prune_pending_requests, drop_expired, delete, set, get, clear,
  clear_pending_requests, pending_of,
}
use zwei.Call.Control.{
  show_recovered_ringing, start, start_granted, microphone_failure, accept, decline, cancel, end,
  toggle_mute, close, ready_changes, send_control, is_incoming, is_phase_requesting, or_empty,
  is_outgoing,
}
use zwei.Call.Events.{
  CallEvent, recovered, rejected, incoming_event, ringing_event, accepted_event, declined_event,
  ended_event, signal_event, handle_event, handle_rejected, handle_incoming, take_accepted,
  take_signal, handle_ringing, handle_over, can_adopt_early_accepted, adopt, note_support,
  is_caller, without, pending_for,
}
use zwei.Call.Media.{
  accepted_begins, accepted_goes_on, handle_signal_now, audio_track, connection_failed,
  ice_candidate, is_acceptable, create_connection, connected, apply_signal, apply_signals,
  send_signal, stop_new, same_stream, same_connection, or_else, peer_for, offer_to,
}
use zwei.Call.Steps.{
  Action, shows_ringing, starts, microphone, no_microphone, accepts, declines, cancels, ends, mutes,
  dismisses, closes, readies, hears, begins_accepted, goes_on, signals, hears_audio, fails,
  finds_candidate, perform, Allowed, Reach, begun, then_does,
}

-- No call, no connection, no stream, and nothing that waits.
pub record IsReleased (s : Facade) : Type 0 where
  pub call_id : s.state.call_id ≡ none
  pub connection : s.connection ≡ none
  pub local_stream : s.state.local_stream ≡ none
  pub screen_share_stream : s.state.screen_share_stream ≡ none
  pub pending_signals : s.pending_signals ≡ []
  pub pending_requests : s.pending_requests ≡ []

pub record Rests (s : Facade) : Type 0 where
  pub released : is_resting s.state.phase ≡ true → IsReleased s
  pub timed : s.dismiss_timer ≡ true → is_resting s.state.phase ≡ true

Rests-finish :
    (phase : CallPhase) (label : String) (failure : Option String) (s : Facade)
    → is_resting phase ≡ true
    → Rests (finish phase label failure s)
unfolding finish cleanup invalidate_call_generation
Rests-finish phase label failure s h = record {
  released = λ _. record {
    call_id = refl;
    connection = refl;
    local_stream = refl;
    screen_share_stream = refl;
    pending_signals = refl;
    pending_requests = refl;
  };
  timed = λ _. h;
}

Rests-terminal :
    (label : String) (generation : ℕ) (s : Facade) → Rests s → Rests (terminal label generation s)
unfolding terminal
Rests-terminal label generation s h = ground (arith, h, Rests-finish ended label none s refl)

Rests-set_error :
    (id : Text) (label : String) (generation : ℕ) (s : Facade)
    → Rests s
    → Rests (set_error id label generation s)
unfolding set_error
Rests-set_error id label generation s h = ground (
  arith,
  h,
  Rests-finish error label (some label) (record s { log = log_farewell id s.state s.log }) refl,
)

-- A call under way, with the timer off.
Rests-busy : (s : Facade) → is_resting s.state.phase ≡ false → s.dismiss_timer ≡ false → Rests s
Rests-busy s p q = ground arith

not_timed : (s : Facade) → Rests s → is_resting s.state.phase ≡ false → s.dismiss_timer ≡ false
not_timed s h p = elim (Bool-cases s.dismiss_timer) [ inl on ↦ ground arith | inr off ↦ off ]

Rests-if : (b : Bool) (s t : Facade) → Rests s → Rests t → Rests (if b then s else t)
Rests-if true s t hs ht = hs
Rests-if false s t hs ht = ht

Rests-if-pair :
    (b : Bool) (x y : Facade × Bool) → Rests x.0 → Rests y.0 → Rests (if b then x else y).0
Rests-if-pair true x y hx hy = hx
Rests-if-pair false x y hx hy = hy

Rests-send_request :
    (now : ℕ) (b : Bool) (e : Text) (r : Request) (g : ℕ) (s : Facade)
    → Rests s
    → is_resting s.state.phase ≡ false
    → Rests (send_request now b e r g s).0
unfolding send_request prune_pending_requests
Rests-send_request now b e r g s h p =
    let off = not_timed s h p in
    Rests-if-pair (not (is_current_generation g s)) _ _ h
      (Rests-if-pair b _ _ (Rests-busy _ p off) (Rests-set_error e _ g _ (Rests-busy _ p off)))

Rests-when :
    (b : Bool) (s t : Facade) → Rests s → (b ≡ false → Rests t) → Rests (if b then s else t)
Rests-when true s t hs ht = hs
Rests-when false s t hs ht = ht refl

Rests-logged : (l : List Effect) (s : Facade) → Rests s → Rests (record s { log = l })
Rests-logged l s h = ground arith
