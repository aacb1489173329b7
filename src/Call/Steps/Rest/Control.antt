-- ===== src/Call/Steps/Rest/Control.antt =====
-- The methods that the user calls, in home/call-facade.service.ts, and the invariant of Rest.
use zwei.Common.{ℕ, ◌≡◌, refl, Bool, true, false, not, ◌&&◌, ◌||◌, some, ◌∷◌, arith, String}
use zwei.Js.Text.{Text}
use zwei.Call.{
  outgoing, Facade, RequestType, is_resting, cleanup, invalidate_call_generation,
  begin_call_generation, control, is_current_generation, stop_stream, caller, call_start, is_truthy,
}
use zwei.Call.Requests.{send_request}
use zwei.Call.Control.{
  show_recovered_ringing, start, start_granted, accept, toggle_mute, close, ready_changes,
  send_control, is_incoming, is_phase_requesting, or_empty,
}
use zwei.Call.Steps.Rest.{
  Rests, Rests-terminal, Rests-set_error, Rests-busy, not_timed, Rests-if, Rests-send_request,
  Rests-when, Rests-logged,
}

pub Rests-begin : (a b : Text) (s : Facade) → Rests s → Rests (start a b s)
unfolding start begin_call_generation
Rests-begin a b s h = ground arith

pub Rests-shows : (a b c : Text) (s : Facade) → Rests s → Rests (show_recovered_ringing a b c s)
unfolding show_recovered_ringing begin_call_generation
Rests-shows a b c s h = ground arith

pub Rests-granted :
    (n : ℕ) (b : Bool) (i e c p : Text) (g k : ℕ) (s : Facade)
    → Rests s
    → Rests (start_granted n b i e c p g k s)
unfolding start_granted
Rests-granted n b i e c p g k s h =
    Rests-when (not (is_current_generation g s) || not (is_phase_requesting s.state.phase)) _ _
      (Rests-logged (stop_stream k ∷ s.log) s h)
      λ asking.
        (let off = not_timed s h (ground (arith, asking)) in
          let t = record s {
            state = record s.state {
              phase = outgoing;
              role = some caller;
              conversation_id = some c;
              peer_id = some p;
              muted = false;
              local_stream = some k;
              status_label = "Calling...";
            };
          } in
          let x = send_request n b e (control call_start i c) g t in
          let sent =
            Rests-send_request n b e (control call_start i c) g t (Rests-busy t refl off) refl in
          Rests-if x.1 _ _ sent (Rests-logged (stop_stream k ∷ x.0.log) x.0 sent))

pub Rests-accept : (n : ℕ) (b : Bool) (i e : Text) (s : Facade) → Rests s → Rests (accept n b i e s)
unfolding accept
Rests-accept n b i e s h =
    Rests-when (not (is_incoming s.state.phase) || not (is_truthy s.state.call_id)) _ _ h λ ringing.
      (let off = not_timed s h (ground (arith, ringing)) in
        Rests-send_request n b e _ s.call_generation _ (Rests-busy _ refl off) refl)

-- A call that has an ID is under way.
in_call :
    (s : Facade) → Rests s → is_truthy s.state.call_id ≡ true → is_resting s.state.phase ≡ false
in_call s h called = ground arith

pub Rests-control :
    (n : ℕ) (b : Bool) (i e : Text) (type : RequestType) (label : String) (s : Facade)
    → Rests s
    → Rests (send_control n b i e type label s)
unfolding send_control
Rests-control n b i e type label s h =
    Rests-when (not (is_truthy s.state.call_id)) _ _ (Rests-terminal label s.call_generation s h)
      λ called.
        (let busy = in_call s h (ground (arith, called)) in
          let x =
            send_request n b e (control type i (or_empty s.state.call_id)) s.call_generation s in
          let sent =
            Rests-send_request n b e (control type i (or_empty s.state.call_id)) s.call_generation s
              h busy in
          Rests-if x.1 _ _ (Rests-terminal label s.call_generation x.0 sent) sent)

pub Rests-close : (i : Text) (s : Facade) → Rests (close i s)
unfolding close cleanup invalidate_call_generation
Rests-close i s = ground arith

pub Rests-ready : (e : Text) (b : Bool) (s : Facade) → Rests s → Rests (ready_changes e b s)
unfolding ready_changes
Rests-ready e b s h = Rests-if (b || is_resting s.state.phase) _ _ h (
    Rests-set_error e "Realtime connection lost. Reconnecting..." s.call_generation _ (
      Rests-if (not (is_truthy s.state.call_id) && is_truthy s.state.conversation_id) _ _
        (ground arith) h))

pub Rests-mute : (s : Facade) → Rests s → Rests (toggle_mute s)
unfolding toggle_mute
Rests-mute s h = ground arith
