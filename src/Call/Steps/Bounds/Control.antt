-- ===== src/Call/Steps/Bounds/Control.antt =====
-- What the methods that the user calls, in home/call-facade.service.ts, remember.
use zwei.Common.{
  ℕ, ◌≤◌, Bool, false, not, ◌&&◌, ◌||◌, Option, none, some, List, ◌∷◌, arith, String, length,
}
use zwei.Js.Text.{Text}
use zwei.Call.{
  outgoing, Facade, RequestType, is_resting, cleanup, invalidate_call_generation, shrink, control,
  is_current_generation, stop_stream, caller, call_start, is_truthy,
}
use zwei.Call.Requests.{send_request}
use zwei.Call.Control.{
  start_granted, accept, close, ready_changes, send_control, is_incoming, is_phase_requesting,
  or_empty, orphan,
}
use zwei.Call.Steps.Bounds.{
  length-shrink, length-add, Bounded, Bounded-terminal, Bounded-logged, Bounded-state, Bounded-if,
  Bounded-set_error, Bounded-send_request, Bounded-orphans,
}

pub Bounded-granted :
    (n : ℕ) (b : Bool) (i e c p : Text) (g k : ℕ) (s : Facade)
    → Bounded s
    → Bounded (start_granted n b i e c p g k s)
unfolding start_granted
Bounded-granted n b i e c p g k s h =
    let t = record s {
      state = record s.state {
        phase = outgoing;
        role = some caller;
        conversation_id = some c;
        peer_id = some p;
        muted = false;
        local_stream = some k;
        status_label = "Calling...";
      };
    } in
    let x = send_request n b e (control call_start i c) g t in
    let sent =
      Bounded-send_request n b e (control call_start i c) g t (Bounded-state t.state s h) in
    Bounded-if (not (is_current_generation g s) || not (is_phase_requesting s.state.phase)) _ _
      (Bounded-logged (stop_stream k ∷ s.log) s h)
      (Bounded-if x.1 _ _ sent (Bounded-logged (stop_stream k ∷ x.0.log) x.0 sent))

pub Bounded-accept :
    (n : ℕ) (b : Bool) (i e : Text) (s : Facade) → Bounded s → Bounded (accept n b i e s)
unfolding accept
Bounded-accept n b i e s h =
    Bounded-if (not (is_incoming s.state.phase) || not (is_truthy s.state.call_id)) _ _ h
      (Bounded-send_request n b e _ s.call_generation _ (Bounded-state _ s h))

pub Bounded-control :
    (n : ℕ) (b : Bool) (i e : Text) (type : RequestType) (label : String) (s : Facade)
    → Bounded s
    → Bounded (send_control n b i e type label s)
unfolding send_control
Bounded-control n b i e type label s h =
    let r = control type i (or_empty s.state.call_id) in
    let x = send_request n b e r s.call_generation s in
    let sent = Bounded-send_request n b e r s.call_generation s h in
    Bounded-if (not (is_truthy s.state.call_id)) _ _ (Bounded-terminal label s.call_generation s h)
      (Bounded-if x.1 _ _ (Bounded-terminal label s.call_generation x.0 sent) sent)

pub Bounded-close : (i : Text) (s : Facade) → Bounded s → Bounded (close i s)
unfolding close cleanup invalidate_call_generation
Bounded-close i s h = ground arith

length-orphan : (c : Option Text) (xs : List Text) → length xs ≤ 32 → length (orphan c xs) ≤ 32
length-orphan none xs le = le
length-orphan (some c) xs le = omega (arith, length-add c (shrink 31 xs), length-shrink 31 xs)

pub Bounded-ready : (e : Text) (b : Bool) (s : Facade) → Bounded s → Bounded (ready_changes e b s)
unfolding ready_changes
Bounded-ready e b s h = Bounded-if (b || is_resting s.state.phase) _ _ h (
    Bounded-set_error e "Realtime connection lost. Reconnecting..." s.call_generation _ (
      Bounded-if (not (is_truthy s.state.call_id) && is_truthy s.state.conversation_id) _ _
        (Bounded-orphans (orphan s.state.conversation_id s.orphaned_starts) s
          (length-orphan s.state.conversation_id s.orphaned_starts h.orphaned) h)
        h))
