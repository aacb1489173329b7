-- ===== src/Call/Steps/Bounds/Media.antt =====
-- What the signaling queue and the peer connection, in home/call-facade.service.ts, leave to remember.
use zwei.Common.{ℕ, Bool, true, false, Option, none, some, List, [], ◌∷◌, arith, if◌then◌else◌}
use zwei.Js.Text.{Text}
use zwei.Js.Value.{Value}
use zwei.Call.{connecting, CallPayload, Facade, stop_stream}
use zwei.Call.Events.{is_caller}
use zwei.Call.Media.{
  create_connection, connected, apply_signal, apply_signals, stop_new, same_stream, or_else,
  peer_for, offer_to,
}
use zwei.Call.Steps.Bounds.{Bounded, Bounded-logged, Bounded-if, Bounded-set_error}

Bounded-apply_all : (vs : List Value) (s : Facade) → Bounded s → Bounded (apply_signals vs s)
unfolding apply_signals apply_signal
Bounded-apply_all [] s h = h
Bounded-apply_all (v ∷ vs) s h = Bounded-apply_all vs (apply_signal v s) (ground arith)

Bounded-connected :
    (q : CallPayload) (stream : Option ℕ) (s : Facade) → Bounded s → Bounded (connected q stream s)
unfolding connected
Bounded-connected q stream s h =
    let t = record s {
      pending_signals = [];
      state = record s.state {
        phase = connecting;
        call_id = some q.call_id;
        support_ref = or_else q.support_ref s.state.support_ref;
        conversation_id = some q.conversation_id;
        peer_id = some (peer_for q s.state.role);
        local_stream = stream;
        status_label = "Connecting call...";
      };
    } in
    let u = apply_signals s.pending_signals t in
    Bounded-logged (if is_caller s.state.role then offer_to u.connection u.log else u.log) u
      (Bounded-apply_all s.pending_signals t (ground arith))

pub Bounded-stop_new : (k b : Option ℕ) (s : Facade) → Bounded s → Bounded (stop_new k b s)
Bounded-stop_new none b s h = h
Bounded-stop_new (some k) b s h =
    Bounded-if (same_stream (some k) b) _ _ h (Bounded-logged (stop_stream k ∷ s.log) s h)

pub Bounded-built :
    (b : Bool) (e : Text) (q : CallPayload) (stream before : Option ℕ) (s : Facade)
    → Bounded s
    → Bounded (
        let (t, built) = create_connection e b s in
        if built then connected q stream t else stop_new stream before t)
unfolding create_connection
Bounded-built true e q stream before s h = Bounded-connected q stream _ (ground arith)
Bounded-built false e q stream before s h =
    Bounded-stop_new stream before _ (Bounded-set_error e _ s.call_generation s h)
