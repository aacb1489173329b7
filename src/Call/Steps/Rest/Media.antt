-- ===== src/Call/Steps/Rest/Media.antt =====
-- The signaling queue and the peer connection, in home/call-facade.service.ts, and the invariant of
-- Rest.
use zwei.Common.{
  ℕ, ◌≡◌, refl, Bool, true, false, not, ◌&&◌, ◌||◌, Option, none, some, List, [], ◌∷◌, arith,
  if◌then◌else◌, is_some, &&-true,
}
use zwei.Js.Text.{Text, is_empty}
use zwei.Js.Value.{Value}
use zwei.Call.{
  connecting, CallPayload, Facade, is_resting, is_current_generation, stop_stream, matches,
}
use zwei.Call.Requests.{clear_pending_requests}
use zwei.Call.Events.{is_caller}
use zwei.Call.Media.{
  accepted_begins, accepted_goes_on, handle_signal_now, audio_track, connection_failed,
  ice_candidate, is_acceptable, create_connection, connected, apply_signal, apply_signals,
  send_signal, stop_new, same_stream, same_connection, or_else, peer_for, offer_to,
}
use zwei.Call.Steps.Rest.{
  Rests, Rests-set_error, Rests-busy, not_timed, Rests-if, Rests-send_request, Rests-when,
  Rests-logged,
}

pub Rests-begins : (q : CallPayload) (s : Facade) → Rests s → Rests (accepted_begins q s)
unfolding accepted_begins is_acceptable clear_pending_requests
Rests-begins q s h = ground arith

pub Rests-audio : (g k : ℕ) (i : Text) (s : Facade) → Rests s → Rests (audio_track g k i s)
unfolding audio_track
Rests-audio g k i s h = ground arith

pub Rests-fails : (e : Text) (g k : ℕ) (s : Facade) → Rests s → Rests (connection_failed e g k s)
unfolding connection_failed
Rests-fails e g k s h =
    ground (arith, h, Rests-set_error e "Could not connect the audio call." g s h)

-- A signal that is applied changes neither the phase nor the timer.
abbrev IsBusy : Facade → Type 0
IsBusy s = (is_resting s.state.phase ≡ false) × (s.dismiss_timer ≡ false)

IsBusy-apply : (v : Value) (s : Facade) → IsBusy s → IsBusy (apply_signal v s)
unfolding apply_signal
IsBusy-apply v s h = ground arith

IsBusy-apply_all : (vs : List Value) (s : Facade) → IsBusy s → IsBusy (apply_signals vs s)
unfolding apply_signals
IsBusy-apply_all [] s h = h
IsBusy-apply_all (v ∷ vs) s h = IsBusy-apply_all vs (apply_signal v s) (IsBusy-apply v s h)

Rests-connected :
    (q : CallPayload) (stream : Option ℕ) (s : Facade)
    → s.dismiss_timer ≡ false
    → Rests (connected q stream s)
unfolding connected
Rests-connected q stream s off =
    let t = record s {
      pending_signals = [];
      state = record s.state {
        phase = connecting;
        call_id = some q.call_id;
        support_ref = or_else q.support_ref s.state.support_ref;
        conversation_id = some q.conversation_id;
        peer_id = some (peer_for q s.state.role);
        local_stream = stream;
        status_label = "Connecting call...";
      };
    } in
    let busy = IsBusy-apply_all s.pending_signals t (refl, off) in
    let u = apply_signals s.pending_signals t in
    Rests-logged (if is_caller s.state.role then offer_to u.connection u.log else u.log) u
      (Rests-busy u busy.0 busy.1)

Rests-stop_new : (k b : Option ℕ) (s : Facade) → Rests s → Rests (stop_new k b s)
Rests-stop_new none b s h = h
Rests-stop_new (some k) b s h =
    Rests-if (same_stream (some k) b) _ _ h (Rests-logged (stop_stream k ∷ s.log) s h)

matched : (c : Text) (s : Facade) → Rests s → matches c s ≡ true → is_resting s.state.phase ≡ false
matched c s h e = ground arith

-- Behind `createConnection`, whether it could be made or not.
Rests-built :
    (b : Bool) (e : Text) (q : CallPayload) (stream before : Option ℕ) (s : Facade)
    → Rests s
    → s.dismiss_timer ≡ false
    → Rests (
        let (t, built) = create_connection e b s in
        if built then connected q stream t else stop_new stream before t)
unfolding create_connection
Rests-built true e q stream before s h off = Rests-connected q stream _ off
Rests-built false e q stream before s h off =
    Rests-stop_new stream before _ (Rests-set_error e _ s.call_generation s h)

pub Rests-goes_on :
    (e : Text) (b : Bool) (q : CallPayload) (g : ℕ) (before stream : Option ℕ) (s : Facade)
    → Rests s
    → Rests (accepted_goes_on e b q g before stream s)
unfolding accepted_goes_on create_connection
Rests-goes_on e b q g before stream s h =
    Rests-when
      (not (is_current_generation g s) || not (matches q.call_id s) || not (is_some stream)) _ _
      (Rests-stop_new stream before s h)
      λ ready_now.
        (let off = not_timed s h (matched q.call_id s h (ground (arith, ready_now))) in
          Rests-built b e q stream before s h off)

pub Rests-signal_now :
    (c : Text) (v : Value) (s : Facade) → Rests s → Rests (handle_signal_now c v s)
unfolding handle_signal_now apply_signal
Rests-signal_now c v s h = ground arith

-- A connection that is there belongs to a call under way.
pub linked :
    (k : ℕ) (s : Facade)
    → Rests s
    → same_connection s.connection k ≡ true
    → is_resting s.state.phase ≡ false
linked k s h e = ground arith

Rests-unless :
    (b : Bool) (s t : Facade) → Rests s → (b ≡ true → Rests t) → Rests (if b then t else s)
Rests-unless true s t hs ht = ht refl
Rests-unless false s t hs ht = hs

pub Rests-candidate :
    (n : ℕ) (b : Bool) (i e : Text) (v : Value) (g k : ℕ) (c : Text) (s : Facade)
    → Rests s
    → Rests (ice_candidate n b i e v g k c s)
unfolding ice_candidate send_signal
Rests-candidate n b i e v g k c s h =
    Rests-unless (is_current_generation g s && same_connection s.connection k) _ _ h
      λ connected_now.
        Rests-if (is_empty c || not (is_current_generation g s)) _ _ h
          (Rests-send_request n b e _ g s h (linked k s h (&&-true _ _ connected_now).1))
