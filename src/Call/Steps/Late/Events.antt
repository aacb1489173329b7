-- ===== src/Call/Steps/Late/Events.antt =====
-- The events of the server, the connection and the screen, in home/call-facade.service.ts, and the
-- generation of the call.
use zwei.Common.{
  ℕ, Bool, true, false, not, ◌&&◌, ◌||◌, Option, none, some, List, [], ◌∷◌, arith, if◌then◌else◌,
  String, is_some, any, inl, inr, Option-cases,
}
use zwei.Js.Text.{Text, is_empty, text_eq}
use zwei.Js.Value.{Value}
use zwei.Call.{
  CallPayload, Facade, connecting, shrink, same_text, is_current_generation, is_truthy,
  is_retired_call, matches,
}
use zwei.Call.Requests.{prune_pending_requests, clear_pending_requests, drop_expired}
use zwei.Call.Control.{is_outgoing}
use zwei.Call.Events.{
  CallEvent, recovered, rejected, incoming_event, ringing_event, accepted_event, declined_event,
  ended_event, signal_event, handle_event, handle_rejected, handle_incoming, take_accepted,
  take_signal, handle_ringing, handle_over, can_adopt_early_accepted, adopt, note_support,
  is_caller, without, pending_for,
}
use zwei.Call.Media.{
  create_connection, connected, apply_signal, apply_signals, send_signal, stop_new, same_stream,
  or_else, peer_for,
}
use zwei.Call.Screen.{
  Capture, screen_shared, screen_share_stopped, screen_audio_stopped, is_current_connection,
  offer_again,
}
use zwei.Call.Steps.Late.Growth.{
  IsFrom, IsFrom-if, IsFrom-terminal, IsFrom-set_error, IsFrom-send_request,
}

module _ (n : ℕ) where
  IsFrom-noted : (r : Option Text) (s : Facade) → IsFrom n s → IsFrom n (note_support r s)
  IsFrom-noted r s h = IsFrom-if n (is_truthy r) _ _ (record { since = h.since }) h

  IsFrom-rejected :
      (m : ℕ) (e : Text) (r : Option Text) (w : Text) (f : Option Text) (s : Facade)
      → IsFrom n s
      → IsFrom n (handle_rejected m e r w f s)
  unfolding handle_rejected prune_pending_requests
  IsFrom-rejected m e r w f s h =
      let kept = shrink 128 (drop_expired m s.pending_requests) in
      let u = record s { pending_requests = without r kept } in
      let hu : IsFrom n u = record { since = h.since } in
      elim (Option-cases (pending_for r kept)) [
        | inl unknown ↦ rw (unknown, handle_rejected) hu
        | inr (request, there) ↦
            rw (there, handle_rejected)
              (IsFrom-if n (is_current_generation request.generation u) _ _
                (IsFrom-set_error n e _ request.generation _ (IsFrom-noted f u hu)) hu)
      ]

  IsFrom-adopt : (q : CallPayload) (l : String) (s : Facade) → IsFrom n s → IsFrom n (adopt q l s)
  unfolding adopt clear_pending_requests
  IsFrom-adopt q l s h = record { since = h.since }

  IsFrom-incoming :
      (i : Text) (q : CallPayload) (s : Facade) → IsFrom n s → IsFrom n (handle_incoming i q s)
  unfolding handle_incoming
  IsFrom-incoming i q s h = ground arith

  IsFrom-accepted : (q : CallPayload) (s : Facade) → IsFrom n s → IsFrom n (take_accepted q s)
  unfolding take_accepted
  IsFrom-accepted q s h =
      let t =
        if not (is_some s.state.call_id) && can_adopt_early_accepted q s
        then adopt q "Connecting call..." s
        else s in
      let ht =
        IsFrom-if n (not (is_some s.state.call_id) && can_adopt_early_accepted q s) _ _
          (IsFrom-adopt q "Connecting call..." s h) h in
      IsFrom-if n (not (matches q.call_id t)) _ _ ht (record { since = ht.since })

  IsFrom-signal : (i : Text) (v : Value) (s : Facade) → IsFrom n s → IsFrom n (take_signal i v s)
  unfolding take_signal
  IsFrom-signal i v s h = ground arith

  IsFrom-ringing :
      (i : Text) (q : CallPayload) (s : Facade) → IsFrom n s → IsFrom n (handle_ringing i q s)
  unfolding handle_ringing
  IsFrom-ringing i q s h =
      IsFrom-if n
        (not (is_some s.state.call_id)
          && is_caller s.state.role
          && is_outgoing s.state.phase
          && same_text s.state.conversation_id q.conversation_id
          && not (is_retired_call q.call_id s))
        _ _ (IsFrom-adopt q "Ringing..." _ (record { since = h.since }))
        (IsFrom-if n (any (text_eq q.conversation_id) s.orphaned_starts) _ _
          (record { since = h.since }) h)

  IsFrom-over :
      (l : String) (q : CallPayload) (s : Facade) → IsFrom n s → IsFrom n (handle_over l q s)
  unfolding handle_over
  IsFrom-over l q s h =
      IsFrom-if n (is_retired_call q.call_id s || not (matches q.call_id s)) _ _ h
        (IsFrom-terminal n l s.call_generation _ (IsFrom-noted q.support_ref s h))

  pub IsFrom-event :
      (m : ℕ) (i : Text) (event : CallEvent) (s : Facade)
      → IsFrom n s
      → IsFrom n (handle_event m i event s)
  unfolding handle_event
  IsFrom-event m i recovered s h = h
  IsFrom-event m i (rejected r w f) s h = IsFrom-rejected m i r w f s h
  IsFrom-event m i (incoming_event q) s h =
      IsFrom-if n (is_retired_call q.call_id s) _ _ h (IsFrom-incoming i q s h)
  IsFrom-event m i (accepted_event q) s h =
      IsFrom-if n (is_retired_call q.call_id s) _ _ h (IsFrom-accepted q s h)
  IsFrom-event m i (signal_event c v) s h =
      IsFrom-if n (is_retired_call c s) _ _ h (IsFrom-signal c v s h)
  IsFrom-event m i (ringing_event q) s h = IsFrom-ringing i q s h
  IsFrom-event m i (declined_event q) s h = IsFrom-over "Call declined." q s h
  IsFrom-event m i (ended_event q) s h =
      IsFrom-over (if is_outgoing s.state.phase then "No answer." else "Call ended.") q s h

  IsFrom-apply_all : (vs : List Value) (s : Facade) → IsFrom n s → IsFrom n (apply_signals vs s)
  unfolding apply_signals apply_signal
  IsFrom-apply_all [] s h = h
  IsFrom-apply_all (v ∷ vs) s h = IsFrom-apply_all vs (apply_signal v s) (ground arith)

  IsFrom-connected :
      (q : CallPayload) (stream : Option ℕ) (s : Facade)
      → IsFrom n s
      → IsFrom n (connected q stream s)
  unfolding connected
  IsFrom-connected q stream s h =
      let t = record s {
        pending_signals = [];
        state = record s.state {
          phase = connecting;
          call_id = some q.call_id;
          support_ref = or_else q.support_ref s.state.support_ref;
          conversation_id = some q.conversation_id;
          peer_id = some (peer_for q s.state.role);
          local_stream = stream;
          status_label = "Connecting call...";
        };
      } in
      record { since = (IsFrom-apply_all s.pending_signals t (record { since = h.since })).since }

  pub IsFrom-stop_new : (k b : Option ℕ) (s : Facade) → IsFrom n s → IsFrom n (stop_new k b s)
  IsFrom-stop_new none b s h = h
  IsFrom-stop_new (some k) b s h =
      IsFrom-if n (same_stream (some k) b) _ _ h (record { since = h.since })

  pub IsFrom-built :
      (b : Bool) (e : Text) (q : CallPayload) (stream before : Option ℕ) (s : Facade)
      → IsFrom n s
      → IsFrom n (
          let (t, built) = create_connection e b s in
          if built then connected q stream t else stop_new stream before t)
  unfolding create_connection
  IsFrom-built true e q stream before s h = IsFrom-connected q stream _ (record { since = h.since })
  IsFrom-built false e q stream before s h =
      IsFrom-stop_new stream before _ (IsFrom-set_error n e _ s.call_generation s h)

  IsFrom-offer_again : (g k : ℕ) (s : Facade) → IsFrom n s → IsFrom n (offer_again g k s)
  IsFrom-offer_again g k s h =
      IsFrom-if n (is_current_connection g k s) _ _ (record { since = h.since }) h

  pub IsFrom-signals :
      (m : ℕ) (b : Bool) (i e : Text) (v : Value) (g : ℕ) (c : Text) (s : Facade)
      → IsFrom n s
      → IsFrom n (send_signal m b i e v g c s)
  unfolding send_signal
  IsFrom-signals m b i e v g c s h =
      IsFrom-if n (is_empty c || not (is_current_generation g s)) _ _ h
        (IsFrom-send_request n m b e _ g s h)

  pub IsFrom-shares :
      (m : ℕ) (b : Bool) (i e : Text) (g k : ℕ) (c : Text) (x : Capture) (s : Facade)
      → IsFrom n s
      → IsFrom n (screen_shared m b i e g k c x s)
  unfolding screen_shared
  IsFrom-shares m b i e g k c x s h =
      let again = IsFrom-if n x.has_sender _ _ (IsFrom-offer_again g k s h) h in
      IsFrom-if n (not (is_current_connection g k s) || not x.live) _ _
        (record { since = again.since })
        (IsFrom-if n (x.audio && x.audio_ended) _ _ (record { since = h.since })
          (IsFrom-offer_again g k _ (IsFrom-signals m b i e _ g c _ (record { since = h.since }))))

  pub IsFrom-stopped :
      (m : ℕ) (b : Bool) (i e : Text) (g k : ℕ) (c : Text) (s : Facade)
      → IsFrom n s
      → IsFrom n (screen_share_stopped m b i e g k c s)
  unfolding screen_share_stopped
  IsFrom-stopped m b i e g k c s h =
      IsFrom-if n (not (is_current_connection g k s)) _ _ h
        (IsFrom-offer_again g k _ (IsFrom-signals m b i e _ g c s h))

  pub IsFrom-stops_audio :
      (g k : ℕ) (s : Facade) → IsFrom n s → IsFrom n (screen_audio_stopped g k s)
  unfolding screen_audio_stopped
  IsFrom-stops_audio g k s h =
      IsFrom-if n (not (is_current_connection g k s)) _ _ h
        (IsFrom-offer_again g k _ (record { since = h.since }))
