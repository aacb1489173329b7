-- ===== src/Call/Steps/Rest/Events.antt =====
-- The events of the server, in home/call-facade.service.ts, and the invariant of Rest.
use zwei.Common.{
  ℕ, ◌≡◌, inl, inr, not, ◌||◌, Option, List, [], arith, if◌then◌else◌, String, Option-cases,
}
use zwei.Js.Text.{Text}
use zwei.Js.Value.{Value}
use zwei.Call.{
  CallPayload, Facade, Pending, shrink, is_current_generation, is_truthy, is_retired_call, matches,
}
use zwei.Call.Requests.{prune_pending_requests, drop_expired, delete, clear_pending_requests}
use zwei.Call.Control.{is_outgoing}
use zwei.Call.Events.{
  CallEvent, recovered, rejected, incoming_event, ringing_event, accepted_event, declined_event,
  ended_event, signal_event, handle_event, handle_rejected, handle_incoming, take_accepted,
  take_signal, handle_ringing, handle_over, can_adopt_early_accepted, adopt, note_support, without,
  pending_for,
}
use zwei.Call.Steps.Rest.{Rests, Rests-terminal, Rests-set_error, Rests-if}

Rests-prune : (n : ℕ) (s : Facade) → Rests s → Rests (prune_pending_requests n s)
unfolding prune_pending_requests shrink drop_expired
Rests-prune n s h = ground arith

Rests-incoming : (i : Text) (q : CallPayload) (s : Facade) → Rests s → Rests (handle_incoming i q s)
unfolding handle_incoming
Rests-incoming i q s h = ground arith

Rests-accepted : (q : CallPayload) (s : Facade) → Rests s → Rests (take_accepted q s)
unfolding take_accepted adopt clear_pending_requests can_adopt_early_accepted
Rests-accepted q s h = ground arith

Rests-signal : (i : Text) (v : Value) (s : Facade) → Rests s → Rests (take_signal i v s)
unfolding take_signal
Rests-signal i v s h = ground arith

Rests-ringing : (i : Text) (q : CallPayload) (s : Facade) → Rests s → Rests (handle_ringing i q s)
unfolding handle_ringing adopt clear_pending_requests
Rests-ringing i q s h = ground arith

Rests-noted : (r : Option Text) (s : Facade) → Rests s → Rests (note_support r s)
Rests-noted r s h = Rests-if (is_truthy r) _ _ (ground arith) h

without-nil : (r : Option Text) (l : List Pending) → l ≡ [] → without r l ≡ []
unfolding delete
without-nil r l e = ground arith

Rests-without :
    (l : List Pending) (s : Facade)
    → (s.pending_requests ≡ [] → l ≡ [])
    → Rests s
    → Rests (record s { pending_requests = l })
Rests-without l s e h = ground arith

Rests-rejected :
    (n : ℕ) (e : Text) (r : Option Text) (w : Text) (f : Option Text) (s : Facade)
    → Rests s
    → Rests (handle_rejected n e r w f s)
unfolding handle_rejected
Rests-rejected n e r w f s h =
    let t = prune_pending_requests n s in
    let u = record t { pending_requests = without r t.pending_requests } in
    let hu =
      Rests-without (without r t.pending_requests) t (without-nil r t.pending_requests)
        (Rests-prune n s h) in
    elim (Option-cases (pending_for r t.pending_requests)) [
      | inl none_there ↦ rw (none_there, handle_rejected) hu
      | inr (request, there) ↦
          rw (there, handle_rejected)
            (Rests-if (is_current_generation request.generation u) _ _
              (Rests-set_error e _ request.generation _ (Rests-noted f u hu)) hu)
    ]

Rests-over : (l : String) (q : CallPayload) (s : Facade) → Rests s → Rests (handle_over l q s)
unfolding handle_over
Rests-over l q s h =
    Rests-if (is_retired_call q.call_id s || not (matches q.call_id s)) _ _ h
      (Rests-terminal l s.call_generation _ (Rests-noted q.support_ref s h))

pub Rests-event :
    (n : ℕ) (i : Text) (event : CallEvent) (s : Facade) → Rests s → Rests (handle_event n i event s)
unfolding handle_event
Rests-event n i recovered s h = h
Rests-event n i (rejected r w f) s h = Rests-rejected n i r w f s h
Rests-event n i (incoming_event q) s h =
    Rests-if (is_retired_call q.call_id s) _ _ h (Rests-incoming i q s h)
Rests-event n i (accepted_event q) s h =
    Rests-if (is_retired_call q.call_id s) _ _ h (Rests-accepted q s h)
Rests-event n i (signal_event c v) s h = Rests-if (is_retired_call c s) _ _ h (Rests-signal c v s h)
Rests-event n i (ringing_event q) s h = Rests-ringing i q s h
Rests-event n i (declined_event q) s h = Rests-over "Call declined." q s h
Rests-event n i (ended_event q) s h =
    Rests-over (if is_outgoing s.state.phase then "No answer." else "Call ended.") q s h
