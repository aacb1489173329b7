-- ===== src/Call/Steps/Bounds/Events.antt =====
-- What the events of the server, in home/call-facade.service.ts, leave to remember.
use zwei.Common.{
  ℕ, ◌≤◌, inl, inr, not, ◌&&◌, ◌||◌, Option, none, some, List, [], ◌∷◌, arith, if◌then◌else◌,
  String, is_some, Option-cases, length, any,
}
use zwei.Js.Text.{Text, text_eq}
use zwei.Js.Value.{Value}
use zwei.Call.{
  CallPayload, Facade, Pending, shrink, same_text, is_current_generation, call_start, is_truthy,
  is_retired_call, matches,
}
use zwei.Call.Requests.{prune_pending_requests, drop_expired}
use zwei.Call.Control.{is_outgoing}
use zwei.Call.Events.{
  CallEvent, recovered, rejected, incoming_event, ringing_event, accepted_event, declined_event,
  ended_event, signal_event, handle_event, handle_rejected, handle_incoming, take_accepted,
  take_signal, handle_ringing, handle_over, can_adopt_early_accepted, adopt, note_support,
  is_caller, without, pending_for, drop_orphan,
}
use zwei.Call.Steps.Bounds.{
  length-shrink, length-delete, Bounded, Bounded-terminal, Bounded-logged, Bounded-state,
  Bounded-if, Bounded-pending, Bounded-set_error, Bounded-orphans, Bounded-cleared,
}

length-drop_orphan : (c : Text) (xs : List Text) → length (drop_orphan c xs) ≤ length xs
length-drop_orphan c [] = omega arith
length-drop_orphan c (x ∷ xs) = ground (arith, length-drop_orphan c xs)

Bounded-noted : (r : Option Text) (s : Facade) → Bounded s → Bounded (note_support r s)
Bounded-noted r s h = Bounded-if (is_truthy r) _ _ (Bounded-state _ s h) h

length-without : (r : Option Text) (l : List Pending) → length (without r l) ≤ length l
length-without none l = omega arith
length-without (some id) l = ground (arith, length-delete id l)

Bounded-rejected :
    (n : ℕ) (e : Text) (r : Option Text) (w : Text) (f : Option Text) (s : Facade)
    → Bounded s
    → Bounded (handle_rejected n e r w f s)
unfolding handle_rejected prune_pending_requests
Bounded-rejected n e r w f s h =
    let kept = shrink 128 (drop_expired n s.pending_requests) in
    let u = record s { pending_requests = without r kept } in
    let le : length (without r kept) ≤ 129 =
      omega (arith, length-without r kept, length-shrink 128 (drop_expired n s.pending_requests)) in
    let hu = Bounded-pending (without r kept) s le h in
    elim (Option-cases (pending_for r kept)) [
      | inl unknown ↦ rw (unknown, handle_rejected) hu
      | inr (request, there) ↦
          rw (there, handle_rejected)
            (Bounded-if (is_current_generation request.generation u) _ _
              (Bounded-set_error e _ request.generation _ (Bounded-noted f u hu)) hu)
    ]

Bounded-adopt : (q : CallPayload) (l : String) (s : Facade) → Bounded s → Bounded (adopt q l s)
unfolding adopt
Bounded-adopt q l s h = Bounded-state _ _ (Bounded-cleared s.call_generation call_start s h)

Bounded-incoming :
    (i : Text) (q : CallPayload) (s : Facade) → Bounded s → Bounded (handle_incoming i q s)
unfolding handle_incoming
Bounded-incoming i q s h = ground arith

Bounded-accepted : (q : CallPayload) (s : Facade) → Bounded s → Bounded (take_accepted q s)
unfolding take_accepted
Bounded-accepted q s h =
    let t =
      if not (is_some s.state.call_id) && can_adopt_early_accepted q s
      then adopt q "Connecting call..." s
      else s in
    let ht =
      Bounded-if (not (is_some s.state.call_id) && can_adopt_early_accepted q s) _ _
        (Bounded-adopt q "Connecting call..." s h) h in
    Bounded-if (not (matches q.call_id t)) _ _ ht (Bounded-logged _ t ht)

Bounded-signal : (i : Text) (v : Value) (s : Facade) → Bounded s → Bounded (take_signal i v s)
unfolding take_signal
Bounded-signal i v s h = ground arith

Bounded-ringing :
    (i : Text) (q : CallPayload) (s : Facade) → Bounded s → Bounded (handle_ringing i q s)
unfolding handle_ringing
Bounded-ringing i q s h =
    let dropped =
      Bounded-orphans (drop_orphan q.conversation_id s.orphaned_starts) s
        (omega (arith, length-drop_orphan q.conversation_id s.orphaned_starts, h.orphaned)) h in
    Bounded-if
      (not (is_some s.state.call_id)
        && is_caller s.state.role
        && is_outgoing s.state.phase
        && same_text s.state.conversation_id q.conversation_id
        && not (is_retired_call q.call_id s))
      _ _ (Bounded-adopt q "Ringing..." _ dropped)
      (Bounded-if (any (text_eq q.conversation_id) s.orphaned_starts) _ _
        (Bounded-logged _ _ dropped) h)

Bounded-over : (l : String) (q : CallPayload) (s : Facade) → Bounded s → Bounded (handle_over l q s)
unfolding handle_over
Bounded-over l q s h =
    Bounded-if (is_retired_call q.call_id s || not (matches q.call_id s)) _ _ h
      (Bounded-terminal l s.call_generation _ (Bounded-noted q.support_ref s h))

pub Bounded-event :
    (n : ℕ) (i : Text) (event : CallEvent) (s : Facade)
    → Bounded s
    → Bounded (handle_event n i event s)
unfolding handle_event
Bounded-event n i recovered s h = h
Bounded-event n i (rejected r w f) s h = Bounded-rejected n i r w f s h
Bounded-event n i (incoming_event q) s h =
    Bounded-if (is_retired_call q.call_id s) _ _ h (Bounded-incoming i q s h)
Bounded-event n i (accepted_event q) s h =
    Bounded-if (is_retired_call q.call_id s) _ _ h (Bounded-accepted q s h)
Bounded-event n i (signal_event c v) s h =
    Bounded-if (is_retired_call c s) _ _ h (Bounded-signal c v s h)
Bounded-event n i (ringing_event q) s h = Bounded-ringing i q s h
Bounded-event n i (declined_event q) s h = Bounded-over "Call declined." q s h
Bounded-event n i (ended_event q) s h =
    Bounded-over (if is_outgoing s.state.phase then "No answer." else "Call ended.") q s h
