-- ===== src/Call/Events.antt =====
-- The events of the server: `handleEvent` of home/call-facade.service.ts, and the callbacks of the
-- peer connection.
use zwei.Common.{
  ℕ, ◌+◌, Bool, true, false, not, ◌&&◌, ◌||◌, Option, none, some, List, [], ◌∷◌, leb, ◌==◌,
  if◌then◌else◌, length, any, String, is_some, take,
}
use zwei.Js.Text.{Text, text_eq, is_empty, codes}
use zwei.Js.Value.{Value, prop, is_text}
use zwei.Call.{
  CallRole, CallPayload, Operation, handle_accepted, handle_signal, Facade, Pending, incoming,
  caller, recipient, call_start, call_decline, call_cancel, send, enqueue, can_start, is_truthy,
  matches, same_text, set_error, terminal, is_current_generation, is_retired_call, control,
}
use zwei.Call.Requests.{prune_pending_requests, delete, get, clear_pending_requests, same_type}
use zwei.Call.Control.{is_outgoing}

-- `CallSocketEvent`.
pub data CallEvent : Type 0 where
  recovered : CallEvent
  rejected : Option Text → Text → Option Text → CallEvent
  incoming_event ringing_event accepted_event declined_event ended_event : CallPayload → CallEvent
  signal_event : Text → Value → CallEvent

-- `toLowerCase`, as far as an English word can tell, and `includes`.
abbrev lower : Text → Text
lower [] = []
lower (c ∷ s) = (if leb 65 c && leb c 90 then c + 32 else c) ∷ lower s

unfoldable pub includes : Text → Text → Bool
includes word [] = is_empty word
includes word (c ∷ s) =
    let rest = includes word s in text_eq (take (length word) (c ∷ s)) word || rest

-- `rejectionLabel`.
unfoldable pub rejection_label : Text → String
rejection_label error =
    if includes (codes "busy") (lower error)
    then "The recipient is busy."
    else if includes (codes "answer") (lower error) || includes (codes "timeout") (lower error)
    then "No answer."
    else "Call unavailable."

-- `if (support_ref) this.setState({...this.state, supportRef: support_ref})`.
abbrev pub note_support : Option Text → Facade → Facade
note_support ref s =
    if is_truthy ref then record s { state = record s.state { support_ref = ref } } else s

-- The answer to a request that was refused.
abbrev pub pending_for : Option Text → List Pending → Option Pending
pending_for none ps = none
pending_for (some id) ps = if is_empty id then none else get id ps

abbrev pub without : Option Text → List Pending → List Pending
without none ps = ps
without (some id) ps = if is_empty id then ps else delete id ps

unfoldable pub handle_rejected : ℕ → Text → Option Text → Text → Option Text → Facade → Facade
handle_rejected now error_id request_id error support_ref s =
    let t = prune_pending_requests now s in
    let u = record t { pending_requests = without request_id t.pending_requests } in
    elim (pending_for request_id t.pending_requests) [
      | none ↦ u
      | some request ↦
          if is_current_generation request.generation u
          then set_error error_id (rejection_label error) request.generation
              (note_support support_ref u)
          else u
    ]

-- `handleIncoming`.
unfoldable pub handle_incoming : Text → CallPayload → Facade → Facade
handle_incoming request_id payload s =
    if not (can_start s)
    then record s { log = send (control call_decline request_id payload.call_id) ∷ s.log }
    else record s {
      dismiss_timer = false;
      state = record s.state {
        phase = incoming;
        role = some recipient;
        call_id = some payload.call_id;
        support_ref = payload.support_ref;
        conversation_id = some payload.conversation_id;
        peer_id = some payload.caller_id;
        muted = false;
        status_label = "Incoming audio call.";
      };
    }

abbrev pub is_caller : Option CallRole → Bool
is_caller (some caller) = true
is_caller (some recipient) = false
is_caller none = false

abbrev pub is_recipient : Option CallRole → Bool
is_recipient (some caller) = false
is_recipient (some recipient) = true
is_recipient none = false

-- `canAdoptEarlyAccepted`.
unfoldable pub can_adopt_early_accepted : CallPayload → Facade → Bool
can_adopt_early_accepted payload s =
    is_outgoing s.state.phase
    && is_caller s.state.role
    && same_text s.state.conversation_id payload.conversation_id
    && is_some s.state.local_stream
    && any (λ p. (p.generation == s.call_generation) && same_type p.type call_start)
        s.pending_requests

abbrev pub queue : Operation → Facade → Facade
queue operation s = record s { log = enqueue operation ∷ s.log }

unfoldable pub adopt : CallPayload → String → Facade → Facade
adopt payload label s =
    let t = clear_pending_requests s.call_generation call_start s in
    record t {
      state = record t.state {
        call_id = some payload.call_id;
        support_ref = payload.support_ref;
        status_label = label;
      };
    }

unfoldable pub take_accepted : CallPayload → Facade → Facade
take_accepted payload s =
    let t =
      if not (is_some s.state.call_id) && can_adopt_early_accepted payload s
      then adopt payload "Connecting call..." s
      else s in
    if not (matches payload.call_id t) then t else queue (handle_accepted payload) t

-- `handleScreenLifecycleSignal`, which runs at once, or the queue.
unfoldable pub take_signal : Text → Value → Facade → Facade
take_signal call_id signal s =
    if is_text (prop signal "type") "screen-share-started"
      || is_text (prop signal "type") "screen-share-stopped"
    then (if not (matches call_id s) then s else record s {
      remote_screen_sharing = is_text (prop signal "type") "screen-share-started";
    })
    else queue (handle_signal call_id signal) s

abbrev pub drop_orphan : Text → List Text → List Text
drop_orphan c [] = []
drop_orphan c (x ∷ xs) = let rest = drop_orphan c xs in if text_eq c x then rest else x ∷ rest

-- The two branches for `call.ringing`.
unfoldable pub handle_ringing : Text → CallPayload → Facade → Facade
handle_ringing request_id payload s =
    if not (is_some s.state.call_id)
      && is_caller s.state.role
      && is_outgoing s.state.phase
      && same_text s.state.conversation_id payload.conversation_id
      && not (is_retired_call payload.call_id s)
    then adopt payload "Ringing..."
        (record s { orphaned_starts = drop_orphan payload.conversation_id s.orphaned_starts })
    else if any (text_eq payload.conversation_id) s.orphaned_starts
    then record s {
      orphaned_starts = drop_orphan payload.conversation_id s.orphaned_starts;
      log = send (control call_cancel request_id payload.call_id) ∷ s.log;
    }
    else s

-- The branch for `call.declined` and `call.ended`.
unfoldable pub handle_over : String → CallPayload → Facade → Facade
handle_over label payload s =
    if is_retired_call payload.call_id s || not (matches payload.call_id s)
    then s
    else terminal label s.call_generation (note_support payload.support_ref s)

-- `handleEvent`.
unfoldable pub handle_event : ℕ → Text → CallEvent → Facade → Facade
handle_event now id recovered s = s
handle_event now id (rejected request_id error support_ref) s =
    handle_rejected now id request_id error support_ref s
handle_event now id (incoming_event payload) s =
    if is_retired_call payload.call_id s then s else handle_incoming id payload s
handle_event now id (accepted_event payload) s =
    if is_retired_call payload.call_id s then s else take_accepted payload s
handle_event now id (signal_event call_id signal) s =
    if is_retired_call call_id s then s else take_signal call_id signal s
handle_event now id (ringing_event payload) s = handle_ringing id payload s
handle_event now id (declined_event payload) s = handle_over "Call declined." payload s
handle_event now id (ended_event payload) s =
    handle_over (if is_outgoing s.state.phase then "No answer." else "Call ended.") payload s
