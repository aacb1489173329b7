-- ===== src/Transport/Steps/Invariant.antt =====
-- What holds of the connection whatever happens to it.
use zwei.Common.{
  ℕ, ◌≤◌, ◌<◌, ◌≡◌, refl, ◌⊎◌, Bool, true, false, not, ◌&&◌, ◌||◌, Option, none, some, ◌∷◌, arith,
  if◌then◌else◌, is_some,
}
use zwei.Js.Text.{Text}
use zwei.Js.Value.{Value, prop, is_text, is_true}
use zwei.Protocol.Events.{is_valid_socket_event}
use zwei.Protocol.Diagnostics.{InvalidCandidate, invalid_group_candidate}
use zwei.Transport.{
  emit, emit_invalid, transmit, report, same_request, Transport, offline, ready, failed, Effect,
  initial, connect, schedule_reconnect, complete_recovery_if_ready, after_event, ticket_next,
  ticket_error, socket_opens, socket_closes, socket_ends, socket_next, timer_fires, get_observable,
  finish_recovery, fail_recovery, retry_now, close, is_current,
}
use zwei.Transport.Send.{versioned, reconcile_event, put, send, send_recovery, recover}
use zwei.Transport.Steps.{
  Action, ticket, no_ticket, opens, closes, ends, receives, timer, observes, finishes, retries,
  shuts, fails, sends, recovers, perform, last_request, is_timed, Allowed, Reach, observed,
  then_does,
}

pub record Inv (s : Transport) : Type 0 where
  pub started : s.started ≡ true
  pub open_socket : s.socket_open ≡ true → is_some s.socket ≡ true
  pub ready_open : s.socket_ready ≡ true → s.socket_open ≡ true
  pub ready_presence : s.socket_ready ≡ true → s.presence_snapshot_received ≡ true
  pub published_ready : s.published ≡ (s.socket_ready && not s.closed)
  pub ready_state : s.closed ≡ false → s.socket_ready ≡ true → s.connection_state ≡ ready
  pub closed_state : s.closed ≡ true → (s.connection_state ≡ offline) × (s.reconnect_timer ≡ none)
  pub timed_down : is_timed s ≡ true → (s.socket ≡ none) × (s.connection_state ≡ failed)
  pub requested : last_request s.log ≤ s.connection_generation
  pub timed_stale : is_timed s ≡ true → last_request s.log < s.connection_generation
  pub alive :
      s.closed ≡ false
      → (is_timed s ≡ true)
        ⊎ ((is_some s.socket ≡ true) ⊎ (last_request s.log ≡ s.connection_generation))

Inv-initial : Inv (get_observable initial)
unfolding get_observable connect
Inv-initial = ground arith

Inv-schedule_reconnect : (r : ℕ) (s : Transport) → Inv s → Inv (schedule_reconnect r s)
unfolding schedule_reconnect
Inv-schedule_reconnect r s h = ground arith

Inv-complete_recovery : (s : Transport) → Inv s → Inv (complete_recovery_if_ready s)
unfolding complete_recovery_if_ready
Inv-complete_recovery s h = ground arith

-- Changes of what the invariant does not read.
Inv-presence : (s : Transport) → Inv s → Inv (record s { presence_snapshot_received = true })
Inv-presence s h = ground arith

Inv-recovery :
    (o : Option Text) (s : Transport) → Inv s → Inv (record s { recovery_request_id = o })
Inv-recovery o s h = ground arith

Inv-logged :
    (e : Effect) (s : Transport)
    → last_request (e ∷ s.log) ≡ last_request s.log
    → Inv s
    → Inv (record s { log = e ∷ s.log })
Inv-logged e s same h = ground arith

Inv-if : (b : Bool) (s t : Transport) → Inv s → Inv t → Inv (if b then s else t)
Inv-if true s t hs ht = hs
Inv-if false s t hs ht = ht

Inv-report : (o : Option InvalidCandidate) (s : Transport) → Inv s → Inv (report o s)
Inv-report none s h = h
Inv-report (some c) s h = Inv-logged (emit_invalid c) s refl h

Inv-after_event : (v : Value) (s : Transport) → Inv s → Inv (after_event v s)
unfolding after_event
Inv-after_event v s h =
    let seen =
      Inv-complete_recovery (record s { presence_snapshot_received = true }) (Inv-presence s h) in
    let done =
      Inv-complete_recovery (record s { recovery_request_id = none }) (Inv-recovery none s h) in
    Inv-if (is_text (prop v "type") "presence.snapshot") _ _ seen (
      Inv-if
        (is_text (prop v "type") "conversation.reconciled"
          && same_request (prop v "request_id") s.recovery_request_id)
        _ _ (Inv-if (is_true (prop (prop v "payload") "has_more")) _ _ h done)
        (Inv-if
          (is_text (prop v "type") "message.rejected"
            && same_request (prop v "request_id") s.recovery_request_id)
          _ _ done h))

Inv-socket_next :
    (parses : Text → Bool) (g k : ℕ) (v : Value) (s : Transport)
    → Inv s
    → Inv (socket_next parses g k v s)
unfolding socket_next
Inv-socket_next parses g k v s h = Inv-if (not (is_current g k s)) _ _ h (
    Inv-if (not (is_valid_socket_event parses v)) _ _ (Inv-report (invalid_group_candidate v) s h)
      (Inv-after_event v (record s { log = emit v ∷ s.log }) (Inv-logged (emit v) s refl h)))

Inv-put : (throws : Bool) (r : ℕ) (v : Value) (s : Transport) → Inv s → Inv (put throws r v s).0
unfolding put
Inv-put true r v s h = Inv-schedule_reconnect r s h
Inv-put false r v s h = Inv-logged (transmit (versioned v)) s refl h

Inv-if-pair : (b : Bool) (x y : Transport × Bool) → Inv x.0 → Inv y.0 → Inv (if b then x else y).0
Inv-if-pair true x y hx hy = hx
Inv-if-pair false x y hx hy = hy

Inv-recover :
    (throws : Bool) (r : ℕ) (c : Text) (a : ℕ) (q : Text) (s : Transport)
    → Inv s
    → Inv (recover throws r c a q s).0
unfolding recover send_recovery
Inv-recover throws r c a q s h =
    let asked = Inv-recovery (some q) s h in
    let t = record s { recovery_request_id = some q } in
    Inv-if-pair (not s.socket_open || s.closed) (s, false)
      (if not (is_some t.socket) || not t.socket_open
        then (t, false)
        else put throws r (reconcile_event c a q) t)
      h
      (Inv-if-pair (not (is_some t.socket) || not t.socket_open) (t, false)
        (put throws r (reconcile_event c a q) t) asked
        (Inv-put throws r (reconcile_event c a q) t asked))

perform-Inv :
    (parses : Text → Bool) (a : Action) (s : Transport)
    → Inv s
    → Allowed a s
    → Inv (perform parses a s)
unfolding perform
perform-Inv parses (ticket g) s h ok = unfold ticket_next in ground arith
perform-Inv parses (no_ticket r g) s h ok =
    unfold ticket_error in ground (arith, Inv-schedule_reconnect r s h)
perform-Inv parses (opens g k) s h ok = unfold socket_opens is_current in ground arith
perform-Inv parses (closes g k) s h ok = unfold socket_closes is_current in ground arith
perform-Inv parses (ends r g k) s h ok =
    unfold socket_ends in ground (arith, Inv-schedule_reconnect r s h)
perform-Inv parses (receives g k v) s h ok = Inv-socket_next parses g k v s h
perform-Inv parses timer s h ok = unfold timer_fires connect in ground arith
perform-Inv parses observes s h ok = unfold get_observable in ground arith
perform-Inv parses finishes s h ok =
    unfold finish_recovery in
    Inv-complete_recovery (record s { recovery_request_id = none }) (Inv-recovery none s h)
perform-Inv parses retries s h ok = unfold retry_now connect in ground arith
perform-Inv parses shuts s h ok = unfold close in ground arith
perform-Inv parses (fails r) s h ok =
    unfold fail_recovery in ground (arith, Inv-schedule_reconnect r s h)
perform-Inv parses (sends throws r v) s h ok = unfold send in ground (arith, Inv-put throws r v s h)
perform-Inv parses (recovers throws r c a q) s h ok = Inv-recover throws r c a q s h

-- Of every state that an observed service can reach: it is started; an open socket is there; a ready
-- one is open and knows who is present; what it published as ready is that its socket is ready and
-- it is not closed; unless it is closed, a ready one says `ready`; a closed one says `offline` and
-- has no timer; while a timer is set, there is no socket, the state is `failed`, and every ticket
-- that was asked for is of an earlier generation; and unless it is closed it never stalls: a timer
-- is set, or there is a socket, or a ticket for the current generation was asked for.
pub Reach-Inv : {parses : Text → Bool} {s : Transport} → Reach parses s → Inv s
Reach-Inv observed = Inv-initial
Reach-Inv {parses} (then_does {s} a r ok) = perform-Inv parses a s (Reach-Inv r) ok
