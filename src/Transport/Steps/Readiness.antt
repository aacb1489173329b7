-- ===== src/Transport/Steps/Readiness.antt =====
-- How `DataProviderService` of home/data-provider.service.ts becomes ready.
use zwei.Common.{
  ℕ, ◌≡◌, refl, ◌⊎◌, inl, inr, Bool, true, false, not, ◌&&◌, ◌||◌, Option, none, some, ◌∷◌, arith,
  if◌then◌else◌, is_some,
}
use zwei.Js.Text.{Text}
use zwei.Js.Value.{Value, prop, is_text, is_true}
use zwei.Protocol.Events.{is_valid_socket_event}
use zwei.Protocol.Diagnostics.{InvalidCandidate, invalid_group_candidate}
use zwei.Transport.{
  emit, report, same_request, Transport, connect, schedule_reconnect, is_truthy,
  complete_recovery_if_ready, after_event, ticket_next, ticket_error, socket_opens, socket_closes,
  socket_ends, socket_next, timer_fires, get_observable, finish_recovery, fail_recovery, retry_now,
  close, is_current,
}
use zwei.Transport.Send.{put, send, send_recovery, recover, reconcile_event}
use zwei.Transport.Steps.{
  Action, ticket, no_ticket, opens, closes, ends, receives, timer, observes, finishes, retries,
  shuts, fails, sends, recovers, perform,
}

-- The socket is open, who is present is known, and no conversation is being recovered.
abbrev pub IsRecovered : Transport → Type 0
IsRecovered s =
    (s.socket_open ≡ true)
    × (s.presence_snapshot_received ≡ true)
    × (is_truthy s.recovery_request_id ≡ false)

-- The service was ready, or it is right that it becomes so.
abbrev Earned : Bool → Transport → Type 0
Earned before t = t.published ≡ true → (before ≡ true) ⊎ IsRecovered t

Earned-if : (b p : Bool) (s t : Transport) → Earned p s → Earned p t → Earned p (if b then s else t)
Earned-if true p s t hs ht = hs
Earned-if false p s t hs ht = ht

Earned-if-pair :
    (b p : Bool) (x y : Transport × Bool)
    → Earned p x.0
    → Earned p y.0
    → Earned p (if b then x else y).0
Earned-if-pair true p x y hx hy = hx
Earned-if-pair false p x y hx hy = hy

Earned-complete_recovery :
    (p : Bool) (s : Transport) → Earned p s → Earned p (complete_recovery_if_ready s)
unfolding complete_recovery_if_ready
Earned-complete_recovery p s h q = ground arith

Earned-schedule :
    (p : Bool) (r : ℕ) (s : Transport) → Earned p s → Earned p (schedule_reconnect r s)
unfolding schedule_reconnect
Earned-schedule p r s h =
    Earned-if (s.closed || is_some s.reconnect_timer) p s _ h (λ q. ground arith)

Earned-put :
    (p throws : Bool) (r : ℕ) (v : Value) (s : Transport)
    → s.published ≡ p
    → Earned p (put throws r v s).0
unfolding put
Earned-put p true r v s e q = Earned-schedule p r s (λ u. inl (ground (arith, e, u))) q
Earned-put p false r v s e q = inl (ground arith)

Earned-after_event : (v : Value) (s : Transport) → Earned s.published (after_event v s)
unfolding after_event
Earned-after_event v s =
    let p = s.published in
    let seen = Earned-complete_recovery p (record s { presence_snapshot_received = true }) inl in
    let done = Earned-complete_recovery p (record s { recovery_request_id = none }) inl in
    Earned-if (is_text (prop v "type") "presence.snapshot") p _ _ seen (
      Earned-if
        (is_text (prop v "type") "conversation.reconciled"
          && same_request (prop v "request_id") s.recovery_request_id)
        p _ _ (Earned-if (is_true (prop (prop v "payload") "has_more")) p _ _ inl done)
        (Earned-if
          (is_text (prop v "type") "message.rejected"
            && same_request (prop v "request_id") s.recovery_request_id)
          p _ _ done inl))

Earned-report : (o : Option InvalidCandidate) (s : Transport) → Earned s.published (report o s)
Earned-report none s = λ q. inl q
Earned-report (some c) s = λ q. inl q

Earned-next :
    (parses : Text → Bool) (g k : ℕ) (v : Value) (s : Transport)
    → Earned s.published (socket_next parses g k v s)
unfolding socket_next
Earned-next parses g k v s = Earned-if (not (is_current g k s)) s.published _ _ inl (
    Earned-if (not (is_valid_socket_event parses v)) s.published _ _
      (Earned-report (invalid_group_candidate v) s)
      (Earned-after_event v (record s { log = emit v ∷ s.log })))

Earned-send :
    (throws : Bool) (r : ℕ) (v : Value) (s : Transport) → Earned s.published (send throws r v s).0
unfolding send
Earned-send throws r v s q = ground (arith, Earned-put s.published throws r v s refl, q)

Earned-recover :
    (throws : Bool) (r : ℕ) (c : Text) (a : ℕ) (x : Text) (s : Transport)
    → Earned s.published (recover throws r c a x s).0
unfolding recover send_recovery
Earned-recover throws r c a x s =
    let t = record s { recovery_request_id = some x } in
    Earned-if-pair (not s.socket_open || s.closed) s.published (s, false)
      (if not (is_some t.socket) || not t.socket_open
        then (t, false)
        else put throws r (reconcile_event c a x) t)
      inl
      (Earned-if-pair (not (is_some t.socket) || not t.socket_open) s.published (t, false)
        (put throws r (reconcile_event c a x) t) inl
        (Earned-put s.published throws r (reconcile_event c a x) t refl))

perform-Earned :
    (parses : Text → Bool) (a : Action) (s : Transport) → Earned s.published (perform parses a s)
unfolding perform ticket_next ticket_error socket_opens socket_closes socket_ends socket_next
    is_current finish_recovery fail_recovery retry_now close timer_fires connect get_observable send
    recover send_recovery
perform-Earned parses (ticket h) s q = ground arith
perform-Earned parses (no_ticket r h) s q = ground (arith, Earned-schedule s.published r s inl, q)
perform-Earned parses (opens h k) s q = ground arith
perform-Earned parses (closes h k) s q = ground arith
perform-Earned parses (ends r h k) s q = ground (arith, Earned-schedule s.published r s inl, q)
perform-Earned parses (receives h k v) s q = Earned-next parses h k v s q
perform-Earned parses timer s q = ground arith
perform-Earned parses observes s q = ground arith
perform-Earned parses finishes s q =
    Earned-complete_recovery s.published (record s { recovery_request_id = none }) inl q
perform-Earned parses retries s q = ground arith
perform-Earned parses shuts s q = ground arith
perform-Earned parses (fails r) s q = ground (arith, Earned-schedule s.published r s inl, q)
perform-Earned parses (sends b r v) s q = Earned-send b r v s q
perform-Earned parses (recovers b r c x y) s q = Earned-recover b r c x y s q

-- Whatever happens, a service that becomes ready has its socket open, knows who is present and waits
-- for no conversation to be recovered.
pub becomes_ready :
    (parses : Text → Bool) (a : Action) (s : Transport)
    → s.published ≡ false
    → (perform parses a s).published ≡ true
    → IsRecovered (perform parses a s)
becomes_ready parses a s before after = elim (perform-Earned parses a s after) [
  | inl e ↦ ground (arith, before, e)
  | inr h ↦ h
]
