-- ===== src/Transport/Steps/Closing.antt =====
-- What `DataProviderService` of home/data-provider.service.ts does once it is closed.
use zwei.Common.{ℕ, ◌≡◌, Bool, true, false, none, List, [], ◌∷◌, arith}
use zwei.Js.Text.{Text}
use zwei.Js.Value.{Value}
use zwei.Transport.{
  Transport, Effect, request_ticket, emit, emit_invalid, transmit, complete_socket, complete_events,
  offline, connect, schedule_reconnect, complete_recovery_if_ready, ticket_next, ticket_error,
  socket_opens, socket_closes, socket_ends, socket_next, timer_fires, get_observable,
  finish_recovery, fail_recovery, retry_now, close, is_current,
}
use zwei.Transport.Send.{put, is_refused, send, send_recovery, recover}
use zwei.Transport.Steps.{
  Action, ticket, no_ticket, opens, closes, ends, receives, timer, observes, finishes, retries,
  shuts, fails, sends, recovers, perform, Reach,
}
use zwei.Transport.Steps.Invariant.{Reach-Inv}

abbrev pub run : (Text → Bool) → List Action → Transport → Transport
run parses [] s = s
run parses (a ∷ r) s = run parses r (perform parses a s)

-- What was done besides the frames that were sent.
abbrev pub heard : List Effect → List Effect
heard [] = []
heard (transmit v ∷ r) = heard r
heard (request_ticket g ∷ r) = request_ticket g ∷ heard r
heard (emit v ∷ r) = emit v ∷ heard r
heard (emit_invalid c ∷ r) = emit_invalid c ∷ heard r
heard (complete_socket k ∷ r) = complete_socket k ∷ heard r
heard (complete_events ∷ r) = complete_events ∷ heard r

pub record IsShut (l : List Effect) (s : Transport) : Type 0 where
  pub closed : s.closed ≡ true
  pub started : s.started ≡ true
  pub published : s.published ≡ false
  pub reconnect_timer : s.reconnect_timer ≡ none
  pub connection_state : s.connection_state ≡ offline
  pub log : heard s.log ≡ l

IsShut-put :
    (throws : Bool) (r : ℕ) (v : Value) (l : List Effect) (s : Transport)
    → IsShut l s
    → IsShut l (put throws r v s).0
unfolding put schedule_reconnect
IsShut-put true r v l s q = ground arith
IsShut-put false r v l s q = ground arith

IsShut-send :
    (throws : Bool) (r : ℕ) (v : Value) (l : List Effect) (s : Transport)
    → IsShut l s
    → IsShut l (send throws r v s).0
unfolding send
IsShut-send throws r v l s q = ground (arith, IsShut-put throws r v l s q)

IsShut-recover :
    (throws : Bool) (r : ℕ) (c : Text) (a : ℕ) (x : Text) (l : List Effect) (s : Transport)
    → IsShut l s
    → IsShut l (recover throws r c a x s).0
unfolding recover
IsShut-recover throws r c a x l s q = ground arith

module _ (parses : Text → Bool) where
  perform-IsShut :
      (l : List Effect) (a : Action) (s : Transport) → IsShut l s → IsShut l (perform parses a s)
  unfolding perform ticket_next ticket_error socket_opens socket_closes socket_ends socket_next
      is_current finish_recovery fail_recovery retry_now close complete_recovery_if_ready
      timer_fires connect get_observable send put recover send_recovery
  perform-IsShut l (ticket h) s q = ground arith
  perform-IsShut l (no_ticket r h) s q = ground arith
  perform-IsShut l (opens h k) s q = ground arith
  perform-IsShut l (closes h k) s q = ground arith
  perform-IsShut l (ends r h k) s q = ground arith
  perform-IsShut l (receives h k v) s q = ground arith
  perform-IsShut l timer s q = ground arith
  perform-IsShut l observes s q = ground arith
  perform-IsShut l finishes s q = ground arith
  perform-IsShut l retries s q = ground arith
  perform-IsShut l shuts s q = ground arith
  perform-IsShut l (fails r) s q = ground arith
  perform-IsShut l (sends b r v) s q = IsShut-send b r v l s q
  perform-IsShut l (recovers b r c a x) s q = IsShut-recover b r c a x l s q

  run-IsShut :
      (l : List Effect) (actions : List Action) (s : Transport)
      → IsShut l s
      → IsShut l (run parses actions s)
  run-IsShut l [] s q = q
  run-IsShut l (a ∷ r) s q = run-IsShut l r (perform parses a s) (perform-IsShut l a s q)

  -- Whatever is done to a service that was closed, it stays closed, offline and without a timer, has
  -- last published that it is not ready, and does nothing but to hand frames to the socket that it
  -- had.
  pub run-closed :
      (s : Transport) (actions : List Action)
      → Reach parses s
      → s.closed ≡ true
      → IsShut (heard s.log) (run parses actions s)
  run-closed s actions r c =
      let h = Reach-Inv r in run-IsShut (heard s.log) actions s (ground (arith, h, c))

  -- A service that is closed while it is ready accepts an event as if it could still be sent.
  pub send-close :
      (s : Transport) (random : ℕ) (event : Value)
      → Reach parses s
      → s.closed ≡ false
      → s.socket_ready ≡ true
      → is_refused event ≡ false
      → (send false random event (close s)).1 ≡ true
  unfolding send put close
  send-close s random event r c ready_now ok = let h = Reach-Inv r in rw ok (ground (arith, h))
