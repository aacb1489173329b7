-- ===== src/Transport/Steps.antt =====
-- The connection as a state machine: what its clients, the browser and the server may do to
-- `DataProviderService` of home/data-provider.service.ts, in any order.
pub mod Invariant
pub mod Closing
pub mod Stale
pub mod Readiness
use zwei.Common.{ℕ, ◌≤◌, ◌≡◌, Bool, true, false, List, [], ◌∷◌, is_some}
use zwei.Js.Text.{Text}
use zwei.Js.Value.{Value}
use zwei.Transport.{
  Transport, Effect, request_ticket, emit, emit_invalid, transmit, complete_socket, complete_events,
  initial, ticket_next, ticket_error, socket_opens, socket_closes, socket_ends, socket_next,
  timer_fires, get_observable, finish_recovery, fail_recovery, retry_now, close, is_current,
}
use zwei.Transport.Send.{send, recover}

-- The numbers are those that a callback closes over, and the random number of a reconnection.
pub data Action : Type 0 where
  ticket : ℕ → Action
  no_ticket : ℕ → ℕ → Action
  opens closes : ℕ → ℕ → Action
  ends : ℕ → ℕ → ℕ → Action
  receives : ℕ → ℕ → Value → Action
  timer : Action
  observes finishes retries shuts : Action
  fails : ℕ → Action
  sends : Bool → ℕ → Value → Action
  recovers : Bool → ℕ → Text → ℕ → Text → Action

unfoldable pub perform : (Text → Bool) → Action → Transport → Transport
perform parses (ticket generation) s = ticket_next generation s
perform parses (no_ticket random generation) s = ticket_error random generation s
perform parses (opens generation socket) s = socket_opens generation socket s
perform parses (closes generation socket) s = socket_closes generation socket s
perform parses (ends random generation socket) s = socket_ends random generation socket s
perform parses (receives generation socket event) s = socket_next parses generation socket event s
perform parses timer s = timer_fires s
perform parses observes s = get_observable s
perform parses finishes s = finish_recovery s
perform parses retries s = retry_now s
perform parses shuts s = close s
perform parses (fails random) s = fail_recovery random s
perform parses (sends throws random event) s = (send throws random event s).0
perform parses (recovers throws random conversation after request) s =
    (recover throws random conversation after request s).0

-- The generation of the last request for a ticket.
abbrev pub last_request : List Effect → ℕ
last_request [] = 0
last_request (request_ticket g ∷ r) = g
last_request (emit v ∷ r) = last_request r
last_request (emit_invalid c ∷ r) = last_request r
last_request (transmit v ∷ r) = last_request r
last_request (complete_socket k ∷ r) = last_request r
last_request (complete_events ∷ r) = last_request r

abbrev pub is_timed : Transport → Bool
is_timed s = is_some s.reconnect_timer

-- What the environment keeps to: a ticket answers a request that was made, a socket opens once, and
-- the timer runs out only while it is set.
abbrev pub Allowed : Action → Transport → Type 0
Allowed (ticket g) s = g ≤ last_request s.log
Allowed (no_ticket r g) s = g ≤ last_request s.log
Allowed (opens g k) s = s.socket_open ≡ false
Allowed timer s = is_timed s ≡ true
Allowed _ s = Unit

-- A service that a client observes, after any of these.
pub data Reach (parses : Text → Bool) : Transport → Type 0 where
  observed : Reach parses (get_observable initial)
  then_does :
      {s : Transport} (a : Action)
      → Reach parses s
      → Allowed a s
      → Reach parses (perform parses a s)
