-- ===== src/Transport.antt =====
-- The realtime connection: `DataProviderService` of frontend-app/src/app/home/data-provider.service.ts.
-- Each method and each callback is a function from the state to the state; a callback is given the
-- generation and the socket that it closes over.
pub mod Send
pub mod Backoff
pub mod Steps
mod Examples
use zwei.Common.{
  ℕ, suc, ◌+◌, ◌*◌, ◌/◌, ◌^◌, min, Bool, true, false, not, ◌&&◌, ◌||◌, Option, none, some, List, [],
  ◌∷◌, ◌==◌, if◌then◌else◌, is_some,
}
use zwei.Js.Text.{Text, text_eq, is_empty}
use zwei.Js.Value.{Value, prop, is_undefined, is_string, text_of, is_text, is_true}
use zwei.Protocol.Events.{is_valid_socket_event}
use zwei.Protocol.Diagnostics.{InvalidCandidate, invalid_group_candidate}

pub data ConnectionState : Type 0 where
  offline connecting recovering ready failed : ConnectionState

-- What the service does to the world.
pub data Effect : Type 0 where
  request_ticket : ℕ → Effect
  emit : Value → Effect
  emit_invalid : InvalidCandidate → Effect
  transmit : Value → Effect
  complete_socket : Option ℕ → Effect
  complete_events : Effect

-- `socket` names the socket by a number; `next_socket` is the name of the next one. A timer is known
-- by its delay. `log` is what was done, the last first. `published` is the value of `readySubject`.
pub record Transport : Type 0 where
  pub socket : Option ℕ
  pub socket_ready : Bool
  pub socket_open : Bool
  pub started : Bool
  pub closed : Bool
  pub reconnect_attempt : ℕ
  pub reconnect_timer : Option ℕ
  pub connection_generation : ℕ
  pub published : Bool
  pub connection_state : ConnectionState
  pub recovery_request_id : Option Text
  pub presence_snapshot_received : Bool
  pub next_socket : ℕ
  pub log : List Effect

abbrev pub initial : Transport
initial = record {
  socket = none;
  socket_ready = false;
  socket_open = false;
  started = false;
  closed = false;
  reconnect_attempt = 0;
  reconnect_timer = none;
  connection_generation = 0;
  published = false;
  connection_state = offline;
  recovery_request_id = none;
  presence_snapshot_received = false;
  next_socket = 0;
  log = [];
}

abbrev keep_failed : ConnectionState → ConnectionState
keep_failed failed = failed
keep_failed offline = connecting
keep_failed connecting = connecting
keep_failed recovering = connecting
keep_failed ready = connecting

-- `connect`, up to the request.
pub connect : Transport → Transport
connect s = if s.closed then s else record s {
  connection_state = keep_failed s.connection_state;
  connection_generation = s.connection_generation + 1;
  log = request_ticket (s.connection_generation + 1) ∷ s.log;
}

-- A random number in [0, 1), in units of 2 ^ -53, as `Math.random` gives it.
abbrev unit : ℕ
unit = 2 ^ 53

pub base_delay : ℕ → ℕ
base_delay attempt = min (1000 * 2 ^ min attempt 5) 30000

-- `Math.round(baseDelay * (0.8 + Math.min(1, Math.max(0, random)) * 0.4))`, over exact numbers.
pub reconnect_delay : ℕ → ℕ → ℕ
unfolding base_delay
reconnect_delay attempt random =
    (2 * (base_delay attempt * (8 * unit + 4 * min random unit)) + 10 * unit) / (20 * unit)

-- `scheduleReconnect`.
pub schedule_reconnect : ℕ → Transport → Transport
schedule_reconnect random s = if s.closed || is_some s.reconnect_timer then s else record s {
  connection_generation = s.connection_generation + 1;
  socket = none;
  socket_open = false;
  socket_ready = false;
  published = false;
  connection_state = failed;
  log = complete_socket s.socket ∷ s.log;
  reconnect_timer = some (reconnect_delay s.reconnect_attempt random);
  reconnect_attempt = s.reconnect_attempt + 1;
}

-- The callback of the timer.
pub timer_fires : Transport → Transport
timer_fires s = connect (record s { reconnect_timer = none })

-- A text that is not empty, as `||` sees it.
abbrev pub is_truthy : Option Text → Bool
is_truthy none = false
is_truthy (some s) = not (is_empty s)

-- `completeRecoveryIfReady`.
pub complete_recovery_if_ready : Transport → Transport
complete_recovery_if_ready s =
    if s.closed
      || not s.socket_open
      || is_truthy s.recovery_request_id
      || not s.presence_snapshot_received
    then s
    else record s { socket_ready = true; published = true; connection_state = ready }

-- The guard of every callback: the service is open, and the callback is of the current connection.
abbrev same_socket : Option ℕ → ℕ → Bool
same_socket none k = false
same_socket (some j) k = j == k

pub is_current : ℕ → ℕ → Transport → Bool
is_current generation socket s =
    not s.closed && (generation == s.connection_generation) && same_socket s.socket socket

-- The answer to the request for a ticket; the socket is created and subscribed to.
pub ticket_next : ℕ → Transport → Transport
ticket_next generation s =
    if not s.closed && (generation == s.connection_generation)
    then record s { socket = some s.next_socket; next_socket = s.next_socket + 1 }
    else s

pub ticket_error : ℕ → ℕ → Transport → Transport
ticket_error random generation s =
    if not s.closed && (generation == s.connection_generation)
    then schedule_reconnect random s
    else s

-- `openObserver`.
pub socket_opens : ℕ → ℕ → Transport → Transport
socket_opens generation socket s =
    if is_current generation socket s
    then record s {
      reconnect_attempt = 0;
      socket_open = true;
      presence_snapshot_received = false;
      recovery_request_id = none;
      connection_state = recovering;
    }
    else s

-- `closeObserver`.
pub socket_closes : ℕ → ℕ → Transport → Transport
socket_closes generation socket s =
    if is_current generation socket s
    then record s { socket_ready = false; socket_open = false; published = false }
    else s

-- The callbacks `error` and `complete`.
pub socket_ends : ℕ → ℕ → ℕ → Transport → Transport
socket_ends random generation socket s =
    if is_current generation socket s then schedule_reconnect random s else s

-- `event.request_id === this.recoveryRequestID`.
abbrev pub same_request : Value → Option Text → Bool
same_request v none = is_undefined v
same_request v (some s) = is_string v && text_eq (text_of v) s

-- Behind `this.events.next(event)`.
pub after_event : Value → Transport → Transport
after_event event s =
    if is_text (prop event "type") "presence.snapshot"
    then complete_recovery_if_ready (record s { presence_snapshot_received = true })
    else if is_text (prop event "type") "conversation.reconciled"
        && same_request (prop event "request_id") s.recovery_request_id
    then (if is_true (prop (prop event "payload") "has_more")
        then s
        else complete_recovery_if_ready (record s { recovery_request_id = none }))
    else if is_text (prop event "type") "message.rejected"
        && same_request (prop event "request_id") s.recovery_request_id
    then complete_recovery_if_ready (record s { recovery_request_id = none })
    else s

abbrev pub report : Option InvalidCandidate → Transport → Transport
report none s = s
report (some c) s = record s { log = emit_invalid c ∷ s.log }

-- The callback `next`, of a message from the server.
pub socket_next : (Text → Bool) → ℕ → ℕ → Value → Transport → Transport
socket_next parses generation socket event s =
    if not (is_current generation socket s)
    then s
    else if not (is_valid_socket_event parses event)
    then report (invalid_group_candidate event) s
    else after_event event (record s { log = emit event ∷ s.log })

-- `getObservable`.
pub get_observable : Transport → Transport
get_observable s = if s.started then s else connect (record s { started = true })

-- `finishRecovery` and `failRecovery`.
pub finish_recovery : Transport → Transport
finish_recovery s = complete_recovery_if_ready (record s { recovery_request_id = none })

pub fail_recovery : ℕ → Transport → Transport
fail_recovery random s = if s.closed then s else schedule_reconnect random s

-- `retryNow`.
pub retry_now : Transport → Transport
retry_now s =
    if s.closed
    then s
    else connect (record s {
      reconnect_timer = none;
      connection_generation = s.connection_generation + 1;
      log = complete_socket s.socket ∷ s.log;
      socket = none;
      socket_open = false;
      socket_ready = false;
      published = false;
      connection_state = connecting;
    })

-- `close`. The flags of the socket stay as they are.
pub close : Transport → Transport
close s = if s.closed then s else record s {
  closed = true;
  connection_generation = s.connection_generation + 1;
  reconnect_timer = none;
  published = false;
  connection_state = offline;
  log = complete_events ∷ complete_socket s.socket ∷ s.log;
}
