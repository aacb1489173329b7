-- ===== src/Transport/Examples.antt =====
-- Runs of the connection of home/data-provider.service.ts.
use zwei.Common.{◌≡◌, refl, Bool, true, false, List, [], ◌∷◌, arith}
use zwei.Js.Text.{Text, codes, literal}
use zwei.Js.Value.{Value, obj, field, no_fields, str, num, arr, pos, no_items}
use zwei.Transport.{
  Transport, initial, connect, schedule_reconnect, retry_now, get_observable, ticket_next,
  socket_opens, socket_next, is_current, close, base_delay, reconnect_delay,
  complete_recovery_if_ready, after_event,
}
use zwei.Protocol.Fields.{protocol_version, is_string_array}
use zwei.Protocol.Client.{is_group_call_client_type}
use zwei.Protocol.Events.{is_valid_socket_event}
use zwei.Transport.Send.{is_refused, send}
use zwei.Transport.Backoff.{IsJittered, reconnect_delay-IsJittered}
use zwei.Transport.Steps.{
  Action, ticket, opens, receives, shuts, timer, retries, perform, Reach, observed, then_does,
}
use zwei.Transport.Steps.Invariant.{Inv, Reach-Inv}
use zwei.Transport.Steps.Closing.{IsShut, heard, run, run-closed, send-close}
use zwei.Transport.Steps.Stale.{late_callback}
use zwei.Transport.Steps.Readiness.{IsRecovered, becomes_ready}

-- Every date parses.
abbrev parses : Text → Bool
parses s = true

abbrev snapshot : Value
snapshot = obj (
    field (codes "version") (num (pos protocol_version)) (
      field (codes "type") (str (codes "presence.snapshot")) (
        field (codes "payload") (obj (field (codes "user_ids") (arr no_items) no_fields))
          no_fields)))

-- A service that is observed, then gets its ticket, its socket and the users who are present.
abbrev ticketed : Transport
ticketed = perform parses (ticket 1) (get_observable initial)

abbrev opened : Transport
opened = perform parses (opens 1 0) ticketed

abbrev present : Transport
present = perform parses (receives 1 0 snapshot) opened

opened-Reach : Reach parses opened
unfolding perform get_observable connect ticket_next
opened-Reach = then_does (opens 1 0) (then_does (ticket 1) observed (ground arith)) refl

present-Reach : Reach parses present
present-Reach = then_does (receives 1 0 snapshot) opened-Reach tt

present_flags :
    (present.published ≡ true) × (present.socket_ready ≡ true) × (present.closed ≡ false)
unfolding perform get_observable connect ticket_next socket_opens socket_next is_current after_event
    complete_recovery_if_ready is_valid_socket_event is_string_array
present_flags = (refl, refl, refl)

closed_closed : (perform parses shuts present).closed ≡ true
unfolding perform get_observable connect ticket_next socket_opens socket_next is_current after_event
    complete_recovery_if_ready is_valid_socket_event is_string_array close
closed_closed = refl

Reach-Inv_example : Inv present
Reach-Inv_example = Reach-Inv present-Reach

becomes_ready_example : IsRecovered present
unfolding perform get_observable connect ticket_next socket_opens is_current
becomes_ready_example = becomes_ready parses (receives 1 0 snapshot) opened refl present_flags.0

reconnect_delay-IsJittered_example : IsJittered (base_delay 3) (reconnect_delay 3 0)
reconnect_delay-IsJittered_example = reconnect_delay-IsJittered 3 0

-- The socket that was open sends once more, when it was given up and another ticket is there.
abbrev renewed : List Action
renewed = timer ∷ ticket 3 ∷ []

late_callback_example :
    (perform parses (receives 1 0 snapshot) (run parses renewed (schedule_reconnect 0 present))
      ≡ run parses renewed (schedule_reconnect 0 present))
    × (perform parses (receives 1 0 snapshot) (run parses renewed (retry_now present))
        ≡ run parses renewed (retry_now present))
    × (perform parses (receives 1 0 snapshot) (run parses renewed (close present))
        ≡ run parses renewed (close present))
unfolding perform get_observable connect ticket_next socket_opens socket_next is_current after_event
    complete_recovery_if_ready is_valid_socket_event is_string_array
late_callback_example =
    late_callback parses 0 1 (receives 1 0 snapshot) renewed present refl (omega arith)
      present_flags.2 refl

run-closed_example :
    IsShut
      (heard (perform parses shuts present).log)
      (run parses (timer ∷ retries ∷ receives 1 0 snapshot ∷ []) (perform parses shuts present))
run-closed_example =
    run-closed parses (perform parses shuts present) (timer ∷ retries ∷ receives 1 0 snapshot ∷ [])
      (then_does shuts present-Reach tt) closed_closed

abbrev question : Value
question = obj (field (codes "type") (str (codes "typing.start")) no_fields)

send-close_example : (send false 0 question (close present)).1 ≡ true
unfolding is_refused is_group_call_client_type literal
send-close_example =
    send-close parses present 0 question present-Reach present_flags.2 present_flags.1 refl
