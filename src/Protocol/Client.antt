-- ===== src/Protocol/Client.antt =====
-- `isValidGroupCallClientEvent` of home/data-provider.service.ts.
use zwei.Common.{
  String, Bool, true, false, not, ◌&&◌, ◌||◌, List, [], ◌∷◌, if◌then◌else◌, any, is_some,
}
use zwei.Js.Text.{codes, literal}
use zwei.Js.Value.{Value, prop, has, is_string, text_of, is_text, is_true}
use zwei.Protocol.Fields.{is_record, is_identifier, is_sequence, is_uuid}
use zwei.Protocol.Calls.{is_valid_group_call_signal}

-- The tests that all commands share.
abbrev addressed : Value → Bool
addressed event =
    is_identifier (prop event "request_id")
    && is_record (prop event "payload")
    && is_identifier (prop (prop event "payload") "conversation_id")

abbrev room_commands : List String
room_commands =
    "group.call.join" ∷ "group.call.sync" ∷ "group.call.credentials" ∷ "group.call.leave"
    ∷ "group.call.end" ∷ "group.call.presenter.start" ∷ "group.call.presenter.stop"
    ∷ "group.call.signal" ∷ []

-- Behind the tests on the type: a command to a room.
is_room_command : Value → Bool
is_room_command event =
    let payload = prop event "payload" in
    if not (
      addressed event
      && is_identifier (prop payload "room_id")
      && is_sequence (prop payload "generation"))
    then false
    else if is_text (prop event "type") "group.call.sync"
        && not (is_true (prop payload "ownership_status"))
    then false
    else if is_text (prop event "type") "group.call.signal"
    then is_identifier (prop payload "target_user_id")
      && is_identifier (prop payload "target_device_id")
      && is_valid_group_call_signal (prop payload "signal")
    else true

-- `isValidGroupCallClientEvent`.
unfoldable pub is_valid_group_call_client_event : Value → Bool
unfolding is_room_command
is_valid_group_call_client_event event =
    let payload = prop event "payload" in
    if not (is_record event && is_string (prop event "type"))
    then false
    else if is_text (prop event "type") "group.call.cancel_start"
        || is_text (prop event "type") "group.call.start"
    then addressed event && is_uuid (prop payload "attempt_id") && not (has payload "generation")
    else if is_text (prop event "type") "group.call.discover"
        || is_text (prop event "type") "group.call.prepare_start"
    then addressed event && not (has payload "generation")
    else if not (any (is_text (prop event "type")) room_commands)
    then false
    else is_room_command event

-- `isGroupCallClientType`.
unfoldable pub is_group_call_client_type : Value → Bool
is_group_call_client_type type = is_some (literal (codes "group.call.") (text_of type))
