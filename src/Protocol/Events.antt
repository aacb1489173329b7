-- ===== src/Protocol/Events.antt =====
-- `isValidSocketEvent` of home/data-provider.service.ts, and the guards that it calls.
use zwei.Common.{Bool, false, not, ◌&&◌, ◌||◌, [], ◌∷◌, if◌then◌else◌, every, any}
use zwei.Js.Text.{Text}
use zwei.Js.Value.{Value, prop, has, is_string, is_boolean, is_array, items_of, is_text, is_number}
use zwei.Protocol.Fields.{
  protocol_version, is_record, optional, is_sequence, is_sequence_or_zero, is_identifier, is_uuid,
  exact_keys, is_string_array, is_peer_read_cursor, is_message_payload,
}
use zwei.Protocol.Calls.{
  is_call_payload, is_ice_servers, is_valid_call_signal, is_valid_group_call_signal,
  is_accepted_call_payload,
}
use zwei.Protocol.Rooms.{
  is_date, is_group_room_event_payload, is_group_call_membership_projection_ended_payload,
  is_group_call_synced_payload, is_group_call_discovered_payload,
}

-- `isRecord(event) && event.version === WEBSOCKET_PROTOCOL_VERSION`.
abbrev pub is_versioned : Value → Bool
is_versioned event = is_record event && is_number (prop event "version") protocol_version

-- The tests on the payload in `isValidConversationReconciledEvent`.
is_reconciliation : Value → Bool
is_reconciliation payload =
    is_identifier (prop payload "conversation_id")
    && is_array (prop payload "messages")
    && every is_message_payload (items_of (prop payload "messages"))
    && is_sequence_or_zero (prop payload "next_after_sequence")
    && is_sequence_or_zero (prop payload "high_watermark")
    && is_sequence_or_zero (prop payload "own_read_sequence")
    && is_sequence_or_zero (prop payload "peer_read_sequence")
    && is_boolean (prop payload "has_more")
    && optional (λ c. is_array c && every is_peer_read_cursor (items_of c))
        (prop payload "peer_read_cursors")

-- `isValidConversationReconciledEvent`.
unfoldable pub is_valid_conversation_reconciled_event : Value → Bool
unfolding is_reconciliation
is_valid_conversation_reconciled_event event =
    is_versioned event
    && is_text (prop event "type") "conversation.reconciled"
    && is_string (prop event "request_id")
    && is_record (prop event "payload")
    && is_reconciliation (prop event "payload")

-- `isValidConversationReadEvent`.
unfoldable pub is_valid_conversation_read_event : Value → Bool
is_valid_conversation_read_event event =
    let payload = prop event "payload" in
    is_versioned event
    && is_text (prop event "type") "conversation.read"
    && is_record payload
    && is_identifier (prop payload "conversation_id")
    && is_identifier (prop payload "user_id")
    && is_sequence (prop payload "sequence")
    && optional is_sequence (prop payload "visible_from_sequence")

-- `group.call.signal`.
unfoldable pub is_group_signal : Value → Bool
is_group_signal payload =
    is_record payload
    && is_string (prop payload "room_id")
    && is_sequence (prop payload "generation")
    && is_string (prop payload "from_user_id")
    && is_string (prop payload "from_device_id")
    && is_valid_group_call_signal (prop payload "signal")

module _ (parses : Text → Bool) where
  -- The branch of `call.recovered` in `isValidCallSocketEvent`.
  is_recovered_event : Value → Bool
  is_recovered_event event =
      let payload = prop event "payload" in
      let call = prop payload "call" in
      if not (
        exact_keys event ("version" ∷ "type" ∷ "request_id" ∷ "payload" ∷ [])
        && is_uuid (prop event "request_id")
        && is_record payload)
      then false
      else if is_text (prop payload "status") "missed"
      then exact_keys payload ("status" ∷ [])
      else if not (
          is_text (prop payload "status") "ringing"
          && is_record call
          && exact_keys payload ("status" ∷ "call" ∷ []))
      then false
      else is_text (prop call "status") "ringing"
        && is_uuid (prop call "call_id")
        && is_uuid (prop call "conversation_id")
        && is_uuid (prop call "caller_id")
        && is_date parses (prop call "expires_at")
        && exact_keys call
            ("call_id" ∷ "conversation_id" ∷ "caller_id" ∷ "status" ∷ "expires_at" ∷ [])

  -- `isValidCallSocketEvent`.
  unfoldable pub is_valid_call_socket_event : Value → Bool
  unfolding is_recovered_event
  is_valid_call_socket_event event =
      let payload = prop event "payload" in
      let type = prop event "type" in
      if not (is_versioned event && is_string type && has event "payload")
      then false
      else if is_text type "call.signal"
      then is_record payload
        && is_string (prop payload "call_id")
        && is_valid_call_signal (prop payload "signal")
      else if is_text type "call.rejected"
      then is_record payload
        && is_string (prop payload "error")
        && optional is_identifier (prop payload "support_ref")
      else if is_text type "call.recovered"
      then is_recovered_event event
      else if is_text type "call.accepted"
      then is_accepted_call_payload payload
      else any (is_text type)
          ("call.incoming" ∷ "call.ringing" ∷ "call.declined" ∷ "call.ended" ∷ [])
        && is_call_payload payload

  -- `group.call.credentials`.
  is_credentials : Value → Bool
  is_credentials payload =
      is_record payload
      && is_identifier (prop payload "conversation_id")
      && is_identifier (prop payload "room_id")
      && is_sequence (prop payload "generation")
      && is_ice_servers (prop payload "ice_servers")
      && is_date parses (prop payload "ice_expires_at")

  -- The cases `group.call.*` of the `switch` in `isValidSocketEvent`.
  is_valid_group_call_socket_event : Value → Bool
  is_valid_group_call_socket_event event =
      let payload = prop event "payload" in
      let type = prop event "type" in
      let id = prop event "request_id" in
      if is_text type "group.call.started"
      then is_group_room_event_payload parses payload && is_string (prop payload "ring_expires_at")
      else if any (is_text type) (
          "group.call.participant.joined" ∷ "group.call.participant.left"
          ∷ "group.call.presenter.start" ∷ "group.call.presenter.stop" ∷ [])
      then is_group_room_event_payload parses payload
      else if is_text type "group.call.ended"
      then is_group_room_event_payload parses payload
        || is_group_call_membership_projection_ended_payload payload
      else if is_text type "group.call.synced"
      then is_identifier id && is_group_call_synced_payload parses payload
      else if is_text type "group.call.discovered"
      then is_identifier id && is_group_call_discovered_payload parses payload
      else if is_text type "group.call.start_prepared"
      then is_identifier id
        && is_record payload
        && is_identifier (prop payload "conversation_id")
        && is_uuid (prop payload "attempt_id")
        && is_date parses (prop payload "expires_at")
      else if is_text type "group.call.start_accepted"
      then is_identifier id
        && is_record payload
        && is_identifier (prop payload "conversation_id")
        && is_identifier (prop payload "room_id")
        && is_sequence (prop payload "generation")
      else if is_text type "group.call.start_cancelled"
      then is_identifier id
        && is_record payload
        && is_identifier (prop payload "conversation_id")
        && is_uuid (prop payload "attempt_id")
        && is_string (prop payload "outcome")
        && any (is_text (prop payload "outcome")) ("confirmed" ∷ "retired" ∷ "unknown" ∷ [])
      else if is_text type "group.call.signal"
      then is_group_signal payload
      else if is_text type "group.call.credentials"
      then is_identifier id && is_credentials payload
      else false

  -- `isValidSocketEvent`.
  unfoldable pub is_valid_socket_event : Value → Bool
  unfolding is_valid_group_call_socket_event is_credentials
  is_valid_socket_event event =
      let payload = prop event "payload" in
      let type = prop event "type" in
      let id = prop event "request_id" in
      if not (is_versioned event && is_string type && has event "payload")
      then false
      else if is_text type "message.accepted"
      then is_string id && is_message_payload payload
      else if is_text type "message.created"
      then is_message_payload payload
      else if is_text type "message.rejected"
      then is_record payload && is_string (prop payload "error") && optional is_string id
      else if is_text type "presence.snapshot"
      then is_record payload && is_string_array (prop payload "user_ids")
      else if is_text type "presence.changed"
      then is_record payload
        && is_string (prop payload "user_id")
        && is_boolean (prop payload "online")
      else if is_text type "typing.started" || is_text type "typing.stopped"
      then is_record payload
        && is_string (prop payload "conversation_id")
        && is_string (prop payload "user_id")
      else if is_text type "conversation.created"
      then is_record payload && is_string (prop payload "conversation_id")
      else if is_text type "conversation.read"
      then is_valid_conversation_read_event event
      else if is_text type "group.membership.changed"
      then is_record payload
        && is_string (prop payload "conversation_id")
        && is_sequence (prop payload "membership_revision")
        && is_boolean (prop payload "deleted")
      else if is_text type "conversation.reconciled"
      then is_valid_conversation_reconciled_event event
      else if any (is_text type) (
          "call.incoming" ∷ "call.ringing" ∷ "call.declined" ∷ "call.ended" ∷ "call.accepted"
          ∷ "call.signal" ∷ "call.rejected" ∷ "call.recovered" ∷ [])
      then is_valid_call_socket_event event
      else is_valid_group_call_socket_event event
