-- ===== src/Protocol/Rooms.antt =====
-- Payloads of group call rooms: home/data-provider.service.ts. `parses` stands for
-- `Number.isFinite(Date.parse(text))`, since the language leaves most formats to the engine.
use zwei.Common.{Bool, false, not, ◌&&◌, ◌||◌, [], ◌∷◌, if◌then◌else◌, every, any}
use zwei.Js.Text.{Text, codes, text_eq}
use zwei.Js.Value.{
  str, arr, cons, no_items, Value, prop, has, keys_of, is_undefined, is_null, is_string, is_array,
  items_of, text_of, is_text,
}
use zwei.Protocol.Fields.{is_record, optional, is_identifier, is_sequence}
use zwei.Protocol.Calls.{is_ice_servers}

unfoldable pub is_participant : Value → Bool
is_participant v =
    is_record v && is_identifier (prop v "user_id") && is_identifier (prop v "device_id")

-- `String(value) === literal`, of a literal with no comma: an array of one item reads as the item.
unfoldable pub reads_as : Value → Text → Bool
reads_as (str s) k = text_eq s k
reads_as (arr (cons v no_items)) k = reads_as v k
reads_as _ k = false

abbrev is_ended_key : Text → Bool
is_ended_key k = any (text_eq k) (
    codes "room_id"
    ∷ codes "generation"
    ∷ codes "status"
    ∷ codes "support_ref"
    ∷ codes "ownership_status"
    ∷ [])

abbrev is_projection_key : Text → Bool
is_projection_key k = any (text_eq k) (
    codes "room_id"
    ∷ codes "generation"
    ∷ codes "status"
    ∷ codes "state_revision"
    ∷ codes "support_ref"
    ∷ [])

-- `isGroupCallEndedSyncPayload`.
unfoldable pub is_group_call_ended_sync_payload : Value → Bool
is_group_call_ended_sync_payload v =
    is_record v
    && is_identifier (prop v "room_id")
    && is_sequence (prop v "generation")
    && is_text (prop v "status") "ended"
    && optional is_identifier (prop v "support_ref")
    && (is_text (prop v "ownership_status") "participant_absent"
        || is_text (prop v "ownership_status") "owned_elsewhere"
        || is_text (prop v "ownership_status") "room_unavailable")
    && every is_ended_key (keys_of v)

-- `isGroupCallMembershipProjectionEndedPayload`.
unfoldable pub is_group_call_membership_projection_ended_payload : Value → Bool
is_group_call_membership_projection_ended_payload v =
    is_record v
    && is_identifier (prop v "room_id")
    && is_sequence (prop v "generation")
    && is_text (prop v "status") "ended"
    && is_sequence (prop v "state_revision")
    && optional is_identifier (prop v "support_ref")
    && every is_projection_key (keys_of v)

module _ (parses : Text → Bool) where
  -- `typeof value === 'string' && Number.isFinite(Date.parse(value))`.
  abbrev pub is_date : Value → Bool
  is_date v = is_string v && parses (text_of v)

  -- The test on `ice_servers` and `ice_expires_at`, which come together.
  unfoldable pub is_ice_lease : Value → Value → Bool
  is_ice_lease servers expires =
      if is_undefined servers
      then is_undefined expires
      else is_ice_servers servers && is_date expires

  -- `isGroupRoomPayload`.
  unfoldable pub is_group_room_payload : Value → Bool
  is_group_room_payload v =
      is_record v
      && is_identifier (prop v "room_id")
      && is_identifier (prop v "conversation_id")
      && is_sequence (prop v "membership_revision")
      && is_sequence (prop v "generation")
      && any (reads_as (prop v "status")) (codes "ringing" ∷ codes "active" ∷ codes "ended" ∷ [])
      && is_string (prop v "expires_at")
      && is_array (prop v "participants")
      && optional is_date (prop v "ring_expires_at")
      && every is_participant (items_of (prop v "participants"))
      && optional is_participant (prop v "presenter")
      && is_ice_lease (prop v "ice_servers") (prop v "ice_expires_at")
      && optional is_identifier (prop v "support_ref")

  -- `isGroupRoomEventPayload`.
  unfoldable pub is_group_room_event_payload : Value → Bool
  is_group_room_event_payload v =
      is_group_room_payload v && is_record v && is_sequence (prop v "state_revision")

  -- `isGroupCallActiveSyncPayload`.
  unfoldable pub is_group_call_active_sync_payload : Value → Bool
  is_group_call_active_sync_payload v =
      is_record v
      && is_group_room_payload v
      && (is_text (prop v "status") "ringing" || is_text (prop v "status") "active")
      && is_sequence (prop v "state_revision")
      && is_undefined (prop v "ice_servers")
      && is_text (prop v "ownership_status") "active"

  -- `isGroupCallSyncedPayload`.
  unfoldable pub is_group_call_synced_payload : Value → Bool
  is_group_call_synced_payload v =
      is_group_call_ended_sync_payload v || is_group_call_active_sync_payload v

  -- `isGroupCallDiscoveredRoomPayload`.
  unfoldable pub is_group_call_discovered_room_payload : Value → Bool
  is_group_call_discovered_room_payload v =
      is_record v
      && is_group_room_payload v
      && is_sequence (prop v "state_revision")
      && not (has v "ice_servers")
      && every (λ p. is_record p && not (has p "connection_id")) (items_of (prop v "participants"))

  -- `isGroupCallDiscoveredPayload`.
  unfoldable pub is_group_call_discovered_payload : Value → Bool
  is_group_call_discovered_payload v =
      is_record v
      && is_identifier (prop v "conversation_id")
      && (is_null (prop v "room")
          || is_group_call_discovered_room_payload (prop v "room")
            && text_eq (text_of (prop (prop v "room") "conversation_id"))
                (text_of (prop v "conversation_id")))
