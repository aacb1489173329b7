-- ===== src/Protocol/Examples.antt =====
-- Runs of the validators of home/data-provider.service.ts.
use zwei.Common.{◌≡◌, refl, Bool, true, not, is_some}
use zwei.Js.Text.{Text, codes, trim}
use zwei.Js.Value.{Value, obj, field, no_fields, str, num, arr, pos, no_items, prop}
use zwei.Ice.Candidate.{ice_candidate_identity, is_line, identify}
use zwei.Protocol.Fields.{protocol_version, is_sequence, is_identifier, exact_keys}
use zwei.Protocol.Rooms.{
  is_group_call_ended_sync_payload, is_group_call_discovered_room_payload, is_group_room_payload,
  is_participant, reads_as, is_ice_lease,
}
use zwei.Protocol.Events.{is_valid_socket_event}
use zwei.Protocol.Diagnostics.{
  is_invalid_candidate, is_candidate_signal, signal_of, candidate_signal_is_kept,
}

abbrev parses : Text → Bool
parses s = true

abbrev uuid : Value
uuid = str (codes "0189a0b1-0000-7000-8000-00000000000f")

abbrev broken_candidate : Value
broken_candidate = obj (
    field (codes "version") (num (pos protocol_version)) (
      field (codes "type") (str (codes "group.call.signal")) (
        field (codes "payload")
          (obj (
            field (codes "room_id") (str (codes "room")) (
              field (codes "generation") (num (pos 1)) (
                field (codes "from_user_id") (str (codes "u1")) (
                  field (codes "from_device_id") (str (codes "d1")) (
                    field (codes "signal")
                      (obj (
                        field (codes "type") (str (codes "candidate"))
                          (field (codes "candidate") (obj no_fields) no_fields)))
                      no_fields))))))
          no_fields)))

abbrev ended : Value
ended = obj (
    field (codes "room_id") (str (codes "room")) (
      field (codes "generation") (num (pos 1)) (
        field (codes "status") (str (codes "ended"))
          (field (codes "ownership_status") (str (codes "owned_elsewhere")) no_fields))))

ended_is_ended : is_group_call_ended_sync_payload ended ≡ true
unfolding is_group_call_ended_sync_payload is_sequence is_identifier trim
ended_is_ended = refl

abbrev discovered : Value
discovered = obj (
    field (codes "room_id") (str (codes "room")) (
      field (codes "conversation_id") (str (codes "group")) (
        field (codes "membership_revision") (num (pos 2)) (
          field (codes "generation") (num (pos 1)) (
            field (codes "status") (str (codes "active")) (
              field (codes "expires_at") (str (codes "2026-01-01T00:00:00Z")) (
                field (codes "participants") (arr no_items)
                  (field (codes "state_revision") (num (pos 3)) no_fields))))))))

discovered_is_room : is_group_call_discovered_room_payload parses discovered ≡ true
unfolding is_group_call_discovered_room_payload is_group_room_payload is_sequence is_identifier trim
    reads_as is_ice_lease is_participant
discovered_is_room = refl

broken_is_invalid : is_invalid_candidate broken_candidate ≡ true
unfolding is_invalid_candidate is_sequence exact_keys ice_candidate_identity is_line identify
broken_is_invalid = refl

broken_is_signal : is_candidate_signal broken_candidate ≡ true
unfolding is_sequence exact_keys
broken_is_signal = refl

candidate_signal_is_kept_example :
    (is_valid_socket_event parses broken_candidate
      ≡ is_some (ice_candidate_identity (prop (signal_of broken_candidate) "candidate")))
    × (is_invalid_candidate broken_candidate
        ≡ not (is_some (ice_candidate_identity (prop (signal_of broken_candidate) "candidate"))))
candidate_signal_is_kept_example = candidate_signal_is_kept parses broken_candidate broken_is_signal
