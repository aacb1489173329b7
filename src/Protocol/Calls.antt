-- ===== src/Protocol/Calls.antt =====
-- Payloads and signals of calls: home/data-provider.service.ts.

use zwei.Common.{
  Bool, true, false, not, ◌&&◌, ◌||◌, List, [], ◌∷◌, ◌==◌, if◌then◌else◌, length, every, is_some,
}
use zwei.Js.Text.{Text, codes, text_eq, is_empty, is_canonical_uuid}
use zwei.Js.Value.{Value, prop, has, keys_of, is_string, is_array, items_of, text_of, is_text}
use zwei.Ice.Candidate.{ice_candidate_identity}
use zwei.Protocol.Fields.{is_record, optional, is_identifier, exact_keys}

-- `isCallPayload`.
unfoldable pub is_call_payload : Value → Bool
is_call_payload v =
    is_record v
    && every (λ k. is_string (prop v k))
        ("call_id" ∷ "conversation_id" ∷ "caller_id" ∷ "recipient_id" ∷ "caller_device_id"
          ∷ "status" ∷ "expires_at" ∷ [])
    && (is_text (prop v "status") "ringing"
        || is_text (prop v "status") "active"
        || is_text (prop v "status") "ended")
    && optional is_string (prop v "accepted_device_id")
    && optional is_identifier (prop v "support_ref")

is_ice_server : Value → Bool
is_ice_server v =
    is_record v
    && is_array (prop v "urls")
    && every is_string (items_of (prop v "urls"))
    && is_string (prop v "username")
    && is_string (prop v "credential")

abbrev is_nil {ℓ} : {A : Type ℓ} → List A → Bool
is_nil [] = true
is_nil (_ ∷ _) = false

-- `isICEServers`.
unfoldable pub is_ice_servers : Value → Bool
unfolding is_ice_server
is_ice_servers v = is_array v && not (is_nil (items_of v)) && every is_ice_server (items_of v)

-- `typeof value === 'string' && value.length > 0`.
abbrev pub is_filled : Value → Bool
is_filled v = is_string v && not (is_empty (text_of v))

abbrev is_only_type : List Text → Bool
is_only_type [] = false
is_only_type (k ∷ []) = text_eq k (codes "type")
is_only_type (_ ∷ _ ∷ _) = false

-- `isValidCallSignal`.
unfoldable pub is_valid_call_signal : Value → Bool
is_valid_call_signal v =
    if not (is_record v && is_string (prop v "type"))
    then false
    else if is_text (prop v "type") "offer" || is_text (prop v "type") "answer"
    then (length (keys_of v) == 2) && has v "type" && has v "sdp" && is_filled (prop v "sdp")
    else if is_text (prop v "type") "candidate"
    then (length (keys_of v) == 2)
      && has v "type"
      && has v "candidate"
      && is_record (prop v "candidate")
    else if is_text (prop v "type") "screen-share-started"
        || is_text (prop v "type") "screen-share-stopped"
    then is_only_type (keys_of v)
    else false

-- `isValidGroupCallSignal`.
unfoldable pub is_valid_group_call_signal : Value → Bool
unfolding is_valid_call_signal exact_keys
is_valid_group_call_signal v =
    if not (is_record v)
    then false
    else if is_text (prop v "type") "candidate"
    then exact_keys v ("type" ∷ "candidate" ∷ [])
      && is_some (ice_candidate_identity (prop v "candidate"))
    else if not (is_text (prop v "type") "offer") && not (is_text (prop v "type") "answer")
    then is_valid_call_signal v
    else exact_keys v ("type" ∷ "sdp" ∷ "negotiation_id" ∷ [])
      && is_filled (prop v "sdp")
      && is_string (prop v "negotiation_id")
      && is_canonical_uuid (text_of (prop v "negotiation_id"))
      && not (is_text (prop v "negotiation_id") "00000000-0000-0000-0000-000000000000")

-- `isAcceptedCallPayload`.
unfoldable pub is_accepted_call_payload : Value → Bool
unfolding is_call_payload is_ice_servers
is_accepted_call_payload v =
    is_record v && is_call_payload v && is_ice_servers (prop v "ice_servers")
