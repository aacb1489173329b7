-- ===== src/Transport/Send.antt =====
-- What the client sends: `send`, `recover` and `sendRecovery` of home/data-provider.service.ts.
use zwei.Common.{ℕ, Bool, true, false, not, ◌&&◌, ◌||◌, some, [], ◌∷◌, if◌then◌else◌, is_some}
use zwei.Js.Text.{Text, codes, text_eq}
use zwei.Js.Value.{
  Value, Fields, no_fields, field, undefined, null, bool, num, str, arr, obj, pos, prop, has,
  is_undefined, is_string, text_of, is_text,
}
use zwei.Protocol.Fields.{
  protocol_version, is_record, is_identifier, is_uuid, exact_keys, is_valid_message_mention_wire,
}
use zwei.Protocol.Calls.{is_valid_call_signal}
use zwei.Protocol.Client.{is_valid_group_call_client_event, is_group_call_client_type}
use zwei.Transport.{Transport, schedule_reconnect, transmit}

-- The guards of `send`, each of them a `return false`.
unfoldable pub is_refused : Value → Bool
is_refused event =
    let type = prop event "type" in
    let payload = prop event "payload" in
    ((is_text type "message.send" || is_text type "message.reply.send")
      && (not (is_record payload)
          || not (is_string (prop payload "body"))
          || not (is_text (prop payload "content_type") "text")
          || not (is_undefined (prop payload "mentions"))
            && not (
                is_valid_message_mention_wire (prop payload "mentions")
                  (text_of (prop payload "body")))))
    || is_text type "message.send" && has payload "reply_to_message_id"
    || is_text type "message.reply.send" && not (is_uuid (prop payload "reply_to_message_id"))
    || is_text type "call.signal"
      && (not (is_record payload)
          || not (is_identifier (prop payload "call_id"))
          || not (is_valid_call_signal (prop payload "signal")))
    || is_text type "call.recover"
      && (not (exact_keys event ("type" ∷ "request_id" ∷ "payload" ∷ []))
          || not (is_uuid (prop event "request_id"))
          || not (is_record payload)
          || not (exact_keys payload ("call_id" ∷ []))
          || not (is_uuid (prop payload "call_id")))
    || is_group_call_client_type type && not (is_valid_group_call_client_event event)

-- `{...event, version: WEBSOCKET_PROTOCOL_VERSION}`.
set_field : Text → Value → Fields → Fields
set_field k v no_fields = field k v no_fields
set_field k v (field j w r) =
    let rest = set_field k v r in if text_eq k j then field j v r else field j w rest

unfoldable pub versioned : Value → Value
unfolding set_field
versioned (obj fs) = obj (set_field (codes "version") (num (pos protocol_version)) fs)
versioned undefined = undefined
versioned null = null
versioned (bool b) = bool b
versioned (num n) = num n
versioned (str s) = str s
versioned (arr xs) = arr xs

-- `socket.next(frame)`: whether it throws is the socket's affair.
unfoldable pub put : Bool → ℕ → Value → Transport → Transport × Bool
put throws random event s =
    if throws
    then (schedule_reconnect random s, false)
    else (record s { log = transmit (versioned event) ∷ s.log }, true)

-- `send`.
unfoldable pub send : Bool → ℕ → Value → Transport → Transport × Bool
send throws random event s =
    if is_refused event
    then (s, false)
    else if not (is_some s.socket) || not s.socket_ready
    then (s, false)
    else put throws random event s

-- `sendRecovery`.
unfoldable pub send_recovery : Bool → ℕ → Value → Transport → Transport × Bool
send_recovery throws random event s =
    if not (is_some s.socket) || not s.socket_open then (s, false) else put throws random event s

abbrev pub reconcile_event : Text → ℕ → Text → Value
reconcile_event conversation_id after_sequence request_id = obj (
    field (codes "type") (str (codes "conversation.reconcile")) (
      field (codes "request_id") (str request_id) (
        field (codes "payload")
          (obj (
            field (codes "conversation_id") (str conversation_id)
              (field (codes "after_sequence") (num (pos after_sequence)) no_fields)))
          no_fields)))

-- `recover`, for a sequence that is not negative.
unfoldable pub recover : Bool → ℕ → Text → ℕ → Text → Transport → Transport × Bool
recover throws random conversation_id after_sequence request_id s =
    if not s.socket_open || s.closed
    then (s, false)
    else send_recovery throws random (reconcile_event conversation_id after_sequence request_id)
        (record s { recovery_request_id = some request_id })
