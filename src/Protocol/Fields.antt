-- ===== src/Protocol/Fields.antt =====
-- The tests on single values and on messages of home/data-provider.service.ts, and the test on
-- mentions of home/wire.mapper.ts.
use zwei.Common.{
  ℕ, String, Bool, false, not, ◌&&◌, ◌||◌, none, some, List, [], ◌∷◌, map, ltb, ◌==◌, length, every,
  any, is_some,
}
use zwei.Js.Text.{Text, codes, text_eq, trim, is_empty, is_uuid_text}
use zwei.Js.Value.{
  Value, arr, obj, no_fields, field, from_list, prop, has, keys_of, is_undefined, is_nullish,
  is_string, is_array, is_object, items_of, text_of, is_text, natural_of,
}
use zwei.Message.{is_valid_message_mentions}

-- `WEBSOCKET_PROTOCOL_VERSION`.
abbrev pub protocol_version : ℕ
protocol_version = 4

-- `isRecord`.
abbrev pub is_record : Value → Bool
is_record v = is_object v

-- `value === undefined || test(value)`.
abbrev pub optional : (Value → Bool) → Value → Bool
optional test v = is_undefined v || test v

-- `isSequence(value)`, and with `allowZero`.
unfoldable pub is_sequence : Value → Bool
is_sequence v = elim (natural_of v) [ none ↦ false | some n ↦ ltb 0 n ]

unfoldable pub is_sequence_or_zero : Value → Bool
is_sequence_or_zero v = is_some (natural_of v)

-- `isIdentifier`.
unfoldable pub is_identifier : Value → Bool
is_identifier v =
    is_string v && not (is_empty (text_of v)) && text_eq (text_of v) (trim (text_of v))

-- `isUUID`.
unfoldable pub is_uuid : Value → Bool
is_uuid v = is_string v && is_uuid_text (text_of v)

-- `exactKeys`.
unfoldable pub exact_keys : Value → List String → Bool
exact_keys v expected = (length (keys_of v) == length expected) && every (λ k. has v k) expected

-- `isStringArray`.
unfoldable pub is_string_array : Value → Bool
is_string_array v = is_array v && every is_string (items_of v)

-- `isPeerReadCursor`.
unfoldable pub is_peer_read_cursor : Value → Bool
unfolding is_identifier is_sequence is_sequence_or_zero
is_peer_read_cursor v =
    is_record v
    && is_identifier (prop v "user_id")
    && is_sequence_or_zero (prop v "sequence")
    && is_sequence (prop v "visible_from_sequence")

abbrev pub wire_keys : List Text
wire_keys = codes "user_id" ∷ codes "start" ∷ codes "end" ∷ []

-- A wire mention that the loop of `isValidMessageMentionWire` lets through.
unfoldable pub is_wire_mention : Value → Bool
is_wire_mention v =
    is_object v
    && every (λ k. any (text_eq k) wire_keys) (keys_of v)
    && is_string (prop v "user_id")

-- What the loop pushes.
abbrev pub renamed : Value → Value
renamed v = obj (
    field (codes "userId") (prop v "user_id")
      (field (codes "start") (prop v "start") (field (codes "end") (prop v "end") no_fields)))

-- `isValidMessageMentionWire` of home/wire.mapper.ts.
unfoldable pub is_valid_message_mention_wire : Value → Text → Bool
unfolding is_wire_mention
is_valid_message_mention_wire v body =
    is_array v
    && every is_wire_mention (items_of v)
    && is_valid_message_mentions (arr (from_list (map renamed (items_of v)))) body

-- `isMessagePayload`.
unfoldable pub is_message_payload : Value → Bool
unfolding is_sequence is_uuid is_valid_message_mention_wire
is_message_payload v =
    is_record v
    && every (λ k. is_string (prop v k))
        ("id" ∷ "conversation_id" ∷ "sender_id" ∷ "client_message_id" ∷ "body" ∷ "created_at" ∷ [])
    && is_sequence (prop v "sequence")
    && optional (λ k. is_text k "user" || is_text k "system") (prop v "kind")
    && optional (λ k. is_text k "text" || is_text k "sticker") (prop v "content_type")
    && optional (λ m. is_valid_message_mention_wire m (text_of (prop v "body"))) (prop v "mentions")
    && (is_nullish (prop v "reply_to_message_id") || is_uuid (prop v "reply_to_message_id"))
