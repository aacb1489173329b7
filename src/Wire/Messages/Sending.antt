-- ===== src/Wire/Messages/Sending.antt =====
-- What `toMessageSendEvent` of home/wire.mapper.ts makes, and `send` of home/data-provider.service.ts
-- checks.
use zwei.Common.{
  ◌≡◌, refl, ap, Bool, true, false, Option, none, some, List, [], ◌∷◌, map, every, arith,
}
use zwei.Js.Text.{Text, literal, is_uuid_text}
use zwei.Js.Value.{Value, str, items, from_list}
use zwei.Message.{Mention, mention_value, mentions_value, is_valid_message_mentions}
use zwei.Protocol.Fields.{is_valid_message_mention_wire, is_wire_mention, renamed, is_uuid}
use zwei.Protocol.Client.{is_group_call_client_type}
use zwei.Transport.Send.{is_refused}
use zwei.Wire.Messages.{wire_mention, to_message_mention_wires, to_message_send_event}

items-from_list : (vs : List Value) → items (from_list vs) ≡ vs
items-from_list [] = refl
items-from_list (v ∷ vs) = ap (◌∷◌ v) (items-from_list vs)

map-renamed : (ms : List Mention) → map renamed (map wire_mention ms) ≡ map mention_value ms
map-renamed [] = refl
map-renamed (m ∷ ms) = ap (◌∷◌ (mention_value m)) (map-renamed ms)

every-wire_mention : (ms : List Mention) → every is_wire_mention (map wire_mention ms) ≡ true
unfolding is_wire_mention
every-wire_mention [] = refl
every-wire_mention (m ∷ ms) = every-wire_mention ms

-- On the wire a list of mentions is valid exactly if it is valid in a message.
pub is_valid_message_mention_wire-to_message_mention_wires :
    (ms : List Mention) (body : Text)
    → is_valid_message_mention_wire (to_message_mention_wires ms) body
      ≡ is_valid_message_mentions (mentions_value ms) body
unfolding is_valid_message_mention_wire
is_valid_message_mention_wire-to_message_mention_wires ms body =
    rw (items-from_list (map wire_mention ms), every-wire_mention ms, map-renamed ms) refl

-- No reply, or one to a message with a canonical ID.
abbrev pub is_reply : Option Text → Bool
is_reply none = true
is_reply (some id) = is_uuid (str id)

not_empty : ¬ (is_uuid (str []) ≡ true)
unfolding is_uuid is_uuid_text
not_empty h = ground (arith, h)

-- The event that is made from a draft whose mentions are valid for its body, and which replies to
-- nothing or to a message with a canonical ID, is never refused by the guards of `send`.
pub is_refused-to_message_send_event :
    (request_id conversation_id client_message_id body : Text) (ms : List Mention)
    (reply : Option Text)
    → is_valid_message_mentions (mentions_value ms) body ≡ true
    → is_reply reply ≡ true
    → is_refused (to_message_send_event request_id conversation_id client_message_id body ms reply)
      ≡ false
unfolding is_refused to_message_send_event is_group_call_client_type literal
is_refused-to_message_send_event r c k body [] none valid ok = refl
is_refused-to_message_send_event r c k body [] (some []) valid ok = absurd (not_empty ok)
is_refused-to_message_send_event r c k body [] (some (x ∷ id)) valid ok = rw ok refl
is_refused-to_message_send_event r c k body (m ∷ ms) none valid ok =
    rw (is_valid_message_mention_wire-to_message_mention_wires (m ∷ ms) body, valid) refl
is_refused-to_message_send_event r c k body (m ∷ ms) (some []) valid ok = absurd (not_empty ok)
is_refused-to_message_send_event r c k body (m ∷ ms) (some (x ∷ id)) valid ok =
    rw (is_valid_message_mention_wire-to_message_mention_wires (m ∷ ms) body, valid, ok) refl
