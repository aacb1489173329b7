-- ===== src/Wire/Messages.antt =====
-- Messages: `toMessage`, `toMessageHistory`, `toMessageSendEvent` and `messageSenderDisplayName` of
-- home/wire.mapper.ts.
pub mod Sending
use zwei.Common.{
  ℕ, ◌≡◌, Bool, true, false, not, ◌&&◌, ◌||◌, Option, none, some, List, [], ◌∷◌, map, if◌then◌else◌,
  length, is_some,
}
use zwei.Js.Text.{Text, codes, text_eq, trim, is_empty, is_canonical_uuid}
use zwei.Js.Value.{
  Value, Fields, no_fields, field, str, num, arr, obj, pos, prop, is_undefined, is_nullish,
  is_string, is_object, is_array, is_text, from_list, items_of, text_of, natural_of,
}
use zwei.Message.{Mention}
use zwei.Protocol.Fields.{is_valid_message_mention_wire}
use zwei.Wire.{DirectConversation, is_filled_text, at_least_one, or_zero}
use zwei.Wire.Groups.{GroupConversation, GroupMember}

-- `Message`, as `toMessage` makes it.
pub data ContentType : Type 0 where
  text sticker : ContentType

pub data MessageKind : Type 0 where
  user system : MessageKind

pub record Message : Type 0 where
  pub id : Text
  pub conversation_id : Text
  pub sender_id : Text
  pub client_message_id : Text
  pub sequence : ℕ
  pub body : Text
  pub content_type : ContentType
  pub mentions : Option (List Mention)
  pub reply_to_message_id : Option Text
  pub created_at : Text
  pub kind : MessageKind

-- A mention on the wire, as a value, and `toMessageMentionWires`.
abbrev pub wire_mention : Mention → Value
wire_mention m = obj (
    field (codes "user_id") (str m.user_id)
      (field (codes "start") (num (pos m.start)) (field (codes "end") (num (pos m.end)) no_fields)))

abbrev pub to_message_mention_wires : List Mention → Value
to_message_mention_wires ms = arr (from_list (map wire_mention ms))

abbrev pub mentions_field : List Mention → Fields → Fields
mentions_field [] r = r
mentions_field (m ∷ ms) r = field (codes "mentions") (to_message_mention_wires (m ∷ ms)) r

-- `reply_to_message_id`, where `toMessageSendEvent` has one that is not empty.
abbrev pub reply_field : Option Text → Fields
reply_field none = no_fields
reply_field (some id) =
    if is_empty id then no_fields else field (codes "reply_to_message_id") (str id) no_fields

abbrev pub send_type : Option Text → Text
send_type none = codes "message.send"
send_type (some id) = if is_empty id then codes "message.send" else codes "message.reply.send"

-- `toMessageSendEvent`.
unfoldable pub to_message_send_event :
    Text → Text → Text → Text → List Mention → Option Text → Value
to_message_send_event request_id conversation_id client_message_id body mentions reply =
    let payload = field (codes "conversation_id") (str conversation_id) (
      field (codes "client_message_id") (str client_message_id) (
        field (codes "body") (str body) (
          field (codes "content_type") (str (codes "text"))
            (mentions_field mentions (reply_field reply))))) in
    obj (
      field (codes "type") (str (send_type reply)) (
        field (codes "request_id") (str request_id)
          (field (codes "payload") (obj payload) no_fields)))

-- The guards of `toMessage`.
unfoldable pub is_message : Value → Bool
is_message v =
    (is_nullish (prop v "reply_to_message_id")
      || is_string (prop v "reply_to_message_id")
        && is_canonical_uuid (text_of (prop v "reply_to_message_id")))
    && (is_object v || is_array v)
    && is_filled_text (prop v "id")
    && is_filled_text (prop v "conversation_id")
    && is_filled_text (prop v "sender_id")
    && is_filled_text (prop v "client_message_id")
    && at_least_one (natural_of (prop v "sequence"))
    && is_string (prop v "body")
    && is_filled_text (prop v "created_at")
    && (is_undefined (prop v "kind")
        || is_text (prop v "kind") "user"
        || is_text (prop v "kind") "system")
    && (is_undefined (prop v "content_type")
        || is_text (prop v "content_type") "text"
        || is_text (prop v "content_type") "sticker")
    && (is_undefined (prop v "mentions")
        || is_valid_message_mention_wire (prop v "mentions") (text_of (prop v "body")))

-- `{userId: mention.user_id, start: mention.start, end: mention.end}`, of a valid wire mention.
abbrev pub mention_of : Value → Mention
mention_of v = record {
  user_id = text_of (prop v "user_id");
  start = or_zero (natural_of (prop v "start"));
  end = or_zero (natural_of (prop v "end"));
}

abbrev pub mentions_of : Value → Option (List Mention)
mentions_of v = if is_undefined v then none else some (map mention_of (items_of v))

-- `toMessage`.
unfoldable pub to_message : Value → Option Message
to_message v =
    if is_message v
    then some (record {
      id = text_of (prop v "id");
      conversation_id = text_of (prop v "conversation_id");
      sender_id = text_of (prop v "sender_id");
      client_message_id = text_of (prop v "client_message_id");
      sequence = or_zero (natural_of (prop v "sequence"));
      body = text_of (prop v "body");
      content_type = if is_text (prop v "content_type") "sticker" then sticker else text;
      mentions = mentions_of (prop v "mentions");
      reply_to_message_id =
          if is_nullish (prop v "reply_to_message_id")
          then none
          else some (text_of (prop v "reply_to_message_id"));
      created_at = text_of (prop v "created_at");
      kind = if is_text (prop v "kind") "system" then system else user;
    })
    else none

-- `toMessageHistory`: what is no message is left out.
unfoldable pub to_messages : List Value → List Message
to_messages [] = []
to_messages (v ∷ vs) = elim (to_message v) [ none ↦ to_messages vs | some m ↦ m ∷ to_messages vs ]

-- `Conversation`.
pub data Conversation : Type 0 where
  direct : DirectConversation → Conversation
  group : GroupConversation → Conversation

abbrev name_or : Option Text → Text → Text
name_or none t = t
name_or (some s) t = if is_empty s then t else s

abbrev is_own : Text → Option Text → Bool
is_own s none = false
is_own s (some t) = text_eq s t

unfoldable pub member_name : Text → List GroupMember → Option Text
member_name id [] = none
member_name id (m ∷ ms) =
    let rest = member_name id ms in if text_eq m.user_id id then some m.display_name else rest

-- `messageSenderDisplayName`.
unfoldable pub message_sender_display_name :
    Message → Option Conversation → Option Text → Option Text → Text
message_sender_display_name message conversation own_id own_name =
    if is_own message.sender_id own_id then name_or own_name (codes "You") else elim conversation [
      | none ↦ codes "Conversation member"
      | some (direct c) ↦ c.other_display_name
      | some (group g) ↦
          name_or (member_name message.sender_id g.members) (codes "Conversation member")
    ]
