-- ===== src/Wire.antt =====
-- How the server's answers become the client's conversations and messages, and a draft the event that
-- is sent: frontend-app/src/app/home/wire.mapper.ts, with the types of
-- frontend-app/src/app/home/conversation.model.ts.
pub mod Groups
pub mod Messages
mod Examples
use zwei.Common.{
  ℕ, ◌≡◌, Bool, true, false, not, ◌&&◌, ◌||◌, Option, none, some, List, [], ◌∷◌, leb, ltb,
  if◌then◌else◌, length, is_some,
}
use zwei.Js.Text.{Text, codes, text_eq, trim, is_empty, ◌>>=◌}
use zwei.Js.Value.{
  Value, prop, is_undefined, is_string, is_array, is_object, items_of, text_of, natural_of,
}

-- `DirectConversation`.
pub record DirectConversation : Type 0 where
  pub id : Text
  pub other_user_id : Text
  pub other_display_name : Text
  pub other_email : Text
  pub created_at : Text
  pub last_message_at : Text
  pub unread_count : ℕ

-- `typeof value === 'string' && value.trim()`, and with `value === value.trim()`.
unfoldable pub is_filled_text : Value → Bool
is_filled_text v = is_string v && not (is_empty (trim (text_of v)))

unfoldable pub is_trimmed_text : Value → Bool
is_trimmed_text v = is_filled_text v && text_eq (text_of v) (trim (text_of v))

-- A natural number that is not zero.
abbrev pub at_least_one : Option ℕ → Bool
at_least_one none = false
at_least_one (some n) = leb 1 n

abbrev pub or_zero : Option ℕ → ℕ
or_zero none = 0
or_zero (some n) = n

-- `last_message_at || created_at`.
abbrev pub text_or : Value → Value → Text
text_or a b = if is_empty (text_of a) then text_of b else text_of a

-- The guards of `toConversation`.
unfoldable pub is_conversation : Value → Bool
is_conversation v =
    is_object v
    && is_filled_text (prop v "id")
    && is_filled_text (prop v "other_user_id")
    && is_filled_text (prop v "other_display_name")
    && is_filled_text (prop v "other_email")
    && is_filled_text (prop v "created_at")
    && (is_undefined (prop v "last_message_at") || is_string (prop v "last_message_at"))

-- `toConversation`.
unfoldable pub to_conversation : Value → Option DirectConversation
to_conversation v =
    if is_conversation v
    then some (record {
      id = text_of (prop v "id");
      other_user_id = text_of (prop v "other_user_id");
      other_display_name = text_of (prop v "other_display_name");
      other_email = text_of (prop v "other_email");
      created_at = text_of (prop v "created_at");
      last_message_at = text_or (prop v "last_message_at") (prop v "created_at");
      unread_count = or_zero (natural_of (prop v "unread_count"));
    })
    else none

-- A loop that pushes each mapped item, and returns `null` at the first that has none.
unfoldable pub each {ℓ} : {A : Type ℓ} → (Value → Option A) → List Value → Option (List A)
each f [] = some []
each f (v ∷ vs) = (do a ← f v; rest ← each f vs; some (a ∷ rest))

-- `toConversationList`.
unfoldable pub to_conversation_list : Value → Option (List DirectConversation)
to_conversation_list v = if is_array v then each to_conversation (items_of v) else none
