-- ===== src/Wire/Groups.antt =====
-- Groups: `toGroupMember`, `toGroup`, `toGroupPage` and `toGroupPeerReadCursor` of home/wire.mapper.ts.
-- Whether a text is a date, and whether it is a page cursor, are parameters.
pub mod Owners
use zwei.Common.{
  ℕ, ◌≡◌, Bool, true, false, not, ◌&&◌, ◌||◌, Option, none, some, List, [], ◌∷◌, leb, ltb,
  if◌then◌else◌, length, is_some, any,
}
use zwei.Js.Text.{Text, codes, text_eq, trim, is_empty, ◌>>=◌}
use zwei.Js.Value.{
  Value, prop, is_undefined, is_null, is_string, is_array, is_object, is_text, items_of, text_of,
  natural_of,
}
use zwei.Wire.{is_filled_text, is_trimmed_text, at_least_one, or_zero, each}

-- `GroupRole`, `GroupMember`, `GroupConversation` and `GroupPeerReadCursor`. The fields of a direct
-- conversation, which are empty in a group, are left out.
pub data GroupRole : Type 0 where
  owner admin member : GroupRole

pub record GroupMember : Type 0 where
  pub user_id : Text
  pub display_name : Text
  pub role : GroupRole
  pub visible_from_sequence : ℕ
  pub joined_at : Text

pub record GroupConversation : Type 0 where
  pub id : Text
  pub name : Text
  pub avatar_seed : Text
  pub owner_id : Text
  pub membership_revision : ℕ
  pub created_at : Text
  pub last_message_at : Text
  pub unread_count : ℕ
  pub members : List GroupMember

pub record GroupPeerReadCursor : Type 0 where
  pub user_id : Text
  pub sequence : ℕ
  pub visible_from_sequence : ℕ

pub record GroupPage : Type 0 where
  pub items : List GroupConversation
  pub next_cursor : Option Text

unfoldable pub role_of : Value → Option GroupRole
role_of v =
    if is_text v "owner"
    then some owner
    else if is_text v "admin"
    then some admin
    else if is_text v "member"
    then some member
    else none

-- `toGroupPeerReadCursor`.
unfoldable pub to_group_peer_read_cursor : Value → Option GroupPeerReadCursor
to_group_peer_read_cursor v =
    if is_string (prop v "user_id")
      && not (is_empty (text_of (prop v "user_id")))
      && text_eq (text_of (prop v "user_id")) (trim (text_of (prop v "user_id")))
      && at_least_one (natural_of (prop v "visible_from_sequence"))
    then (do
      sequence ← natural_of (prop v "sequence")
      some (record {
        user_id = text_of (prop v "user_id");
        sequence = sequence;
        visible_from_sequence = or_zero (natural_of (prop v "visible_from_sequence"));
      }))
    else none

abbrev pub is_owner : GroupRole → Bool
is_owner owner = true
is_owner admin = false
is_owner member = false

-- `containsOwner`.
abbrev pub contains_owner : Text → List GroupMember → Bool
contains_owner id ms = any (λ m. text_eq m.user_id id && is_owner m.role) ms

-- The object that `toGroup` returns.
abbrev pub group_with : Value → List GroupMember → GroupConversation
group_with v members = record {
  id = text_of (prop v "id");
  name = text_of (prop v "name");
  avatar_seed = text_of (prop v "avatar_seed");
  owner_id = text_of (prop v "owner_id");
  membership_revision = or_zero (natural_of (prop v "membership_revision"));
  created_at = text_of (prop v "created_at");
  last_message_at = text_of (prop v "last_message_at");
  unread_count = or_zero (natural_of (prop v "unread_count"));
  members = members;
}

module _ (parses : Text → Bool) where
  unfoldable pub is_dated_text : Value → Bool
  is_dated_text v = is_filled_text v && parses (text_of v)

  -- `toGroupMember`.
  unfoldable pub to_group_member : Value → Option GroupMember
  to_group_member v =
      if (is_object v || is_array v)
        && is_trimmed_text (prop v "user_id")
        && is_filled_text (prop v "display_name")
        && at_least_one (natural_of (prop v "visible_from_sequence"))
        && is_dated_text (prop v "joined_at")
      then (do
        role ← role_of (prop v "role")
        some (record {
          user_id = text_of (prop v "user_id");
          display_name = text_of (prop v "display_name");
          role = role;
          visible_from_sequence = or_zero (natural_of (prop v "visible_from_sequence"));
          joined_at = text_of (prop v "joined_at");
        }))
      else none

  -- The loop of `toGroup`, with the IDs that it has seen.
  unfoldable pub members_from : List Text → List Value → Option (List GroupMember)
  members_from seen [] = some []
  members_from seen (v ∷ vs) = (do
    m ← to_group_member v
    rest ← members_from (m.user_id ∷ seen) vs
    if any (text_eq m.user_id) seen then none else some (m ∷ rest))

  -- The guards of `toGroup` in front of the loop.
  unfoldable pub is_group : Value → Bool
  is_group v =
      (is_object v || is_array v)
      && is_trimmed_text (prop v "id")
      && is_filled_text (prop v "name")
      && is_filled_text (prop v "avatar_seed")
      && is_trimmed_text (prop v "owner_id")
      && at_least_one (natural_of (prop v "membership_revision"))
      && is_dated_text (prop v "created_at")
      && is_dated_text (prop v "last_message_at")
      && is_array (prop v "members")
      && leb (length (items_of (prop v "members"))) 16
      && (is_undefined (prop v "unread_count") || is_some (natural_of (prop v "unread_count")))

  -- `toGroup`.
  unfoldable pub to_group : Value → Option GroupConversation
  to_group v =
      if is_group v
      then (do
        members ← members_from [] (items_of (prop v "members"))
        if contains_owner (text_of (prop v "owner_id")) members
            then some (group_with v members)
            else none)
      else none

  abbrev cursor_of : Value → Option Text
  cursor_of v = if is_string v then some (text_of v) else none

  -- `toGroupPage`, for a test `is_cursor` that only texts pass.
  unfoldable pub to_group_page : (Text → Bool) → Value → Option GroupPage
  to_group_page is_cursor v =
      if is_object v
        && is_array (prop v "items")
        && leb (length (items_of (prop v "items"))) 25
        && (is_null (prop v "next_cursor")
            || is_string (prop v "next_cursor") && is_cursor (text_of (prop v "next_cursor")))
      then (do
        groups ← each to_group (items_of (prop v "items"))
        some (record { items = groups; next_cursor = cursor_of (prop v "next_cursor") }))
      else none
