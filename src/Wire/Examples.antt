-- ===== src/Wire/Examples.antt =====
-- Runs of the mappers of home/wire.mapper.ts.
use zwei.Common.{◌≡◌, refl, ◌≤◌, Bool, true, false, some, List, [], ◌∷◌, arith, length}
use zwei.Js.Text.{Text, codes, trim, is_uuid_text}
use zwei.Js.Value.{Value, Fields, obj, field, no_fields, str, num, arr, pos, from_list}
use zwei.Message.{Mention, is_user_id, splits_surrogate_pair}
use zwei.Message.Validity.{IsMention, is_valid_message_mentions_iff}
use zwei.Protocol.Fields.{is_uuid}
use zwei.Transport.Send.{is_refused}
use zwei.Wire.{is_filled_text, is_trimmed_text}
use zwei.Wire.Groups.{
  GroupConversation, owner, to_group, is_group, members_from, to_group_member, is_dated_text,
  role_of, contains_owner,
}
use zwei.Wire.Groups.Owners.{AreNew, to_group-members}
use zwei.Wire.Messages.{to_message_send_event}
use zwei.Wire.Messages.Sending.{is_refused-to_message_send_event}

abbrev parses : Text → Bool
parses s = true

abbrev texts : List (Text × Text) → Fields → Fields
texts [] r = r
texts ((k, t) ∷ ps) r = field k (str t) (texts ps r)

abbrev ann_wire : Value
ann_wire = obj (
    texts
      ((codes "user_id", codes "u1")
        ∷ (codes "display_name", codes "Ann")
        ∷ (codes "role", codes "owner")
        ∷ (codes "joined_at", codes "2026-01-01T00:00:00Z")
        ∷ [])
      (field (codes "visible_from_sequence") (num (pos 1)) no_fields))

abbrev group_wire : Value
group_wire = obj (
    texts
      ((codes "id", codes "g1")
        ∷ (codes "name", codes "Team")
        ∷ (codes "avatar_seed", codes "seed")
        ∷ (codes "owner_id", codes "u1")
        ∷ (codes "created_at", codes "2026-01-01T00:00:00Z")
        ∷ (codes "last_message_at", codes "2026-01-02T00:00:00Z")
        ∷ [])
      (field (codes "membership_revision") (num (pos 3))
        (field (codes "members") (arr (from_list (ann_wire ∷ []))) no_fields)))

abbrev team : GroupConversation
team = record {
  id = codes "g1";
  name = codes "Team";
  avatar_seed = codes "seed";
  owner_id = codes "u1";
  membership_revision = 3;
  created_at = codes "2026-01-01T00:00:00Z";
  last_message_at = codes "2026-01-02T00:00:00Z";
  unread_count = 0;
  members =
      record {
        user_id = codes "u1";
        display_name = codes "Ann";
        role = owner;
        visible_from_sequence = 1;
        joined_at = codes "2026-01-01T00:00:00Z";
      }
      ∷ [];
}

group-team : to_group parses group_wire ≡ some team
unfolding to_group is_group members_from to_group_member is_dated_text role_of is_filled_text
    is_trimmed_text trim
group-team = refl

to_group-members_example :
    (length team.members ≤ 16)
    × AreNew [] team.members
    × (contains_owner team.owner_id team.members ≡ true)
to_group-members_example = to_group-members parses group_wire team group-team

abbrev hello : Text
hello = codes "hi @ann"

abbrev ann : Mention
ann = record { user_id = codes "u1"; start = 3; end = 7 }

ann-IsMention : IsMention hello 0 ann
unfolding is_user_id splits_surrogate_pair trim
ann-IsMention = record {
  named = refl;
  behind = omega arith;
  long = omega arith;
  inside = omega arith;
  at_sign = refl;
  whole_start = refl;
  whole_end = refl;
  safe = omega arith;
}

is_refused-to_message_send_event_example :
    is_refused (
      to_message_send_event
        (codes "r")
        (codes "c")
        (codes "k")
        hello
        (ann ∷ [])
        (some (codes "0189a0b1-0000-7000-8000-00000000000f")))
    ≡ false
unfolding is_uuid is_uuid_text
is_refused-to_message_send_event_example =
    is_refused-to_message_send_event (codes "r") (codes "c") (codes "k") hello (ann ∷ [])
      (some (codes "0189a0b1-0000-7000-8000-00000000000f"))
      ((is_valid_message_mentions_iff hello (ann ∷ [])).1 (omega arith, (ann-IsMention, tt))) refl
