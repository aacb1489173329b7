-- ===== src/Activity/Examples.antt =====
-- A comparison of home/conversation-activity.ts.
use zwei.Common.{ℕ, ◌≡◌, Option, some}
use zwei.Js.Text.{Text, codes}
use zwei.Activity.{Conversation, same, compare_conversation_activity_descending}
use zwei.Activity.Order.{flip, compare-flip}

-- Every date is the same second.
abbrev seconds : Text → Option ℕ
seconds s = some 7

abbrev early : Conversation
early = record { id = codes "a"; last_message_at = codes "2026-01-01T00:00:00.5Z" }

abbrev late : Conversation
late = record { id = codes "b"; last_message_at = codes "2026-01-01T00:00:00.25Z" }

compare-flip_example :
    (compare_conversation_activity_descending seconds early late
      ≡ flip (compare_conversation_activity_descending seconds late early))
    × (compare_conversation_activity_descending seconds early late ≡ same → early.id ≡ late.id)
compare-flip_example = compare-flip seconds early late
