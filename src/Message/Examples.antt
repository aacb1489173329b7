-- ===== src/Message/Examples.antt =====
-- Runs of the mention helpers of home/message.model.ts.
use zwei.Common.{
  ◌≡◌, refl, ◌↔◌, ◌≤◌, true, false, some, List, [], ◌∷◌, ◌++◌, map, arith, if◌then◌else◌, length,
}
use zwei.Js.Text.{Text, codes, trim}
use zwei.Message.{
  Mention, mentions_value, is_valid_message_mentions, message_text_segments, update_mention_ranges,
  is_user_id, is_range, splits_surrogate_pair, mention_end, are_mentions, prefix_grows, prefix_loop,
  suffix_grows, suffix_loop, move_mentions,
}
use zwei.Message.Validity.{AreMentions, is_valid_message_mentions_iff}
use zwei.Message.Segments.{
  shown, mentioned_texts, span, shown-message_text_segments, mentioned_texts-message_text_segments,
}
use zwei.Message.Edits.{
  AreSpans, Follows, Follows-update_mention_ranges, AreSpans-update_mention_ranges,
}
use zwei.Message.Typing.{update_mention_ranges-append}

abbrev body : Text
body = codes "hi @ann and @bob"

abbrev ann : Mention
ann = record { user_id = codes "u1"; start = 3; end = 7 }

abbrev bob : Mention
bob = record { user_id = codes "u2"; start = 12; end = 16 }

abbrev both : List Mention
both = ann ∷ bob ∷ []

both_valid : is_valid_message_mentions (mentions_value both) body ≡ true
unfolding is_valid_message_mentions are_mentions mention_end is_range is_user_id
    splits_surrogate_pair trim
both_valid = refl

swapped_invalid : is_valid_message_mentions (mentions_value (bob ∷ ann ∷ [])) body ≡ false
unfolding is_valid_message_mentions are_mentions mention_end is_range is_user_id
    splits_surrogate_pair trim
swapped_invalid = refl

both_spans : AreSpans body 0 both
both_spans = (
  record { behind = omega arith; long = omega arith; inside = omega arith; at_sign = refl },
  (record { behind = omega arith; long = omega arith; inside = omega arith; at_sign = refl }, tt),
)

is_valid_message_mentions_iff_example :
    (is_valid_message_mentions (mentions_value both) body ≡ true)
    ↔ ((length both ≤ 16) × AreMentions body 0 both)
is_valid_message_mentions_iff_example = is_valid_message_mentions_iff body both

shown-message_text_segments_example : shown (message_text_segments body (some both)) ≡ body
shown-message_text_segments_example = shown-message_text_segments body (some both)

mentioned_texts-message_text_segments_example :
    mentioned_texts (message_text_segments body (some both))
    ≡ (if is_valid_message_mentions (mentions_value both) body then map (span body) both else [])
mentioned_texts-message_text_segments_example = mentioned_texts-message_text_segments body both

abbrev edited : Text
edited = codes "hi @ann and also @bob"

edited_ranges :
    update_mention_ranges body edited both
    ≡ ann ∷ record { user_id = codes "u2"; start = 17; end = 21 } ∷ []
unfolding update_mention_ranges prefix_loop prefix_grows suffix_loop suffix_grows move_mentions
edited_ranges = refl

Follows-update_mention_ranges_example :
    Follows body edited both (update_mention_ranges body edited both)
Follows-update_mention_ranges_example = Follows-update_mention_ranges body edited both both_spans

AreSpans-update_mention_ranges_example : AreSpans edited 0 (update_mention_ranges body edited both)
AreSpans-update_mention_ranges_example = AreSpans-update_mention_ranges body edited both both_spans

update_mention_ranges-append_example : update_mention_ranges body (body ++ codes "!") both ≡ both
update_mention_ranges-append_example = update_mention_ranges-append body (codes "!") both both_spans
