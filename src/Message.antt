-- ===== src/Message.antt =====
-- Mentions in a message body: frontend-app/src/app/home/message.model.ts. Offsets count UTF-16
-- code units, so a body is a list of them.
pub mod Validity
pub mod Segments
pub mod Loops
pub mod Edits
pub mod Typing
mod Examples
use zwei.Common.{
  ℕ, zero, suc, ◌+◌, ◌-◌, ◌≡◌, refl, Bool, true, false, not, ◌&&◌, ◌||◌, Option, none, some, List,
  [], ◌∷◌, ◌++◌, map, ltb, leb, ◌==◌, if◌then◌else◌, length, get_elem?, drop, slice,
}
use zwei.Js.Text.{Text, codes, text_eq, trim, is_empty, is_high_surrogate, is_low_surrogate, ◌>>=◌}
use zwei.Js.Value.{
  Value, num, str, arr, obj, no_fields, field, pos, from_list, prop, is_string, is_array, is_object,
  items_of, text_of, natural_of,
}

-- `MessageMention`, of half-open offsets. The program makes one only from safe natural numbers.
pub record Mention : Type 0 where
  pub user_id : Text
  pub start : ℕ
  pub end : ℕ

-- `MessageTextSegment`.
pub record Segment : Type 0 where
  pub text : Text
  pub mentioned : Bool

-- `text.charCodeAt(offset)`, for an offset in range.
abbrev pub char_code : Option ℕ → ℕ
char_code none = 0
char_code (some c) = c

-- `splitsSurrogatePair`.
unfoldable pub splits_surrogate_pair : Text → ℕ → Bool
splits_surrogate_pair text offset =
    if leb offset 0 || leb (length text) offset
    then false
    else is_high_surrogate (char_code (get_elem? text (offset - 1)))
      && is_low_surrogate (char_code (get_elem? text offset))

abbrev pub is_at_sign : Option ℕ → Bool
is_at_sign none = false
is_at_sign (some c) = c == 64

-- The tests on the two offsets of a mention, behind one that ends at `previous_end`.
pub is_range : Text → ℕ → ℕ → ℕ → Bool
is_range body previous_end start end =
    not (ltb start previous_end)
    && not (leb end (start + 1))
    && not (ltb (length body) end)
    && is_at_sign (get_elem? body start)
    && not (splits_surrogate_pair body start)
    && not (splits_surrogate_pair body end)

-- `typeof userID === 'string' && userID.trim() && userID === userID.trim()`.
unfoldable pub is_user_id : Value → Bool
is_user_id v =
    is_string v && not (is_empty (trim (text_of v))) && text_eq (text_of v) (trim (text_of v))

-- One round of the loop of `isValidMessageMentions`: the new `previousEnd`, or `return false`.
pub mention_end : Text → ℕ → Value → Option ℕ
mention_end body previous_end item =
    if is_object item && is_user_id (prop item "userId")
    then (do
      start ← natural_of (prop item "start")
      end ← natural_of (prop item "end")
      if is_range body previous_end start end then some end else none)
    else none

pub are_mentions : Text → ℕ → List Value → Bool
are_mentions body previous_end [] = true
are_mentions body previous_end (item ∷ rest) = elim (mention_end body previous_end item) [
  | none ↦ false
  | some end ↦ are_mentions body end rest
]

-- `isValidMessageMentions`.
pub is_valid_message_mentions : Value → Text → Bool
is_valid_message_mentions value body =
    is_array value && leb (length (items_of value)) 16 && are_mentions body 0 (items_of value)

-- A `MessageMention[]` as the `unknown` that `isValidMessageMentions` takes.
abbrev pub mention_value : Mention → Value
mention_value m = obj (
    field (codes "userId") (str m.user_id)
      (field (codes "start") (num (pos m.start)) (field (codes "end") (num (pos m.end)) no_fields)))

abbrev pub mentions_value : List Mention → Value
mentions_value ms = arr (from_list (map mention_value ms))

abbrev pub plain : Text → Segment
plain t = record { text = t; mentioned = false }

abbrev pub tagged : Text → Segment
tagged t = record { text = t; mentioned = true }

-- The loop of `messageTextSegments`; behind it the text from the cursor on.
pub segments_from : Text → ℕ → List Segment → List Mention → List Segment
segments_from body cursor segments [] =
    if ltb cursor (length body) || leb (length segments) 0
    then segments ++ plain (drop cursor body) ∷ []
    else segments
segments_from body cursor segments (mention ∷ rest) =
    segments_from body mention.end
      ((if ltb cursor mention.start
          then segments ++ plain (slice body cursor mention.start) ∷ []
          else segments)
        ++ tagged (slice body mention.start mention.end) ∷ [])
      rest

-- `messageTextSegments`.
pub message_text_segments : Text → Option (List Mention) → List Segment
message_text_segments body none = plain body ∷ []
message_text_segments body (some mentions) =
    if is_valid_message_mentions (mentions_value mentions) body
    then segments_from body 0 [] mentions
    else plain body ∷ []

-- `===` on two characters of texts, `undefined` behind the end.
abbrev pub same_unit : Option ℕ → Option ℕ → Bool
same_unit none none = true
same_unit none (some b) = false
same_unit (some a) none = false
same_unit (some a) (some b) = a == b

-- The condition of the first `while` loop of `updateMentionRanges`, and the loop with fuel for its
-- rounds.
pub prefix_grows : Text → Text → ℕ → Bool
prefix_grows previous next prefix =
    ltb prefix (length previous)
    && ltb prefix (length next)
    && same_unit (get_elem? previous prefix) (get_elem? next prefix)

pub prefix_loop : ℕ → Text → Text → ℕ → ℕ
prefix_loop zero previous next prefix = prefix
prefix_loop (suc fuel) previous next prefix = elim (prefix_grows previous next prefix) [
  | true ↦ prefix_loop fuel previous next (prefix + 1)
  | false ↦ prefix
]

-- The second loop, which counts from the two ends.
pub suffix_grows : Text → Text → ℕ → ℕ → Bool
suffix_grows previous next prefix suffix =
    ltb suffix (length previous - prefix)
    && ltb suffix (length next - prefix)
    && same_unit (get_elem? previous (length previous - suffix - 1))
        (get_elem? next (length next - suffix - 1))

pub suffix_loop : ℕ → Text → Text → ℕ → ℕ → ℕ
suffix_loop zero previous next prefix suffix = suffix
suffix_loop (suc fuel) previous next prefix suffix =
    elim (suffix_grows previous next prefix suffix) [
      | true ↦ suffix_loop fuel previous next prefix (suffix + 1)
      | false ↦ suffix
    ]

-- The last loop: `start + delta` and `end + delta`, for `delta = newEnd - oldEnd`.
pub move_mentions : ℕ → ℕ → ℕ → List Mention → List Mention
move_mentions prefix old_end new_end [] = []
move_mentions prefix old_end new_end (mention ∷ rest) =
    let updated = move_mentions prefix old_end new_end rest in
    if leb mention.end prefix
    then mention ∷ updated
    else if leb old_end mention.start
    then record mention {
      start = mention.start + new_end - old_end;
      end = mention.end + new_end - old_end;
    }
      ∷ updated
    else updated

abbrev pub common_prefix : Text → Text → ℕ
common_prefix previous next = prefix_loop (length previous) previous next 0

abbrev pub common_suffix : Text → Text → ℕ
common_suffix previous next =
    suffix_loop (length previous) previous next (common_prefix previous next) 0

-- `updateMentionRanges`.
pub update_mention_ranges : Text → Text → List Mention → List Mention
update_mention_ranges previous next mentions =
    move_mentions (common_prefix previous next) (length previous - common_suffix previous next)
      (length next - common_suffix previous next) mentions
