-- ===== src/Activity.antt =====
-- The order of the conversations: frontend-app/src/app/home/conversation-activity.ts. What `Date.parse`
-- says of a date is a parameter: the second that it names, counted from the earliest date on.
pub mod Order
mod Examples
use zwei.Common.{
  ℕ, ◌+◌, ◌*◌, ◌-◌, ◌^◌, Bool, true, false, not, ◌&&◌, ◌||◌, Option, none, some, List, [], ◌∷◌,
  ◌++◌, ltb, leb, ◌==◌, if◌then◌else◌, length, take,
}
use zwei.Js.Text.{Text, codes, text_eq, is_digit, run, literal, is_empty, ◌>>=◌}

-- The sign of what a comparison returns.
pub data Sign : Type 0 where
  less same greater : Sign

-- `ParsedInstant`.
pub record ParsedInstant : Type 0 where
  pub epoch_seconds : ℕ
  pub nanoseconds : ℕ

-- `left < right`, on two texts.
unfoldable pub text_less : Text → Text → Bool
text_less [] [] = false
text_less [] (d ∷ t) = true
text_less (c ∷ s) [] = false
text_less (c ∷ s) (d ∷ t) = let rest = text_less s t in ltb c d || (c == d) && rest

-- The digits at the front of a text, and what is behind them.
unfoldable pub digits : Text → Text × Text
digits [] = ([], [])
digits (c ∷ s) = let rest = digits s in if is_digit c then (c ∷ rest.0, rest.1) else ([], c ∷ s)

-- `(?:\.(\d{1,9}))?` of `RFC3339_NANO_PATTERN`.
unfoldable pub fraction : Text → Option (Text × Text)
fraction [] = some ([], [])
fraction (c ∷ s) =
    if c == 46
    then (if leb 1 (length (digits s).0) && leb (length (digits s).0) 9
        then some (digits s)
        else none)
    else some ([], c ∷ s)

-- `\d{4}-\d{2}-\d{2}T\d{2}:\d{2}:\d{2}`.
unfoldable pub date_and_time : Text → Option Text
date_and_time s = (do
  s ← run is_digit 4 s
  s ← literal (codes "-") s
  s ← run is_digit 2 s
  s ← literal (codes "-") s
  s ← run is_digit 2 s
  s ← literal (codes "T") s
  s ← run is_digit 2 s
  s ← literal (codes ":") s
  s ← run is_digit 2 s
  s ← literal (codes ":") s
  run is_digit 2 s)

-- `Z|[+-]\d{2}:\d{2}`, up to the end.
abbrev at_end : Option Text → Bool
at_end none = false
at_end (some s) = is_empty s

unfoldable pub is_offset : Text → Bool
is_offset [] = false
is_offset (c ∷ s) =
    (c == 90) && is_empty s
    || (c == 43 || c == 45)
      && at_end (do s ← run is_digit 2 s; s ← literal (codes ":") s; run is_digit 2 s)

-- `Number(fraction.padEnd(9, '0'))`.
unfoldable pub nanoseconds_of : ℕ → ℕ → Text → ℕ
nanoseconds_of places n [] = n * 10 ^ places
nanoseconds_of places n (c ∷ s) = nanoseconds_of (places - 1) (n * 10 + (c - 48)) s

-- `||` on two results of a comparison.
abbrev pub or_else : Sign → Sign → Sign
or_else less b = less
or_else same b = b
or_else greater b = greater

abbrev pub compare_numbers : ℕ → ℕ → Sign
compare_numbers m n = if m == n then same else if ltb m n then less else greater

abbrev pub compare_texts : Text → Text → Sign
compare_texts s t = if text_eq s t then same else if text_less s t then less else greater

-- What `compareInstants` makes of the two instants, or else of the two texts.
unfoldable pub compare_parsed : Option ParsedInstant → Option ParsedInstant → Text → Text → Sign
compare_parsed (some a) (some b) left right =
    or_else (compare_numbers a.epoch_seconds b.epoch_seconds)
      (compare_numbers a.nanoseconds b.nanoseconds)
compare_parsed (some a) none left right = compare_texts left right
compare_parsed none b left right = compare_texts left right

pub record Conversation : Type 0 where
  pub id : Text
  pub last_message_at : Text

module _ (seconds : Text → Option ℕ) where
  -- `parseRFC3339Nano`.
  unfoldable pub parse_rfc3339_nano : Text → Option ParsedInstant
  parse_rfc3339_nano value = (do
    rest ← date_and_time value
    split ← fraction rest
    second ← (if is_offset split.1 then seconds (take 19 value ++ split.1) else none)
    some (record { epoch_seconds = second; nanoseconds = nanoseconds_of 9 0 split.0 }))

  -- `compareInstants`.
  unfoldable pub compare_instants : Text → Text → Sign
  compare_instants left right =
      compare_parsed (parse_rfc3339_nano left) (parse_rfc3339_nano right) left right

  -- `compareConversationActivityDescending`.
  unfoldable pub compare_conversation_activity_descending : Conversation → Conversation → Sign
  compare_conversation_activity_descending left right =
      or_else (compare_instants right.last_message_at left.last_message_at)
        (compare_texts right.id left.id)
