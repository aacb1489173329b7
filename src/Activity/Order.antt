-- ===== src/Activity/Order.antt =====
-- The comparison of home/conversation-activity.ts, taken both ways round.
use zwei.Common.{ℕ, ◌≡◌, refl, sym, Option, none, some, [], ◌∷◌, arith, Bool-cases, inl, inr}
use zwei.Js.Text.{Text, text_eq, text_eq→≡}
use zwei.Activity.{
  Sign, less, same, greater, ParsedInstant, text_less, or_else, compare_numbers, compare_texts,
  compare_parsed, Conversation, parse_rfc3339_nano, compare_instants,
  compare_conversation_activity_descending,
}

abbrev pub flip : Sign → Sign
flip less = greater
flip same = same
flip greater = less

compare_numbers-flip : (m n : ℕ) → compare_numbers m n ≡ flip (compare_numbers n m)
compare_numbers-flip m n = ground arith

compare_texts-cons :
    (c d : ℕ) (s t : Text)
    → compare_texts s t ≡ flip (compare_texts t s)
    → compare_texts (c ∷ s) (d ∷ t) ≡ flip (compare_texts (d ∷ t) (c ∷ s))
unfolding text_less
compare_texts-cons c d s t h = ground arith

compare_texts-flip : (s t : Text) → compare_texts s t ≡ flip (compare_texts t s)
unfolding text_less
compare_texts-flip [] [] = refl
compare_texts-flip [] (d ∷ t) = refl
compare_texts-flip (c ∷ s) [] = refl
compare_texts-flip (c ∷ s) (d ∷ t) = compare_texts-cons c d s t (compare_texts-flip s t)

or_else-flip : (a b : Sign) → or_else (flip a) (flip b) ≡ flip (or_else a b)
or_else-flip less b = refl
or_else-flip same b = refl
or_else-flip greater b = refl

compare_parsed-flip :
    (a b : Option ParsedInstant) (s t : Text)
    → compare_parsed a b s t ≡ flip (compare_parsed b a t s)
unfolding compare_parsed
compare_parsed-flip (some a) (some b) s t =
    rw
      (
        compare_numbers-flip a.epoch_seconds b.epoch_seconds,
        compare_numbers-flip a.nanoseconds b.nanoseconds,
      )
      (or_else-flip _ _)
compare_parsed-flip (some a) none s t = compare_texts-flip s t
compare_parsed-flip none (some b) s t = compare_texts-flip s t
compare_parsed-flip none none s t = compare_texts-flip s t

compare_texts-same : (s t : Text) → compare_texts s t ≡ same → s ≡ t
compare_texts-same s t h = elim (Bool-cases (text_eq s t)) [
  | inl e ↦ text_eq→≡ s t e
  | inr e ↦ absurd (ground (arith, h, e))
]

or_else-same : (a b : Sign) → or_else a b ≡ same → b ≡ same
or_else-same a b h = ground arith

or_else-flips : (a c b d : Sign) → a ≡ flip c → b ≡ flip d → or_else a b ≡ flip (or_else c d)
or_else-flips a c b d h k = rw (h, k) (or_else-flip c d)

-- Whatever dates can be parsed: the comparison of two conversations the other way round has the other
-- sign, and it tells no two conversations with different IDs equal.
pub compare-flip :
    (seconds : Text → Option ℕ) (a b : Conversation)
    → (compare_conversation_activity_descending seconds a b
        ≡ flip (compare_conversation_activity_descending seconds b a))
      × (compare_conversation_activity_descending seconds a b ≡ same → a.id ≡ b.id)
unfolding compare_conversation_activity_descending compare_instants
compare-flip seconds a b = (
  or_else-flips _ _ _ _
      (compare_parsed-flip (parse_rfc3339_nano seconds b.last_message_at)
        (parse_rfc3339_nano seconds a.last_message_at) b.last_message_at a.last_message_at)
      (compare_texts-flip b.id a.id),
  λ e. sym (compare_texts-same b.id a.id (or_else-same _ _ e)),
)
