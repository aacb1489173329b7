-- ===== src/Message/Validity.antt =====
-- What `isValidMessageMentions` of home/message.model.ts accepts, for typed mentions.
use zwei.Common.{
  ℕ, suc, ◌+◌, ◌≤◌, ◌≡◌, refl, ◌↔◌, true, false, Option, some, List, [], ◌∷◌, map, arith, leb,
  length, get_elem?, Option-cases, ap, inl, inr, &&-true,
}
use zwei.Js.Text.{Text}
use zwei.Js.Value.{str, from_list, items, max_safe_integer, items_of}
use zwei.Message.{
  Mention, is_user_id, is_range, splits_surrogate_pair, is_at_sign, mention_end, are_mentions,
  mention_value, mentions_value, is_valid_message_mentions,
}

-- One mention of a body, behind an earlier one that ends at `p`.
pub record IsMention (body : Text) (p : ℕ) (m : Mention) : Type 0 where
  pub named : is_user_id (str m.user_id) ≡ true
  pub behind : p ≤ m.start
  pub long : m.start + 2 ≤ m.end
  pub inside : m.end ≤ length body
  pub at_sign : get_elem? body m.start ≡ some 64
  pub whole_start : splits_surrogate_pair body m.start ≡ false
  pub whole_end : splits_surrogate_pair body m.end ≡ false
  pub safe : m.end ≤ max_safe_integer

-- The mentions stand in order and do not overlap.
abbrev pub AreMentions : Text → ℕ → List Mention → Type 0
AreMentions body p [] = Unit
AreMentions body p (m ∷ ms) = IsMention body p m × AreMentions body m.end ms

is_at_sign→≡ : (o : Option ℕ) → is_at_sign o ≡ true → o ≡ some 64
is_at_sign→≡ o h = ground arith

module _ (body : Text) (p : ℕ) (m : Mention) where
  -- The accepted mention, and where it ends.
  mention_end-some : IsMention body p m → mention_end body p (mention_value m) ≡ some m.end
  unfolding mention_end is_range
  mention_end-some h = ground (arith, h.named, h.at_sign, h.whole_start, h.whole_end)

  IsMention-mention_end :
      (e : ℕ) → mention_end body p (mention_value m) ≡ some e → IsMention body p m
  unfolding mention_end is_range
  IsMention-mention_end e h = ground (arith, is_at_sign→≡ (get_elem? body m.start))

  mention_end-eq : (e : ℕ) → mention_end body p (mention_value m) ≡ some e → e ≡ m.end
  unfolding mention_end
  mention_end-eq e h = ground arith

are_mentions-true :
    (body : Text) (p : ℕ) (ms : List Mention)
    → AreMentions body p ms
    → are_mentions body p (items (from_list (map mention_value ms))) ≡ true
unfolding are_mentions
are_mentions-true body p [] h = refl
are_mentions-true body p (m ∷ ms) h =
    rw (mention_end-some body p m h.0, are_mentions) (are_mentions-true body m.end ms h.1)

AreMentions-are_mentions :
    (body : Text) (p : ℕ) (ms : List Mention)
    → are_mentions body p (items (from_list (map mention_value ms))) ≡ true
    → AreMentions body p ms
unfolding are_mentions
AreMentions-are_mentions body p [] h = tt
AreMentions-are_mentions body p (m ∷ ms) h =
    elim (Option-cases (mention_end body p (mention_value m))) [
      | inl refused ↦ cc (rw (refused, are_mentions) at h)
      | inr (e, accepted) ↦
          let ending = mention_end-eq body p m e accepted in
          let rest = rw (accepted, are_mentions, ending) at h in
          (IsMention-mention_end body p m e accepted, AreMentions-are_mentions body m.end ms rest)
    ]

length-mentions :
    (ms : List Mention) → length (items (from_list (map mention_value ms))) ≡ length ms
length-mentions [] = refl
length-mentions (m ∷ ms) = ap suc (length-mentions ms)

-- A list of typed mentions is accepted exactly if there are at most 16 of them, and each stands
-- behind the one before it, is at least two characters long, lies in the body, begins with '@',
-- cuts no surrogate pair, has a user ID that is not blank and is trimmed, and ends at a safe integer.
pub is_valid_message_mentions_iff :
    (body : Text) (ms : List Mention)
    → (is_valid_message_mentions (mentions_value ms) body ≡ true)
      ↔ ((length ms ≤ 16) × AreMentions body 0 ms)
unfolding is_valid_message_mentions
is_valid_message_mentions_iff body ms = (to, from)
  where
    to :
        is_valid_message_mentions (mentions_value ms) body ≡ true
        → (length ms ≤ 16) × AreMentions body 0 ms
    to h =
        let (short, each) =
          &&-true (leb (length (items_of (mentions_value ms))) 16)
            (are_mentions body 0 (items_of (mentions_value ms))) h in
        (ground (arith, length-mentions ms, short), AreMentions-are_mentions body 0 ms each)

    from :
        (length ms ≤ 16) × AreMentions body 0 ms
        → is_valid_message_mentions (mentions_value ms) body ≡ true
    from h = rw (length-mentions ms, are_mentions-true body 0 ms h.1) (ground (arith, h.0))
