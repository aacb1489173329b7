-- ===== src/Message/Edits.antt =====
-- `updateMentionRanges` of home/message.model.ts: mentions across an edit of the body.
use zwei.Common.{
  ℕ, ◌+◌, ◌-◌, ◌≤◌, ◌<◌, ◌≡◌, refl, sym, ap, ◌∙◌, ◌⊎◌, some, List, [], ◌∷◌, arith, leb, length,
  get_elem?, take, drop, take-ext, get_elem?-drop, Bool-cases, inl, inr, leb→le,
}
use zwei.Js.Text.{Text}
use zwei.Message.{Mention, common_prefix, common_suffix, move_mentions, update_mention_ranges}
use zwei.Message.Segments.{span}
use zwei.Message.Loops.{common_prefix_lem, common_suffix_lem}

-- Spans of two texts agree if their characters do, one by one.
slice-ext :
    (xs ys : Text) (s t n : ℕ)
    → ((k : ℕ) → k < n → get_elem? xs (s + k) ≡ get_elem? ys (t + k))
    → take n (drop s xs) ≡ take n (drop t ys)
slice-ext xs ys s t n h =
    take-ext n (drop s xs) (drop t ys)
      λ k lt. get_elem?-drop s xs k ∙ h k lt ∙ sym (get_elem?-drop t ys k)

-- A mention that a body can have: in order behind `p`, two characters at least, within the body
-- and with an '@' in front.
pub record IsSpan (body : Text) (p : ℕ) (m : Mention) : Type 0 where
  pub behind : p ≤ m.start
  pub long : m.start + 2 ≤ m.end
  pub inside : m.end ≤ length body
  pub at_sign : get_elem? body m.start ≡ some 64

abbrev pub AreSpans : Text → ℕ → List Mention → Type 0
AreSpans body p [] = Unit
AreSpans body p (m ∷ ms) = IsSpan body p m × AreSpans body m.end ms

module _ (previous next : Text) where
  abbrev prefix : ℕ
  prefix = common_prefix previous next

  abbrev old_end : ℕ
  old_end = length previous - common_suffix previous next

  abbrev new_end : ℕ
  new_end = length next - common_suffix previous next

  -- Behind the edit the characters of the two bodies agree, at their shifted places.
  agree_behind :
      (j : ℕ)
      → old_end ≤ j
      → j < length previous
      → get_elem? previous j ≡ get_elem? next (j + new_end - old_end)
  agree_behind j le lt =
      let suffix = (common_suffix_lem previous next).0 in
      let k : ℕ = length previous - j - 1 in
      let e : length previous - k - 1 ≡ j = omega (arith, suffix.in_previous) in
      let e' : length next - k - 1 ≡ j + new_end - old_end =
        omega (arith, suffix.in_previous, suffix.in_next) in
      ap (get_elem? previous) (sym e)
      ∙ suffix.agree k (omega (arith, suffix.in_previous))
      ∙ ap (get_elem? next) e'

  -- `mention` with both offsets moved by the change of the length.
  abbrev shifted : Mention → Mention
  shifted m = record m { start = m.start + new_end - old_end; end = m.end + new_end - old_end }

  bounds :
      (prefix ≤ old_end)
      × (prefix ≤ new_end)
      × (old_end ≤ length previous)
      × (length previous + new_end ≡ length next + old_end)
  bounds =
      let suffix = (common_suffix_lem previous next).0 in
      omega (arith, suffix.in_previous, suffix.in_next)

  span-before : (m : Mention) → m.start ≤ m.end → m.end ≤ prefix → span next m ≡ span previous m
  span-before m ordered before =
      slice-ext next previous m.start m.start (m.end - m.start)
        λ k lt. sym ((common_prefix_lem previous next).0.agree (m.start + k) (omega arith))

  span-shifted :
      (m : Mention)
      → m.start ≤ m.end
      → old_end ≤ m.start
      → m.end ≤ length previous
      → span next (shifted m) ≡ span previous m
  span-shifted m ordered after inside =
      let n : ℕ = m.end + new_end - old_end - (m.start + new_end - old_end) in
      let same : n ≡ m.end - m.start = omega (arith, bounds) in
      rw same (
        slice-ext next previous (m.start + new_end - old_end) m.start (m.end - m.start) λ k lt.
          let place : m.start + k + new_end - old_end ≡ m.start + new_end - old_end + k =
            omega (arith, bounds) in
          sym (agree_behind (m.start + k) (omega arith) (omega arith) ∙ ap (get_elem? next) place))

  -- What becomes of the mentions of `previous`, in order: each is kept for the same user and with
  -- the same text under it, or the edit reaches into it and it is dropped.
  pub data Follows : List Mention → List Mention → Type 0 where
    none_left : Follows [] []
    kept :
        {m m' : Mention} {ms ms' : List Mention}
        → m'.user_id ≡ m.user_id
        → span next m' ≡ span previous m
        → Follows ms ms'
        → Follows (m ∷ ms) (m' ∷ ms')
    dropped :
        {m : Mention} {ms ms' : List Mention}
        → prefix < m.end
        → m.start < old_end
        → Follows ms ms'
        → Follows (m ∷ ms) ms'

  Follows-move_mentions :
      (p : ℕ) (ms : List Mention)
      → AreSpans previous p ms
      → Follows ms (move_mentions prefix old_end new_end ms)
  unfolding move_mentions
  Follows-move_mentions p [] h = none_left
  Follows-move_mentions p (m ∷ ms) h =
      let rest = Follows-move_mentions m.end ms h.1 in
      let ordered : m.start ≤ m.end = omega (arith, h.0.long) in
      elim (Bool-cases (leb m.end prefix)) [
        | inl before ↦
            rw before (kept refl (span-before m ordered (leb→le m.end prefix before)) rest)
        | inr past ↦ elim (Bool-cases (leb old_end m.start)) [
          | inl after ↦
              rw (past, after)
                (kept refl (span-shifted m ordered (leb→le old_end m.start after) h.0.inside) rest)
          | inr across ↦ rw (past, across) (dropped (ground arith) (ground arith) rest)
        ]
      ]

  -- Where the next mention may begin, in both bodies.
  abbrev InStep : ℕ → ℕ → Type 0
  InStep p q = ((q ≤ p) × (q ≤ prefix)) ⊎ ((old_end ≤ p) × (q + old_end ≤ p + new_end))

  IsSpan-before :
      (p q : ℕ) (m : Mention) → InStep p q → IsSpan previous p m → m.end ≤ prefix → IsSpan next q m
  IsSpan-before p q m s h before =
      let b = bounds in
      record {
        behind = omega (arith, b, s, h.behind, h.long);
        long = h.long;
        inside = omega (arith, b);
        at_sign =
            sym ((common_prefix_lem previous next).0.agree m.start (omega (arith, h.long)))
            ∙ h.at_sign;
      }

  IsSpan-shifted :
      (p q : ℕ) (m : Mention)
      → InStep p q
      → IsSpan previous p m
      → old_end ≤ m.start
      → IsSpan next q (shifted m)
  IsSpan-shifted p q m s h after =
      let b = bounds in
      record {
        behind = omega (arith, b, s, h.behind, h.long);
        long = omega (arith, b, h.long);
        inside = omega (arith, b, h.inside);
        at_sign = sym (agree_behind m.start after (omega (arith, h.long, h.inside))) ∙ h.at_sign;
      }

  AreSpans-move_mentions :
      (p q : ℕ) (ms : List Mention)
      → InStep p q
      → AreSpans previous p ms
      → AreSpans next q (move_mentions prefix old_end new_end ms)
  unfolding move_mentions
  AreSpans-move_mentions p q [] s h = tt
  AreSpans-move_mentions p q (m ∷ ms) s h =
      let b = bounds in
      elim (Bool-cases (leb m.end prefix)) [
        | inl before ↦ rw before (
          IsSpan-before p q m s h.0 (leb→le m.end prefix before),
          AreSpans-move_mentions m.end m.end ms (inl (omega arith, leb→le m.end prefix before)) h.1,
        )
        | inr past ↦ elim (Bool-cases (leb old_end m.start)) [
          | inl after ↦
              let le = leb→le old_end m.start after in
              rw (past, after)
                (
                  IsSpan-shifted p q m s h.0 le,
                  AreSpans-move_mentions m.end (m.end + new_end - old_end) ms
                      (inr (omega (arith, h.0.long, le), omega (arith, h.0.long, le))) h.1,
                )
          | inr across ↦
              rw (past, across)
                (AreSpans-move_mentions m.end q ms (omega (arith, s, h.0.behind, h.0.long)) h.1)
        ]
      ]

  -- After an edit every mention of the old body is either kept, for the same user and with the same
  -- text under it in the new body, or dropped because the edited stretch reaches into it.
  pub Follows-update_mention_ranges :
      (ms : List Mention)
      → AreSpans previous 0 ms
      → Follows ms (update_mention_ranges previous next ms)
  unfolding update_mention_ranges
  Follows-update_mention_ranges ms h = Follows-move_mentions 0 ms h

  -- If the mentions of the old body are in order, two characters long at least, within it, and begin
  -- with '@', so are the updated mentions in the new body.
  pub AreSpans-update_mention_ranges :
      (ms : List Mention)
      → AreSpans previous 0 ms
      → AreSpans next 0 (update_mention_ranges previous next ms)
  unfolding update_mention_ranges
  AreSpans-update_mention_ranges ms h =
      AreSpans-move_mentions 0 0 ms (inl (omega arith, omega arith)) h
