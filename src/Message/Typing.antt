-- ===== src/Message/Typing.antt =====
-- `updateMentionRanges` of home/message.model.ts when text is typed behind the old body.
use zwei.Common.{
  ℕ, zero, suc, ◌≤◌, ◌<◌, ◌≡◌, refl, true, some, List, [], ◌∷◌, ◌++◌, arith, ltb, length, get_elem?,
  length-append, Bool-cases, inl, inr,
}
use zwei.Js.Text.{Text}
use zwei.Message.{Mention, prefix_grows, common_prefix, move_mentions, update_mention_ranges}
use zwei.Message.Loops.{common_prefix_lem}
use zwei.Message.Edits.{AreSpans}

get_elem?-append : (xs ys : Text) (k : ℕ) → k < length xs → get_elem? (xs ++ ys) k ≡ get_elem? xs k
get_elem?-append [] ys k h = absurd (omega arith)
get_elem?-append (x ∷ xs) ys zero h = refl
get_elem?-append (x ∷ xs) ys (suc k) h = get_elem?-append xs ys k (omega arith)

get_elem?-some : (xs : Text) (k : ℕ) → k < length xs → (c : ℕ) × (get_elem? xs k ≡ some c)
get_elem?-some [] k h = absurd (omega arith)
get_elem?-some (x ∷ xs) zero h = (x, refl)
get_elem?-some (x ∷ xs) (suc k) h = get_elem?-some xs k (omega arith)

prefix_grows-append :
    (body added : Text) (n : ℕ) → n < length body → prefix_grows body (body ++ added) n ≡ true
unfolding prefix_grows
prefix_grows-append body added n h =
    let (c, e) = get_elem?-some body n h in
    rw (get_elem?-append body added n h, e) (ground (arith, length-append body added))

common_prefix-append : (body added : Text) → length body ≤ common_prefix body (body ++ added)
common_prefix-append body added =
    let (agree, stop) = common_prefix_lem body (body ++ added) in
    elim (Bool-cases (ltb (common_prefix body (body ++ added)) (length body))) [
      | inl short ↦
          cc (
            prefix_grows-append body added (common_prefix body (body ++ added)) (ground arith),
            stop,
          )
      | inr all ↦ ground arith
    ]

move_mentions-id :
    (body : Text) (p prefix old_end new_end : ℕ) (ms : List Mention)
    → length body ≤ prefix
    → AreSpans body p ms
    → move_mentions prefix old_end new_end ms ≡ ms
unfolding move_mentions
move_mentions-id body p prefix old_end new_end [] le h = refl
move_mentions-id body p prefix old_end new_end (m ∷ ms) le h =
    ground (arith, h.0.inside, move_mentions-id body m.end prefix old_end new_end ms le h.1)

-- Text typed behind the body, none included, leaves every mention of the body as it is.
pub update_mention_ranges-append :
    (body added : Text) (ms : List Mention)
    → AreSpans body 0 ms
    → update_mention_ranges body (body ++ added) ms ≡ ms
unfolding update_mention_ranges
update_mention_ranges-append body added ms h =
    move_mentions-id body 0 _ _ _ ms (common_prefix-append body added) h
