-- ===== src/Message/Loops.antt =====
-- The two `while` loops of `updateMentionRanges` in home/message.model.ts.
use zwei.Common.{
  ℕ, zero, suc, ◌+◌, ◌-◌, ◌≤◌, ◌<◌, ◌≡◌, true, false, Option, arith, length, get_elem?, Bool-cases,
  inl, inr,
}
use zwei.Js.Text.{Text}
use zwei.Message.{
  same_unit, prefix_grows, suffix_grows, prefix_loop, suffix_loop, common_prefix, common_suffix,
}

pub same_unit→≡ : (a b : Option ℕ) → same_unit a b ≡ true → a ≡ b
same_unit→≡ a b h = ground arith

-- The first `n` characters of two texts agree.
pub record AgreeFrom (previous next : Text) (n : ℕ) : Type 0 where
  pub in_previous : n ≤ length previous
  pub in_next : n ≤ length next
  pub agree : (k : ℕ) → k < n → get_elem? previous k ≡ get_elem? next k

AgreeFrom-suc :
    (previous next : Text) (n : ℕ)
    → AgreeFrom previous next n
    → prefix_grows previous next n ≡ true
    → AgreeFrom previous next (n + 1)
unfolding prefix_grows
AgreeFrom-suc previous next n h grows = record {
  in_previous = ground arith;
  in_next = ground arith;
  agree = λ k lt. ground (arith, h.agree k, same_unit→≡ (get_elem? previous n) (get_elem? next n));
}

-- With fuel for the rest of the text the loop ends by its test.
prefix_loop_ends :
    (fuel : ℕ) (previous next : Text) (n : ℕ)
    → length previous ≤ n + fuel
    → AgreeFrom previous next n
    → AgreeFrom previous next (prefix_loop fuel previous next n)
      × (prefix_grows previous next (prefix_loop fuel previous next n) ≡ false)
unfolding prefix_loop
prefix_loop_ends zero previous next n enough h = (h, unfold prefix_grows in ground arith)
prefix_loop_ends (suc fuel) previous next n enough h =
    elim (Bool-cases (prefix_grows previous next n)) [
      | inl more ↦
          rw (more, prefix_loop)
            (prefix_loop_ends fuel previous next (n + 1) (omega arith)
              (AgreeFrom-suc previous next n h more))
      | inr done ↦ rw (done, prefix_loop) (h, done)
    ]

-- The last `n` characters agree, and the two runs do not meet the common start of `p` characters.
pub record AgreeTo (previous next : Text) (p n : ℕ) : Type 0 where
  pub in_previous : p + n ≤ length previous
  pub in_next : p + n ≤ length next
  pub agree :
      (k : ℕ)
      → k < n
      → get_elem? previous (length previous - k - 1) ≡ get_elem? next (length next - k - 1)

AgreeTo-suc :
    (previous next : Text) (p n : ℕ)
    → AgreeTo previous next p n
    → suffix_grows previous next p n ≡ true
    → AgreeTo previous next p (n + 1)
unfolding suffix_grows
AgreeTo-suc previous next p n h grows = record {
  in_previous = ground arith;
  in_next = ground arith;
  agree = λ k lt. ground (
    arith,
    h.agree k,
    same_unit→≡ (get_elem? previous (length previous - n - 1))
        (get_elem? next (length next - n - 1)),
  );
}

suffix_loop_ends :
    (fuel : ℕ) (previous next : Text) (p n : ℕ)
    → length previous ≤ n + fuel
    → AgreeTo previous next p n
    → AgreeTo previous next p (suffix_loop fuel previous next p n)
      × (suffix_grows previous next p (suffix_loop fuel previous next p n) ≡ false)
unfolding suffix_loop
suffix_loop_ends zero previous next p n enough h = (h, unfold suffix_grows in ground arith)
suffix_loop_ends (suc fuel) previous next p n enough h =
    elim (Bool-cases (suffix_grows previous next p n)) [
      | inl more ↦
          rw (more, suffix_loop)
            (suffix_loop_ends fuel previous next p (n + 1) (omega arith)
              (AgreeTo-suc previous next p n h more))
      | inr done ↦ rw (done, suffix_loop) (h, done)
    ]

module _ (previous next : Text) where
  pub common_prefix_lem :
      AgreeFrom previous next (common_prefix previous next)
      × (prefix_grows previous next (common_prefix previous next) ≡ false)
  common_prefix_lem = prefix_loop_ends (length previous) previous next 0 (omega arith) (record {
    in_previous = omega arith;
    in_next = omega arith;
    agree = λ k lt. absurd (omega arith);
  })

  pub common_suffix_lem :
      AgreeTo previous next (common_prefix previous next) (common_suffix previous next)
      × (suffix_grows previous next (common_prefix previous next) (common_suffix previous next)
          ≡ false)
  common_suffix_lem =
      suffix_loop_ends (length previous) previous next (common_prefix previous next) 0 (omega arith)
        (record {
          in_previous = omega (arith, common_prefix_lem.0.in_previous);
          in_next = omega (arith, common_prefix_lem.0.in_next);
          agree = λ k lt. absurd (omega arith);
        })
