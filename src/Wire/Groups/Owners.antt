-- ===== src/Wire/Groups/Owners.antt =====
-- The groups that `toGroup` of home/wire.mapper.ts makes.
use zwei.Common.{
  ℕ, suc, ◌≤◌, ◌≡◌, refl, ap, subst, Bool, true, false, Option, none, some, List, [], ◌∷◌, arith,
  if◌then◌else◌, length, any, Bool-cases, inl, inr, if-eq-some,
}
use zwei.Js.Text.{Text, text_eq, >>=-eq-some}
use zwei.Js.Value.{Value, prop, items_of, text_of}
use zwei.Wire.Groups.{
  GroupMember, GroupConversation, to_group_member, members_from, contains_owner, group_with,
  is_group, to_group,
}

-- No member has an ID that was seen, or that a member in front of it has.
abbrev pub AreNew : List Text → List GroupMember → Type 0
AreNew seen [] = Unit
AreNew seen (m ∷ ms) = (any (text_eq m.user_id) seen ≡ false) × AreNew (m.user_id ∷ seen) ms

AreNew-cons :
    (seen : List Text) (m : GroupMember) (rest ms : List GroupMember) (n : ℕ)
    → (if any (text_eq m.user_id) seen then none else some (m ∷ rest)) ≡ some ms
    → AreNew (m.user_id ∷ seen) rest × (length rest ≡ n)
    → AreNew seen ms × (length ms ≡ suc n)
AreNew-cons seen m rest ms n e (new, len) = elim (Bool-cases (any (text_eq m.user_id) seen)) [
  | inl dup ↦ ground (arith, dup, e)
  | inr fresh ↦
      let e' : ◌≡◌ {A = Option (List GroupMember)} (some (m ∷ rest)) (some ms) = rw fresh at e in
      let same : m ∷ rest ≡ ms = cc e' in
      subst (λ l. AreNew seen l × (length l ≡ suc n)) same ((fresh, new), ap suc len)
]

module _ (parses : Text → Bool) where
  AreNew-members_from :
      (seen : List Text) (vs : List Value) (ms : List GroupMember)
      → members_from parses seen vs ≡ some ms
      → AreNew seen ms × (length ms ≡ length vs)
  unfolding members_from
  AreNew-members_from seen [] [] e = (tt, refl)
  AreNew-members_from seen [] (m ∷ ms) e = absurd (ground (arith, e))
  AreNew-members_from seen (v ∷ vs) ms e =
      let (m, _, e₁) = >>=-eq-some (to_group_member parses v) _ e in
      let (rest, found, e₂) = >>=-eq-some (members_from parses (m.user_id ∷ seen) vs) _ e₁ in
      AreNew-cons seen m rest ms (length vs) e₂
        (AreNew-members_from (m.user_id ∷ seen) vs rest found)

  guard-length : (v : Value) → is_group parses v ≡ true → length (items_of (prop v "members")) ≤ 16
  unfolding is_group
  guard-length v h = ground arith

  -- A group that is accepted has at most 16 members, no two of them with the same ID, and its owner is
  -- one of them, in the role of an owner.
  pub to_group-members :
      (v : Value) (g : GroupConversation)
      → to_group parses v ≡ some g
      → (length g.members ≤ 16) × AreNew [] g.members × (contains_owner g.owner_id g.members ≡ true)
  unfolding to_group
  to_group-members v g e =
      let (ok, e₁) = if-eq-some (is_group parses v) _ e in
      let (ms, found, e₂) =
        >>=-eq-some (members_from parses [] (items_of (prop v "members"))) _ e₁ in
      let (owned, e₃) = if-eq-some (contains_owner (text_of (prop v "owner_id")) ms) _ e₂ in
      let (new, len) = AreNew-members_from [] (items_of (prop v "members")) ms found in
      let made : group_with v ms ≡ g = cc e₃ in
      subst
        (λ h.
          (length h.members ≤ 16)
          × AreNew [] h.members
          × (contains_owner h.owner_id h.members ≡ true))
        made (omega (arith, len, guard-length v ok), new, owned)
