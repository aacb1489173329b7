-- ===== src/Session/Steps/Owned/Restored.antt =====
-- The beginnings of a renewal: `restore` and what it joins, of auth/auth.service.ts.
use zwei.Common.{
  ℕ, ◌≡◌, refl, sym, subst, not, ◌&&◌, Option, none, some, is_some, arith, if-keeps, if-cases, inl,
  inr, ◌⊎◌, ◌∙◌, true, false, Option-cases,
}
use zwei.Js.Text.{Text, text_eq→≡}
use zwei.Session.Stored.{Token, Binding, Selector, parse_binding, same_binding, selects}
use zwei.Session.{Auth, Refresh, put_token, invalidate_local_session, read_binding, pending_logout}
use zwei.Session.Restore.{
  Answer, or_binding, or_selector, joined, restore, restore_bound, restore_stored, is_live,
  is_foreign,
}
use zwei.Session.Steps.{Agree, IsFresh, Kin}
use zwei.Session.Steps.Owned.{Inv, Bound, Waits, Held, Takes, Waits-suc, Held-suc}

pub Held-unstored :
    (r : Option Refresh) (g : ℕ) (stored o : Option Binding) → Held r g stored o → Held r g none o
Held-unstored none g stored o h = h
Held-unstored (some r) g stored o (a, b) = (tt, b)

pub Inv-invalidate : (s : Auth) → Inv s → Inv (invalidate_local_session s)
unfolding invalidate_local_session put_token
Inv-invalidate s h = record {
  bound = tt;
  waits = Waits-suc s.refresh s.generation s.owned_binding none s.token none h.waits;
  in_lock = λ e.
      Held-suc s.refresh s.generation (parse_binding s.intended) s.owned_binding none s.token
        (h.in_lock e) h.waits;
}

Takes-or :
    (o : Option Binding) (b : Binding) → Agree o (some b) → Takes (some (or_binding o b)) b.subject
Takes-or none b k = refl
Takes-or (some a) b k = sym k

Bound-or :
    (t : Option Token) (o : Option Binding) (b : Binding)
    → Bound t o
    → Bound t (some (or_binding o b))
Bound-or none o b h = tt
Bound-or (some t) none b h = cc
Bound-or (some t) (some a) b h = h

Takes-or_taken :
    (o : Option Binding) (b : Binding) (x : Text) → Takes o x → Takes (some (or_binding o b)) x
Takes-or_taken none b x h = cc
Takes-or_taken (some a) b x h = h

-- The caller may join what is in flight, for the stored binding.
abbrev Joins : Auth → Binding → Type 0
Joins s b = Agree s.owned_binding (some b) ⊎ ((s.token ≡ none) × IsFresh s.refresh s.generation)

Waits-joined :
    (r : Option Refresh) (g : ℕ) (o : Option Binding) (t : Option Token) (b : Binding)
    (l : Selector)
    → Waits r g o t
    → Agree o (some b) ⊎ ((t ≡ none) × IsFresh r g)
    → Waits (some (joined r g b l)) g (some (or_binding o b)) t
Waits-joined none g o t b l h (inl k) =
    (omega arith, (omega arith, tt), λ e. cc, λ e. inl (Takes-or o b k))
Waits-joined none g o t b l h (inr k) = (omega arith, (omega arith, tt), λ e. cc, λ e. inr k.0)
Waits-joined (some r) g o t b l (a, w, n, d) k = (
  a,
  (omega arith, w),
  λ e. cc,
  λ e. elim (d e) [
    | inl taken ↦ inl (Takes-or_taken o b r.binding.subject taken)
    | inr no_token ↦ inr no_token
  ],
)

-- Whose binding it takes on joining is of the refresh's subject, if its generation is over.
Kin-joined :
    (r : Refresh) (g : ℕ) (o : Option Binding) (t : Option Token) (b : Binding)
    → Kin (some b) r.binding.subject
    → Agree o (some b) ⊎ ((t ≡ none) × (r.started ≡ g))
    → (r.started ≡ g) ⊎ Kin (some (or_binding o b)) r.binding.subject
Kin-joined r g none t b h k = inr h
Kin-joined r g (some a) t b h (inl k) = inr (sym k ∙ h)
Kin-joined r g (some a) t b h (inr k) = inl k.1

Held-joined :
    (r : Option Refresh) (g : ℕ) (o : Option Binding) (t : Option Token) (b : Binding)
    (l : Selector)
    → Held r g (some b) o
    → Agree o (some b) ⊎ ((t ≡ none) × IsFresh r g)
    → Held (some (joined r g b l)) g (some b) (some (or_binding o b))
Held-joined none g o t b l h k = cc
Held-joined (some r) g o t b l (h, _) k =
    (h, elim (Kin-joined r g o t b h k) [ inl fresh ↦ inl fresh | inr kin ↦ inr (inl kin) ])

Inv-restore_bound :
    (b : Binding) (s : Auth)
    → parse_binding s.intended ≡ some b
    → Joins s b
    → Inv s
    → Inv (restore_bound b s).0
unfolding restore_bound
Inv-restore_bound b s e k h =
    let l = or_selector s.browser_selector (selects b) in
    if-keeps (λ (x : Auth × Answer). Inv x.0) (is_foreign s.token b) h
      (record {
        bound = Bound-or s.token s.owned_binding b h.bound;
        waits = Waits-joined s.refresh s.generation s.owned_binding s.token b l h.waits k;
        in_lock = λ o.
            subst
              (λ p.
                Held (some (joined s.refresh s.generation b l)) s.generation p
                  (some (or_binding s.owned_binding b)))
              (sym e)
              (Held-joined s.refresh s.generation s.owned_binding s.token b l
                (subst (λ p. Held s.refresh s.generation p s.owned_binding) e (h.in_lock o)) k);
      })

-- A token at hand has passed the comparison of the bindings.
Agree-same : (a b : Option Binding) → same_binding a b ≡ true → Agree b a
unfolding same_binding
Agree-same none b h = cc
Agree-same (some a) none h = cc
Agree-same (some a) (some b) h = text_eq→≡ a.subject b.subject (ground (arith, h))

Inv-restore_stored :
    (p : Option Binding) (s : Auth)
    → parse_binding s.intended ≡ p
    → Agree s.owned_binding p ⊎ ((s.token ≡ none) × IsFresh s.refresh s.generation)
    → Inv s
    → Inv (restore_stored p s).0
Inv-restore_stored none s e k h = h
Inv-restore_stored (some b) s e k h = Inv-restore_bound b s e k h

-- What a caller may join, behind the comparison of the bindings.
joins :
    (s : Auth)
    → (is_some s.token ≡ true)
      ⊎ (Agree s.owned_binding (parse_binding s.intended) ⊎ IsFresh s.refresh s.generation)
    → (is_some s.token && not (same_binding (parse_binding s.intended) s.owned_binding)) ≡ false
    → Agree s.owned_binding (parse_binding s.intended)
      ⊎ ((s.token ≡ none) × IsFresh s.refresh s.generation)
joins s k same = elim (Option-cases s.token) [
  | inr (t, there) ↦
      inl (Agree-same (parse_binding s.intended) s.owned_binding (ground (arith, there, same)))
  | inl nothing ↦ elim k [
    | inl there ↦ absurd (ground (arith, there, nothing))
    | inr (inl agree) ↦ inl agree
    | inr (inr fresh) ↦ inr (nothing, fresh)
  ]
]

pub Inv-restore :
    (now : ℕ) (s : Auth)
    → (is_some s.token ≡ true)
      ⊎ (Agree s.owned_binding (parse_binding s.intended) ⊎ IsFresh s.refresh s.generation)
    → Inv s
    → Inv (restore now s).0
unfolding restore read_binding
Inv-restore now s k h =
    if-keeps (λ (x : Auth × Answer). Inv x.0) (pending_logout s) (Inv-invalidate s h)
      (if-cases (λ (x : Auth × Answer). Inv x.0)
        (is_some s.token && not (same_binding (read_binding s) s.owned_binding))
        (λ _. Inv-invalidate s h)
        (λ same.
          if-keeps (λ (x : Auth × Answer). Inv x.0) (is_live now s.token) h
            (if-cases (λ (x : Auth × Answer). Inv x.0) (not s.reads) (λ _. Inv-invalidate s h)
              (λ readable.
                Inv-restore_stored (parse_binding s.intended) s refl
                  (joins s k (ground (arith, same, readable))) h))))
