-- ===== src/Session/Steps/Owned/Renewal.antt =====
-- `restore` of auth/auth.service.ts and its refresh keep the token to the subject of the binding.
use zwei.Common.{
  not-false, ℕ, ◌≡◌, refl, sym, ap, subst, ◌∙◌, Bool, true, false, not, ◌&&◌, ◌||◌, Option, none,
  some, ◌==◌, if◌then◌else◌, arith, Bool-cases, inl, inr, &&-true, ||-false, if-keeps, if-cases,
  ◌⊎◌, All, ◌<◌,
}
use zwei.Js.Text.{Text, text_eq, text_eq→≡}
use zwei.Session.Stored.{
  Token, Binding, Selector, parse_binding, subject_of, selector_of, binding_json, bind,
}
use zwei.Session.{
  RestoreFailure, lock_unavailable, temporarily_unavailable, Auth, Refresh, put_token, read_binding,
  pending_logout,
}
use zwei.Session.Restore.{
  Outcome, restored, lock_error, other_error, http_error, is_subject, settle, is_intended,
  is_requested, generation_of, refresh_locked, locked_with, settle_result, answered_with, rebind,
  rebind_next, reject, refresh_result, refresh_answered,
}
use zwei.Session.Steps.{Kin, IsHeldFor}
use zwei.Session.Steps.Owned.{
  Inv, Bound, Waits, Held, Takes, is_subject→≡, settle-none, settle-some, settle-late,
}

Kin-is_intended : (o : Option Binding) (b : Binding) → is_intended o b ≡ true → Kin o b.subject
Kin-is_intended none b h = tt
Kin-is_intended (some a) b h = text_eq→≡ a.subject b.subject ((&&-true _ _ h).0)

Kin-Takes : (o : Option Binding) (x : Text) → Takes o x → Kin o x
Kin-Takes none x h = tt
Kin-Takes (some b) x h = h

-- The refresh may not go on: something else is stored, or its generation is over.
abbrev stops : Refresh → Auth → Bool
stops r s =
    pending_logout s
    || not (is_intended (parse_binding s.intended) r.binding)
    || not (r.started == s.generation)

abbrev asked : Refresh → Auth → Auth
asked r s = record s {
  refresh = some (record r { requested = generation_of (parse_binding s.intended) });
  refresh_owns_lock = true;
}

-- A test on numbers that fails to fail.
not-==→≡ : (a b : ℕ) → not (a == b) ≡ false → a ≡ b
not-==→≡ a b h = ground arith

Inv-asked :
    (r : Refresh) (s : Auth)
    → Waits (some r) s.generation s.owned_binding s.token
    → stops r s ≡ false
    → Inv s
    → Inv (asked r s)
Inv-asked r s (a, w, n, d) p h =
    let (rest, g) =
      ||-false (pending_logout s || not (is_intended (parse_binding s.intended) r.binding))
        (not (r.started == s.generation)) p in
    let (q, i) =
      ||-false (pending_logout s) (not (is_intended (parse_binding s.intended) r.binding)) rest in
    record {
      bound = h.bound;
      waits = (a, w, n, d);
      in_lock = λ o. (
        Kin-is_intended (parse_binding s.intended) r.binding (not-false _ i),
        inl (not-==→≡ r.started s.generation g),
      );
    }

Inv-locked_with :
    (now : ℕ) (o : Option Refresh) (s : Auth)
    → Waits o s.generation s.owned_binding s.token
    → Inv s
    → Inv (locked_with now o s)
Inv-locked_with now none s w h = h
Inv-locked_with now (some r) s w h = elim (Bool-cases (stops r s)) [
  | inl p ↦
      subst (λ b. Inv (if b then settle now none r s else asked r s)) (sym p)
        (settle-none now r s h.bound)
  | inr p ↦
      subst (λ b. Inv (if b then settle now none r s else asked r s)) (sym p) (Inv-asked r s w p h)
]

pub Inv-refresh_locked : (now : ℕ) (s : Auth) → Inv s → Inv (refresh_locked now s)
unfolding refresh_locked
Inv-refresh_locked now s h = Inv-locked_with now s.refresh s h.waits h

Bound-unless :
    (b : Bool) (s : Auth)
    → Bound s.token s.owned_binding
    → Bound
        (if b then put_token none s else s).token
        (if b then put_token none s else s).owned_binding
unfolding put_token
Bound-unless true s h = tt
Bound-unless false s h = h

-- The token stays bound when the binding takes another selector.
Bound-Kin :
    (t : Option Token) (o : Option Binding) (x : Text) (next : Selector)
    → Bound t o
    → Kin o x
    → Bound t (some (bind x next))
Bound-Kin none o x next h k = tt
Bound-Kin (some t) none x next h k = cc
Bound-Kin (some t) (some b) x next h k = h ∙ ap some k

-- The server's answer to a refresh that holds the lock.
module _ (now : ℕ) (r : Refresh) (s : Auth) (h : Bound s.token s.owned_binding)
    (w : Waits (some r) s.generation s.owned_binding s.token)
    (k : (r.started ≡ s.generation)
      ⊎ (Kin s.owned_binding r.binding.subject ⊎ All (λ v. v < s.generation) r.waiting)) where
  settle-reject : Inv (settle_result now r (reject r s))
  settle-reject =
      settle-none now r (if r.started == s.generation then put_token none s else s)
        (Bound-unless (r.started == s.generation) s h)

  -- The token goes to those who are not late.
  settle-older :
      (token : Token)
      → subject_of token ≡ some r.binding.subject
      → not (r.started == s.generation) ≡ true
      → Inv (settle_result now r (s, some token))
  settle-older token e older =
      let (a, ws, n, d) = w in
      elim k [
        | inl same ↦ absurd (ground (arith, same, older))
        | inr (inl kin) ↦ settle-some now token r s e kin n h
        | inr (inr late) ↦ settle-late now token r s late h
      ]

  Bound-next :
      (next : Selector)
      → not (r.started == s.generation) ≡ false
      → Bound s.token (some (bind r.binding.subject next))
  Bound-next next same =
      let (a, ws, n, d) = w in
      elim (d (not-==→≡ r.started s.generation same)) [
        | inl taken ↦
            Bound-Kin s.token s.owned_binding r.binding.subject next h
              (Kin-Takes s.owned_binding r.binding.subject taken)
        | inr no_token ↦ rw no_token tt
      ]

  settle-rebind :
      (token : Token) (next : Selector)
      → subject_of token ≡ some r.binding.subject
      → Inv (settle_result now r (rebind r token next s))
  unfolding rebind
  settle-rebind token next e =
      if-cases (λ (x : Auth × Option Token). Inv (settle_result now r x))
        (not (r.started == s.generation)) (settle-older token e)
        (λ same.
          if-keeps (λ (x : Auth × Option Token). Inv (settle_result now r x))
            (not (is_intended (read_binding s) r.binding)
              || not (is_requested r.requested (read_binding s)))
            (settle-none now r s h)
            (if-keeps (λ (x : Auth × Option Token). Inv (settle_result now r x)) (not s.writes)
              (settle-none now r (put_token none s) (unfold put_token in tt))
              (settle-some now token r
                (record s {
                  intended = some (binding_json (bind r.binding.subject next));
                  browser_selector = some next;
                  owned_binding = some (bind r.binding.subject next);
                })
                e refl (λ e'. cc) (Bound-next next same))))

  settle-rebind_next :
      (token : Token) (next : Option Selector)
      → Inv (settle_result now r (rebind_next r token next s))
  settle-rebind_next token none = settle-reject
  settle-rebind_next token (some next) =
      let test =
        text_eq next.browser_id r.selector.browser_id
        && is_subject (subject_of token) r.binding.subject in
      elim (Bool-cases test) [
        | inl p ↦
            subst (λ b. Inv (settle_result now r (if b then rebind r token next s else reject r s)))
              (sym p)
              (settle-rebind token next (
                is_subject→≡ (subject_of token) r.binding.subject (
                  (&&-true (text_eq next.browser_id r.selector.browser_id)
                    (is_subject (subject_of token) r.binding.subject) p).1)))
        | inr p ↦
            subst (λ b. Inv (settle_result now r (if b then rebind r token next s else reject r s)))
              (sym p) settle-reject
      ]

-- The failures leave the binding and the token, or take the token away.
settle-failed :
    (now : ℕ) (r : Refresh) (f : Option RestoreFailure) (s : Auth)
    → Bound s.token s.owned_binding
    → Inv (settle now none r (record s { restore_failure = f }))
settle-failed now r f s h = settle-none now r (record s { restore_failure = f }) h

settle-http_error :
    (now status : ℕ) (r : Refresh) (s : Auth)
    → Bound s.token s.owned_binding
    → Inv (settle_result now r (refresh_result r (http_error status) s))
unfolding refresh_result
settle-http_error now status r s h =
    if-keeps (λ (x : Auth × Option Token). Inv (settle_result now r x)) (not (status == 401))
      (settle-failed now r (some temporarily_unavailable) s h)
      (if-keeps (λ (x : Auth × Option Token). Inv (settle_result now r x))
        (r.started == s.generation)
        (settle-none now r (put_token none (record s { restore_failure = none }))
          (unfold put_token in tt))
        (settle-none now r s h))

Inv-answered_with :
    (now : ℕ) (o : Outcome) (f : Option Refresh) (s : Auth)
    → IsHeldFor s.refresh_owns_lock o
    → Waits f s.generation s.owned_binding s.token
    → (s.refresh_owns_lock ≡ true → Held f s.generation (parse_binding s.intended) s.owned_binding)
    → Inv s
    → Inv (answered_with now o f s)
unfolding refresh_result
Inv-answered_with now o none s a w l h = h
Inv-answered_with now (restored token) (some r) s a w l h =
    settle-rebind_next now r (record s { restore_failure = none }) h.bound w ((l a).1) token
      (selector_of token)
Inv-answered_with now lock_error (some r) s a w l h =
    settle-failed now r (some lock_unavailable) s h.bound
Inv-answered_with now other_error (some r) s a w l h =
    settle-failed now r (some temporarily_unavailable) s h.bound
Inv-answered_with now (http_error n) (some r) s a w l h = settle-http_error now n r s h.bound

pub Inv-refresh_answered :
    (now : ℕ) (o : Outcome) (s : Auth)
    → IsHeldFor s.refresh_owns_lock o
    → Inv s
    → Inv (refresh_answered now o s)
unfolding refresh_answered
Inv-refresh_answered now o s a h = Inv-answered_with now o s.refresh s a h.waits h.in_lock h
