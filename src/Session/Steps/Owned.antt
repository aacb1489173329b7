-- ===== src/Session/Steps/Owned.antt =====
-- The token at hand belongs to the subject of the binding that this tab owns, whatever happens to
-- `AuthService` of auth/auth.service.ts.
mod Restored
pub mod Renewal
pub mod Entry
pub mod SignOut
pub mod Reached
use zwei.Common.{
  ◌*◌, ap, sym, subst, ◌∙◌, ℕ, ◌+◌, ◌≤◌, ◌<◌, ◌≡◌, refl, ◌⊎◌, inl, inr, Bool, true, false, not,
  ◌&&◌, ◌||◌, Option, none, some, List, [], ◌∷◌, ◌==◌, ==_iff, if◌then◌else◌, is_some, All, arith,
  Bool-cases, Option-cases, &&-true,
}
use zwei.Js.Text.{Text, text_eq, text_eq→≡}
use zwei.Session.Stored.{Token, Binding, Raw, parse_binding, subject_of}
use zwei.Session.{Auth, Refresh, put_token, handle_token, invalidate_local_session, initial}
use zwei.Session.Restore.{is_subject, same_subject, receive, receive_with, receive_all, settle}
use zwei.Session.Steps.{Kin}

-- The token is of the binding's subject.
abbrev pub Bound : Option Token → Option Binding → Type 0
Bound none o = Unit
Bound (some t) none = true ≡ false
Bound (some t) (some b) = subject_of t ≡ some b.subject

-- A binding is there, of this subject.
abbrev pub Takes : Option Binding → Text → Type 0
Takes none x = true ≡ false
Takes (some b) x = b.subject ≡ x

-- Those who wait have kept a generation that is over if there is no binding; and the tab owns a binding
-- of the subject that a refresh of this generation is for, or has no token.
abbrev pub Waits : Option Refresh → ℕ → Option Binding → Option Token → Type 0
Waits none g o t = Unit
Waits (some r) g o t =
    (r.started ≤ g)
    × All (λ w. w ≤ g) r.waiting
    × (is_some o ≡ false → All (λ w. w < g) r.waiting)
    × (r.started ≡ g → Takes o r.binding.subject ⊎ (t ≡ none))

-- While the refresh holds the lock, nothing of another subject is stored; and if its generation is over,
-- nothing of another subject is owned, or all who wait are late.
abbrev pub Held : Option Refresh → ℕ → Option Binding → Option Binding → Type 0
Held none g stored o = true ≡ false
Held (some r) g stored o =
    Kin stored r.binding.subject
    × ((r.started ≡ g) ⊎ (Kin o r.binding.subject ⊎ All (λ w. w < g) r.waiting))

pub record Inv (s : Auth) : Type 0 where
  pub bound : Bound s.token s.owned_binding
  pub waits : Waits s.refresh s.generation s.owned_binding s.token
  pub in_lock :
      s.refresh_owns_lock ≡ true
      → Held s.refresh s.generation (parse_binding s.intended) s.owned_binding

pub Inv-initial : (i p : Option Raw) → Inv (initial i p)
Inv-initial i p = record { bound = tt; waits = tt; in_lock = λ h. cc }

All-le_suc : (g : ℕ) (ws : List ℕ) → All (λ w. w ≤ g) ws → All (λ w. w ≤ g + 1) ws
All-le_suc g [] h = tt
All-le_suc g (w ∷ ws) (h, r) = (omega arith, All-le_suc g ws r)

All-lt_suc : (g : ℕ) (ws : List ℕ) → All (λ w. w ≤ g) ws → All (λ w. w < g + 1) ws
All-lt_suc g [] h = tt
All-lt_suc g (w ∷ ws) (h, r) = (omega arith, All-lt_suc g ws r)

-- A generation later, with any binding and token.
pub Waits-suc :
    (r : Option Refresh) (g : ℕ) (o o' : Option Binding) (t t' : Option Token)
    → Waits r g o t
    → Waits r (g + 1) o' t'
Waits-suc none g o o' t t' h = tt
Waits-suc (some r) g o o' t t' (a, b, c, d) = (
  omega arith,
  All-le_suc g r.waiting b,
  λ _. All-lt_suc g r.waiting b,
  λ e. absurd (omega arith),
)

pub Held-suc :
    (r : Option Refresh) (g : ℕ) (stored o o' : Option Binding) (t : Option Token)
    → Held r g stored o
    → Waits r g o t
    → Held r (g + 1) stored o'
Held-suc none g stored o o' t h w = h
Held-suc (some r) g stored o o' t (a, _) (_, ws, _, _) = (a, inr (inr (All-lt_suc g r.waiting ws)))

-- Without a token.
pub Waits-untoken :
    (r : Option Refresh) (g : ℕ) (o : Option Binding) (t : Option Token)
    → Waits r g o t
    → Waits r g o none
Waits-untoken none g o t h = tt
Waits-untoken (some r) g o t (a, b, c, d) = (a, b, c, λ e. inr refl)

pub is_subject→≡ : (o : Option Text) (x : Text) → is_subject o x ≡ true → o ≡ some x
is_subject→≡ none x h = cc
is_subject→≡ (some y) x h = cc (text_eq→≡ y x h)

subject_of-expires : (t : Token) (n : ℕ) → subject_of (record t { expires_in = n }) ≡ subject_of t
unfolding subject_of
subject_of-expires t n = refl

Takes-intro : (o : Option Binding) (x : Text) → is_some o ≡ true → Kin o x → Takes o x
Takes-intro none x h k = cc
Takes-intro (some b) x h k = k

Bound-some :
    (t : Token) (o : Option Binding) (x : Text)
    → subject_of t ≡ some x
    → Takes o x
    → Bound (some t) o
Bound-some t none x e k = k
Bound-some t (some b) x e k = e ∙ ap some (sym k)

pub handle_token-Bound :
    (now : ℕ) (t : Token) (x : Text) (s : Auth)
    → subject_of t ≡ some x
    → Takes s.owned_binding x
    → Bound (handle_token now t s).token s.owned_binding
unfolding handle_token put_token
handle_token-Bound now t x s e k =
    Bound-some (record t { expires_in = now + t.expires_in * 1000 }) s.owned_binding x
      (subject_of-expires t (now + t.expires_in * 1000) ∙ e) k

-- What a refresh leaves alone when it is handed out.
pub record Alike (s t : Auth) : Type 0 where
  pub owned : t.owned_binding ≡ s.owned_binding
  pub generation : t.generation ≡ s.generation

receive_with-Alike :
    (now : ℕ) (same : Bool) (token : Token) (o : Option Token) (s : Auth)
    → Alike s (receive_with now same token o s)
unfolding handle_token put_token
receive_with-Alike now same token none s = record { owned = refl; generation = refl }
receive_with-Alike now same token (some t) s = ground arith

receive_with-Bound :
    (now : ℕ) (same : Bool) (token : Token) (x : Text) (o : Option Token) (s : Auth)
    → subject_of token ≡ some x
    → Takes s.owned_binding x
    → Bound o s.owned_binding
    → s.token ≡ o
    → Bound (receive_with now same token o s).token s.owned_binding
receive_with-Bound now same token x none s e k h q = handle_token-Bound now token x s e k
receive_with-Bound now same token x (some t) s e k h q = elim (Bool-cases (same_subject t token)) [
  | inl p ↦ rw p (elim (Bool-cases same) [
    | inl r ↦ rw (r, q) h
    | inr r ↦ rw r (handle_token-Bound now token x s e k)
  ])
  | inr p ↦ rw p (unfold put_token in tt)
]

abbrev Keeps : Option Binding → Auth → Type 0
Keeps o t = Bound t.token o × (t.owned_binding ≡ o)

-- Those behind one who is late, or is not.
abbrev after_one : ℕ → Bool → Token → List ℕ → Auth → Bool → Auth
after_one now same token ws s current =
    receive_all now (same || current) (some token) ws
      (if current then receive_with now same token s.token s else s)

-- All who wait: those who are not late need a binding of the subject.
pub receive_all-Bound :
    (now : ℕ) (same : Bool) (token : Token) (x : Text) (ws : List ℕ) (s : Auth) (o : Option Binding)
    (g : ℕ)
    → s.owned_binding ≡ o
    → s.generation ≡ g
    → subject_of token ≡ some x
    → Kin o x
    → (is_some o ≡ false → All (λ w. w < g) ws)
    → Bound s.token o
    → Keeps o (receive_all now same (some token) ws s)
unfolding receive_all receive
receive_all-Bound now same token x [] s o g eo eg e k late h = (h, eo)
receive_all-Bound now same token x (w ∷ ws) s o g eo eg e k late h =
    elim (Bool-cases (w == s.generation)) [
      | inr p ↦
          subst (λ b. Keeps o (after_one now same token ws s b)) (sym p)
            (receive_all-Bound now (same || false) token x ws s o g eo eg e k (λ n. (late n).1) h)
      | inl p ↦
          subst (λ b. Keeps o (after_one now same token ws s b)) (sym p)
            (elim (Bool-cases (is_some o)) [
              | inr n ↦ absurd (omega (arith, (==_iff w s.generation).0 p, eg, (late n).0))
              | inl y ↦
                  let t = receive_with now same token s.token s in
                  let a = receive_with-Alike now same token s.token s in
                  receive_all-Bound now (same || true) token x ws t o g (a.owned ∙ eo)
                    (a.generation ∙ eg) e k (λ n. (late n).1)
                    (subst (λ o'. Bound t.token o') eo
                      (receive_with-Bound now same token x s.token s e
                        (subst (λ o'. Takes o' x) (sym eo) (Takes-intro o x y k))
                        (subst (λ o'. Bound s.token o') (sym eo) h) refl))
            ])
    ]

receive_all-none :
    (now : ℕ) (same : Bool) (ws : List ℕ) (s : Auth) → receive_all now same none ws s ≡ s
unfolding receive_all receive
receive_all-none now same [] s = refl
receive_all-none now same (w ∷ ws) s = elim (Bool-cases (w == s.generation)) [
  | inl p ↦
      subst (λ b. receive_all now (same || b) none ws (if b then s else s) ≡ s) (sym p)
        (receive_all-none now (same || true) ws s)
  | inr p ↦
      subst (λ b. receive_all now (same || b) none ws (if b then s else s) ≡ s) (sym p)
        (receive_all-none now (same || false) ws s)
]

-- A refresh that is over leaves the token and the binding to be compared, and nothing in flight.
pub settle-none :
    (now : ℕ) (r : Refresh) (s : Auth) → Bound s.token s.owned_binding → Inv (settle now none r s)
unfolding settle
settle-none now r s h =
    rw (receive_all-none now false r.waiting s)
      (record { bound = h; waits = tt; in_lock = λ e. cc })

-- Those who are all late receive nothing.
receive_all-late :
    (now : ℕ) (same : Bool) (o : Option Token) (ws : List ℕ) (s : Auth)
    → All (λ w. w < s.generation) ws
    → receive_all now same o ws s ≡ s
unfolding receive_all receive
receive_all-late now same o [] s late = refl
receive_all-late now same o (w ∷ ws) s late = elim (Bool-cases (w == s.generation)) [
  | inl p ↦ absurd (omega (arith, (==_iff w s.generation).0 p, late.0))
  | inr p ↦ rw p (receive_all-late now (same || false) o ws s late.1)
]

pub settle-some :
    (now : ℕ) (token : Token) (r : Refresh) (s : Auth)
    → subject_of token ≡ some r.binding.subject
    → Kin s.owned_binding r.binding.subject
    → (is_some s.owned_binding ≡ false → All (λ w. w < s.generation) r.waiting)
    → Bound s.token s.owned_binding
    → Inv (settle now (some token) r s)
unfolding settle
settle-some now token r s e k late h =
    let (b, o) =
      receive_all-Bound now false token r.binding.subject r.waiting s s.owned_binding s.generation
        refl refl e k late h in
    record {
      bound =
          subst (λ o'. Bound (receive_all now false (some token) r.waiting s).token o') (sym o) b;
      waits = tt;
      in_lock = λ e'. cc;
    }

pub settle-late :
    (now : ℕ) (token : Token) (r : Refresh) (s : Auth)
    → All (λ w. w < s.generation) r.waiting
    → Bound s.token s.owned_binding
    → Inv (settle now (some token) r s)
unfolding settle
settle-late now token r s late h =
    rw (receive_all-late now false (some token) r.waiting s late)
      (record { bound = h; waits = tt; in_lock = λ e'. cc })
