-- ===== src/Session/Steps/Owned/Entry.antt =====
-- `acceptToken`, `login` and what watches the storage, of auth/auth.service.ts, keep the token to the
-- subject of the binding.
use zwei.Common.{
  ℕ, ◌≡◌, refl, Bool, false, not, ◌&&◌, ◌||◌, Option, none, some, ◌==◌, is_some, if-keeps,
}
use zwei.Js.Text.{Text}
use zwei.Session.Stored.{
  parse_binding, Token, Selector, same_binding, subject_of, selector_of, bind,
}
use zwei.Session.{
  Auth, StorageKey, Accepted, read_binding, pending_logout, put_token, handle_token,
  session_is_current, storage_changed, is_pending_key, is_ignored, accept_as, accept_identified,
  accept_token, login, login_answered,
}
use zwei.Session.Steps.Owned.{Inv, Waits-suc, Waits-untoken, Held-suc, handle_token-Bound}
use zwei.Session.Steps.Owned.Restored.{Inv-invalidate}

pub Inv-session_is_current : (s : Auth) → Inv s → Inv (session_is_current s).0
unfolding session_is_current
Inv-session_is_current s h =
    if-keeps (λ (x : Auth × Bool). Inv x.0) (not (is_some s.token)) h
      (if-keeps (λ (x : Auth × Bool). Inv x.0)
        (pending_logout s || not (same_binding (read_binding s) s.owned_binding))
        (Inv-invalidate s h) h)

pub Inv-storage_changed : (key : StorageKey) (s : Auth) → Inv s → Inv (storage_changed key s)
unfolding storage_changed
Inv-storage_changed key s h =
    if-keeps Inv (is_pending_key key && pending_logout s) (Inv-invalidate s h) (
      if-keeps Inv (is_ignored key) h (
        if-keeps Inv
          (is_some s.owned_binding && not (same_binding (read_binding s) s.owned_binding))
          (Inv-invalidate s h) h))

-- An accepted session owns a binding of its token's subject.
pub Inv-accept_as :
    (now : ℕ) (t : Token) (x : Text) (l : Selector) (s : Auth)
    → subject_of t ≡ some x
    → s.refresh_owns_lock ≡ false
    → Inv s
    → Inv (accept_as now t x l s).0
unfolding accept_as put_token handle_token
Inv-accept_as now t x l s e free h =
    if-keeps (λ (r : Auth × Accepted). Inv r.0) (not s.writes)
      (record {
        bound = tt;
        waits = Waits-untoken s.refresh s.generation s.owned_binding s.token h.waits;
        in_lock = h.in_lock;
      })
      (record {
        bound = handle_token-Bound now t x (record s { owned_binding = some (bind x l) }) e refl;
        waits =
            Waits-suc s.refresh s.generation s.owned_binding (some (bind x l)) s.token _ h.waits;
        in_lock = λ o. cc;
      })

pub Inv-accept_identified :
    (now : ℕ) (t : Token) (l : Option Selector) (x : Option Text) (s : Auth)
    → subject_of t ≡ x
    → s.refresh_owns_lock ≡ false
    → Inv s
    → Inv (accept_identified now t l x s).0
Inv-accept_identified now t none x s e free h = h
Inv-accept_identified now t (some l) none s e free h = h
Inv-accept_identified now t (some l) (some x) s e free h = Inv-accept_as now t x l s e free h

pub Inv-accept_token :
    (now : ℕ) (t : Token) (s : Auth)
    → s.refresh_owns_lock ≡ false
    → Inv s
    → Inv (accept_token now t s).0
unfolding accept_token
Inv-accept_token now t s free h =
    if-keeps (λ (r : Auth × Accepted). Inv r.0) (pending_logout s) h
      (Inv-accept_identified now t (selector_of t) (subject_of t) s refl free h)

pub Inv-login : (s : Auth) → Inv s → Inv (login s).0
unfolding login
Inv-login s h =
    if-keeps (λ (r : Auth × Option ℕ). Inv r.0) (pending_logout s) h
      (record {
        bound = h.bound;
        waits =
            Waits-suc s.refresh s.generation s.owned_binding s.owned_binding s.token s.token
              h.waits;
        in_lock = λ e.
            Held-suc s.refresh s.generation (parse_binding s.intended) s.owned_binding
              s.owned_binding s.token (h.in_lock e) h.waits;
      })

pub Inv-login_answered :
    (now g : ℕ) (t : Token) (s : Auth)
    → s.refresh_owns_lock ≡ false
    → Inv s
    → Inv (login_answered now g t s)
unfolding login_answered
Inv-login_answered now g t s free h =
    if-keeps Inv (g == s.generation) (Inv-accept_token now t s free h) h
