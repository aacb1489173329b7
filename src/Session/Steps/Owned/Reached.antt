-- ===== src/Session/Steps/Owned/Reached.antt =====
-- Whatever happens to `AuthService` of auth/auth.service.ts, the token at hand is of the subject whose
-- binding the tab owns.
use zwei.Common.{◌≡◌, ◌⊎◌, inl, inr, Bool, true, Option, none, subst, sym}
use zwei.Session.Stored.{parse_binding, Raw}
use zwei.Session.{Auth}
use zwei.Session.Steps.{
  Action, Reach, Allowed, perform, starts, then_does, asks, hears, accepts, logs_in, logged_in,
  restores, locked, answered, signs_out, signs_out_on, forgets_owned, sign_out_locked,
  sign_out_answered, sign_out_refused, retried, abandons, stores,
}
use zwei.Session.Steps.Owned.{Inv, Bound, Held, Inv-initial}
use zwei.Session.Steps.Owned.Renewal.{Inv-refresh_locked, Inv-refresh_answered}
use zwei.Session.Steps.Owned.Restored.{Inv-restore, Held-unstored}
use zwei.Session.Steps.Owned.Entry.{
  Inv-session_is_current, Inv-storage_changed, Inv-accept_token, Inv-login, Inv-login_answered,
}
use zwei.Session.Steps.Owned.SignOut.{
  Inv-remove_owned, Inv-retry_answered, Inv-abandon, Inv-logout, Inv-logout_goes_on,
  Inv-logout_locked, Inv-logout_answered, Inv-logout_refused,
}

-- Another tab writes.
Inv-stores :
    (i p : Option Raw) (r w : Bool) (s : Auth)
    → (s.refresh_owns_lock ≡ true → (i ≡ s.intended) ⊎ (i ≡ none))
    → Inv s
    → Inv (record s { intended = i; pending = p; reads = r; writes = w })
unfolding parse_binding
Inv-stores i p r w s a h = record {
  bound = h.bound;
  waits = h.waits;
  in_lock = λ e. elim (a e) [
    | inl q ↦
        subst (λ j. Held s.refresh s.generation (parse_binding j) s.owned_binding) (sym q)
          (h.in_lock e)
    | inr q ↦
        subst (λ j. Held s.refresh s.generation (parse_binding j) s.owned_binding) (sym q)
          (Held-unstored s.refresh s.generation (parse_binding s.intended) s.owned_binding
            (h.in_lock e))
  ];
}

perform-Inv : (a : Action) (s : Auth) → Allowed a s → Inv s → Inv (perform a s)
unfolding perform
perform-Inv asks s k h = Inv-session_is_current s h
perform-Inv (hears key) s k h = Inv-storage_changed key s h
perform-Inv (accepts now t) s k h = Inv-accept_token now t s k h
perform-Inv logs_in s k h = Inv-login s h
perform-Inv (logged_in now g t) s k h = Inv-login_answered now g t s k h
perform-Inv (restores now) s k h = Inv-restore now s k h
perform-Inv (locked now) s k h = Inv-refresh_locked now s h
perform-Inv (answered now o) s k h = Inv-refresh_answered now o s k h
perform-Inv (signs_out r now t) s k h = Inv-logout r now t s h
perform-Inv (signs_out_on now c r) s k h = Inv-logout_goes_on now c r s h
perform-Inv (forgets_owned o) s k h = Inv-remove_owned o s h
perform-Inv (sign_out_locked c t b d l) s k h = Inv-logout_locked c t b d l s h
perform-Inv (sign_out_answered c p) s k h = Inv-logout_answered c p s h
perform-Inv (sign_out_refused c b) s k h = Inv-logout_refused c b s h
perform-Inv (retried p) s k h = Inv-retry_answered p s h
perform-Inv abandons s k h = Inv-abandon s h
perform-Inv (stores i p r w) s k h = Inv-stores i p r w s k h

Reach-Inv : {s : Auth} → Reach s → Inv s
Reach-Inv (starts i p) = Inv-initial i p
Reach-Inv (then_does {s = s} a r k) = perform-Inv a s k (Reach-Inv r)

-- In every state that the service comes to, the token at hand has the subject of the binding that the
-- tab owns; so there is no token without a binding. The lock between the tabs is taken to
-- be exclusive: while a renewal of this tab holds it, no session is accepted, no other tab changes the
-- binding, unless it removes it, and no second request gets it; and the server answers a renewal that
-- holds it. Otherwise the storage may change at any time, whether or not the tab has heard of it.
-- What is left out is that a tab which has no token, and owns a binding of another subject than the
-- stored one, joins a renewal that was in flight before its generation began.
pub Reach-Bound : {s : Auth} → Reach s → Bound s.token s.owned_binding
Reach-Bound r = (Reach-Inv r).bound
