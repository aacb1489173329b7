-- ===== src/Session/Steps.antt =====
-- The session as a state machine: what the screens, the server and the other tabs may do to
-- `AuthService` of auth/auth.service.ts, in any order that the lock between the tabs leaves.
pub mod Owned
use zwei.Common.{
  ℕ, ◌≡◌, ◌⊎◌, Bool, true, false, Option, none, some, List, [], ◌∷◌, if◌then◌else◌, is_some,
}
use zwei.Js.Text.{Text}
use zwei.Session.Stored.{Token, Binding, Selector, PendingLogout, Raw, parse_binding}
use zwei.Session.{
  Auth, Refresh, StorageKey, initial, session_is_current, storage_changed, accept_token, login,
  login_answered, invalidate_local_session,
}
use zwei.Session.Restore.{Outcome, restore, refresh_locked, refresh_answered}
use zwei.Session.Logout.{
  Logout, remove_owned_binding, retry_answered, abandon_pending_logout, logout, logout_goes_on,
  logout_locked, logout_answered, logout_refused,
}

-- The numbers are times, and the generation that a login has kept. `stores` is another tab, or the
-- browser, that changes the storage.
pub data Action : Type 0 where
  asks : Action
  hears : StorageKey → Action
  accepts : ℕ → Token → Action
  logs_in : Action
  logged_in : ℕ → ℕ → Token → Action
  restores : ℕ → Action
  locked : ℕ → Action
  answered : ℕ → Outcome → Action
  signs_out : Bool → ℕ → Text → Action
  signs_out_on : ℕ → Logout → Option Token → Action
  forgets_owned : Option Binding → Action
  sign_out_locked : Logout → Text → Bool → Option Token → Selector → Action
  sign_out_answered : Logout → PendingLogout → Action
  sign_out_refused : Logout → Bool → Action
  retried : PendingLogout → Action
  abandons : Action
  stores : Option Raw → Option Raw → Bool → Bool → Action

unfoldable pub perform : Action → Auth → Auth
perform asks s = (session_is_current s).0
perform (hears key) s = storage_changed key s
perform (accepts now t) s = (accept_token now t s).0
perform logs_in s = (login s).0
perform (logged_in now g t) s = login_answered now g t s
perform (restores now) s = (restore now s).0
perform (locked now) s = refresh_locked now s
perform (answered now o) s = refresh_answered now o s
perform (signs_out r now t) s = (logout r now t s).0
perform (signs_out_on now k r) s = (logout_goes_on now k r s).0
perform (forgets_owned owned) s = (remove_owned_binding owned s).0
perform (sign_out_locked k t b c l) s = (logout_locked k t b c l s).0
perform (sign_out_answered k p) s = (logout_answered k p s).0
perform (sign_out_refused k b) s = logout_refused k b s
perform (retried p) s = (retry_answered p s).0
perform abandons s = (abandon_pending_logout s).0
perform (stores i p r w) s = record s { intended = i; pending = p; reads = r; writes = w }

abbrev pub IsHeldFor : Bool → Outcome → Type 0
IsHeldFor holds (Outcome.restored t) = holds ≡ true
IsHeldFor holds (Outcome.http_error n) = holds ≡ true
IsHeldFor holds Outcome.lock_error = holds ≡ false
IsHeldFor holds Outcome.other_error = Unit

-- A binding, if there is one, is of this subject.
abbrev pub Kin : Option Binding → Text → Type 0
Kin none subject = Unit
Kin (some b) subject = b.subject ≡ subject

abbrev pub Agree : Option Binding → Option Binding → Type 0
Agree none b = Unit
Agree (some a) b = Kin b a.subject

-- What the lock and the storage keep to. A session is accepted while this tab holds the lock for the
-- request that brought it, so not during a refresh; the server answers a refresh that holds it; other
-- tabs change the binding only while they hold it; and a tab without a token that owns a binding of
-- another subject than the stored one joins no renewal of an earlier generation.
abbrev pub IsFresh : Option Refresh → ℕ → Type 0
IsFresh none g = Unit
IsFresh (some r) g = r.started ≡ g

abbrev pub Allowed : Action → Auth → Type 0
Allowed (accepts now t) s = s.refresh_owns_lock ≡ false
Allowed (logged_in now g t) s = s.refresh_owns_lock ≡ false
Allowed (restores now) s =
    (is_some s.token ≡ true)
    ⊎ (Agree s.owned_binding (parse_binding s.intended) ⊎ IsFresh s.refresh s.generation)
Allowed (locked now) s = s.refresh_owns_lock ≡ false
Allowed (answered now o) s = IsHeldFor s.refresh_owns_lock o
Allowed (stores i p r w) s = s.refresh_owns_lock ≡ true → (i ≡ s.intended) ⊎ (i ≡ none)
Allowed _ s = Unit

-- What a new service in a browser with some storage comes to.
pub data Reach : Auth → Type 0 where
  starts : (i p : Option Raw) → Reach (initial i p)
  then_does : {s : Auth} (a : Action) → Reach s → Allowed a s → Reach (perform a s)
