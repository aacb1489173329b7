-- ===== src/Session.antt =====
-- The session of this browser: `AuthService` of frontend-app/src/app/auth/auth.service.ts, its state and
-- what it reads from tokens and from `localStorage`, which all tabs of the browser share.
pub mod Stored
pub mod Restore
pub mod Logout
pub mod Steps
pub mod Retry
mod Examples
use zwei.Common.{
  ℕ, ◌+◌, ◌*◌, ◌≡◌, Bool, true, false, not, ◌&&◌, ◌||◌, Option, none, some, List, [], ◌∷◌, leb,
  ◌==◌, if◌then◌else◌, any, every, is_some,
}
use zwei.Js.Text.{Text, codes, text_eq, is_empty}
use zwei.Js.Value.{
  Value, Fields, obj, str, field, no_fields, prop, has, is_object, is_string, text_of,
}
use zwei.Session.Stored.{
  Binding, PendingLogout, Raw, Selector, Token, bind, binding_json, binding_of, blank, is_filled,
  is_receipt, json, junk, parse_binding, parse_pending_logout, pending_json, same_binding,
  same_pending, selector_of, selects, subject_of,
}

-- `RestoreFailure`.
pub data RestoreFailure : Type 0 where
  lock_unavailable temporarily_unavailable : RestoreFailure

-- `refreshInFlight`: what its closures keep, the generation that it asked for once it has the lock, and
-- the generations that those who wait for it have kept.
pub record Refresh : Type 0 where
  pub started : ℕ
  pub binding : Binding
  pub selector : Selector
  pub requested : Option Text
  pub waiting : List ℕ

-- The fields of the service, and the two items of `localStorage` with whether it can be read and
-- written. `changes` counts what `sessionChanges` emits. `restoreResult` is written and never read.
pub record Auth : Type 0 where
  pub restore_failure : Option RestoreFailure
  pub token : Option Token
  pub refresh : Option Refresh
  pub refresh_owns_lock : Bool
  pub generation : ℕ
  pub revoke_token : Option Token
  pub logout_cookie_uncleared : Bool
  pub browser_selector : Option Selector
  pub revoke_binding : Option Binding
  pub owned_binding : Option Binding
  pub changes : ℕ
  pub intended : Option Raw
  pub pending : Option Raw
  pub reads : Bool
  pub writes : Bool

-- A service in a browser with this storage.
abbrev pub initial : Option Raw → Option Raw → Auth
initial intended pending = record {
  restore_failure = none;
  token = none;
  refresh = none;
  refresh_owns_lock = false;
  generation = 0;
  revoke_token = none;
  logout_cookie_uncleared = false;
  browser_selector = none;
  revoke_binding = none;
  owned_binding = none;
  changes = 0;
  intended = intended;
  pending = pending;
  reads = true;
  writes = true;
}

-- `readBinding`.
unfoldable pub read_binding : Auth → Option Binding
read_binding s = if s.reads then parse_binding s.intended else none

-- `pendingLogout`.
unfoldable pub pending_logout : Auth → Bool
pending_logout s = if s.reads then is_some s.pending else true

-- `tokenSubject.next`, with what `sessionChanges` makes of it.
unfoldable pub put_token : Option Token → Auth → Auth
put_token token s = record s {
  token = token;
  changes = s.changes + (if is_some s.token && not (is_some token) then 1 else 0);
}

-- `invalidateLocalSession`.
unfoldable pub invalidate_local_session : Auth → Auth
invalidate_local_session s = put_token none (record s {
  generation = s.generation + 1;
  owned_binding = none;
  browser_selector = none;
  revoke_token = none;
  revoke_binding = none;
})

-- `sessionIsCurrent`.
unfoldable pub session_is_current : Auth → Auth × Bool
session_is_current s =
    if not (is_some s.token)
    then (s, false)
    else if pending_logout s || not (same_binding (read_binding s) s.owned_binding)
    then (invalidate_local_session s, false)
    else (s, true)

-- What `storageChanged` is told.
pub data StorageKey : Type 0 where
  intended_key pending_logout_key other_key every_key : StorageKey

abbrev pub is_pending_key : StorageKey → Bool
is_pending_key pending_logout_key = true
is_pending_key _ = false

abbrev pub is_ignored : StorageKey → Bool
is_ignored intended_key = false
is_ignored every_key = false
is_ignored _ = true

-- `storageChanged`.
unfoldable pub storage_changed : StorageKey → Auth → Auth
storage_changed key s =
    if is_pending_key key && pending_logout s
    then invalidate_local_session s
    else if is_ignored key
    then s
    else if is_some s.owned_binding && not (same_binding (read_binding s) s.owned_binding)
    then invalidate_local_session s
    else s

-- `handleToken`, at a time in milliseconds.
unfoldable pub handle_token : ℕ → Token → Auth → Auth
handle_token now token s =
    put_token (some (record token { expires_in = now + token.expires_in * 1000 })) s

-- What `acceptToken` throws, or its success.
pub data Accepted : Type 0 where
  accepted sign_out_pending identity_missing storage_unavailable : Accepted

-- `acceptToken` from the storage on.
unfoldable pub accept_as : ℕ → Token → Text → Selector → Auth → Auth × Accepted
accept_as now token subject selector s =
    if not s.writes
    then (put_token none (record s { changes = s.changes + 1 }), storage_unavailable)
    else (
      handle_token now token (record s {
        changes = s.changes + 1;
        intended = some (binding_json (bind subject selector));
        generation = s.generation + 1;
        browser_selector = some selector;
        owned_binding = some (bind subject selector);
        revoke_token = none;
        revoke_binding = none;
        logout_cookie_uncleared = false;
        restore_failure = none;
      }),
      accepted,
    )

abbrev pub accept_identified : ℕ → Token → Option Selector → Option Text → Auth → Auth × Accepted
accept_identified now token none subject s = (s, identity_missing)
accept_identified now token (some selector) none s = (s, identity_missing)
accept_identified now token (some selector) (some subject) s =
    accept_as now token subject selector s

-- `acceptToken`.
unfoldable pub accept_token : ℕ → Token → Auth → Auth × Accepted
accept_token now token s =
    if pending_logout s
    then (s, sign_out_pending)
    else accept_identified now token (selector_of token) (subject_of token) s

-- `login` begins: the generation that it keeps, or `none` where it is refused. Under the lock it asks
-- the server unless a sign out is pending.
unfoldable pub login : Auth → Auth × Option ℕ
login s =
    if pending_logout s
    then (s, none)
    else (record s { generation = s.generation + 1 }, some (s.generation + 1))

-- `login` behind the server's answer.
unfoldable pub login_answered : ℕ → ℕ → Token → Auth → Auth
login_answered now generation token s =
    if generation == s.generation then (accept_token now token s).0 else s
