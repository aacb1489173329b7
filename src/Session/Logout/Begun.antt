-- ===== src/Session/Logout/Begun.antt =====
-- The beginning of `logout` and the retry and abandonment of a pending one, of auth/auth.service.ts.
use zwei.Common.{
  ℕ, ◌+◌, Bool, true, false, not, ◌&&◌, ◌||◌, Option, none, some, leb, if◌then◌else◌, is_some,
}
use zwei.Js.Text.{Text}
use zwei.Session.Stored.{
  Token, Binding, Selector, PendingLogout, Raw, blank, junk, json, parse_binding,
  parse_pending_logout, pending_json, same_binding, same_pending, selects,
}
use zwei.Session.{Auth, read_binding, pending_logout, invalidate_local_session, put_token}

-- How a stretch ends: with an error, with a request to the server that is to be answered, or well.
pub data Step : Type 0 where
  fails done : Step
  posts posts_retry : PendingLogout → Step

-- `removeOwnedBinding`.
unfoldable pub remove_owned_binding : Option Binding → Auth → Auth × Bool
remove_owned_binding owned s =
    if not s.reads
    then (s, false)
    else if same_binding (parse_binding s.intended) owned
    then (if s.writes then (record s { intended = none }, true) else (s, false))
    else (s, true)

-- `clearPendingLogout`.
unfoldable pub clear_pending_logout : PendingLogout → Auth → Auth × Bool
clear_pending_logout p s =
    if s.reads && s.writes && same_pending (parse_pending_logout s.pending) (some p)
    then (record s { pending = none }, true)
    else (s, false)

-- `sendPendingLogout` behind the server's answer.
unfoldable pub retry_answered : PendingLogout → Auth → Auth × Step
retry_answered p s =
    if s.reads && same_pending (parse_pending_logout s.pending) (some p)
    then (let (t, removed) = remove_owned_binding (some p.binding) s in
        if removed
        then (let (u, cleared) = clear_pending_logout p t in (u, if cleared then done else fails))
        else (t, fails))
    else (s, fails)

-- `retryPendingLogout`, under the lock.
unfoldable pub retry_pending_logout : Auth → Step
retry_pending_logout s = if not s.reads then fails else elim (parse_pending_logout s.pending) [
  | none ↦ fails
  | some p ↦
      if is_some (read_binding s) && not (same_binding (read_binding s) (some p.binding))
      then fails
      else posts_retry p
]

-- `abandonPendingLogout`, under the lock.
abbrev pub forgets : Option PendingLogout → Auth → Option Raw
forgets none s = s.intended
forgets (some p) s =
    if same_binding (parse_binding s.intended) (some p.binding) then none else s.intended

unfoldable pub abandon_pending_logout : Auth → Auth × Step
abandon_pending_logout s =
    if not s.reads || not (is_some s.pending) || not s.writes then (s, fails) else (
      invalidate_local_session
          (record s { intended = forgets (parse_pending_logout s.pending) s; pending = none }),
      done,
    )

-- What the closures of one `logout` keep.
pub record Logout : Type 0 where
  pub revoke : Bool
  pub token : Option Token
  pub selector : Option Selector
  pub needs_refresh : Bool
  pub waits : Bool
  pub owned : Option Binding
  pub reserved : Option PendingLogout
  pub generation : ℕ

abbrev pub or_else {ℓ} : {A : Type ℓ} → Option A → Option A → Option A
or_else none b = b
or_else (some a) b = some a

abbrev selector_part : Option Binding → Option Selector
selector_part none = none
selector_part (some b) = some (selects b)

abbrev is_expired : ℕ → Option Token → Bool
is_expired now none = false
is_expired now (some t) = leb t.expires_in now

-- An item that is there and is not the empty text.
abbrev pub is_there : Option Raw → Bool
is_there none = false
is_there (some blank) = false
is_there (some junk) = true
is_there (some (json v)) = true

-- The sign out is written down while a refresh holds the lock.
abbrev pub reserve : Text → Option Binding → Auth → Option PendingLogout
reserve receipt none s = none
reserve receipt (some owned) s =
    if s.reads
      && s.writes
      && same_binding (parse_binding s.intended) (some owned)
      && not (is_there s.pending)
    then some (record { binding = owned; receipt = receipt })
    else none

abbrev pub pending_item : Option PendingLogout → Option Raw → Option Raw
pending_item none raw = raw
pending_item (some p) raw = some (pending_json p)

-- How `logout` begins.
pub data Began : Type 0 where
  cookie_uncleared retries reservation_failed : Began
  goes_on : Logout → Began

-- What `logout` keeps of the state, for a reservation.
unfoldable pub kept : Bool → ℕ → Option PendingLogout → Auth → Logout
kept revoke now reserved s =
    let revoke_binding =
      or_else s.owned_binding
        (or_else s.revoke_binding (if revoke then read_binding s else none)) in
    let token = or_else s.token s.revoke_token in
    record {
      revoke = revoke;
      token = token;
      selector =
          or_else s.browser_selector
            (or_else (selector_part s.owned_binding) (selector_part (read_binding s)));
      needs_refresh = revoke && is_expired now token;
      waits = is_some s.refresh;
      owned = or_else s.owned_binding revoke_binding;
      reserved = reserved;
      generation = s.generation + 1;
    }

-- The local session ends, whatever comes of the rest.
unfoldable pub sign_out : Bool → Option PendingLogout → Logout → Auth → Auth
sign_out revoke reserved k s = put_token none (record s {
  revoke_binding = k.owned;
  revoke_token = if revoke then k.token else s.revoke_token;
  pending = pending_item reserved s.pending;
  generation = s.generation + 1;
  owned_binding = none;
})

-- `logout` up to its first wait; `receipt` is what the random bytes make.
unfoldable pub logout : Bool → ℕ → Text → Auth → Auth × Began
logout revoke now receipt s =
    if revoke && s.logout_cookie_uncleared
    then (s, cookie_uncleared)
    else if revoke && not (is_some s.token) && pending_logout s
    then (s, retries)
    else (let owned = (kept revoke now none s).owned in
        if revoke && is_some s.refresh && s.refresh_owns_lock
        then (let reserved = reserve receipt owned s in
            let k = kept revoke now reserved s in
            (
              sign_out revoke reserved k s,
              if is_some reserved then goes_on k else reservation_failed,
            ))
        else (let k = kept revoke now none s in (sign_out revoke none k s, goes_on k)))
