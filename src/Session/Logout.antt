-- ===== src/Session/Logout.antt =====
-- `logout`, `retryPendingLogout`, `abandonPendingLogout` and what they share, of auth/auth.service.ts: a
-- sign out is written down before the server is asked, and forgotten when the server has confirmed it.
mod Begun
unfoldable pub use Begun.*
use zwei.Common.{
  ℕ, ◌+◌, ◌*◌, Bool, true, false, not, ◌&&◌, ◌||◌, Option, none, some, leb, ◌==◌, if◌then◌else◌,
  is_some,
}
use zwei.Js.Text.{Text, text_eq}
use zwei.Session.Restore.{is_subject, same_subject}
use zwei.Session.Stored.{
  Token, Binding, Selector, PendingLogout, Raw, blank, junk, json, parse_binding,
  parse_pending_logout, pending_json, same_binding, same_pending, subject_of, selector_of, bind,
  selects,
}
use zwei.Session.{Auth, read_binding, pending_logout, invalidate_local_session, put_token}

-- What `logout` does with what the refresh brought: it fails, asks again, only forgets the binding, or
-- goes on to the lock with a token and a selector.
pub data Turn : Type 0 where
  stops asks_again forgets_binding : Turn
  locks : Option Token → Selector → Turn

abbrev pub is_other : Option Token → Option Token → Bool
is_other none token = false
is_other (some rotated) none = false
is_other (some rotated) (some token) = not (same_subject token rotated)

abbrev pub same_browser : Selector → Option Selector → Bool
same_browser a none = false
same_browser a (some b) = text_eq a.browser_id b.browser_id

abbrev pub revoke_selector : Option Token → Option Selector → Option Selector
revoke_selector none selector = selector
revoke_selector (some rotated) selector = selector_of rotated

abbrev later : ℕ → Token → Token
later now t = record t { expires_in = now + t.expires_in * 1000 }

abbrev pub revoked : ℕ → Option Token → Option Token → Option Token
revoked now none token = token
revoked now (some rotated) token = some (later now rotated)

abbrev pub to_lock : ℕ → Logout → Option Token → Option Selector → Auth → Auth × Turn
to_lock now k rotated none s = (s, stops)
to_lock now k rotated (some selector) s =
    if not (same_browser selector k.selector) then (s, stops) else (
      if k.generation == s.generation
          then record s {
            revoke_token = revoked now rotated k.token;
            browser_selector = some selector;
          }
          else s,
      locks (or_else rotated k.token) selector,
    )

unfoldable pub logout_goes_on : ℕ → Logout → Option Token → Auth → Auth × Turn
logout_goes_on now k rotated s =
    if k.revoke && k.waits && not (is_some rotated) && is_some k.reserved
    then (s, asks_again)
    else if k.revoke && k.waits && k.needs_refresh && not (is_some rotated)
    then (s, stops)
    else if is_other rotated k.token
    then (s, stops)
    else if not k.revoke
    then (s, forgets_binding)
    else to_lock now k rotated (revoke_selector rotated k.selector) s

-- The request that carries the token: what is pending takes its selector, and the binding goes.
abbrev pub pending_with : Binding → Selector → PendingLogout → PendingLogout
pending_with owned next p = record { binding = bind owned.subject next; receipt = p.receipt }

abbrev pub written_with : Logout → Token → Selector → PendingLogout → Auth → Auth
written_with k token next q s = record s {
  pending = some (pending_json q);
  revoke_binding = some q.binding;
  revoke_token = if k.generation == s.generation then some token else s.revoke_token;
  browser_selector = if k.generation == s.generation then some next else s.browser_selector;
}

abbrev pub post_now : Binding → PendingLogout → Auth → Auth × Step
post_now owned q s =
    let (u, removed) = remove_owned_binding (some owned) s in
    (u, if removed then posts q else fails)

unfoldable pub post_with :
    Logout → Binding → Token → Selector → Option Selector → PendingLogout → Auth → Auth × Step
post_with k owned token selector none p s = (s, fails)
post_with k owned token selector (some next) p s =
    if not (text_eq next.browser_id selector.browser_id)
      || not (is_subject (subject_of token) owned.subject)
      || (is_there s.intended && not (same_binding (parse_binding s.intended) (some owned)))
      || not (same_pending (parse_pending_logout s.pending) (some p))
    then (s, fails)
    else (let q = pending_with owned next p in post_now owned q (written_with k token next q s))

-- Another sign out is pending, or another session is intended, or neither is there.
unfoldable pub is_changed : Logout → Binding → Auth → Bool
is_changed k owned s =
    (is_there s.pending && not (same_pending (parse_pending_logout s.pending) k.reserved))
    || (is_there s.intended && not (same_binding (parse_binding s.intended) (some owned)))
    || (not (is_there s.intended) && not (is_there s.pending))

abbrev pub receipt_of : Option PendingLogout → Text → Text
receipt_of none receipt = receipt
receipt_of (some p) receipt = p.receipt

-- What is sent once the sign out is written down.
abbrev pub send_logout :
    Logout → Binding → Bool → Option Token → Selector → PendingLogout → Auth → Auth × Step
send_logout k owned refreshed none selector p s = (s, posts_retry p)
send_logout k owned refreshed (some token) selector p s =
    if k.needs_refresh && not refreshed
    then (s, posts_retry p)
    else post_with k owned token selector (selector_of token) p s

abbrev pub locked_with :
    Logout → Option Binding → Text → Bool → Option Token → Selector → Auth → Auth × Step
locked_with k none receipt refreshed current selector s = (s, fails)
locked_with k (some owned) receipt refreshed current selector s =
    if not s.reads || not s.writes || is_changed k owned s
    then (s, fails)
    else (let p : PendingLogout = record {
      binding = bind owned.subject selector;
      receipt = receipt_of k.reserved receipt;
    } in
        send_logout k owned refreshed current selector p
          (record s { pending = some (pending_json p); revoke_binding = some p.binding }))

-- `logout` under the lock.
unfoldable pub logout_locked : Logout → Text → Bool → Option Token → Selector → Auth → Auth × Step
logout_locked k receipt refreshed current selector s =
    locked_with k k.owned receipt refreshed current selector s

-- `logout` behind the server's confirmation.
unfoldable pub logout_answered : Logout → PendingLogout → Auth → Auth × Bool
logout_answered k p s =
    let (t, cleared) = clear_pending_logout p s in
    if not cleared then (t, false) else (
      if k.generation == t.generation
          then record t { revoke_token = none; revoke_binding = none; browser_selector = none }
          else t,
      true,
    )

-- `logout` behind an error; `confirmed` tells that the sessions were revoked all the same.
unfoldable pub logout_refused : Logout → Bool → Auth → Auth
logout_refused k confirmed s =
    if confirmed && k.generation == s.generation
    then record s { revoke_token = none; logout_cookie_uncleared = true }
    else s
