-- ===== src/Session/Retry.antt =====
-- A sign out whose answer is lost can be finished later: `logout`, `retryPendingLogout` and the item
-- that they leave in the storage, in auth/auth.service.ts.
mod Finished
pub use Finished.*
use zwei.Common.{
  not-false, ◌≡◌, refl, sym, ap, subst, ◌∙◌, ◌⊎◌, inl, inr, Bool, true, false, not, ◌&&◌, ◌||◌,
  Option, none, some, if◌then◌else◌, arith, Bool-cases, ||-false,
}
use zwei.Js.Text.{Text, text_eq, text_eq_refl, is_empty}
use zwei.Session.Stored.{
  Token, Binding, Selector, PendingLogout, Raw, blank, junk, json, parse_binding,
  parse_pending_logout, pending_json, same_binding, same_pending, is_receipt, bind, selector_of,
  subject_of,
}
use zwei.Session.{Auth, read_binding, pending_logout}
use zwei.Session.Restore.{is_subject}
use zwei.Session.Logout.{
  Step, fails, done, posts, posts_retry, Logout, remove_owned_binding, clear_pending_logout,
  retry_answered, retry_pending_logout, post_now, written_with, pending_with, is_there, is_changed,
  post_with, send_logout, locked_with, logout_locked, receipt_of,
}

is_there→parse : (raw : Option Raw) → is_there raw ≡ false → parse_binding raw ≡ none
unfolding parse_binding
is_there→parse none h = refl
is_there→parse (some blank) h = refl
is_there→parse (some junk) h = cc
is_there→parse (some (json v)) h = cc

IsFree-intro :
    (b : Binding) (s : Auth)
    → (is_there s.intended && not (same_binding (parse_binding s.intended) (some b))) ≡ false
    → IsFree b s
IsFree-intro b s h = elim (Bool-cases (is_there s.intended)) [
  | inl e ↦ inr (ground (arith, e))
  | inr e ↦ inl (is_there→parse s.intended e)
]

posts_inj : (p q : PendingLogout) → posts p ≡ posts q → p ≡ q
posts_inj p q h = cc

if-posts :
    (b : Bool) (s : Auth) (x : Auth × Step) (q : PendingLogout)
    → (if b then (s, fails) else x).1 ≡ posts q
    → (b ≡ false) × ((if b then (s, fails) else x) ≡ x) × (x.1 ≡ posts q)
if-posts true s x q h = cc
if-posts false s x q h = (refl, refl, h)

if-sends :
    (b : Bool) (p q : PendingLogout) → (if b then posts p else fails) ≡ posts q → b ≡ true → p ≡ q
if-sends true p q h e = cc
if-sends false p q h e = cc

-- What is sent stands in the storage, and the binding does not.
abbrev IsPosted : PendingLogout → Auth → Type 0
IsPosted q u = IsKept q u × (parse_binding u.intended ≡ none)

post_now-kept :
    (owned : Binding) (p q : PendingLogout) (s : Auth)
    → s.reads ≡ true
    → s.writes ≡ true
    → s.pending ≡ some (pending_json p)
    → IsFree owned s
    → IsWhole q
    → (post_now owned p s).1 ≡ posts q
    → IsPosted q (post_now owned p s).0
post_now-kept owned p q s r w e free whole h =
    let (removed, x) = remove_owned-IsRemoved owned s r w free in
    let same = if-sends (remove_owned_binding (some owned) s).1 p q h removed in
    (
      record {
        pending =
            ap parse_pending_logout (x.pending ∙ e ∙ ap (λ y. some (pending_json y)) same)
            ∙ parse_pending_logout-pending_json q whole;
        reads = x.reads;
        writes = x.writes;
      },
      x.gone,
    )

post_with-kept :
    (k : Logout) (owned : Binding) (token : Token) (l : Selector) (next : Option Selector)
    (p q : PendingLogout) (s : Auth)
    → s.reads ≡ true
    → s.writes ≡ true
    → IsWhole q
    → (post_with k owned token l next p s).1 ≡ posts q
    → IsPosted q (post_with k owned token l next p s).0
unfolding post_with
post_with-kept k owned token l none p q s r w whole h = cc
post_with-kept k owned token l (some next) p q s r w whole h =
    let stored =
      is_there s.intended && not (same_binding (parse_binding s.intended) (some owned)) in
    let changed = not (same_pending (parse_pending_logout s.pending) (some p)) in
    let other =
      not (text_eq next.browser_id l.browser_id)
      || not (is_subject (subject_of token) owned.subject) in
    let t = written_with k token next (pending_with owned next p) s in
    let (b, e, h') =
      if-posts (other || stored || changed) s (post_now owned (pending_with owned next p) t) q h in
    let (b', _) = ||-false (other || stored) changed b in
    let (_, free) = ||-false other stored b' in
    subst (λ (y : Auth × Step). IsPosted q y.0) (sym e)
      (post_now-kept owned (pending_with owned next p) q t r w refl (IsFree-intro owned s free)
        whole h')

if-retries :
    (b : Bool) (s : Auth) (p q : PendingLogout) (x : Auth × Step)
    → (if b then (s, posts_retry p) else x).1 ≡ posts q
    → ((if b then (s, posts_retry p) else x) ≡ x) × (x.1 ≡ posts q)
if-retries true s p q x h = cc
if-retries false s p q x h = (refl, h)

send_logout-kept :
    (k : Logout) (owned : Binding) (refreshed : Bool) (current : Option Token) (l : Selector)
    (p q : PendingLogout) (s : Auth)
    → s.reads ≡ true
    → s.writes ≡ true
    → IsWhole q
    → (send_logout k owned refreshed current l p s).1 ≡ posts q
    → IsPosted q (send_logout k owned refreshed current l p s).0
send_logout-kept k owned refreshed none l p q s r w whole h = cc
send_logout-kept k owned refreshed (some token) l p q s r w whole h =
    let x = post_with k owned token l (selector_of token) p s in
    let (e, h') = if-retries (k.needs_refresh && not refreshed) s p q x h in
    subst (λ (y : Auth × Step). IsPosted q y.0) (sym e)
      (post_with-kept k owned token l (selector_of token) p q s r w whole h')

locked_with-kept :
    (k : Logout) (o : Option Binding) (receipt : Text) (refreshed : Bool) (current : Option Token)
    (l : Selector) (s : Auth) (q : PendingLogout)
    → IsWhole q
    → (locked_with k o receipt refreshed current l s).1 ≡ posts q
    → IsPosted q (locked_with k o receipt refreshed current l s).0
locked_with-kept k none receipt refreshed current l s q whole h = cc
locked_with-kept k (some owned) receipt refreshed current l s q whole h =
    let p : PendingLogout = record {
      binding = bind owned.subject l;
      receipt = receipt_of k.reserved receipt;
    } in
    let t = record s { pending = some (pending_json p); revoke_binding = some p.binding } in
    let x = send_logout k owned refreshed current l p t in
    let (b, e, h') = if-posts (not s.reads || not s.writes || is_changed k owned s) s x q h in
    let (b', _) = ||-false (not s.reads || not s.writes) (is_changed k owned s) b in
    let (r, w) = ||-false (not s.reads) (not s.writes) b' in
    subst (λ (y : Auth × Step). IsPosted q y.0) (sym e)
      (send_logout-kept k owned refreshed current l p q t (not-false s.reads r)
        (not-false s.writes w) whole h')

-- A sign out that has sent its request can be finished although the answer is lost: a retry sends the
-- same pending logout, and when the server confirms it, it ends well, and neither the pending item nor
-- a binding is left in the storage. The pending logout has no empty part, and a receipt of the form
-- that the service makes.
pub lost_answer_is_retried :
    (k : Logout) (receipt : Text) (refreshed : Bool) (current : Option Token) (l : Selector)
    (s : Auth) (q : PendingLogout)
    → (logout_locked k receipt refreshed current l s).1 ≡ posts q
    → IsWhole q
    → (retry_pending_logout (logout_locked k receipt refreshed current l s).0 ≡ posts_retry q)
      × ((retry_answered q (logout_locked k receipt refreshed current l s).0).1 ≡ done)
      × (pending_logout (retry_answered q (logout_locked k receipt refreshed current l s).0).0
          ≡ false)
      × (read_binding (retry_answered q (logout_locked k receipt refreshed current l s).0).0 ≡ none)
unfolding logout_locked
lost_answer_is_retried k receipt refreshed current l s q h whole =
    let (kept, gone) = locked_with-kept k k.owned receipt refreshed current l s q whole h in
    retry_finishes q (locked_with k k.owned receipt refreshed current l s).0 kept (inl gone)
