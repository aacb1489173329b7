-- ===== src/Session/Steps/Owned/SignOut.antt =====
-- `logout` and what finishes it, of auth/auth.service.ts, keep the token to the subject of the binding.
use zwei.Common.{
  ℕ, ◌+◌, Bool, true, not, ◌&&◌, ◌||◌, Option, none, some, ◌==◌, if◌then◌else◌, is_some, if-keeps,
}
use zwei.Js.Text.{Text, text_eq}
use zwei.Session.Restore.{is_subject}
use zwei.Session.Stored.{
  Token, Binding, Selector, same_pending, pending_json, PendingLogout, parse_binding,
  parse_pending_logout, same_binding, subject_of, selector_of, bind, Raw,
}
use zwei.Session.{Auth, Refresh, pending_logout, put_token, invalidate_local_session}
use zwei.Session.Logout.{
  written_with, pending_with, Logout, Step, Began, Turn, remove_owned_binding, clear_pending_logout,
  retry_answered, forgets, abandon_pending_logout, sign_out, kept, logout, to_lock, logout_goes_on,
  post_with, is_changed, send_logout, locked_with, logout_locked, logout_answered, logout_refused,
  reserve, is_other, revoke_selector, same_browser, revoked, receipt_of, is_there,
}
use zwei.Session.Steps.{Kin}
use zwei.Session.Steps.Owned.{Inv, Held, Held-suc, Waits-suc}
use zwei.Session.Steps.Owned.Restored.{Held-unstored}

-- Changes of what the invariant does not read.
pub Inv-pending : (p : Option Raw) (s : Auth) → Inv s → Inv (record s { pending = p })
Inv-pending p s h = record { bound = h.bound; waits = h.waits; in_lock = h.in_lock }

pub Inv-revoked :
    (t : Option Token) (l : Option Selector) (b : Option Binding) (c : Bool) (s : Auth)
    → Inv s
    → Inv (record s {
      revoke_token = t;
      browser_selector = l;
      revoke_binding = b;
      logout_cookie_uncleared = c;
    })
Inv-revoked t l b c s h = record { bound = h.bound; waits = h.waits; in_lock = h.in_lock }

pub Inv-remove_owned : (o : Option Binding) (s : Auth) → Inv s → Inv (remove_owned_binding o s).0
unfolding remove_owned_binding parse_binding
Inv-remove_owned o s h =
    if-keeps (λ (r : Auth × Bool). Inv r.0) (not s.reads) h
      (if-keeps (λ (r : Auth × Bool). Inv r.0) (same_binding (parse_binding s.intended) o)
        (if-keeps (λ (r : Auth × Bool). Inv r.0) s.writes
          (record {
            bound = h.bound;
            waits = h.waits;
            in_lock = λ e.
                Held-unstored s.refresh s.generation (parse_binding s.intended) s.owned_binding
                  (h.in_lock e);
          })
          h)
        h)

pub Inv-clear_pending : (p : PendingLogout) (s : Auth) → Inv s → Inv (clear_pending_logout p s).0
unfolding clear_pending_logout
Inv-clear_pending p s h =
    if-keeps (λ (r : Auth × Bool). Inv r.0)
      (s.reads && s.writes && same_pending (parse_pending_logout s.pending) (some p))
      (Inv-pending none s h) h

pub Inv-retry_answered : (p : PendingLogout) (s : Auth) → Inv s → Inv (retry_answered p s).0
unfolding retry_answered
Inv-retry_answered p s h =
    let removed = remove_owned_binding (some p.binding) s in
    let t = Inv-remove_owned (some p.binding) s h in
    if-keeps (λ (r : Auth × Step). Inv r.0)
      (s.reads && same_pending (parse_pending_logout s.pending) (some p))
      (if-keeps (λ (r : Auth × Step). Inv r.0) removed.1 (Inv-clear_pending p removed.0 t) t) h

-- What is forgotten with a pending logout is no other subject's.
Held-forgets :
    (r : Option Refresh) (g : ℕ) (p : Option PendingLogout) (o : Option Binding) (s : Auth)
    → Held r g (parse_binding s.intended) o
    → Held r g (parse_binding (forgets p s)) o
unfolding parse_binding
Held-forgets none g p o s h = h
Held-forgets (some r) g none o s h = h
Held-forgets (some r) g (some p) o s (a, b) = (
  if-keeps (λ (i : Option Raw). Kin (parse_binding i) r.binding.subject)
      (same_binding (parse_binding s.intended) (some p.binding)) tt a,
  b,
)

pub Inv-abandon : (s : Auth) → Inv s → Inv (abandon_pending_logout s).0
unfolding abandon_pending_logout invalidate_local_session put_token
Inv-abandon s h =
    if-keeps (λ (r : Auth × Step). Inv r.0) (not s.reads || not (is_some s.pending) || not s.writes)
      h
      (record {
        bound = tt;
        waits = Waits-suc s.refresh s.generation s.owned_binding none s.token none h.waits;
        in_lock = λ e.
            Held-forgets s.refresh (s.generation + 1) (parse_pending_logout s.pending) none s (
              Held-suc s.refresh s.generation (parse_binding s.intended) s.owned_binding none
                s.token (h.in_lock e) h.waits);
      })

pub Inv-sign_out :
    (revoke : Bool) (p : Option PendingLogout) (k : Logout) (s : Auth)
    → Inv s
    → Inv (sign_out revoke p k s)
unfolding sign_out put_token
Inv-sign_out revoke p k s h = record {
  bound = tt;
  waits = Waits-suc s.refresh s.generation s.owned_binding none s.token none h.waits;
  in_lock = λ e.
      Held-suc s.refresh s.generation (parse_binding s.intended) s.owned_binding none s.token
        (h.in_lock e) h.waits;
}

pub Inv-logout :
    (revoke : Bool) (now : ℕ) (receipt : Text) (s : Auth)
    → Inv s
    → Inv (logout revoke now receipt s).0
unfolding logout
Inv-logout revoke now receipt s h =
    let owned = (kept revoke now none s).owned in
    let reserved = reserve receipt owned s in
    if-keeps (λ (r : Auth × Began). Inv r.0) (revoke && s.logout_cookie_uncleared) h
      (if-keeps (λ (r : Auth × Began). Inv r.0)
        (revoke && not (is_some s.token) && pending_logout s) h
        (if-keeps (λ (r : Auth × Began). Inv r.0)
          (revoke && is_some s.refresh && s.refresh_owns_lock)
          (Inv-sign_out revoke reserved (kept revoke now reserved s) s h)
          (Inv-sign_out revoke none (kept revoke now none s) s h)))

pub Inv-to_lock :
    (now : ℕ) (k : Logout) (rotated : Option Token) (l : Option Selector) (s : Auth)
    → Inv s
    → Inv (to_lock now k rotated l s).0
Inv-to_lock now k rotated none s h = h
Inv-to_lock now k rotated (some l) s h =
    if-keeps (λ (r : Auth × Turn). Inv r.0) (not (same_browser l k.selector)) h
      (if-keeps Inv (k.generation == s.generation)
        (Inv-revoked (revoked now rotated k.token) (some l) s.revoke_binding
          s.logout_cookie_uncleared s h)
        h)

pub Inv-logout_goes_on :
    (now : ℕ) (k : Logout) (rotated : Option Token) (s : Auth)
    → Inv s
    → Inv (logout_goes_on now k rotated s).0
unfolding logout_goes_on
Inv-logout_goes_on now k rotated s h =
    if-keeps (λ (r : Auth × Turn). Inv r.0)
      (k.revoke && k.waits && not (is_some rotated) && is_some k.reserved) h
      (if-keeps (λ (r : Auth × Turn). Inv r.0)
        (k.revoke && k.waits && k.needs_refresh && not (is_some rotated)) h
        (if-keeps (λ (r : Auth × Turn). Inv r.0) (is_other rotated k.token) h
          (if-keeps (λ (r : Auth × Turn). Inv r.0) (not k.revoke) h
            (Inv-to_lock now k rotated (revoke_selector rotated k.selector) s h))))

pub Inv-written :
    (p : Option Raw) (b : Option Binding) (t : Option Token) (l : Option Selector) (s : Auth)
    → Inv s
    → Inv (record s { pending = p; revoke_binding = b; revoke_token = t; browser_selector = l })
Inv-written p b t l s h = record { bound = h.bound; waits = h.waits; in_lock = h.in_lock }

pub Inv-post_with :
    (k : Logout) (owned : Binding) (token : Token) (l : Selector) (next : Option Selector)
    (p : PendingLogout) (s : Auth)
    → Inv s
    → Inv (post_with k owned token l next p s).0
unfolding post_with
Inv-post_with k owned token l none p s h = h
Inv-post_with k owned token l (some next) p s h =
    if-keeps (λ (r : Auth × Step). Inv r.0)
      (not (text_eq next.browser_id l.browser_id)
        || not (is_subject (subject_of token) owned.subject)
        || (is_there s.intended && not (same_binding (parse_binding s.intended) (some owned)))
        || not (same_pending (parse_pending_logout s.pending) (some p)))
      h
      (Inv-remove_owned (some owned) (written_with k token next (pending_with owned next p) s) (
        Inv-written (some (pending_json (pending_with owned next p)))
          (some (bind owned.subject next))
          (if k.generation == s.generation then some token else s.revoke_token)
          (if k.generation == s.generation then some next else s.browser_selector) s h))

pub Inv-send_logout :
    (k : Logout) (owned : Binding) (refreshed : Bool) (current : Option Token) (l : Selector)
    (p : PendingLogout) (s : Auth)
    → Inv s
    → Inv (send_logout k owned refreshed current l p s).0
Inv-send_logout k owned refreshed none l p s h = h
Inv-send_logout k owned refreshed (some token) l p s h =
    if-keeps (λ (r : Auth × Step). Inv r.0) (k.needs_refresh && not refreshed) h
      (Inv-post_with k owned token l (selector_of token) p s h)

pub Inv-locked_with :
    (k : Logout) (o : Option Binding) (receipt : Text) (refreshed : Bool) (current : Option Token)
    (l : Selector) (s : Auth)
    → Inv s
    → Inv (locked_with k o receipt refreshed current l s).0
Inv-locked_with k none receipt refreshed current l s h = h
Inv-locked_with k (some owned) receipt refreshed current l s h =
    let p : PendingLogout = record {
      binding = bind owned.subject l;
      receipt = receipt_of k.reserved receipt;
    } in
    if-keeps (λ (r : Auth × Step). Inv r.0) (not s.reads || not s.writes || is_changed k owned s) h
      (Inv-send_logout k owned refreshed current l p
        (record s { pending = some (pending_json p); revoke_binding = some p.binding })
        (Inv-written (some (pending_json p)) (some p.binding) s.revoke_token s.browser_selector s
          h))

pub Inv-logout_locked :
    (k : Logout) (receipt : Text) (refreshed : Bool) (current : Option Token) (l : Selector)
    (s : Auth)
    → Inv s
    → Inv (logout_locked k receipt refreshed current l s).0
unfolding logout_locked
Inv-logout_locked k receipt refreshed current l s h =
    Inv-locked_with k k.owned receipt refreshed current l s h

pub Inv-logout_answered :
    (k : Logout) (p : PendingLogout) (s : Auth) → Inv s → Inv (logout_answered k p s).0
unfolding logout_answered
Inv-logout_answered k p s h =
    let c = clear_pending_logout p s in
    let t = Inv-clear_pending p s h in
    if-keeps (λ (r : Auth × Bool). Inv r.0) (not c.1) t
      (if-keeps Inv (k.generation == c.0.generation)
        (Inv-revoked none none none c.0.logout_cookie_uncleared c.0 t) t)

pub Inv-logout_refused : (k : Logout) (b : Bool) (s : Auth) → Inv s → Inv (logout_refused k b s)
unfolding logout_refused
Inv-logout_refused k b s h =
    if-keeps Inv (b && k.generation == s.generation)
      (Inv-revoked none s.browser_selector s.revoke_binding true s h) h
