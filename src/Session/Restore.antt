-- ===== src/Session/Restore.antt =====
-- `restore` of auth/auth.service.ts, as its callers use it, without a revocation token: one refresh of the
-- cookie is in flight at a time, and all who call meanwhile wait for it.
use zwei.Common.{
  ℕ, Bool, true, false, not, ◌&&◌, ◌||◌, Option, none, some, List, [], ◌∷◌, ltb, ◌==◌,
  if◌then◌else◌, is_some,
}
use zwei.Js.Text.{Text, text_eq}
use zwei.Session.Stored.{
  Token, Binding, Selector, parse_binding, same_binding, subject_of, selector_of, bind, selects,
  binding_json,
}
use zwei.Session.{
  Auth, Refresh, lock_unavailable, temporarily_unavailable, read_binding, pending_logout,
  invalidate_local_session, put_token, handle_token,
}

-- What `restore` returns: a token or null at once, or what the refresh will bring.
pub data Answer : Type 0 where
  gives : Option Token → Answer
  waits : Answer

abbrev pub is_subject : Option Text → Text → Bool
is_subject none subject = false
is_subject (some s) subject = text_eq s subject

abbrev pub is_live : ℕ → Option Token → Bool
is_live now none = false
is_live now (some t) = ltb now t.expires_in

-- A token of another subject than the binding's.
abbrev pub is_foreign : Option Token → Binding → Bool
is_foreign none b = false
is_foreign (some t) b = not (is_subject (subject_of t) b.subject)

abbrev pub or_binding : Option Binding → Binding → Binding
or_binding none b = b
or_binding (some a) b = a

abbrev pub or_selector : Option Selector → Selector → Selector
or_selector none b = b
or_selector (some a) b = a

-- The refresh that is in flight, or a new one; the caller waits for it.
abbrev pub joined : Option Refresh → ℕ → Binding → Selector → Refresh
joined none generation binding selector = record {
  started = generation;
  binding = binding;
  selector = selector;
  requested = none;
  waiting = generation ∷ [];
}
joined (some r) generation binding selector = record r { waiting = generation ∷ r.waiting }

-- `restore` from the stored binding on.
unfoldable pub restore_bound : Binding → Auth → Auth × Answer
restore_bound binding s = if is_foreign s.token binding then (s, gives none) else (
  record s {
    owned_binding = some (or_binding s.owned_binding binding);
    refresh =
        some (
          joined s.refresh s.generation binding (or_selector s.browser_selector (selects binding)));
  },
  waits,
)

abbrev pub restore_stored : Option Binding → Auth → Auth × Answer
restore_stored none s = (s, gives none)
restore_stored (some binding) s = restore_bound binding s

-- `restore`.
unfoldable pub restore : ℕ → Auth → Auth × Answer
restore now s =
    if pending_logout s
    then (invalidate_local_session s, gives none)
    else if is_some s.token && not (same_binding (read_binding s) s.owned_binding)
    then (invalidate_local_session s, gives none)
    else if is_live now s.token
    then (s, gives s.token)
    else if not s.reads
    then (invalidate_local_session s, gives none)
    else restore_stored (parse_binding s.intended) s

-- Two tokens of one subject.
abbrev pub same_subject : Token → Token → Bool
same_subject a b = elim (subject_of a) [ none ↦ false | some x ↦ is_subject (subject_of b) x ]

-- One caller receives what the refresh brought; `same` tells whether the token at hand is this very
-- object.
abbrev pub receive_with : ℕ → Bool → Token → Option Token → Auth → Auth
receive_with now same restored none s = handle_token now restored s
receive_with now same restored (some t) s =
    if not (same_subject t restored)
    then put_token none s
    else if same
    then s
    else handle_token now restored s

unfoldable pub receive : ℕ → Bool → Option Token → Auth → Auth
receive now same none s = s
receive now same (some restored) s = receive_with now same restored s.token s

-- All who wait receive it, those of an older generation in vain.
unfoldable pub receive_all : ℕ → Bool → Option Token → List ℕ → Auth → Auth
receive_all now same restored [] s = s
receive_all now same restored (w ∷ rest) s =
    receive_all now (same || w == s.generation) restored rest
      (if w == s.generation then receive now same restored s else s)

-- The refresh is over.
unfoldable pub settle : ℕ → Option Token → Refresh → Auth → Auth
settle now restored r s = record (receive_all now false restored r.waiting s) {
  refresh = none;
  refresh_owns_lock = false;
}

abbrev pub is_intended : Option Binding → Binding → Bool
is_intended none b = false
is_intended (some a) b = text_eq a.subject b.subject && text_eq a.browser_id b.browser_id

abbrev pub generation_of : Option Binding → Option Text
generation_of none = none
generation_of (some b) = some b.generation

-- The refresh gets the lock: it asks the server, or ends with null.
abbrev pub locked_with : ℕ → Option Refresh → Auth → Auth
locked_with now none s = s
locked_with now (some r) s =
    if pending_logout s
      || not (is_intended (parse_binding s.intended) r.binding)
      || not (r.started == s.generation)
    then settle now none r s
    else record s {
      refresh = some (record r { requested = generation_of (parse_binding s.intended) });
      refresh_owns_lock = true;
    }

unfoldable pub refresh_locked : ℕ → Auth → Auth
refresh_locked now s = locked_with now s.refresh s

-- What the lock and the server answer.
pub data Outcome : Type 0 where
  restored : Token → Outcome
  lock_error other_error : Outcome
  http_error : ℕ → Outcome

abbrev pub is_requested : Option Text → Option Binding → Bool
is_requested none b = false
is_requested (some g) none = false
is_requested (some g) (some b) = text_eq b.generation g

-- A token of the right browser and subject, in the generation that asked for it or in a later one.
unfoldable pub rebind : Refresh → Token → Selector → Auth → Auth × Option Token
rebind r token next s =
    if not (r.started == s.generation)
    then (s, some token)
    else if not (is_intended (read_binding s) r.binding)
        || not (is_requested r.requested (read_binding s))
    then (s, none)
    else if not s.writes
    then (put_token none s, none)
    else (
      record s {
        intended = some (binding_json (bind r.binding.subject next));
        browser_selector = some next;
        owned_binding = some (bind r.binding.subject next);
      },
      some token,
    )

-- A token of another browser or subject.
abbrev pub reject : Refresh → Auth → Auth × Option Token
reject r s = (if r.started == s.generation then put_token none s else s, none)

abbrev pub rebind_next : Refresh → Token → Option Selector → Auth → Auth × Option Token
rebind_next r token none s = reject r s
rebind_next r token (some next) s =
    if text_eq next.browser_id r.selector.browser_id
      && is_subject (subject_of token) r.binding.subject
    then rebind r token next s
    else reject r s

-- `map` and `catchError` of the refresh.
unfoldable pub refresh_result : Refresh → Outcome → Auth → Auth × Option Token
refresh_result r (restored token) s =
    rebind_next r token (selector_of token) (record s { restore_failure = none })
refresh_result r lock_error s = (record s { restore_failure = some lock_unavailable }, none)
refresh_result r other_error s = (record s { restore_failure = some temporarily_unavailable }, none)
refresh_result r (http_error status) s =
    if not (status == 401)
    then (record s { restore_failure = some temporarily_unavailable }, none)
    else if r.started == s.generation
    then (put_token none (record s { restore_failure = none }), none)
    else (s, none)

-- The refresh ends: its result is kept and goes to all who wait.
abbrev pub settle_result : ℕ → Refresh → Auth × Option Token → Auth
settle_result now r (t, result) = settle now result r t

abbrev pub answered_with : ℕ → Outcome → Option Refresh → Auth → Auth
answered_with now outcome none s = s
answered_with now outcome (some r) s = settle_result now r (refresh_result r outcome s)

unfoldable pub refresh_answered : ℕ → Outcome → Auth → Auth
refresh_answered now outcome s = answered_with now outcome s.refresh s
