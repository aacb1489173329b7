-- ===== src/Session/Examples.antt =====
-- Runs of the session of auth/auth.service.ts.
use zwei.Common.{◌≡◌, refl, true, false, none, some, Option, inl, inr}
use zwei.Js.Text.{Text, codes}
use zwei.Js.Value.{obj, field, no_fields, str}
use zwei.Session.Stored.{
  Token, Binding, PendingLogout, parse_binding, parse_pending_logout, is_receipt, same_binding,
  same_pending, subject_of, selector_of, binding_json, bind, selects,
}
use zwei.Session.{
  Auth, initial, login, accept_token, pending_logout, read_binding, put_token, handle_token,
  accept_as,
}
use zwei.Session.Logout.{
  Logout, posts, posts_retry, done, logout_locked, retry_pending_logout, retry_answered, post_with,
  is_changed, remove_owned_binding,
}
use zwei.Session.Restore.{
  restored, http_error, restore, restore_bound, refresh_locked, refresh_answered, refresh_result,
  settle, receive_all, receive, rebind,
}
use zwei.Session.Steps.{
  Reach, starts, then_does, accepts, answered, locked, restores, stores, logs_in, perform,
}
use zwei.Session.Steps.Owned.{Bound}
use zwei.Session.Steps.Owned.Reached.{Reach-Bound}
use zwei.Session.Retry.{IsWhole, lost_answer_is_retried}

abbrev token : Token
token = record {
  token_type = codes "Bearer";
  claims = some (obj (field (codes "sub") (str (codes "ann")) no_fields));
  expires_in = 60;
  browser_id = str (codes "b");
  generation = str (codes "g1");
}

-- A browser with an empty storage in which Ann signs in.
abbrev signed_in : Auth
signed_in = perform (accepts 1000 token) (initial none none)

abbrev bob_token : Token
bob_token = record token {
  claims = some (obj (field (codes "sub") (str (codes "bob")) no_fields));
  generation = str (codes "g2");
}

abbrev bob : Binding
bob = bind (codes "bob") (record { browser_id = codes "b"; generation = codes "g3" })

-- Her token runs out, and the server refuses to renew it. In another tab Bob signs in, and this tab
-- asks for a renewal before it hears of that.
abbrev denied : Auth
denied =
    perform (answered 100000 (http_error 401))
      (perform (locked 100000) (perform (restores 100000) signed_in))

abbrev asking : Auth
asking =
    perform (locked 100001)
      (perform (restores 100001) (perform (stores (some (binding_json bob)) none true true) denied))

abbrev renewed : Auth
renewed = perform (answered 100002 (restored bob_token)) asking

denied-Reach : Reach denied
unfolding perform accept_token accept_as handle_token put_token pending_logout read_binding
    parse_binding selector_of subject_of restore restore_bound refresh_locked same_binding
denied-Reach =
    then_does (answered 100000 (http_error 401))
      (then_does (locked 100000)
        (then_does (restores 100000) (then_does (accepts 1000 token) (starts none none) refl)
          (inl refl))
        refl)
      refl

renewed-Reach : Reach renewed
unfolding perform accept_token accept_as handle_token put_token pending_logout read_binding
    parse_binding selector_of subject_of restore restore_bound refresh_locked same_binding
    refresh_answered refresh_result settle receive_all receive
renewed-Reach =
    then_does (answered 100002 (restored bob_token))
      (then_does (locked 100001)
        (then_does (restores 100001)
          (then_does (stores (some (binding_json bob)) none true true) denied-Reach (λ e. cc))
          (inr (inr tt)))
        refl)
      refl

Reach-Bound_example : Bound renewed.token renewed.owned_binding
Reach-Bound_example = Reach-Bound renewed-Reach

abbrev subject_of_owned : Option Binding → Option Text
subject_of_owned none = none
subject_of_owned (some b) = some b.subject

renewed_subject : subject_of_owned renewed.owned_binding ≡ some (codes "bob")
unfolding perform accept_token accept_as handle_token put_token pending_logout read_binding
    parse_binding selector_of subject_of restore restore_bound refresh_locked same_binding
    refresh_answered refresh_result settle receive_all receive rebind
renewed_subject = refl

-- A sign in begins while that renewal is on its way, and the tab asks for a renewal once more, all
-- before it hears of the storage: Bob's token comes beside Ann's binding.
abbrev joined_late : Auth
joined_late =
    perform (answered 100003 (restored bob_token))
      (perform (restores 100002) (perform logs_in asking))

abbrev subject_at_hand : Option Token → Option Text
subject_at_hand none = none
subject_at_hand (some t) = subject_of t

joins_older_renewal :
    (subject_at_hand joined_late.token ≡ some (codes "bob"))
    × (subject_of_owned joined_late.owned_binding ≡ some (codes "ann"))
unfolding perform accept_token accept_as handle_token put_token pending_logout read_binding
    parse_binding selector_of subject_of restore restore_bound refresh_locked same_binding
    refresh_answered refresh_result settle receive_all receive rebind login
joins_older_renewal = (refl, refl)

signed_in_subject :
    (read_binding signed_in)
    ≡ some (bind (codes "ann") (record { browser_id = codes "b"; generation = codes "g1" }))
unfolding perform accept_token accept_as handle_token put_token pending_logout read_binding
    parse_binding selector_of subject_of
signed_in_subject = refl

abbrev owned : Binding
owned = bind (codes "ann") (record { browser_id = codes "b"; generation = codes "g1" })

abbrev receipt : Text
receipt = codes "AAAAAAAAAAAAAAAAAAAAAAAAAAAAAAAAAAAAAAAAAAA"

-- She signs out, and the request is sent under the lock.
abbrev leaving : Logout
leaving = record {
  revoke = true;
  token = some token;
  selector = some (selects owned);
  needs_refresh = false;
  waits = false;
  owned = some owned;
  reserved = none;
  generation = 2;
}

abbrev sent : PendingLogout
sent = record { binding = owned; receipt = receipt }

abbrev stored : Auth
stored = record (initial (some (binding_json owned)) none) { generation = 2 }

posts_sent :
    (logout_locked leaving receipt false (some token) (selects owned) stored).1 ≡ posts sent
unfolding logout_locked post_with is_changed remove_owned_binding parse_binding parse_pending_logout
    same_binding same_pending is_receipt subject_of selector_of
posts_sent = refl

sent-IsWhole : IsWhole sent
unfolding is_receipt
sent-IsWhole = record { subject = refl; browser_id = refl; generation = refl; receipt = refl }

lost_answer_is_retried_example :
    (retry_pending_logout
        (logout_locked leaving receipt false (some token) (selects owned) stored).0
      ≡ posts_retry sent)
    × ((retry_answered sent
          (logout_locked leaving receipt false (some token) (selects owned) stored).0).1
        ≡ done)
    × (pending_logout
          (retry_answered sent
            (logout_locked leaving receipt false (some token) (selects owned) stored).0).0
        ≡ false)
    × (read_binding
          (retry_answered sent
            (logout_locked leaving receipt false (some token) (selects owned) stored).0).0
        ≡ none)
lost_answer_is_retried_example =
    lost_answer_is_retried leaving receipt false (some token) (selects owned) stored sent posts_sent
      sent-IsWhole
