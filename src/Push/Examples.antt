-- ===== src/Push/Examples.antt =====
-- A run of the enrollment of pwa/push-enrollment.service.ts.
use zwei.Common.{◌≡◌, refl, true, none, some, List, [], ◌∷◌, arith}
use zwei.Js.Text.{codes}
use zwei.Push.{
  Identity, observe_subscription, same_identity, Subscription, initial, unsubscribe_local,
  same_bytes,
}
use zwei.Push.Enroll.{enroll, subscribed, enroll_saving, enroll_saved, is_current_operation}
use zwei.Push.Steps.{
  Action, enrolls, subscribes, saves, saved, perform, run, observes, logged_out_is_final,
}
use zwei.Push.Steps.Confirmed.{IsConfirmed, after, enrolled_is_verified}

abbrev subscription : Subscription
subscription = record {
  wire = record {
    endpoint = some (codes "https://push");
    expiration_time = none;
    p256dh = some (codes "p");
    auth = some (codes "a");
  };
  application_server_key = some (4 ∷ 7 ∷ []);
}

-- An enrollment, newest first; then the browser reports what was saved.
abbrev reported : List Action
reported =
    observes (some subscription)
    ∷ saved true 1 subscription
    ∷ saves true 1 (4 ∷ 7 ∷ []) subscription
    ∷ subscribes 1 0 subscription
    ∷ enrolls
    ∷ []

reported_enrolled : (after reported).enrolled ≡ true
unfolding perform enroll subscribed enroll_saving enroll_saved is_current_operation same_bytes
    observe_subscription same_identity
reported_enrolled = refl

enrolled_is_verified_example :
    (i : Identity) × ((after reported).verified_subscription ≡ some i) × IsConfirmed i reported
enrolled_is_verified_example = enrolled_is_verified reported reported_enrolled

logged_out_is_final_example :
    perform (saved true 0 subscription) (run (enrolls ∷ []) (unsubscribe_local initial))
    ≡ run (enrolls ∷ []) (unsubscribe_local initial)
logged_out_is_final_example =
    logged_out_is_final initial (enrolls ∷ []) (saved true 0 subscription) (omega arith)
