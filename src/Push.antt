-- ===== src/Push.antt =====
-- The enrollment of this browser for push messages: `PushEnrollmentService` of
-- frontend-app/src/app/pwa/push-enrollment.service.ts. An asynchronous method is a function for each
-- stretch between two awaits; it is given the versions that the method has kept.
pub mod Enroll
pub mod Steps
mod Examples
use zwei.Common.{
  ℕ, ◌+◌, ◌≡◌, Bool, true, false, not, ◌&&◌, ◌||◌, Option, none, some, List, [], ◌∷◌, leb, ◌==◌,
  if◌then◌else◌, is_some,
}
use zwei.Js.Text.{Text, text_eq, is_empty}

-- `PushEnrollmentState`.
pub data PushEnrollmentState : Type 0 where
  unsupported denied permission_required not_enrolled unverified enabled : PushEnrollmentState

-- `Notification.permission`.
pub data Permission : Type 0 where
  default granted refused : Permission

-- What `subscriptionIdentity` tells of a subscription.
pub record Identity : Type 0 where
  pub endpoint : Option Text
  pub expiration_time : Option ℕ
  pub p256dh : Option Text
  pub auth : Option Text

-- `PushSubscription`, with the bytes of its key.
pub record Subscription : Type 0 where
  pub wire : Identity
  pub application_server_key : Option (List ℕ)

abbrev option_eq {ℓ} : {A : Type ℓ} → (A → A → Bool) → Option A → Option A → Bool
option_eq eq none none = true
option_eq eq (some a) (some b) = eq a b
option_eq eq none (some b) = false
option_eq eq (some a) none = false

-- `===` on two identities.
unfoldable pub same_identity : Identity → Identity → Bool
same_identity a b =
    option_eq text_eq a.endpoint b.endpoint
    && option_eq (λ m n. m == n) a.expiration_time b.expiration_time
    && option_eq text_eq a.p256dh b.p256dh
    && option_eq text_eq a.auth b.auth

-- `sameBytes`.
unfoldable pub same_bytes : Option (List ℕ) → List ℕ → Bool
same_bytes none expected = false
same_bytes (some bytes) expected = text_eq bytes expected

-- The fields of the service that the methods below read or write.
pub record Enrollment : Type 0 where
  pub enrolled : Bool
  pub unconfirmed : Bool
  pub verified_subscription : Option Identity
  pub browser_subscription_present : Bool
  pub operation_version : ℕ
  pub subscription_version : ℕ
  pub reconciliation_version : ℕ
  pub logout_generation : ℕ
  pub last_disable_version : ℕ
  pub initial_subscription_resolved : Bool
  pub late_subscription : Option Subscription

abbrev pub initial : Enrollment
initial = record {
  enrolled = false;
  unconfirmed = false;
  verified_subscription = none;
  browser_subscription_present = false;
  operation_version = 0;
  subscription_version = 0;
  reconciliation_version = 0;
  logout_generation = 0;
  last_disable_version = 0;
  initial_subscription_resolved = false;
  late_subscription = none;
}

abbrev is_verified : Option Subscription → Option Identity → Bool
is_verified none known = false
is_verified (some v) none = false
is_verified (some v) (some i) = same_identity v.wire i

-- The subscription to `swPush.subscription`.
unfoldable pub observe_subscription : Option Subscription → Enrollment → Enrollment
observe_subscription value s =
    if not s.initial_subscription_resolved && not (is_some value) && s.enrolled
    then record s { initial_subscription_resolved = true }
    else record s {
      initial_subscription_resolved = true;
      subscription_version = s.subscription_version + 1;
      browser_subscription_present = is_some value;
      enrolled = s.enrolled && is_verified value s.verified_subscription;
    }

-- `ngOnDestroy`.
unfoldable pub destroy : Enrollment → Enrollment
destroy s = record s { operation_version = s.operation_version + 1 }

-- `state`, for a browser that supports push messages or not, and its permission.
unfoldable pub state : Bool → Permission → Enrollment → PushEnrollmentState
state supported refused s = if supported then denied else unsupported
state supported default s = if supported then permission_required else unsupported
state supported granted s =
    if not supported
    then unsupported
    else if s.enrolled
    then enabled
    else if s.browser_subscription_present || s.unconfirmed
    then unverified
    else not_enrolled

-- `unsubscribeLocal`, when the session changes.
unfoldable pub unsubscribe_local : Enrollment → Enrollment
unsubscribe_local s = record s {
  operation_version = s.operation_version + 1;
  logout_generation = s.logout_generation + 1;
  late_subscription = none;
  enrolled = false;
  unconfirmed = false;
  verified_subscription = none;
  browser_subscription_present = false;
}

-- The versions that `reconcile` keeps, and its beginning.
pub record Reconciliation : Type 0 where
  pub operation : ℕ
  pub reconciliation : ℕ
  pub subscription : ℕ

unfoldable pub reconcile : Enrollment → Enrollment
reconcile s = record s { reconciliation_version = s.reconciliation_version + 1 }

-- `current`, for a session that is current or not.
unfoldable pub is_current : Bool → Reconciliation → Enrollment → Bool
is_current session kept s =
    (kept.operation == s.operation_version)
    && (kept.reconciliation == s.reconciliation_version)
    && session
    && (kept.subscription == s.subscription_version)

-- `reconcile` behind `getSubscription`.
unfoldable pub reconcile_found :
    Bool → Reconciliation → Option Subscription → Enrollment → Enrollment
reconcile_found session kept found s = if not (is_current session kept s) then s else elim found [
  | none ↦ record s {
    enrolled = false;
    verified_subscription = none;
    browser_subscription_present = false;
  }
  | some v ↦ record s { browser_subscription_present = true; enrolled = false }
]

-- `reconcile` behind the server's answer.
unfoldable pub reconcile_verified :
    Bool → Reconciliation → Subscription → Bool → Enrollment → Enrollment
reconcile_verified session kept v answer s =
    if is_current session kept s
    then record s {
      enrolled = answer;
      verified_subscription = if answer then some v.wire else none;
    }
    else s
