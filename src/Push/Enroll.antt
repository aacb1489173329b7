-- ===== src/Push/Enroll.antt =====
-- `enrollFromUserGesture`, `requestSubscription` and `disable` of pwa/push-enrollment.service.ts.
use zwei.Common.{
  ℕ, ◌+◌, Bool, true, false, not, ◌&&◌, ◌||◌, Option, none, some, List, leb, ◌==◌, if◌then◌else◌,
  is_some,
}
use zwei.Js.Text.{Text, is_empty}
use zwei.Push.{Enrollment, Subscription, same_bytes}

-- `enrollFromUserGesture` begins: its version is the new one.
unfoldable pub enroll : Enrollment → Enrollment
enroll s = record s { operation_version = s.operation_version + 1 }

-- `assertCurrentOperation`.
unfoldable pub is_current_operation : Bool → ℕ → Enrollment → Bool
is_current_operation session operation s = (operation == s.operation_version) && session

-- The subscription that is at hand: the browser's, or a late one with the same key.
abbrev with_key : Option Subscription → List ℕ → Option Subscription
with_key none key = none
with_key (some v) key = if same_bytes v.application_server_key key then some v else none

abbrev pub first_of : Option Subscription → Option Subscription → Option Subscription
first_of none b = b
first_of (some v) b = some v

unfoldable pub at_hand : Option Subscription → List ℕ → Enrollment → Option Subscription
at_hand found key s = first_of found (with_key s.late_subscription key)

-- The answer to `requestSubscription`. It is kept although it is late, unless the user has logged out
-- or enrolled again since a disabling.
unfoldable pub subscribed : ℕ → ℕ → Subscription → Enrollment → Enrollment
subscribed operation logout v s =
    if operation == s.operation_version
    then record s { late_subscription = some v }
    else if (logout == s.logout_generation)
        && (leb s.last_disable_version operation || s.operation_version == s.last_disable_version)
    then record s { late_subscription = some v; browser_subscription_present = true }
    else s

abbrev is_filled : Option Text → Bool
is_filled none = false
is_filled (some t) = not (is_empty t)

-- `enrollFromUserGesture` from the subscription to the save; an error leaves the state as it is.
unfoldable pub enroll_saving : Bool → ℕ → List ℕ → Subscription → Enrollment → Enrollment
enroll_saving session operation key v s =
    if is_current_operation session operation s
      && same_bytes v.application_server_key key
      && is_filled v.wire.endpoint
      && is_filled v.wire.p256dh
      && is_filled v.wire.auth
    then record s { browser_subscription_present = true; enrolled = false; unconfirmed = true }
    else s

-- `enrollFromUserGesture` behind the save.
unfoldable pub enroll_saved : Bool → ℕ → Subscription → Enrollment → Enrollment
enroll_saved session operation v s =
    if is_current_operation session operation s
    then record s {
      enrolled = true;
      unconfirmed = false;
      verified_subscription = some v.wire;
      late_subscription = none;
    }
    else s

-- `disable` begins.
unfoldable pub disable : Enrollment → Enrollment
disable s = record s {
  operation_version = s.operation_version + 1;
  last_disable_version = s.operation_version + 1;
}

-- `disableSubscription` behind the pending saves, and behind the removal; `late` is the late
-- subscription that it was given.
unfoldable pub disable_waited : Bool → ℕ → Enrollment → Enrollment
disable_waited session operation s =
    if is_current_operation session operation s
    then record s { enrolled = false; unconfirmed = true; verified_subscription = none }
    else s

unfoldable pub disable_removed : Bool → ℕ → Option Subscription → Enrollment → Enrollment
disable_removed session operation late s =
    if is_current_operation session operation s
    then record s {
      unconfirmed = false;
      browser_subscription_present = s.browser_subscription_present || is_some late;
    }
    else s
