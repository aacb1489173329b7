-- ===== src/Push/Steps.antt =====
-- The enrollment as a state machine: what may happen to `PushEnrollmentService` of
-- pwa/push-enrollment.service.ts, in any order.
pub mod Confirmed
use zwei.Common.{ℕ, ◌<◌, ◌≤◌, ◌≡◌, Bool, true, false, Option, none, some, List, [], ◌∷◌, arith}
use zwei.Push.{
  Enrollment, Subscription, Reconciliation, initial, observe_subscription, destroy,
  unsubscribe_local, reconcile, is_current, reconcile_found, reconcile_verified,
}
use zwei.Push.Enroll.{
  enroll, is_current_operation, subscribed, enroll_saving, enroll_saved, disable, disable_waited,
  disable_removed,
}

-- The Booleans tell whether the session is current, and the numbers are the versions that were kept.
pub data Action : Type 0 where
  observes : Option Subscription → Action
  destroys logs_out reconciles enrolls disables : Action
  finds : Bool → Reconciliation → Option Subscription → Action
  verifies : Bool → Reconciliation → Subscription → Bool → Action
  subscribes : ℕ → ℕ → Subscription → Action
  saves : Bool → ℕ → List ℕ → Subscription → Action
  saved : Bool → ℕ → Subscription → Action
  waited : Bool → ℕ → Action
  removed : Bool → ℕ → Option Subscription → Action

unfoldable pub perform : Action → Enrollment → Enrollment
perform (observes v) s = observe_subscription v s
perform destroys s = destroy s
perform logs_out s = unsubscribe_local s
perform reconciles s = reconcile s
perform enrolls s = enroll s
perform disables s = disable s
perform (finds b k v) s = reconcile_found b k v s
perform (verifies b k v a) s = reconcile_verified b k v a s
perform (subscribes o l v) s = subscribed o l v s
perform (saves b o k v) s = enroll_saving b o k v s
perform (saved b o v) s = enroll_saved b o v s
perform (waited b o) s = disable_waited b o s
perform (removed b o v) s = disable_removed b o v s

abbrev pub run : List Action → Enrollment → Enrollment
run [] s = s
run (a ∷ r) s = run r (perform a s)

-- An asynchronous stretch that kept its versions when they were these at most.
abbrev pub IsOld : ℕ → ℕ → Action → Type 0
IsOld o l (finds b k v) = k.operation ≤ o
IsOld o l (verifies b k v a) = k.operation ≤ o
IsOld o l (subscribes p q v) = (p ≤ o) × (q ≤ l)
IsOld o l (saves b p k v) = p ≤ o
IsOld o l (saved b p v) = p ≤ o
IsOld o l (waited b p) = p ≤ o
IsOld o l (removed b p v) = p ≤ o
IsOld o l _ = true ≡ false

old_action :
    (a : Action) (o l : ℕ) (s : Enrollment)
    → IsOld o l a
    → o < s.operation_version
    → l < s.logout_generation
    → perform a s ≡ s
unfolding perform reconcile_found reconcile_verified is_current subscribed enroll_saving
    enroll_saved disable_waited disable_removed is_current_operation
old_action (observes v) o l s old lo ll = ground arith
old_action destroys o l s old lo ll = ground arith
old_action logs_out o l s old lo ll = ground arith
old_action reconciles o l s old lo ll = ground arith
old_action enrolls o l s old lo ll = ground arith
old_action disables o l s old lo ll = ground arith
old_action (finds b k v) o l s old lo ll = ground arith
old_action (verifies b k v a) o l s old lo ll = ground arith
old_action (subscribes p q v) o l s old lo ll = ground arith
old_action (saves b p k v) o l s old lo ll = ground arith
old_action (saved b p v) o l s old lo ll = ground arith
old_action (waited b p) o l s old lo ll = ground arith
old_action (removed b p v) o l s old lo ll = ground arith

abbrev IsGrown : Enrollment → Enrollment → Type 0
IsGrown s t =
    (s.operation_version ≤ t.operation_version) × (s.logout_generation ≤ t.logout_generation)

perform-IsGrown : (a : Action) (s : Enrollment) → IsGrown s (perform a s)
unfolding perform observe_subscription destroy unsubscribe_local reconcile reconcile_found
    reconcile_verified enroll subscribed enroll_saving enroll_saved disable disable_waited
    disable_removed
perform-IsGrown (observes v) s = ground arith
perform-IsGrown destroys s = ground arith
perform-IsGrown logs_out s = ground arith
perform-IsGrown reconciles s = ground arith
perform-IsGrown enrolls s = ground arith
perform-IsGrown disables s = ground arith
perform-IsGrown (finds b k none) s = ground arith
perform-IsGrown (finds b k (some v)) s = ground arith
perform-IsGrown (verifies b k v a) s = ground arith
perform-IsGrown (subscribes o l v) s = ground arith
perform-IsGrown (saves b o k v) s = ground arith
perform-IsGrown (saved b o v) s = ground arith
perform-IsGrown (waited b o) s = ground arith
perform-IsGrown (removed b o v) s = ground arith

run-IsGrown : (actions : List Action) (s : Enrollment) → IsGrown s (run actions s)
run-IsGrown [] s = (omega arith, omega arith)
run-IsGrown (a ∷ r) s =
    let step = perform-IsGrown a s in
    let rest = run-IsGrown r (perform a s) in (omega (arith, step, rest), omega (arith, step, rest))

-- Once the user has logged out, whatever happens next, no stretch of an operation that began before
-- changes anything, not even a subscription that the browser grants late.
pub logged_out_is_final :
    (s : Enrollment) (actions : List Action) (a : Action)
    → IsOld s.operation_version s.logout_generation a
    → perform a (run actions (unsubscribe_local s)) ≡ run actions (unsubscribe_local s)
unfolding unsubscribe_local
logged_out_is_final s actions a old =
    let grown = run-IsGrown actions (unsubscribe_local s) in
    old_action a s.operation_version s.logout_generation (run actions (unsubscribe_local s)) old
      (omega (arith, grown)) (omega (arith, grown))
