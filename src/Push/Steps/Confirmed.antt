-- ===== src/Push/Steps/Confirmed.antt =====
-- What `enrolled` of pwa/push-enrollment.service.ts tells of what has happened.
use zwei.Common.{
  ℕ, ◌≡◌, Bool, true, false, none, some, List, [], ◌∷◌, arith, ◌⊎◌, inl, inr, refl, ◌∙◌, Bool-cases,
}
use zwei.Push.{
  Enrollment, Identity, Subscription, Reconciliation, initial, observe_subscription, destroy,
  unsubscribe_local, reconcile, is_current, reconcile_found, reconcile_verified, same_identity,
}
use zwei.Push.Enroll.{
  enroll, is_current_operation, subscribed, enroll_saving, enroll_saved, disable, disable_waited,
  disable_removed,
}
use zwei.Push.Steps.{
  Action, observes, destroys, logs_out, reconciles, enrolls, disables, finds, verifies, subscribes,
  saves, saved, waited, removed, perform,
}

-- The state after these actions, newest first.
abbrev pub after : List Action → Enrollment
after [] = initial
after (a ∷ r) = perform a (after r)

-- The server has saved the subscription or has confirmed it, in the session and the operation that
-- are current, and with no later reconciliation and no change of the subscription meanwhile.
abbrev pub Confirms : Identity → Action → Enrollment → Type 0
Confirms i (verifies session k v answer) s =
    (v.wire ≡ i)
    × (answer ≡ true)
    × (session ≡ true)
    × (k.operation ≡ s.operation_version)
    × (k.reconciliation ≡ s.reconciliation_version)
    × (k.subscription ≡ s.subscription_version)
Confirms i (saved session o v) s = (v.wire ≡ i) × (session ≡ true) × (o ≡ s.operation_version)
Confirms i _ s = true ≡ false

-- What takes the enrollment of that subscription back did not happen: the user did not log out, the
-- browser did not report another subscription or, later than at first, none, and neither a
-- reconciliation nor a removal that is current got that far.
abbrev pub Keeps : Identity → Action → Enrollment → Type 0
Keeps i logs_out s = true ≡ false
Keeps i (observes none) s = s.initial_subscription_resolved ≡ false
Keeps i (observes (some v)) s = same_identity v.wire i ≡ true
Keeps i (finds session k v) s = is_current session k s ≡ false
Keeps i (verifies session k v answer) s = is_current session k s ≡ false
Keeps i (waited session o) s = is_current_operation session o s ≡ false
Keeps i _ s = Unit

abbrev pub IsConfirmed : Identity → List Action → Type 0
IsConfirmed i [] = true ≡ false
IsConfirmed i (a ∷ r) = Confirms i a (after r) ⊎ (Keeps i a (after r) × IsConfirmed i r)

-- What an action leaves enrolled it has confirmed, or it was enrolled before and is kept.
abbrev IsStep : Action → Enrollment → Type 0
IsStep a s =
    ((i : Identity) × ((perform a s).verified_subscription ≡ some i) × Confirms i a s)
    ⊎ ((s.enrolled ≡ true)
        × ((perform a s).verified_subscription ≡ s.verified_subscription)
        × ((i : Identity) → s.verified_subscription ≡ some i → Keeps i a s))

is_current-fits :
    (session : Bool) (k : Reconciliation) (s : Enrollment)
    → is_current session k s ≡ true
    → (session ≡ true)
      × (k.operation ≡ s.operation_version)
      × (k.reconciliation ≡ s.reconciliation_version)
      × (k.subscription ≡ s.subscription_version)
unfolding is_current
is_current-fits session k s h = ground arith

is_current_operation-fits :
    (session : Bool) (o : ℕ) (s : Enrollment)
    → is_current_operation session o s ≡ true
    → (session ≡ true) × (o ≡ s.operation_version)
unfolding is_current_operation
is_current_operation-fits session o s h = ground arith

IsStep-verifies :
    (b : Bool) (k : Reconciliation) (v : Subscription) (answer : Bool) (s : Enrollment)
    → (reconcile_verified b k v answer s).enrolled ≡ true
    → IsStep (verifies b k v answer) s
unfolding perform reconcile_verified
IsStep-verifies b k v answer s e = elim (Bool-cases (is_current b k s)) [
  | inl now ↦
      let yes : answer ≡ true = ground (arith, e, now) in
      let (live, op, rec, sub) = is_current-fits b k s now in
      inl (v.wire, rw (now, yes) refl, (refl, yes, live, op, rec, sub))
  | inr late ↦ inr (ground (arith, e, late), ground (arith, late), λ i _. late)
]

IsStep-saved :
    (b : Bool) (o : ℕ) (v : Subscription) (s : Enrollment)
    → (enroll_saved b o v s).enrolled ≡ true
    → IsStep (saved b o v) s
unfolding perform enroll_saved
IsStep-saved b o v s e = elim (Bool-cases (is_current_operation b o s)) [
  | inl now ↦
      let (live, op) = is_current_operation-fits b o s now in
      inl (v.wire, rw now refl, (refl, live, op))
  | inr late ↦ inr (ground (arith, e, late), ground (arith, late), λ i _. tt)
]

perform-IsStep : (a : Action) (s : Enrollment) → (perform a s).enrolled ≡ true → IsStep a s
unfolding perform observe_subscription destroy unsubscribe_local reconcile reconcile_found enroll
    subscribed enroll_saving disable disable_waited disable_removed
perform-IsStep (observes none) s e = inr (ground arith, ground arith, λ i h. ground arith)
perform-IsStep (observes (some v)) s e = inr (ground arith, ground arith, λ i h. ground arith)
perform-IsStep destroys s e = inr (e, refl, λ i h. tt)
perform-IsStep logs_out s e = absurd (ground arith)
perform-IsStep reconciles s e = inr (e, refl, λ i h. tt)
perform-IsStep enrolls s e = inr (e, refl, λ i h. tt)
perform-IsStep disables s e = inr (e, refl, λ i h. tt)
perform-IsStep (finds b k none) s e = inr (ground arith, ground arith, λ i h. ground arith)
perform-IsStep (finds b k (some v)) s e = inr (ground arith, ground arith, λ i h. ground arith)
perform-IsStep (verifies b k v a) s e = IsStep-verifies b k v a s e
perform-IsStep (subscribes o l v) s e = inr (ground arith, ground arith, λ i h. tt)
perform-IsStep (saves b o k v) s e = inr (ground arith, ground arith, λ i h. tt)
perform-IsStep (saved b o v) s e = IsStep-saved b o v s e
perform-IsStep (waited b o) s e = inr (ground arith, ground arith, λ i h. ground arith)
perform-IsStep (removed b o v) s e = inr (ground arith, ground arith, λ i h. tt)

-- Whatever happens, newest first, a browser that is enrolled has a verified subscription: the server
-- has saved it, or has confirmed it, in the session and the operation that were current then, and
-- since then the user has not logged out, the browser has reported no other subscription, nor, later
-- than at first, that there is none, and no current reconciliation or removal has taken it back.
pub enrolled_is_verified :
    (actions : List Action)
    → (after actions).enrolled ≡ true
    → (i : Identity) × ((after actions).verified_subscription ≡ some i) × IsConfirmed i actions
enrolled_is_verified [] e = absurd (cc e)
enrolled_is_verified (a ∷ r) e = elim (perform-IsStep a (after r) e) [
  | inl (i, verified, confirmed) ↦ (i, verified, inl confirmed)
  | inr (before, same, keeps) ↦
      let (i, verified, confirmed) = enrolled_is_verified r before in
      (i, same ∙ verified, inr (keeps i verified, confirmed))
]
