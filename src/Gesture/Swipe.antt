-- ===== src/Gesture/Swipe.antt =====
-- `SwipeBackDirective` of shared/swipe-back.directive.ts.
use zwei.Common.{
  ℕ, ◌+◌, ◌-◌, ◌*◌, ◌≤◌, ◌≡◌, refl, Bool, true, false, not, ◌&&◌, ◌||◌, Option, none, some, List,
  [], ◌∷◌, ltb, leb, ◌==◌, if◌then◌else◌, arith,
}
use zwei.Gesture.{Touch, distance, only, is_nil}

pub record Start : Type 0 where
  pub id : ℕ
  pub x : ℕ
  pub y : ℕ
  pub time : ℕ

-- The gesture under way, with its listeners and its timer, and the number of times that `swipeBack`
-- was emitted.
pub record Swipe : Type 0 where
  pub start : Option Start
  pub emitted : ℕ

-- `clearGesture`.
abbrev clear_gesture : Swipe → Swipe
clear_gesture s = record s { start = none }

-- `onStart`; `allowed` is that the directive is available, and the target begins a gesture.
unfoldable pub on_start : Bool → ℕ → List Touch → Swipe → Swipe
on_start allowed now touches s = elim (only touches) [
  | none ↦ clear_gesture s
  | some t ↦
      if not allowed || ltb t.client_x 16 || ltb 40 t.client_x then clear_gesture s else record s {
        start = some (record { id = t.identifier; x = t.client_x; y = t.client_y; time = now });
      }
]

-- The test of `onMove` that ends the gesture: `dx < -10 || (dy > 12 && dy > Math.max(0, dx))`.
abbrev strays : Start → Touch → Bool
strays b t =
    ltb (t.client_x + 10) b.x
    || (ltb 12 (distance t.client_y b.y) && ltb (t.client_x - b.x) (distance t.client_y b.y))

abbrev moved : Bool → Option Touch → Start → Swipe → Swipe
moved available none b s = clear_gesture s
moved available (some t) b s =
    if not (t.identifier == b.id) || not available || strays b t then clear_gesture s else s

-- `onMove`.
unfoldable pub on_move : Bool → List Touch → Swipe → Swipe
on_move available touches s = elim s.start [
  | none ↦ s
  | some b ↦ moved available (only touches) b s
]

-- `observeTouches`.
abbrev held : Option Touch → Start → Bool
held none b = false
held (some t) b = t.identifier == b.id

unfoldable pub observe_touches : List Touch → Swipe → Swipe
observe_touches touches s = elim s.start [
  | none ↦ s
  | some b ↦ if held (only touches) b then s else clear_gesture s
]

-- The test of `onEnd`.
abbrev pub is_swipe : ℕ → Start → Touch → Bool
is_swipe now b t =
    (t.identifier == b.id)
    && leb (b.x + 80) t.client_x
    && leb (distance t.client_y b.y) 40
    && leb (distance t.client_y b.y * 2) (t.client_x - b.x)
    && leb (now - b.time) 1000

abbrev ended : Bool → ℕ → Bool → Option Touch → Option Start → Bool
ended available now lifted none b = false
ended available now lifted (some t) none = false
ended available now lifted (some t) (some b) = available && lifted && is_swipe now b t

-- `onEnd`.
unfoldable pub on_end : Bool → ℕ → List Touch → List Touch → Swipe → Swipe
on_end available now touches changed s =
    if ended available now (is_nil touches) (only changed) s.start
    then record s { start = none; emitted = s.emitted + 1 }
    else clear_gesture s

-- What may happen to the directive. It is cleared by a timer, by `observeEnd`, `onCancel` and
-- `ngOnDestroy`.
pub data Action : Type 0 where
  starts : Bool → ℕ → List Touch → Action
  moves : Bool → List Touch → Action
  observes : List Touch → Action
  ends : Bool → ℕ → List Touch → List Touch → Action
  clears : Action

unfoldable pub perform : Action → Swipe → Swipe
perform (starts a n ts) s = on_start a n ts s
perform (moves a ts) s = on_move a ts s
perform (observes ts) s = observe_touches ts s
perform (ends a n ts cs) s = on_end a n ts cs s
perform clears s = clear_gesture s

abbrev pub run : List Action → Swipe
run [] = record { start = none; emitted = 0 }
run (a ∷ r) = perform a (run r)

-- A gesture under way began beside the edge of the viewport.
abbrev IsInStrip : Option Start → Type 0
IsInStrip none = Unit
IsInStrip (some b) = (16 ≤ b.x) × (b.x ≤ 40)

perform-IsInStrip : (a : Action) (s : Swipe) → IsInStrip s.start → IsInStrip (perform a s).start
unfolding perform on_start on_move observe_touches on_end
perform-IsInStrip (starts a n ts) s h = ground arith
perform-IsInStrip (moves a ts) s h = ground arith
perform-IsInStrip (observes ts) s h = ground arith
perform-IsInStrip (ends a n ts cs) s h = ground arith
perform-IsInStrip clears s h = ground arith

run-IsInStrip : (actions : List Action) → IsInStrip (run actions).start
run-IsInStrip [] = tt
run-IsInStrip (a ∷ r) = perform-IsInStrip a (run r) (run-IsInStrip r)

-- The end of a touch that began at most 40 and at least 16 pixels from the edge, a second before at
-- most, went 80 pixels or more to the right, and 40 or less up or down.
abbrev pub IsBack : Action → Option Start → Type 0
IsBack (ends a n ts (t ∷ [])) (some b) =
    (a ≡ true)
    × (t.identifier ≡ b.id)
    × (16 ≤ b.x)
    × (b.x ≤ 40)
    × (b.x + 80 ≤ t.client_x)
    × (distance t.client_y b.y ≤ 40)
    × (n ≤ b.time + 1000)
IsBack _ _ = true ≡ false

same_start :
    (a : Bool) (n : ℕ) (ts : List Touch) (s : Swipe) → (on_start a n ts s).emitted ≡ s.emitted
unfolding on_start
same_start a n ts s = ground arith

same_move : (a : Bool) (ts : List Touch) (s : Swipe) → (on_move a ts s).emitted ≡ s.emitted
unfolding on_move
same_move a ts s = ground arith

same_observe : (ts : List Touch) (s : Swipe) → (observe_touches ts s).emitted ≡ s.emitted
unfolding observe_touches
same_observe ts s = ground arith

end_emits :
    (a : Bool) (n : ℕ) (ts cs : List Touch) (o : Option Start) (k : ℕ)
    → IsInStrip o
    → ¬ ((on_end a n ts cs (record { start = o; emitted = k })).emitted ≡ k)
    → IsBack (ends a n ts cs) o
unfolding on_end
end_emits a n ts [] o k h e = absurd (e refl)
end_emits a n ts (t ∷ u ∷ cs) o k h e = absurd (e refl)
end_emits a n ts (t ∷ []) none k h e = absurd (e refl)
end_emits a n ts (t ∷ []) (some b) k h e = ground arith

-- Whatever the touches were, newest first, `swipeBack` is emitted only at the end of such a touch.
pub emits_at_end :
    (a : Action) (actions : List Action)
    → ¬ ((run (a ∷ actions)).emitted ≡ (run actions).emitted)
    → IsBack a (run actions).start
unfolding perform
emits_at_end (starts a n ts) r e = absurd (e (same_start a n ts (run r)))
emits_at_end (moves a ts) r e = absurd (e (same_move a ts (run r)))
emits_at_end (observes ts) r e = absurd (e (same_observe ts (run r)))
emits_at_end (ends a n ts cs) r e =
    end_emits a n ts cs (run r).start (run r).emitted (run-IsInStrip r) e
emits_at_end clears r e = absurd (e refl)
