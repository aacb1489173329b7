-- ===== src/Gesture/Pull.antt =====
-- `PullToRefreshDirective` of shared/pull-to-refresh.directive.ts.
use zwei.Common.{
  ℕ, ◌+◌, ◌-◌, ◌*◌, ◌≤◌, ◌↔◌, ◌∙◌, Option-cases, Bool-cases, ap, sym, inl, inr, ◌≡◌, refl, Bool,
  true, false, not, ◌&&◌, Option, none, some, List, [], ◌∷◌, ltb, leb, ◌==◌, if◌then◌else◌, arith,
}
use zwei.Gesture.{Touch, distance, only, is_nil}

pub record Origin : Type 0 where
  pub id : ℕ
  pub x : ℕ
  pub y : ℕ

-- The gesture under way, with its timer, and the number of times that `pullToRefresh` was emitted.
pub record Pull : Type 0 where
  pub origin : Option Origin
  pub refreshes : ℕ

-- `clear`.
abbrev clear_pull : Pull → Pull
clear_pull s = record s { origin = none }

abbrev origin_at : Touch → Origin
origin_at t = record { id = t.identifier; x = t.client_x; y = t.client_y }

-- `onStart`; `allowed` is that the directive is available, and the target begins a gesture.
unfoldable pub pull_starts : Bool → List Touch → Pull → Pull
pull_starts allowed touches s = elim (only touches) [
  | none ↦ clear_pull s
  | some t ↦ if allowed then record s { origin = some (origin_at t) } else clear_pull s
]

abbrev keeps : Bool → Option Touch → Origin → Bool
keeps available none b = false
keeps available (some t) b =
    (t.identifier == b.id)
    && available
    && leb (distance t.client_x b.x) 35
    && not (ltb (t.client_y + 10) b.y)

-- `onMove`.
unfoldable pub pull_moves : Bool → List Touch → Pull → Pull
pull_moves available touches s = elim s.origin [
  | none ↦ s
  | some b ↦ if keeps available (only touches) b then s else clear_pull s
]

-- The test of `onEnd`.
abbrev pub is_pull : Origin → Touch → Bool
is_pull b t =
    (t.identifier == b.id)
    && leb (b.y + 75) t.client_y
    && leb (distance t.client_x b.x) 40
    && leb (distance t.client_x b.x * 2) (t.client_y - b.y)

abbrev pulled : Bool → Bool → Option Touch → Option Origin → Bool
pulled available lifted none b = false
pulled available lifted (some t) none = false
pulled available lifted (some t) (some b) = available && lifted && is_pull b t

-- `onEnd`.
unfoldable pub pull_ends : Bool → List Touch → List Touch → Pull → Pull
pull_ends available touches changed s =
    if pulled available (is_nil touches) (only changed) s.origin
    then record s { origin = none; refreshes = s.refreshes + 1 }
    else clear_pull s

-- What may happen to the directive. It is cleared by the timer of `onStart`, 1500 ms after the touch
-- began, by `onCancel` and by `ngOnDestroy`.
pub data Action : Type 0 where
  starts : Bool → List Touch → Action
  moves : Bool → List Touch → Action
  ends : Bool → List Touch → List Touch → Action
  clears : Action

unfoldable pub perform : Action → Pull → Pull
perform (starts a ts) s = pull_starts a ts s
perform (moves a ts) s = pull_moves a ts s
perform (ends a ts cs) s = pull_ends a ts cs s
perform clears s = clear_pull s

abbrev pub run : List Action → Pull
run [] = record { origin = none; refreshes = 0 }
run (a ∷ r) = perform a (run r)

-- The last touch began there, alone and while the directive was available, and since then it has only
-- moved: alone, while the directive was available, 35 pixels to a side and 10 up at most.
abbrev pub IsHeld : Origin → List Action → Type 0
IsHeld b [] = true ≡ false
IsHeld b (starts a [] ∷ r) = true ≡ false
IsHeld b (starts a (t ∷ []) ∷ r) = (a ≡ true) × (origin_at t ≡ b)
IsHeld b (starts a (t ∷ u ∷ ts) ∷ r) = true ≡ false
IsHeld b (moves a [] ∷ r) = true ≡ false
IsHeld b (moves a (t ∷ []) ∷ r) =
    (a ≡ true)
    × (t.identifier ≡ b.id)
    × (distance t.client_x b.x ≤ 35)
    × (b.y ≤ t.client_y + 10)
    × IsHeld b r
IsHeld b (moves a (t ∷ u ∷ ts) ∷ r) = true ≡ false
IsHeld b (ends a ts cs ∷ r) = true ≡ false
IsHeld b (clears ∷ r) = true ≡ false

-- The end of a touch that was held all along, while the directive is available, with no finger left,
-- 75 pixels or more below, 40 or less to a side, and twice as far down as to a side.
abbrev pub IsPull : Action → List Action → Type 0
IsPull (ends a [] (t ∷ [])) r =
    (b : Origin) × IsHeld b r
    × (a ≡ true)
    × (t.identifier ≡ b.id)
    × (b.y + 75 ≤ t.client_y)
    × (distance t.client_x b.x ≤ 40)
    × (b.y + distance t.client_x b.x * 2 ≤ t.client_y)
IsPull _ r = true ≡ false

-- A touch that a move leaves under way was under way before, and the move keeps it.
pull_moves-origin :
    (b : Origin) (a : Bool) (ts : List Touch) (s : Pull)
    → (pull_moves a ts s).origin ≡ some b
    → (s.origin ≡ some b) × (keeps a (only ts) b ≡ true)
unfolding pull_moves
pull_moves-origin b a ts s h = elim (Option-cases s.origin) [
  | inl nothing ↦ absurd (ground arith)
  | inr (c, found) ↦ elim (Bool-cases (keeps a (only ts) c)) [
    | inl kept ↦
        let same : c ≡ b = ground arith in
        (found ∙ ap some same, ap (keeps a (only ts)) (sym same) ∙ kept)
    | inr lost ↦ absurd (ground arith)
  ]
]

pull_moves_keeps :
    (b : Origin) (a : Bool) (ts : List Touch) (s : Pull)
    → s.origin ≡ some b
    → keeps a (only ts) b ≡ true
    → (pull_moves a ts s).origin ≡ some b
unfolding pull_moves
pull_moves_keeps b a ts s found kept = ground (arith, found, kept)

origin-IsHeld : (b : Origin) (r : List Action) → (run r).origin ≡ some b → IsHeld b r
unfolding perform pull_starts pull_ends
origin-IsHeld b [] h = absurd (ground arith)
origin-IsHeld b (starts a [] ∷ r) h = absurd (ground arith)
origin-IsHeld b (starts a (t ∷ []) ∷ r) h = ground arith
origin-IsHeld b (starts a (t ∷ u ∷ ts) ∷ r) h = absurd (ground arith)
origin-IsHeld b (moves a [] ∷ r) h = sym (pull_moves-origin b a [] (run r) h).1
origin-IsHeld b (moves a (t ∷ []) ∷ r) h =
    let (before, kept) = pull_moves-origin b a (t ∷ []) (run r) h in
    (
      ground (arith, kept),
      ground (arith, kept),
      ground (arith, kept),
      ground (arith, kept),
      origin-IsHeld b r before,
    )
origin-IsHeld b (moves a (t ∷ u ∷ ts) ∷ r) h = sym (pull_moves-origin b a (t ∷ u ∷ ts) (run r) h).1
origin-IsHeld b (ends a ts cs ∷ r) h = absurd (ground arith)
origin-IsHeld b (clears ∷ r) h = absurd (ground arith)

IsHeld-origin : (b : Origin) (r : List Action) → IsHeld b r → (run r).origin ≡ some b
unfolding perform pull_starts
IsHeld-origin b [] h = absurd (ground arith)
IsHeld-origin b (starts a [] ∷ r) h = absurd (ground arith)
IsHeld-origin b (starts a (t ∷ []) ∷ r) h = ground (arith, h)
IsHeld-origin b (starts a (t ∷ u ∷ ts) ∷ r) h = absurd (ground arith)
IsHeld-origin b (moves a [] ∷ r) h = absurd (ground arith)
IsHeld-origin b (moves a (t ∷ []) ∷ r) h =
    pull_moves_keeps b a (t ∷ []) (run r) (IsHeld-origin b r h.4) (ground (arith, h))
IsHeld-origin b (moves a (t ∷ u ∷ ts) ∷ r) h = absurd (ground arith)
IsHeld-origin b (ends a ts cs ∷ r) h = absurd (ground arith)
IsHeld-origin b (clears ∷ r) h = absurd (ground arith)

-- Only `onEnd` changes the count.
same_start : (a : Bool) (ts : List Touch) (s : Pull) → (pull_starts a ts s).refreshes ≡ s.refreshes
unfolding pull_starts
same_start a ts s = ground arith

same_move : (a : Bool) (ts : List Touch) (s : Pull) → (pull_moves a ts s).refreshes ≡ s.refreshes
unfolding pull_moves
same_move a ts s = ground arith

not_suc : (n m : ℕ) → m ≡ n → m ≡ n + 1 → true ≡ false
not_suc n m e h = absurd (omega (arith, e, h))

end_refreshes :
    (a : Bool) (ts cs : List Touch) (r : List Action)
    → (pull_ends a ts cs (run r)).refreshes ≡ (run r).refreshes + 1
    → IsPull (ends a ts cs) r
unfolding pull_ends
end_refreshes a ts [] r h = absurd (omega (arith, h))
end_refreshes a ts (t ∷ u ∷ cs) r h = absurd (omega (arith, h))
end_refreshes a (u ∷ ts) (t ∷ []) r h = elim (Option-cases (run r).origin) [
  | inl nothing ↦ absurd (ground arith)
  | inr (b, found) ↦ absurd (ground arith)
]
end_refreshes a [] (t ∷ []) r h = elim (Option-cases (run r).origin) [
  | inl nothing ↦ absurd (ground arith)
  | inr (b, found) ↦ (
    b,
    origin-IsHeld b r found,
    ground arith,
    ground arith,
    ground arith,
    ground arith,
    ground arith,
  )
]

IsPull-refreshes :
    (a : Action) (r : List Action) → IsPull a r → (run (a ∷ r)).refreshes ≡ (run r).refreshes + 1
unfolding perform pull_ends
IsPull-refreshes (ends a [] (t ∷ [])) r (b, held, p, q, far, near, steep) =
    let found = IsHeld-origin b r held in ground (arith, found)
IsPull-refreshes (ends a [] []) r h = absurd (ground arith)
IsPull-refreshes (ends a [] (t ∷ u ∷ cs)) r h = absurd (ground arith)
IsPull-refreshes (ends a (v ∷ ts) cs) r h = absurd (ground arith)
IsPull-refreshes (starts a ts) r h = absurd (ground arith)
IsPull-refreshes (moves a ts) r h = absurd (ground arith)
IsPull-refreshes clears r h = absurd (ground arith)

refreshes-IsPull :
    (a : Action) (r : List Action) → (run (a ∷ r)).refreshes ≡ (run r).refreshes + 1 → IsPull a r
unfolding perform
refreshes-IsPull (starts a ts) r h = not_suc _ _ (same_start a ts (run r)) h
refreshes-IsPull (moves a ts) r h = not_suc _ _ (same_move a ts (run r)) h
refreshes-IsPull (ends a ts cs) r h = end_refreshes a ts cs r h
refreshes-IsPull clears r h = not_suc _ _ refl h

-- Whatever the touches were, newest first, `pullToRefresh` is emitted, once, by exactly the end of a
-- touch that began alone while the directive was available, has only moved since, alone, while it was
-- available, by 35 pixels to a side and 10 up at most, was neither cancelled nor cut off by the timer,
-- and ends, while it is available and with no finger left, 75 pixels or more below where it began,
-- 40 or less to a side, and twice as far down as to a side.
pub pulls_iff :
    (a : Action) (actions : List Action)
    → ((run (a ∷ actions)).refreshes ≡ (run actions).refreshes + 1) ↔ IsPull a actions
pulls_iff a actions = (refreshes-IsPull a actions, IsPull-refreshes a actions)
