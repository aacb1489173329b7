-- ===== src/Gesture.antt =====
-- The touch gestures of the client: the directives of frontend-app/src/app/shared. Places are whole
-- pixels of the viewport, times are milliseconds. What a directive asks the page (`available`, and
-- whether the target may begin a gesture) is an argument.
pub mod Swipe
pub mod Pull
mod Examples
use zwei.Common.{
  ℕ, ◌-◌, ◌+◌, Bool, true, false, Option, none, some, List, [], ◌∷◌, ltb, if◌then◌else◌,
}

-- `Touch`.
pub record Touch : Type 0 where
  pub identifier : ℕ
  pub client_x : ℕ
  pub client_y : ℕ

-- `Math.abs(a - b)`.
abbrev pub distance : ℕ → ℕ → ℕ
distance a b = (a - b) + (b - a)

-- The only touch of a list.
abbrev pub only : List Touch → Option Touch
only [] = none
only (t ∷ []) = some t
only (t ∷ u ∷ r) = none

abbrev pub is_nil : List Touch → Bool
is_nil [] = true
is_nil (t ∷ r) = false
