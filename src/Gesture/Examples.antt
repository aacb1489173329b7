-- ===== src/Gesture/Examples.antt =====
-- A swipe of shared/swipe-back.directive.ts and a pull of shared/pull-to-refresh.directive.ts.
use zwei.Common.{ℕ, ◌+◌, ◌↔◌, ◌≡◌, refl, true, false, List, [], ◌∷◌, arith}
use zwei.Gesture.{Touch}
use zwei.Gesture.Swipe.{
  Action, starts, moves, ends, run, perform, on_start, on_move, on_end, IsBack, emits_at_end,
}
use zwei.Gesture.Pull

abbrev at : ℕ → Touch
at x = record { identifier = 1; client_x = x; client_y = 300 }

abbrev before : List Action
before = moves true (at 90 ∷ []) ∷ starts true 5000 (at 20 ∷ []) ∷ []

abbrev lift : Action
lift = ends true 5400 [] (at 120 ∷ [])

swipe_emits : ¬ ((run (lift ∷ before)).emitted ≡ (run before).emitted)
unfolding perform on_start on_move on_end
swipe_emits e = absurd (ground (arith, e))

emits_at_end_example : IsBack lift (run before).start
emits_at_end_example = emits_at_end lift before swipe_emits

abbrev below : ℕ → Touch
below y = record { identifier = 1; client_x = 100; client_y = y }

abbrev dragged : List Pull.Action
dragged =
    Pull.moves true (below 130 ∷ [])
    ∷ Pull.starts true (below 100 ∷ [])
    ∷ Pull.ends true [] (below 180 ∷ [])
    ∷ []

abbrev release : Pull.Action
release = Pull.ends true [] (below 200 ∷ [])

pulls_iff_example :
    ((Pull.run (release ∷ dragged)).refreshes ≡ (Pull.run dragged).refreshes + 1)
    ↔ Pull.IsPull release dragged
pulls_iff_example = Pull.pulls_iff release dragged

dragged_refreshes : (Pull.run (release ∷ dragged)).refreshes ≡ 1
unfolding Pull.perform Pull.pull_starts Pull.pull_moves Pull.pull_ends
dragged_refreshes = refl

-- A touch that is held for too long refreshes nothing, nor does one during which the directive is
-- busy.
slow_refreshes : (Pull.run (release ∷ Pull.clears ∷ dragged)).refreshes ≡ 0
unfolding Pull.perform Pull.pull_starts Pull.pull_moves Pull.pull_ends
slow_refreshes = refl

busy_refreshes : (Pull.run (release ∷ Pull.moves false (below 160 ∷ []) ∷ dragged)).refreshes ≡ 0
unfolding Pull.perform Pull.pull_starts Pull.pull_moves Pull.pull_ends
busy_refreshes = refl
