-- ===== src/Transport/Steps/Stale.antt =====
-- What `DataProviderService` of home/data-provider.service.ts makes of a callback that comes late:
-- each is of one generation of the connection.
use zwei.Common.{ℕ, ◌<◌, ◌≤◌, ◌≡◌, Bool, false, Option, none, some, List, [], ◌∷◌, arith, refl}
use zwei.Js.Text.{Text}
use zwei.Transport.{
  Transport, ticket_next, ticket_error, socket_opens, socket_closes, socket_ends, socket_next,
  is_current, finish_recovery, fail_recovery, retry_now, close, complete_recovery_if_ready,
  timer_fires, connect, get_observable, schedule_reconnect, after_event, report, emit,
}
use zwei.Protocol.Diagnostics.{InvalidCandidate, invalid_group_candidate}
use zwei.Js.Value.{Value}
use zwei.Transport.Send.{put, send, send_recovery, recover}
use zwei.Transport.Steps.Closing.{run}
use zwei.Transport.Steps.{
  Action, ticket, no_ticket, opens, closes, ends, receives, timer, observes, finishes, retries,
  shuts, fails, sends, recovers, perform, is_timed,
}

-- The generation that a callback closes over.
abbrev generation_of : Action → Option ℕ
generation_of (ticket g) = some g
generation_of (no_ticket r g) = some g
generation_of (opens g k) = some g
generation_of (closes g k) = some g
generation_of (ends r g k) = some g
generation_of (receives g k v) = some g
generation_of timer = none
generation_of observes = none
generation_of finishes = none
generation_of retries = none
generation_of shuts = none
generation_of (fails r) = none
generation_of (sends b r v) = none
generation_of (recovers b r c a q) = none

module _ (parses : Text → Bool) where
  -- A callback of a generation before the current one changes nothing.
  perform-stale :
      (a : Action) (g : ℕ) (s : Transport)
      → generation_of a ≡ some g
      → g < s.connection_generation
      → perform parses a s ≡ s
  unfolding perform ticket_next ticket_error socket_opens socket_closes socket_ends socket_next
      is_current
  perform-stale (ticket h) g s e l = ground arith
  perform-stale (no_ticket r h) g s e l = ground arith
  perform-stale (opens h k) g s e l = ground arith
  perform-stale (closes h k) g s e l = ground arith
  perform-stale (ends r h k) g s e l = ground arith
  perform-stale (receives h k v) g s e l = ground arith
  perform-stale timer g s e l = ground arith
  perform-stale observes g s e l = ground arith
  perform-stale finishes g s e l = ground arith
  perform-stale retries g s e l = ground arith
  perform-stale shuts g s e l = ground arith
  perform-stale (fails r) g s e l = ground arith
  perform-stale (sends b r v) g s e l = ground arith
  perform-stale (recovers b r c a q) g s e l = ground arith

  same_report :
      (c : Option InvalidCandidate) (s : Transport)
      → (report c s).connection_generation ≡ s.connection_generation
  same_report none s = refl
  same_report (some c) s = refl

  same_after :
      (v : Value) (s : Transport)
      → (after_event v s).connection_generation ≡ s.connection_generation
  unfolding after_event complete_recovery_if_ready
  same_after v s = ground arith

  perform-IsGrown :
      (a : Action) (s : Transport)
      → s.connection_generation ≤ (perform parses a s).connection_generation
  unfolding perform ticket_next ticket_error socket_opens socket_closes socket_ends socket_next
      finish_recovery fail_recovery retry_now close complete_recovery_if_ready timer_fires connect
      get_observable send put recover send_recovery schedule_reconnect
  perform-IsGrown (ticket h) s = ground arith
  perform-IsGrown (no_ticket r h) s = ground arith
  perform-IsGrown (opens h k) s = ground arith
  perform-IsGrown (closes h k) s = ground arith
  perform-IsGrown (ends r h k) s = ground arith
  perform-IsGrown (receives h k v) s = ground (
    arith,
    same_report (invalid_group_candidate v) s,
    same_after v (record s { log = emit v ∷ s.log }),
  )
  perform-IsGrown timer s = ground arith
  perform-IsGrown observes s = ground arith
  perform-IsGrown finishes s = ground arith
  perform-IsGrown retries s = ground arith
  perform-IsGrown shuts s = ground arith
  perform-IsGrown (fails r) s = ground arith
  perform-IsGrown (sends b r v) s = ground arith
  perform-IsGrown (recovers b r c a x) s = ground arith

  run-IsGrown :
      (actions : List Action) (s : Transport)
      → s.connection_generation ≤ (run parses actions s).connection_generation
  run-IsGrown [] s = omega arith
  run-IsGrown (a ∷ r) s = omega (arith, perform-IsGrown a s, run-IsGrown r (perform parses a s))

  ignored_later :
      (a : Action) (g : ℕ) (actions : List Action) (s : Transport)
      → generation_of a ≡ some g
      → g < s.connection_generation
      → perform parses a (run parses actions s) ≡ run parses actions s
  ignored_later a g actions s e l =
      perform-stale a g (run parses actions s) e (omega (arith, run-IsGrown actions s))

  -- A service that is not closed gives its connection up when it plans to reconnect, which it does
  -- unless it has planned to already, when it retries now, and when it is closed. Whatever is done
  -- after that, a callback of the connection that it gave up, or of one before, changes nothing.
  pub late_callback :
      (random g : ℕ) (a : Action) (actions : List Action) (s : Transport)
      → generation_of a ≡ some g
      → g ≤ s.connection_generation
      → s.closed ≡ false
      → is_timed s ≡ false
      → (perform parses a (run parses actions (schedule_reconnect random s))
          ≡ run parses actions (schedule_reconnect random s))
        × (perform parses a (run parses actions (retry_now s)) ≡ run parses actions (retry_now s))
        × (perform parses a (run parses actions (close s)) ≡ run parses actions (close s))
  unfolding schedule_reconnect retry_now close connect
  late_callback random g a actions s e l alive free = (
    ignored_later a g actions (schedule_reconnect random s) e (ground (arith, l, alive, free)),
    ignored_later a g actions (retry_now s) e (ground (arith, l, alive)),
    ignored_later a g actions (close s) e (ground (arith, l, alive)),
  )
