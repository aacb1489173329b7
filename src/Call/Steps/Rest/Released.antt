-- ===== src/Call/Steps/Rest/Released.antt =====
-- What the end of a call lets go of, in home/call-facade.service.ts.
use zwei.Common.{
  ℕ, ◌≡◌, refl, Bool, true, false, Option, none, some, List, arith, any, ◌==◌, String,
}
use zwei.Js.Text.{Text}
use zwei.Call.{
  CallPhase, Facade, Effect, ended, error, stop_stream, close_connection, is_resting, finish,
  terminal, set_error, cleanup, invalidate_call_generation, retire_current_call, log_stop,
  log_close, log_farewell,
}
use zwei.Call.Control.{close, log_closing}
use zwei.Call.Steps.{Reach}
use zwei.Call.Steps.Rest.{Rests}
use zwei.Call.Steps.Rest.Reached.{Reach-Rests}

abbrev is_stop : ℕ → Effect → Bool
is_stop k (stop_stream j) = j == k
is_stop k _ = false

abbrev is_close : ℕ → Effect → Bool
is_close k (close_connection j) = j == k
is_close k _ = false

-- What was done includes this, for what there was.
abbrev pub IsDone : (ℕ → Effect → Bool) → Option ℕ → List Effect → Type 0
IsDone test none l = Unit
IsDone test (some k) l = any (test k) l ≡ true

-- No call is under way, the streams that there were have been stopped, and the connection was closed.
pub record Releases (s t : Facade) : Type 0 where
  pub rests : is_resting t.state.phase ≡ true
  pub microphone : IsDone is_stop s.state.local_stream t.log
  pub screen : IsDone is_stop s.state.screen_share_stream t.log
  pub connection : IsDone is_close s.connection t.log

local-IsDone :
    (c v m : Option ℕ) (l : List Effect)
    → IsDone is_stop m (log_close c (log_stop v (log_stop m l)))
local-IsDone c v none l = tt
local-IsDone none none (some k) l = ground arith
local-IsDone none (some j) (some k) l = ground arith
local-IsDone (some i) none (some k) l = ground arith
local-IsDone (some i) (some j) (some k) l = ground arith

screen-IsDone :
    (c v m : Option ℕ) (l : List Effect)
    → IsDone is_stop v (log_close c (log_stop v (log_stop m l)))
screen-IsDone c none m l = tt
screen-IsDone none (some k) m l = ground arith
screen-IsDone (some i) (some k) m l = ground arith

connection-IsDone :
    (c v m : Option ℕ) (l : List Effect)
    → IsDone is_close c (log_close c (log_stop v (log_stop m l)))
connection-IsDone none v m l = tt
connection-IsDone (some k) v m l = ground arith

-- `cleanup` in a state whose streams and connection are these.
Releases-cleaned :
    (s t : Facade) (l : List Effect)
    → is_resting t.state.phase ≡ true
    → t.log
      ≡ log_close s.connection
          (log_stop s.state.screen_share_stream (log_stop s.state.local_stream l))
    → Releases s t
Releases-cleaned s t l rests logged = record {
  rests = rests;
  microphone =
      rw logged (local-IsDone s.connection s.state.screen_share_stream s.state.local_stream l);
  screen =
      rw logged (screen-IsDone s.connection s.state.screen_share_stream s.state.local_stream l);
  connection =
      rw logged (connection-IsDone s.connection s.state.screen_share_stream s.state.local_stream l);
}

retire-log :
    (s : Facade)
    → ((retire_current_call s).log ≡ s.log)
      × ((retire_current_call s).state ≡ s.state)
      × ((retire_current_call s).connection ≡ s.connection)
unfolding retire_current_call
retire-log s = ground arith

Releases-finish :
    (phase : CallPhase) (label : String) (failure : Option String) (s : Facade)
    → is_resting phase ≡ true
    → Releases s (finish phase label failure s)
unfolding finish cleanup invalidate_call_generation
Releases-finish phase label failure s h =
    let (log, state, connection) = retire-log s in
    Releases-cleaned s (finish phase label failure s) s.log h (rw (log, state, connection) refl)

==_refl : (n : ℕ) → (n == n) ≡ true
==_refl n = ground arith

Releases-terminal : (label : String) (s : Facade) → Releases s (terminal label s.call_generation s)
unfolding terminal
Releases-terminal label s = rw (==_refl s.call_generation) (Releases-finish ended label none s refl)

Releases-set_error :
    (i : Text) (label : String) (s : Facade) → Releases s (set_error i label s.call_generation s)
unfolding set_error
Releases-set_error i label s =
    let t = record s { log = log_farewell i s.state s.log } in
    let h = Releases-finish error label (some label) t refl in
    rw (==_refl s.call_generation) (record {
      rests = h.rests;
      microphone = h.microphone;
      screen = h.screen;
      connection = h.connection;
    })

Releases-close : (i : Text) (s : Facade) → Releases s (close i s)
unfolding close cleanup invalidate_call_generation
Releases-close i s = Releases-cleaned s (close i s) (log_closing i s.state s.log) refl refl

-- Whatever the user, the server and the browser do of the actions of Steps, in any order, the start and
-- the end of a screen share and a change of the microphone included: while no call is under way the state has
-- no call ID, no connection, no stream of the microphone or the screen, and no signal or request that
-- waits; and the timer of a notice is set only then. If the call ends, fails or is closed in any
-- state that they lead to, the streams that it has are stopped, and its connection is closed.
pub Reach-Releases :
    {s : Facade} (label failure : String) (i j : Text)
    → Reach s
    → Rests s
      × Releases s (terminal label s.call_generation s)
      × Releases s (set_error i failure s.call_generation s)
      × Releases s (close j s)
Reach-Releases {s} label failure i j r =
    (Reach-Rests r, Releases-terminal label s, Releases-set_error i failure s, Releases-close j s)
