-- ===== src/Call/Steps/Late/Reached.antt =====
-- What `CallFacade` of home/call-facade.service.ts makes of an answer that comes when its call is over,
-- however long ago that was.
use zwei.Common.{
  ℕ, ◌+◌, ◌≤◌, ◌≡◌, not, ◌&&◌, ◌||◌, Option, none, some, List, [], ◌∷◌, arith, String, is_some,
}
use zwei.Js.Text.{Text}
use zwei.Call.{
  CallPhase, Facade, ended, error, finish, terminal, set_error, cleanup, invalidate_call_generation,
  retire_current_call, begin_call_generation, dismiss, is_current_generation, log_farewell,
  call_decline, call_cancel, call_end, matches,
}
use zwei.Call.Requests.{clear_pending_requests}
use zwei.Call.Control.{
  show_recovered_ringing, start, microphone_failure, decline, cancel, end, toggle_mute, close,
  set_screen_share_audio_enabled,
}
use zwei.Call.Media.{
  accepted_begins, accepted_goes_on, handle_signal_now, audio_track, connection_failed,
  ice_candidate, is_acceptable, apply_signal, same_connection,
}
use zwei.Call.Screen.{
  toggle_screen_share, screen_share_toggled, screen_captured, screen_share_failed,
  stop_screen_share, microphone_changed, replace_timed_out, is_current_connection,
}
use zwei.Call.Steps.{
  Action, shows_ringing, starts, microphone, no_microphone, accepts, declines, cancels, ends, mutes,
  enables_audio, dismisses, closes, readies, hears, begins_accepted, goes_on, signals, hears_audio,
  fails, finds_candidate, toggles_screen, has_toggled, captures, shares, fails_screen, stops_screen,
  has_stopped, stops_audio, changes_microphone, times_out, perform,
}
use zwei.Call.Steps.Late.{generation_of, new_stream, stopped, late_action}
use zwei.Call.Steps.Late.Growth.{
  IsFrom, IsFrom-if, IsFrom-set_error, IsFrom-granted, IsFrom-accept, IsFrom-control, IsFrom-close,
  IsFrom-ready,
}
use zwei.Call.Steps.Late.Events.{
  IsFrom-event, IsFrom-stop_new, IsFrom-built, IsFrom-signals, IsFrom-shares, IsFrom-stopped,
  IsFrom-stops_audio,
}

abbrev pub run : List Action → Facade → Facade
run [] s = s
run (a ∷ r) s = run r (perform a s)

module _ (n : ℕ) where
  perform-IsFrom : (a : Action) (s : Facade) → IsFrom n s → IsFrom n (perform a s)
  unfolding perform show_recovered_ringing start begin_call_generation microphone_failure decline
      cancel end toggle_mute dismiss accepted_begins accepted_goes_on handle_signal_now apply_signal
      audio_track connection_failed ice_candidate clear_pending_requests
  perform-IsFrom (shows_ringing a b c) s h = ground arith
  perform-IsFrom (starts a b) s h = ground arith
  perform-IsFrom (microphone m b i e c p g k) s h = IsFrom-granted n m b i e c p g k s h
  perform-IsFrom (no_microphone e l g) s h =
      IsFrom-if n (not (is_current_generation g s)) _ _ h (IsFrom-set_error n e l g s h)
  perform-IsFrom (accepts m b i e) s h = IsFrom-accept n m b i e s h
  perform-IsFrom (declines m b i e) s h = IsFrom-control n m b i e call_decline "Call declined." s h
  perform-IsFrom (cancels m b i e) s h = IsFrom-control n m b i e call_cancel "Call cancelled." s h
  perform-IsFrom (ends m b i e) s h = IsFrom-control n m b i e call_end "Call ended." s h
  perform-IsFrom (enables_audio b) s h = unfold set_screen_share_audio_enabled in ground arith
  perform-IsFrom mutes s h = ground arith
  perform-IsFrom dismisses s h = ground arith
  perform-IsFrom (closes i) s h = IsFrom-close n i s h
  perform-IsFrom (readies e b) s h = IsFrom-ready n e b s h
  perform-IsFrom (hears m i event) s h = IsFrom-event n m i event s h
  perform-IsFrom (begins_accepted q) s h =
      IsFrom-if n (is_acceptable q s) _ _ (record { since = h.since }) h
  perform-IsFrom (goes_on e b q g before stream) s h =
      IsFrom-if n
        (not (is_current_generation g s) || not (matches q.call_id s) || not (is_some stream)) _ _
        (IsFrom-stop_new n stream before s h) (IsFrom-built n b e q stream before s h)
  perform-IsFrom (signals i v) s h = ground arith
  perform-IsFrom (hears_audio g k i) s h = ground arith
  perform-IsFrom (fails e g k) s h =
      IsFrom-if n (is_current_generation g s && same_connection s.connection k) _ _
        (IsFrom-set_error n e _ g s h) h
  perform-IsFrom (finds_candidate m b i e v g k c) s h =
      IsFrom-if n (is_current_generation g s && same_connection s.connection k) _ _
        (IsFrom-signals n m b i e v g c s h) h
  perform-IsFrom toggles_screen s h = unfold toggle_screen_share in ground arith
  perform-IsFrom (has_toggled g) s h = unfold screen_share_toggled in ground arith
  perform-IsFrom (captures g k x) s h = unfold screen_captured in ground arith
  perform-IsFrom (shares m b i e g k c x) s h = IsFrom-shares n m b i e g k c x s h
  perform-IsFrom (fails_screen g k) s h = unfold screen_share_failed in ground arith
  perform-IsFrom (stops_screen b g k c) s h = unfold stop_screen_share in ground arith
  perform-IsFrom (has_stopped m b i e g k c) s h = IsFrom-stopped n m b i e g k c s h
  perform-IsFrom (stops_audio g k) s h = IsFrom-stops_audio n g k s h
  perform-IsFrom (changes_microphone g k old new) s h = unfold microphone_changed in ground arith
  perform-IsFrom (times_out e g k) s h =
      unfold replace_timed_out in
      IsFrom-if n (is_current_connection g k s) _ _ (IsFrom-set_error n e _ g s h) h

  run-IsFrom : (actions : List Action) (s : Facade) → IsFrom n s → IsFrom n (run actions s)
  run-IsFrom [] s h = h
  run-IsFrom (a ∷ r) s h = run-IsFrom r (perform a s) (perform-IsFrom a s h)

-- What an action that answers late leaves: its stream is stopped.
abbrev pub IsIgnored : Action → Facade → Type 0
IsIgnored a s = perform a s ≡ record s { log = stopped (new_stream a) s.log }

late_in :
    (a : Action) (g : ℕ) (actions : List Action) (s : Facade)
    → generation_of a ≡ some g
    → g + 1 ≤ s.call_generation
    → IsIgnored a (run actions s)
late_in a g actions s e le =
    let since = (run-IsFrom (g + 1) actions s (record { since = le })).since in
    late_action a g (run actions s) e (ground (arith, since))

finish-generation :
    (phase : CallPhase) (label : String) (failure : Option String) (g : ℕ) (s : Facade)
    → g ≤ s.call_generation
    → g + 1 ≤ (finish phase label failure s).call_generation
unfolding finish cleanup invalidate_call_generation retire_current_call
finish-generation phase label failure g s le = ground arith

terminal-generation :
    (label : String) (g : ℕ) (s : Facade)
    → g ≤ s.call_generation
    → g + 1 ≤ (terminal label s.call_generation s).call_generation
unfolding terminal
terminal-generation label g s le = ground (arith, finish-generation ended label none g s le)

set_error-generation :
    (i : Text) (label : String) (g : ℕ) (s : Facade)
    → g ≤ s.call_generation
    → g + 1 ≤ (set_error i label s.call_generation s).call_generation
unfolding set_error
set_error-generation i label g s le =
    let t = record s { log = log_farewell i s.state s.log } in
    ground (arith, finish-generation error label (some label) g t le)

close-generation :
    (i : Text) (g : ℕ) (s : Facade) → g ≤ s.call_generation → g + 1 ≤ (close i s).call_generation
unfolding close cleanup invalidate_call_generation
close-generation i g s le = ground arith

-- Once a call has ended, has failed or was closed, whatever happens after that, other calls included,
-- an answer of the browser to what was asked during that call, or before, changes nothing but that
-- the stream that it brings, if any, is stopped.
pub late_answer :
    (a : Action) (g : ℕ) (actions : List Action) (label failure : String) (i j : Text) (s : Facade)
    → generation_of a ≡ some g
    → g ≤ s.call_generation
    → IsIgnored a (run actions (terminal label s.call_generation s))
      × IsIgnored a (run actions (set_error i failure s.call_generation s))
      × IsIgnored a (run actions (close j s))
late_answer a g actions label failure i j s e le = (
  late_in a g actions (terminal label s.call_generation s) e (terminal-generation label g s le),
  late_in a g actions (set_error i failure s.call_generation s) e
      (set_error-generation i failure g s le),
  late_in a g actions (close j s) e (close-generation j g s le),
)
