-- ===== src/Call/Steps.antt =====
-- A direct call as a state machine: what the user, the server, the browser and the timer may do to
-- `CallFacade` of home/call-facade.service.ts, in any order.
pub mod Rest
pub mod Bounds
pub mod Retired
pub mod Late
use zwei.Common.{ℕ, ◌≡◌, ◌≤◌, Bool, true, false, Option, none, some, List, [], ◌∷◌, String}
use zwei.Js.Text.{Text}
use zwei.Js.Value.{Value}
use zwei.Call.{Facade, CallPayload, initial, dismiss, set_error}
use zwei.Call.Control.{
  show_recovered_ringing, start, start_granted, microphone_failure, accept, decline, cancel, end,
  toggle_mute, set_screen_share_audio_enabled, close, ready_changes,
}
use zwei.Call.Events.{CallEvent, handle_event}
use zwei.Call.Media.{
  accepted_begins, accepted_goes_on, handle_signal_now, audio_track, connection_failed,
  ice_candidate,
}
use zwei.Call.Screen.{
  Capture, toggle_screen_share, screen_share_toggled, screen_captured, screen_shared,
  screen_share_failed, stop_screen_share, screen_share_stopped, screen_audio_stopped,
  microphone_changed, replace_timed_out,
}

-- What is done, with the texts, the numbers and the answers that it is given.
pub data Action : Type 0 where
  shows_ringing : Text → Text → Text → Action
  starts : Text → Text → Action
  microphone : ℕ → Bool → Text → Text → Text → Text → ℕ → ℕ → Action
  no_microphone : Text → String → ℕ → Action
  accepts declines cancels ends : ℕ → Bool → Text → Text → Action
  mutes dismisses : Action
  enables_audio : Bool → Action
  closes : Text → Action
  readies : Text → Bool → Action
  hears : ℕ → Text → CallEvent → Action
  begins_accepted : CallPayload → Action
  goes_on : Text → Bool → CallPayload → ℕ → Option ℕ → Option ℕ → Action
  signals : Text → Value → Action
  hears_audio : ℕ → ℕ → Text → Action
  fails : Text → ℕ → ℕ → Action
  finds_candidate : ℕ → Bool → Text → Text → Value → ℕ → ℕ → Text → Action
  toggles_screen : Action
  has_toggled : ℕ → Action
  captures : ℕ → ℕ → Capture → Action
  shares : ℕ → Bool → Text → Text → ℕ → ℕ → Text → Capture → Action
  fails_screen : ℕ → ℕ → Action
  stops_screen : Bool → ℕ → ℕ → Text → Action
  has_stopped : ℕ → Bool → Text → Text → ℕ → ℕ → Text → Action
  stops_audio : ℕ → ℕ → Action
  changes_microphone : ℕ → ℕ → ℕ → ℕ → Action
  times_out : Text → ℕ → ℕ → Action

unfoldable pub perform : Action → Facade → Facade
perform (shows_ringing a b c) s = show_recovered_ringing a b c s
perform (starts a b) s = start a b s
perform (microphone n b i e c p g k) s = start_granted n b i e c p g k s
perform (no_microphone e l g) s = microphone_failure e l g s
perform (accepts n b i e) s = accept n b i e s
perform (declines n b i e) s = decline n b i e s
perform (cancels n b i e) s = cancel n b i e s
perform (ends n b i e) s = end n b i e s
perform mutes s = toggle_mute s
perform (enables_audio b) s = set_screen_share_audio_enabled b s
perform dismisses s = dismiss s
perform (closes i) s = close i s
perform (readies e b) s = ready_changes e b s
perform (hears n i event) s = handle_event n i event s
perform (begins_accepted payload) s = accepted_begins payload s
perform (goes_on e b payload g before stream) s = accepted_goes_on e b payload g before stream s
perform (signals i v) s = handle_signal_now i v s
perform (hears_audio g k i) s = audio_track g k i s
perform (fails e g k) s = connection_failed e g k s
perform (finds_candidate n b i e v g k c) s = ice_candidate n b i e v g k c s
perform toggles_screen s = toggle_screen_share s
perform (has_toggled g) s = screen_share_toggled g s
perform (captures g k x) s = screen_captured g k x s
perform (shares n b i e g k c x) s = screen_shared n b i e g k c x s
perform (fails_screen g stream) s = screen_share_failed g stream s
perform (stops_screen b g k c) s = stop_screen_share b g k c s
perform (has_stopped n b i e g k c) s = screen_share_stopped n b i e g k c s
perform (stops_audio g k) s = screen_audio_stopped g k s
perform (changes_microphone g k old new) s = microphone_changed g k old new s
perform (times_out e g k) s = replace_timed_out e g k s

-- The timer of a notice runs out only while it is set.
abbrev pub Allowed : Action → Facade → Type 0
Allowed dismisses s = s.dismiss_timer ≡ true
Allowed _ s = Unit

pub data Reach : Facade → Type 0 where
  begun : Reach initial
  then_does : {s : Facade} (a : Action) → Reach s → Allowed a s → Reach (perform a s)
