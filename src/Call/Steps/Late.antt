-- ===== src/Call/Steps/Late.antt =====
-- What `CallFacade` of home/call-facade.service.ts makes of the answers of the browser that come when
-- their call is over.
pub mod Growth
pub mod Events
pub mod Reached
use zwei.Common.{ℕ, ◌≡◌, false, Option, none, some, List, ◌∷◌, arith, if◌then◌else◌}
use zwei.Call.{Facade, Effect, stop_stream, is_current_generation}
use zwei.Call.Control.{start_granted, microphone_failure}
use zwei.Call.Media.{accepted_goes_on, audio_track, connection_failed, ice_candidate, same_stream}
use zwei.Call.Screen.{
  screen_share_toggled, screen_captured, screen_shared, screen_share_failed, stop_screen_share,
  screen_share_stopped, screen_audio_stopped, microphone_changed, replace_timed_out, offer_again,
  is_current_connection,
}
use zwei.Call.Steps.{
  Action, shows_ringing, starts, microphone, no_microphone, accepts, declines, cancels, ends, mutes,
  enables_audio, dismisses, closes, readies, hears, begins_accepted, goes_on, signals, hears_audio,
  fails, finds_candidate, toggles_screen, has_toggled, captures, shares, fails_screen, stops_screen,
  has_stopped, stops_audio, changes_microphone, times_out, perform,
}

-- The generation that the code behind an `await`, or a callback, has kept; and the stream that it
-- was given.
abbrev pub generation_of : Action → Option ℕ
generation_of (microphone n b i e c p g k) = some g
generation_of (no_microphone e l g) = some g
generation_of (goes_on e b q g before stream) = some g
generation_of (hears_audio g k i) = some g
generation_of (fails e g k) = some g
generation_of (finds_candidate n b i e v g k c) = some g
generation_of (has_toggled g) = some g
generation_of (captures g k x) = some g
generation_of (shares n b i e g k c x) = some g
generation_of (fails_screen g k) = some g
generation_of (stops_screen b g k c) = some g
generation_of (has_stopped n b i e g k c) = some g
generation_of (stops_audio g k) = some g
generation_of (changes_microphone g k old new) = some g
generation_of (times_out e g k) = some g
generation_of _ = none

abbrev pub new_stream : Action → Option ℕ
new_stream (microphone n b i e c p g k) = some k
new_stream (goes_on e b q g before (some k)) = if same_stream (some k) before then none else some k
new_stream (captures g k x) = some x.stream
new_stream (shares n b i e g k c x) = some x.stream
new_stream (fails_screen g k) = some k
new_stream (changes_microphone g k old new) = some new
new_stream _ = none

abbrev pub stopped : Option ℕ → List Effect → List Effect
stopped none l = l
stopped (some k) l = stop_stream k ∷ l

-- An answer of a generation that is not the current one changes nothing, and the stream that it
-- brings, if any, is stopped.
pub late_action :
    (a : Action) (g : ℕ) (s : Facade)
    → generation_of a ≡ some g
    → is_current_generation g s ≡ false
    → perform a s ≡ record s { log = stopped (new_stream a) s.log }
unfolding perform start_granted microphone_failure accepted_goes_on audio_track connection_failed
    ice_candidate screen_share_toggled screen_captured screen_shared screen_share_failed
    stop_screen_share screen_share_stopped screen_audio_stopped microphone_changed replace_timed_out
late_action (microphone n b i e c p h k) g s f l = ground arith
late_action (no_microphone e m h) g s f l = ground arith
late_action (goes_on e b q h before none) g s f l = ground arith
late_action (goes_on e b q h before (some k)) g s f l = ground arith
late_action (hears_audio h k i) g s f l = ground arith
late_action (fails e h k) g s f l = ground arith
late_action (finds_candidate n b i e v h k c) g s f l = ground arith
late_action (shows_ringing a b c) g s f l = ground arith
late_action (starts a b) g s f l = ground arith
late_action (accepts n b i e) g s f l = ground arith
late_action (declines n b i e) g s f l = ground arith
late_action (cancels n b i e) g s f l = ground arith
late_action (ends n b i e) g s f l = ground arith
late_action (enables_audio b) g s f l = ground arith
late_action mutes g s f l = ground arith
late_action dismisses g s f l = ground arith
late_action (closes i) g s f l = ground arith
late_action (readies e b) g s f l = ground arith
late_action (hears n i event) g s f l = ground arith
late_action (begins_accepted q) g s f l = ground arith
late_action (signals i v) g s f l = ground arith
late_action toggles_screen g s f l = ground arith
late_action (has_toggled h) g s f l = ground arith
late_action (captures h k x) g s f l = ground arith
late_action (shares n b i e h k c x) g s f l = ground arith
late_action (fails_screen h k) g s f l = ground arith
late_action (stops_screen b h k c) g s f l = ground arith
late_action (has_stopped n b i e h k c) g s f l = ground arith
late_action (stops_audio h k) g s f l = ground arith
late_action (changes_microphone h k old new) g s f l = ground arith
late_action (times_out e h k) g s f l = ground arith
