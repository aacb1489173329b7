-- ===== src/Call/Steps/Bounds/Reached.antt =====
-- What `CallFacade` of home/call-facade.service.ts remembers in a state that can be reached.
use zwei.Common.{not, ◌&&◌, ◌||◌, arith, is_some}
use zwei.Js.Text.{is_empty}
use zwei.Call.{
  Facade, begin_call_generation, dismiss, call_accept, is_current_generation, call_decline,
  call_cancel, call_end, matches,
}
use zwei.Call.Control.{
  set_screen_share_audio_enabled, show_recovered_ringing, start, microphone_failure, decline,
  cancel, end, toggle_mute,
}
use zwei.Call.Media.{
  accepted_begins, accepted_goes_on, handle_signal_now, audio_track, connection_failed,
  ice_candidate, is_acceptable, apply_signal, send_signal, same_connection,
}
use zwei.Call.Steps.{
  Action, shows_ringing, starts, microphone, no_microphone, accepts, declines, cancels, ends, mutes,
  enables_audio, dismisses, closes, readies, hears, begins_accepted, goes_on, signals, hears_audio,
  fails, finds_candidate, toggles_screen, has_toggled, captures, shares, fails_screen, stops_screen,
  has_stopped, stops_audio, changes_microphone, times_out, perform, Reach, begun, then_does,
}
use zwei.Call.Steps.Bounds.{
  Bounded, Bounded-if, Bounded-set_error, Bounded-send_request, Bounded-cleared,
}
use zwei.Call.Steps.Bounds.Control.{
  Bounded-granted, Bounded-accept, Bounded-control, Bounded-close, Bounded-ready,
}
use zwei.Call.Steps.Bounds.Events.{Bounded-event}
use zwei.Call.Screen.{
  toggle_screen_share, screen_share_toggled, screen_captured, screen_share_failed,
  stop_screen_share, microphone_changed,
}
use zwei.Call.Steps.Bounds.Screen.{
  Bounded-shares, Bounded-stopped, Bounded-stops_audio, Bounded-times_out,
}
use zwei.Call.Steps.Bounds.Media.{Bounded-stop_new, Bounded-built}

perform-Bounded : (a : Action) (s : Facade) → Bounded s → Bounded (perform a s)
unfolding perform show_recovered_ringing start begin_call_generation microphone_failure decline
    cancel end toggle_mute dismiss accepted_begins accepted_goes_on handle_signal_now apply_signal
    audio_track connection_failed ice_candidate send_signal
perform-Bounded (shows_ringing a b c) s h = ground arith
perform-Bounded (starts a b) s h = ground arith
perform-Bounded (microphone n b i e c p g k) s h = Bounded-granted n b i e c p g k s h
perform-Bounded (no_microphone e l g) s h =
    Bounded-if (not (is_current_generation g s)) _ _ h (Bounded-set_error e l g s h)
perform-Bounded (accepts n b i e) s h = Bounded-accept n b i e s h
perform-Bounded (declines n b i e) s h = Bounded-control n b i e call_decline "Call declined." s h
perform-Bounded (cancels n b i e) s h = Bounded-control n b i e call_cancel "Call cancelled." s h
perform-Bounded (ends n b i e) s h = Bounded-control n b i e call_end "Call ended." s h
perform-Bounded (enables_audio b) s h = unfold set_screen_share_audio_enabled in ground arith
perform-Bounded mutes s h = ground arith
perform-Bounded dismisses s h = ground arith
perform-Bounded (closes i) s h = Bounded-close i s h
perform-Bounded (readies e b) s h = Bounded-ready e b s h
perform-Bounded (hears n i event) s h = Bounded-event n i event s h
perform-Bounded (begins_accepted q) s h =
    Bounded-if (is_acceptable q s) _ _ (Bounded-cleared s.call_generation call_accept s h) h
perform-Bounded (goes_on e b q g before stream) s h =
    Bounded-if
      (not (is_current_generation g s) || not (matches q.call_id s) || not (is_some stream)) _ _
      (Bounded-stop_new stream before s h) (Bounded-built b e q stream before s h)
perform-Bounded (signals i v) s h = ground arith
perform-Bounded (hears_audio g k i) s h = ground arith
perform-Bounded (fails e g k) s h =
    Bounded-if (is_current_generation g s && same_connection s.connection k) _ _
      (Bounded-set_error e _ g s h) h
perform-Bounded (finds_candidate n b i e v g k c) s h =
    Bounded-if (is_current_generation g s && same_connection s.connection k) _ _
      (Bounded-if (is_empty c || not (is_current_generation g s)) _ _ h
        (Bounded-send_request n b e _ g s h))
      h
perform-Bounded toggles_screen s h = unfold toggle_screen_share in ground arith
perform-Bounded (has_toggled g) s h = unfold screen_share_toggled in ground arith
perform-Bounded (captures g k x) s h = unfold screen_captured in ground arith
perform-Bounded (shares n b i e g k c x) s h = Bounded-shares n b i e g k c x s h
perform-Bounded (fails_screen g k) s h = unfold screen_share_failed in ground arith
perform-Bounded (stops_screen b g k c) s h = unfold stop_screen_share in ground arith
perform-Bounded (has_stopped n b i e g k c) s h = Bounded-stopped n b i e g k c s h
perform-Bounded (stops_audio g k) s h = Bounded-stops_audio g k s h
perform-Bounded (changes_microphone g k old new) s h = unfold microphone_changed in ground arith
perform-Bounded (times_out e g k) s h = Bounded-times_out e g k s h

-- Whatever happens, at most 32 calls that are over and 32 orphaned starts are remembered, and at most
-- 129 requests wait for an answer.
pub Reach-Bounded : {s : Facade} → Reach s → Bounded s
Reach-Bounded begun = ground arith
Reach-Bounded (then_does {s} a r ok) = perform-Bounded a s (Reach-Bounded r)
