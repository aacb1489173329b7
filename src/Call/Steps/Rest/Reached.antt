-- ===== src/Call/Steps/Rest/Reached.antt =====
-- The invariant of Rest in the states of `CallFacade` of home/call-facade.service.ts.
use zwei.Common.{not, arith}
use zwei.Call.{Facade, dismiss, is_current_generation, call_decline, call_cancel, call_end}
use zwei.Call.Control.{set_screen_share_audio_enabled, microphone_failure, decline, cancel, end}
use zwei.Call.Steps.{
  Action, shows_ringing, starts, microphone, no_microphone, accepts, declines, cancels, ends, mutes,
  enables_audio, dismisses, closes, readies, hears, begins_accepted, goes_on, signals, hears_audio,
  fails, finds_candidate, toggles_screen, has_toggled, captures, shares, fails_screen, stops_screen,
  has_stopped, stops_audio, changes_microphone, times_out, perform, Allowed, Reach, begun,
  then_does,
}
use zwei.Call.Steps.Rest.{Rests, Rests-set_error, Rests-if}
use zwei.Call.Steps.Rest.Control.{
  Rests-begin, Rests-shows, Rests-granted, Rests-accept, Rests-control, Rests-close, Rests-ready,
  Rests-mute,
}
use zwei.Call.Steps.Rest.Events.{Rests-event}
use zwei.Call.Steps.Rest.Screen.{
  Rests-toggles, Rests-toggled, Rests-captures, Rests-shares, Rests-fails_screen, Rests-stops,
  Rests-stopped, Rests-stops_audio, Rests-changes, Rests-times_out,
}
use zwei.Call.Steps.Rest.Media.{
  Rests-begins, Rests-audio, Rests-fails, Rests-goes_on, Rests-signal_now, Rests-candidate,
}

perform-Rests : (a : Action) (s : Facade) → Rests s → Allowed a s → Rests (perform a s)
unfolding perform
perform-Rests (shows_ringing a b c) s h ok = Rests-shows a b c s h
perform-Rests (starts a b) s h ok = Rests-begin a b s h
perform-Rests (microphone n b i e c p g k) s h ok = Rests-granted n b i e c p g k s h
perform-Rests (no_microphone e l g) s h ok =
    unfold microphone_failure in
    Rests-if (not (is_current_generation g s)) _ _ h (Rests-set_error e l g s h)
perform-Rests (accepts n b i e) s h ok = Rests-accept n b i e s h
perform-Rests (declines n b i e) s h ok =
    unfold decline in Rests-control n b i e call_decline "Call declined." s h
perform-Rests (cancels n b i e) s h ok =
    unfold cancel in Rests-control n b i e call_cancel "Call cancelled." s h
perform-Rests (ends n b i e) s h ok = unfold end in Rests-control n b i e call_end "Call ended." s h
perform-Rests (enables_audio b) s h ok = unfold set_screen_share_audio_enabled in ground arith
perform-Rests mutes s h ok = Rests-mute s h
perform-Rests dismisses s h ok = unfold dismiss in ground arith
perform-Rests (closes i) s h ok = Rests-close i s
perform-Rests (readies e b) s h ok = Rests-ready e b s h
perform-Rests (hears n i event) s h ok = Rests-event n i event s h
perform-Rests (begins_accepted q) s h ok = Rests-begins q s h
perform-Rests (goes_on e b q g before stream) s h ok = Rests-goes_on e b q g before stream s h
perform-Rests (signals i v) s h ok = Rests-signal_now i v s h
perform-Rests (hears_audio g k i) s h ok = Rests-audio g k i s h
perform-Rests (fails e g k) s h ok = Rests-fails e g k s h
perform-Rests (finds_candidate n b i e v g k c) s h ok = Rests-candidate n b i e v g k c s h
perform-Rests toggles_screen s h ok = Rests-toggles s h
perform-Rests (has_toggled g) s h ok = Rests-toggled g s h
perform-Rests (captures g k x) s h ok = Rests-captures g k x s h
perform-Rests (shares n b i e g k c x) s h ok = Rests-shares n b i e g k c x s h
perform-Rests (fails_screen g k) s h ok = Rests-fails_screen g k s h
perform-Rests (stops_screen b g k c) s h ok = Rests-stops b g k c s h
perform-Rests (has_stopped n b i e g k c) s h ok = Rests-stopped n b i e g k c s h
perform-Rests (stops_audio g k) s h ok = Rests-stops_audio g k s h
perform-Rests (changes_microphone g k old new) s h ok = Rests-changes g k old new s h
perform-Rests (times_out e g k) s h ok = Rests-times_out e g k s h

-- Every state that can be reached.
pub Reach-Rests : {s : Facade} → Reach s → Rests s
Reach-Rests begun = ground arith
Reach-Rests (then_does {s} a r ok) = perform-Rests a s (Reach-Rests r) ok
