-- ===== src/Call/Steps/Rest/Screen.antt =====
-- Sharing the screen and changing the microphone, in home/call-facade.service.ts, and the invariant of
-- Rest.
use zwei.Common.{ℕ, ◌≡◌, Bool, true, false, not, ◌&&◌, ◌||◌, arith, &&-true, not-false, ||-false}
use zwei.Js.Text.{Text, is_empty}
use zwei.Js.Value.{Value}
use zwei.Call.{Facade, is_resting, is_current_generation}
use zwei.Call.Media.{send_signal}
use zwei.Call.Screen.{
  Capture, toggle_screen_share, screen_share_toggled, screen_captured, screen_shared,
  screen_share_failed, stop_screen_share, screen_share_stopped, screen_audio_stopped,
  microphone_changed, replace_timed_out, is_current_connection, offer_again,
}
use zwei.Call.Steps.Rest.{
  Rests, Rests-set_error, Rests-busy, not_timed, Rests-if, Rests-send_request, Rests-when,
  Rests-logged,
}
use zwei.Call.Steps.Rest.Media.{linked}

pub Rests-toggles : (s : Facade) → Rests s → Rests (toggle_screen_share s)
unfolding toggle_screen_share
Rests-toggles s h = ground arith

pub Rests-toggled : (g : ℕ) (s : Facade) → Rests s → Rests (screen_share_toggled g s)
unfolding screen_share_toggled
Rests-toggled g s h = ground arith

pub Rests-captures :
    (g k : ℕ) (x : Capture) (s : Facade) → Rests s → Rests (screen_captured g k x s)
unfolding screen_captured
Rests-captures g k x s h = ground arith

pub Rests-fails_screen : (g k : ℕ) (s : Facade) → Rests s → Rests (screen_share_failed g k s)
unfolding screen_share_failed
Rests-fails_screen g k s h = ground arith

pub Rests-stops :
    (b : Bool) (g k : ℕ) (c : Text) (s : Facade) → Rests s → Rests (stop_screen_share b g k c s)
unfolding stop_screen_share
Rests-stops b g k c s h = ground arith

pub Rests-offer_again : (g k : ℕ) (s : Facade) → Rests s → Rests (offer_again g k s)
Rests-offer_again g k s h = ground arith

-- The connection that a method has kept belongs to a call under way.
busy_at :
    (g k : ℕ) (s : Facade)
    → Rests s
    → is_current_connection g k s ≡ true
    → is_resting s.state.phase ≡ false
busy_at g k s h current = linked k s h (&&-true _ _ current).1

Rests-signals :
    (n : ℕ) (b : Bool) (i e : Text) (v : Value) (g : ℕ) (c : Text) (s : Facade)
    → Rests s
    → is_resting s.state.phase ≡ false
    → Rests (send_signal n b i e v g c s)
unfolding send_signal
Rests-signals n b i e v g c s h busy =
    Rests-if (is_empty c || not (is_current_generation g s)) _ _ h
      (Rests-send_request n b e _ g s h busy)

pub Rests-shares :
    (n : ℕ) (b : Bool) (i e : Text) (g k : ℕ) (c : Text) (x : Capture) (s : Facade)
    → Rests s
    → Rests (screen_shared n b i e g k c x s)
unfolding screen_shared
Rests-shares n b i e g k c x s h =
    Rests-when (not (is_current_connection g k s) || not x.live) _ _
      (Rests-logged _ _ (Rests-if x.has_sender _ _ (Rests-offer_again g k s h) h))
      λ current.
        (let busy = busy_at g k s h (not-false _ (||-false _ _ current).0) in
          let off = not_timed s h busy in
          Rests-if (x.audio && x.audio_ended) _ _ (Rests-logged _ s h)
            (Rests-offer_again g k _ (Rests-signals n b i e _ g c _ (Rests-busy _ busy off) busy)))

pub Rests-stopped :
    (n : ℕ) (b : Bool) (i e : Text) (g k : ℕ) (c : Text) (s : Facade)
    → Rests s
    → Rests (screen_share_stopped n b i e g k c s)
unfolding screen_share_stopped
Rests-stopped n b i e g k c s h = Rests-when (not (is_current_connection g k s)) _ _ h λ current.
    Rests-offer_again g k _
      (Rests-signals n b i e _ g c s h (busy_at g k s h (not-false _ current)))

pub Rests-stops_audio : (g k : ℕ) (s : Facade) → Rests s → Rests (screen_audio_stopped g k s)
unfolding screen_audio_stopped
Rests-stops_audio g k s h =
    Rests-if (not (is_current_connection g k s)) _ _ h (Rests-offer_again g k _ (ground arith))

pub Rests-changes :
    (g k old new : ℕ) (s : Facade) → Rests s → Rests (microphone_changed g k old new s)
unfolding microphone_changed
Rests-changes g k old new s h =
    Rests-when (not (is_current_connection g k s)) _ _ (Rests-logged _ s h) λ current.
      (let busy = busy_at g k s h (not-false _ current) in Rests-busy _ busy (not_timed s h busy))

pub Rests-times_out :
    (e : Text) (g k : ℕ) (s : Facade) → Rests s → Rests (replace_timed_out e g k s)
unfolding replace_timed_out
Rests-times_out e g k s h = Rests-if (is_current_connection g k s) _ _ (Rests-set_error e _ g s h) h
