-- ===== src/Call/Steps/Bounds/Screen.antt =====
-- What sharing the screen, in home/call-facade.service.ts, leaves to remember.
use zwei.Common.{ℕ, Bool, not, ◌&&◌, ◌||◌}
use zwei.Js.Text.{Text, is_empty}
use zwei.Js.Value.{Value}
use zwei.Call.{Facade, is_current_generation}
use zwei.Call.Media.{send_signal}
use zwei.Call.Screen.{
  Capture, screen_shared, screen_share_stopped, screen_audio_stopped, replace_timed_out,
  is_current_connection, offer_again,
}
use zwei.Call.Steps.Bounds.{
  Bounded, Bounded-logged, Bounded-state, Bounded-if, Bounded-set_error, Bounded-send_request,
}

Bounded-offer_again : (g k : ℕ) (s : Facade) → Bounded s → Bounded (offer_again g k s)
Bounded-offer_again g k s h = Bounded-if (is_current_connection g k s) _ _ (Bounded-logged _ s h) h

Bounded-signals :
    (n : ℕ) (b : Bool) (i e : Text) (v : Value) (g : ℕ) (c : Text) (s : Facade)
    → Bounded s
    → Bounded (send_signal n b i e v g c s)
unfolding send_signal
Bounded-signals n b i e v g c s h =
    Bounded-if (is_empty c || not (is_current_generation g s)) _ _ h
      (Bounded-send_request n b e _ g s h)

pub Bounded-shares :
    (n : ℕ) (b : Bool) (i e : Text) (g k : ℕ) (c : Text) (x : Capture) (s : Facade)
    → Bounded s
    → Bounded (screen_shared n b i e g k c x s)
unfolding screen_shared
Bounded-shares n b i e g k c x s h =
    Bounded-if (not (is_current_connection g k s) || not x.live) _ _
      (Bounded-logged _ _ (Bounded-if x.has_sender _ _ (Bounded-offer_again g k s h) h))
      (Bounded-if (x.audio && x.audio_ended) _ _ (Bounded-logged _ s h)
        (Bounded-offer_again g k _ (Bounded-signals n b i e _ g c _ (Bounded-state _ s h))))

pub Bounded-stopped :
    (n : ℕ) (b : Bool) (i e : Text) (g k : ℕ) (c : Text) (s : Facade)
    → Bounded s
    → Bounded (screen_share_stopped n b i e g k c s)
unfolding screen_share_stopped
Bounded-stopped n b i e g k c s h =
    Bounded-if (not (is_current_connection g k s)) _ _ h
      (Bounded-offer_again g k _ (Bounded-signals n b i e _ g c s h))

pub Bounded-stops_audio : (g k : ℕ) (s : Facade) → Bounded s → Bounded (screen_audio_stopped g k s)
unfolding screen_audio_stopped
Bounded-stops_audio g k s h =
    Bounded-if (not (is_current_connection g k s)) _ _ h
      (Bounded-offer_again g k _ (Bounded-state _ s h))

pub Bounded-times_out :
    (e : Text) (g k : ℕ) (s : Facade) → Bounded s → Bounded (replace_timed_out e g k s)
unfolding replace_timed_out
Bounded-times_out e g k s h =
    Bounded-if (is_current_connection g k s) _ _ (Bounded-set_error e _ g s h) h
