-- ===== src/Alerts/Quiet.antt =====
-- What `BrowserNotificationService` of notifications/notification.service.ts does while alerts are off.
use zwei.Common.{◌≡◌, refl, Bool, true, false, List, [], ◌∷◌, arith}
use zwei.Js.Text.{Text}
use zwei.Alerts.{
  Alerts, AlertMode, off, sounds, notifications, BrowserPermission, initial, stop_call_ringtone,
  start_call_ringtone, ring_again, set_mode, unlock_on_gesture, unlocked, prepare_capabilities,
  prepared, show_message_notification, show_call_notification, play_message_sound,
  remove_unlock_listener, register_unlock_listener, show_alert,
}

pub data Action : Type 0 where
  sets_mode : AlertMode → Action
  starts_ringing stops_ringing rings gestures plays : Action
  answers : Bool → Action
  prepares : AlertMode → Action
  learns : BrowserPermission → Action
  tells_message tells_call : Text → Action

unfoldable pub perform : Action → Alerts → Alerts
perform (sets_mode m) s = set_mode m s
perform starts_ringing s = start_call_ringtone s
perform stops_ringing s = stop_call_ringtone s
perform rings s = ring_again s
perform gestures s = unlock_on_gesture s
perform plays s = play_message_sound s
perform (answers b) s = unlocked b s
perform (prepares m) s = prepare_capabilities m s
perform (learns p) s = prepared p s
perform (tells_message c) s = show_message_notification c s
perform (tells_call c) s = show_call_notification c s

abbrev pub run : List Action → BrowserPermission → Alerts
run [] p = initial p
run (a ∷ r) p = perform a (run r p)

abbrev IsOffQuiet : Alerts → Type 0
IsOffQuiet s = s.alert_mode ≡ off → (s.ringing ≡ false) × (s.unlock_listener_registered ≡ false)

perform-IsOffQuiet : (a : Action) (s : Alerts) → IsOffQuiet s → IsOffQuiet (perform a s)
unfolding perform set_mode start_call_ringtone stop_call_ringtone ring_again unlock_on_gesture
    play_message_sound unlocked prepare_capabilities prepared show_message_notification
    show_call_notification register_unlock_listener remove_unlock_listener show_alert
perform-IsOffQuiet (sets_mode off) s h = ground arith
perform-IsOffQuiet (sets_mode sounds) s h = ground arith
perform-IsOffQuiet (sets_mode notifications) s h = ground arith
perform-IsOffQuiet starts_ringing s h = ground arith
perform-IsOffQuiet stops_ringing s h = ground arith
perform-IsOffQuiet rings s h = ground arith
perform-IsOffQuiet gestures s h = ground arith
perform-IsOffQuiet plays s h = ground arith
perform-IsOffQuiet (answers b) s h = ground arith
perform-IsOffQuiet (prepares m) s h = ground arith
perform-IsOffQuiet (learns p) s h = ground arith
perform-IsOffQuiet (tells_message c) s h = ground arith
perform-IsOffQuiet (tells_call c) s h = ground arith

run-IsOffQuiet : (actions : List Action) (p : BrowserPermission) → IsOffQuiet (run actions p)
run-IsOffQuiet [] p = λ e. (refl, refl)
run-IsOffQuiet (a ∷ r) p = perform-IsOffQuiet a (run r p) (run-IsOffQuiet r p)

abbrev is_preparing : Action → Bool
is_preparing (prepares m) = true
is_preparing _ = false

off_does_nothing :
    (a : Action) (s : Alerts)
    → IsOffQuiet s
    → s.alert_mode ≡ off
    → is_preparing a ≡ false
    → (perform a s).log ≡ s.log
unfolding perform set_mode start_call_ringtone stop_call_ringtone ring_again unlock_on_gesture
    play_message_sound unlocked prepare_capabilities prepared show_message_notification
    show_call_notification register_unlock_listener remove_unlock_listener show_alert
off_does_nothing (sets_mode off) s h e q = ground arith
off_does_nothing (sets_mode sounds) s h e q = ground arith
off_does_nothing (sets_mode notifications) s h e q = ground arith
off_does_nothing starts_ringing s h e q = ground arith
off_does_nothing stops_ringing s h e q = ground arith
off_does_nothing rings s h e q = ground arith
off_does_nothing gestures s h e q = ground arith
off_does_nothing plays s h e q = ground arith
off_does_nothing (answers b) s h e q = ground arith
off_does_nothing (prepares m) s h e q = ground arith
off_does_nothing (learns p) s h e q = ground arith
off_does_nothing (tells_message c) s h e q = ground arith
off_does_nothing (tells_call c) s h e q = ground arith

-- After any actions, newest first, while alerts are off nothing but the preparation of the browser is
-- ever heard or shown: no ringtone goes on, no listener waits, and no action adds an alert.
pub off_is_quiet :
    (a : Action) (actions : List Action) (p : BrowserPermission)
    → (run actions p).alert_mode ≡ off
    → is_preparing a ≡ false
    → ((run actions p).ringing ≡ false)
      × ((run actions p).unlock_listener_registered ≡ false)
      × ((perform a (run actions p)).log ≡ (run actions p).log)
off_is_quiet a actions p e q =
    let (still, unheard) = run-IsOffQuiet actions p e in
    (still, unheard, off_does_nothing a (run actions p) (run-IsOffQuiet actions p) e q)
