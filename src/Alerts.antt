-- ===== src/Alerts.antt =====
-- Which alerts the client gives: `BrowserNotificationService` and the ringtone of `WebAudioSoundPort`
-- of frontend-app/src/app/notifications/notification.service.ts, in a browser window.
pub mod Quiet
mod Examples
use zwei.Common.{
  ℕ, ◌≡◌, String, Bool, true, false, not, ◌&&◌, ◌||◌, Option, none, some, List, [], ◌∷◌,
  if◌then◌else◌,
}
use zwei.Js.Text.{Text}

-- `AlertMode`.
pub data AlertMode : Type 0 where
  off sounds notifications : AlertMode

-- `BrowserNotificationPermission`.
pub data BrowserPermission : Type 0 where
  default granted denied unsupported : BrowserPermission

-- What the browser is asked to do.
pub data Effect : Type 0 where
  show : String → Text → Effect
  play_message ring unlock : Effect

-- `ringing` is that the interval of the ringtone is set. `log` is what was done, the last first.
pub record Alerts : Type 0 where
  pub alert_mode : AlertMode
  pub permission : BrowserPermission
  pub unlock_listener_registered : Bool
  pub ringing : Bool
  pub log : List Effect

abbrev pub initial : BrowserPermission → Alerts
initial permission = record {
  alert_mode = off;
  permission = permission;
  unlock_listener_registered = false;
  ringing = false;
  log = [];
}

-- `areSoundsEnabled`.
abbrev pub are_sounds_enabled : AlertMode → Bool
are_sounds_enabled off = false
are_sounds_enabled sounds = true
are_sounds_enabled notifications = true

-- `stopCallRingtone` and `startCallRingtone`, with `stopCall` and `startCall`.
unfoldable pub stop_call_ringtone : Alerts → Alerts
stop_call_ringtone s = record s { ringing = false }

unfoldable pub start_call_ringtone : Alerts → Alerts
start_call_ringtone s =
    if not (are_sounds_enabled s.alert_mode) || s.ringing
    then s
    else record s { ringing = true; log = ring ∷ s.log }

-- The interval of the ringtone.
unfoldable pub ring_again : Alerts → Alerts
ring_again s = if s.ringing then record s { log = ring ∷ s.log } else s

-- `registerUnlockListener` and `removeUnlockListener`.
unfoldable pub register_unlock_listener : Alerts → Alerts
register_unlock_listener s = record s { unlock_listener_registered = true }

unfoldable pub remove_unlock_listener : Alerts → Alerts
remove_unlock_listener s = record s { unlock_listener_registered = false }

-- `setMode`.
unfoldable pub set_mode : AlertMode → Alerts → Alerts
unfolding stop_call_ringtone register_unlock_listener remove_unlock_listener
set_mode mode s =
    let t = record s { alert_mode = mode } in
    if are_sounds_enabled mode
    then register_unlock_listener t
    else remove_unlock_listener (stop_call_ringtone t)

-- `unlockOnGesture`, which runs while it is registered, and its continuation.
unfoldable pub unlock_on_gesture : Alerts → Alerts
unlock_on_gesture s =
    if not s.unlock_listener_registered
    then s
    else if are_sounds_enabled s.alert_mode
    then record s { unlock_listener_registered = false; log = unlock ∷ s.log }
    else record s { unlock_listener_registered = false }

unfoldable pub unlocked : Bool → Alerts → Alerts
unfolding register_unlock_listener remove_unlock_listener
unlocked works s =
    if works
    then remove_unlock_listener s
    else if are_sounds_enabled s.alert_mode
    then register_unlock_listener s
    else s

-- `prepareCapabilities`: its beginning, and the permission that it publishes in the end.
unfoldable pub prepare_capabilities : AlertMode → Alerts → Alerts
prepare_capabilities mode s =
    if are_sounds_enabled mode then record s { log = unlock ∷ s.log } else s

unfoldable pub prepared : BrowserPermission → Alerts → Alerts
prepared permission s = record s { permission = permission }

abbrev pub may_show : AlertMode → BrowserPermission → Bool
may_show notifications granted = true
may_show _ _ = false

-- The private `show`, `showMessageNotification`, `showCallNotification` and `playMessageSound`.
unfoldable pub show_alert : String → Text → Alerts → Alerts
show_alert title id s =
    if may_show s.alert_mode s.permission then record s { log = show title id ∷ s.log } else s

unfoldable pub show_message_notification : Text → Alerts → Alerts
unfolding show_alert
show_message_notification conversation_id s = show_alert "New message" conversation_id s

unfoldable pub show_call_notification : Text → Alerts → Alerts
unfolding show_alert
show_call_notification call_id s = show_alert "Incoming call" call_id s

unfoldable pub play_message_sound : Alerts → Alerts
play_message_sound s =
    if are_sounds_enabled s.alert_mode then record s { log = play_message ∷ s.log } else s
