-- ===== src/Alerts/Examples.antt =====
-- A run of the alerts of notifications/notification.service.ts.
use zwei.Common.{◌≡◌, refl, false, List, [], ◌∷◌}
use zwei.Alerts.{
  off, sounds, granted, set_mode, start_call_ringtone, stop_call_ringtone, register_unlock_listener,
  remove_unlock_listener,
}
use zwei.Alerts.Quiet.{Action, sets_mode, starts_ringing, rings, perform, run, off_is_quiet}

abbrev silenced : List Action
silenced = sets_mode off ∷ starts_ringing ∷ sets_mode sounds ∷ []

silenced_off : (run silenced granted).alert_mode ≡ off
unfolding perform set_mode start_call_ringtone stop_call_ringtone register_unlock_listener
    remove_unlock_listener
silenced_off = refl

off_is_quiet_example :
    ((run silenced granted).ringing ≡ false)
    × ((run silenced granted).unlock_listener_registered ≡ false)
    × ((perform rings (run silenced granted)).log ≡ (run silenced granted).log)
off_is_quiet_example = off_is_quiet rings silenced granted silenced_off refl
