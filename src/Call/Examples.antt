-- ===== src/Call/Examples.antt =====
-- A run of a direct call of home/call-facade.service.ts.
use zwei.Common.{◌≡◌, refl, true, false, none, some, ◌∷◌, [], List, arith}
use zwei.Js.Text.{codes}
use zwei.Call.{
  Facade, CallPayload, initial, active, terminal, set_error, begin_call_generation, shrink,
}
use zwei.Call.Requests.{
  send_request, prune_pending_requests, drop_expired, set, clear, clear_pending_requests,
}
use zwei.Call.Control.{start, start_granted, close}
use zwei.Call.Events.{
  ringing_event, accepted_event, ended_event, handle_event, handle_ringing, take_accepted, adopt,
}
use zwei.Call.Media.{
  accepted_begins, accepted_goes_on, is_acceptable, create_connection, connected, apply_signals,
  audio_track, send_signal,
}
use zwei.Call.Screen.{Capture, screen_shared}
use zwei.Call.Steps.{
  Action, shares, starts, microphone, hears, begins_accepted, goes_on, hears_audio, perform, Reach,
  begun, then_does,
}
use zwei.Call.Steps.Rest.{Rests}
use zwei.Call.Steps.Rest.Released.{Releases, Reach-Releases}
use zwei.Call.Steps.Bounds.{Bounded}
use zwei.Call.Steps.Bounds.Reached.{Reach-Bounded}
use zwei.Call.Steps.Retired.{Heard, hear_all, IsSame, over_call-IsSame}
use zwei.Call.Steps.Late.Reached.{IsIgnored, run, late_answer}

abbrev payload : CallPayload
payload = record {
  call_id = codes "call";
  conversation_id = codes "chat";
  caller_id = codes "u1";
  recipient_id = codes "u2";
  support_ref = none;
}

abbrev asked : Facade
asked = perform (starts (codes "chat") (codes "u2")) initial

abbrev calling : Facade
calling =
    perform (microphone 0 true (codes "r1") (codes "e1") (codes "chat") (codes "u2") 1 7) asked

abbrev ringing : Facade
ringing = perform (hears 1 (codes "r2") (ringing_event payload)) calling

abbrev talking : Facade
talking = perform (hears_audio 1 0 (codes "call")) (
    perform (goes_on (codes "e2") true payload 1 (some 7) (some 7)) (
      perform (begins_accepted payload)
        (perform (hears 2 (codes "r3") (accepted_event payload)) ringing)))

ringing-Reach : Reach ringing
ringing-Reach =
    then_does (hears 1 (codes "r2") (ringing_event payload))
      (then_does (microphone 0 true (codes "r1") (codes "e1") (codes "chat") (codes "u2") 1 7)
        (then_does (starts (codes "chat") (codes "u2")) begun tt) tt)
      tt

ringing_id : ringing.state.call_id ≡ some (codes "call")
unfolding perform start begin_call_generation start_granted send_request prune_pending_requests
    shrink drop_expired set handle_event handle_ringing adopt clear_pending_requests clear
ringing_id = refl

talking_active : (talking.state.phase ≡ active) × (talking.state.local_stream ≡ some 7)
unfolding perform start begin_call_generation start_granted send_request prune_pending_requests
    shrink drop_expired set handle_event handle_ringing adopt clear_pending_requests clear
    take_accepted accepted_begins is_acceptable accepted_goes_on create_connection connected
    apply_signals audio_track
talking_active = (refl, refl)

-- The caller shares the screen.
abbrev capture : Capture
capture = record { stream = 9; live = true; audio = false; audio_ended = false; has_sender = false }

abbrev sharing : Facade
sharing = perform (shares 3 true (codes "r7") (codes "e7") 1 0 (codes "call") capture) talking

talking-Reach : Reach talking
talking-Reach =
    then_does (hears_audio 1 0 (codes "call"))
      (then_does (goes_on (codes "e2") true payload 1 (some 7) (some 7))
        (then_does (begins_accepted payload)
          (then_does (hears 2 (codes "r3") (accepted_event payload)) ringing-Reach tt) tt)
        tt)
      tt

sharing-Reach : Reach sharing
sharing-Reach =
    then_does (shares 3 true (codes "r7") (codes "e7") 1 0 (codes "call") capture) talking-Reach tt

sharing_shares : sharing.state.screen_share_stream ≡ some 9
unfolding perform start begin_call_generation start_granted send_request prune_pending_requests
    shrink drop_expired set handle_event handle_ringing adopt clear_pending_requests clear
    take_accepted accepted_begins is_acceptable accepted_goes_on create_connection connected
    apply_signals audio_track screen_shared send_signal
sharing_shares = refl

Reach-Releases_example :
    Rests sharing
    × Releases sharing (terminal "Call ended." sharing.call_generation sharing)
    × Releases sharing (set_error (codes "e9") "Call unavailable." sharing.call_generation sharing)
    × Releases sharing (close (codes "r9") sharing)
Reach-Releases_example =
    Reach-Releases "Call ended." "Call unavailable." (codes "e9") (codes "r9") sharing-Reach

Reach-Bounded_example : Bounded ringing
Reach-Bounded_example = Reach-Bounded ringing-Reach

-- The callee answers and hangs up, and the call rings again, when it is over.
abbrev too_late : List Heard
too_late =
    (3, codes "r4", ringing_event payload)
    ∷ (4, codes "r5", accepted_event payload)
    ∷ (5, codes "r6", ended_event payload)
    ∷ []

over_call-IsSame_example :
    IsSame
      (terminal "Call ended." ringing.call_generation ringing)
      (hear_all too_late (terminal "Call ended." ringing.call_generation ringing))
    × IsSame (set_error (codes "e3") "Call unavailable." ringing.call_generation ringing) (
        hear_all too_late
          (set_error (codes "e3") "Call unavailable." ringing.call_generation ringing))
over_call-IsSame_example =
    over_call-IsSame (codes "e3") (codes "call") "Call ended." "Call unavailable." too_late ringing
      ringing-Reach ringing_id refl (refl, (refl, (refl, tt)))

-- The microphone is granted when the call was closed and another one has begun.
abbrev granted : Action
granted = microphone 0 true (codes "r1") (codes "e1") (codes "chat") (codes "u2") 1 7

abbrev again : List Action
again = starts (codes "chat") (codes "u2") ∷ []

late_answer_example :
    IsIgnored granted (run again (terminal "Call ended." asked.call_generation asked))
    × IsIgnored granted
        (run again (set_error (codes "e2") "Call unavailable." asked.call_generation asked))
    × IsIgnored granted (run again (close (codes "r2") asked))
unfolding perform start begin_call_generation
late_answer_example =
    late_answer granted 1 again "Call ended." "Call unavailable." (codes "e2") (codes "r2") asked
      refl (omega arith)
