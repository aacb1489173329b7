-- ===== src/Call/Screen.antt =====
-- Sharing the screen and changing the microphone during a call: `toggleScreenShare`,
-- `startScreenShare`, `stopScreenShare`, `stopScreenShareAudio` and `selectInputDevice` of
-- home/call-facade.service.ts, a function for each stretch that writes the state. The connection and
-- the call are those that the method has kept.
use zwei.Common.{ℕ, Bool, true, false, not, ◌&&◌, ◌||◌, none, some, ◌∷◌, if◌then◌else◌, String}
use zwei.Js.Text.{Text, is_empty, codes}
use zwei.Js.Value.{Value, obj, field, str, no_fields}
use zwei.Call.{Facade, CallPhase, active, stop_stream, offer, is_current_generation, set_error}
use zwei.Call.Media.{same_connection, send_signal}

-- The stream that the browser captured, whether its video is live still, whether it has audio and
-- that has ended, and whether the connection has sent video before.
pub record Capture : Type 0 where
  pub stream : ℕ
  pub live : Bool
  pub audio : Bool
  pub audio_ended : Bool
  pub has_sender : Bool

-- `toggleScreenShare` up to the queue, and behind it.
unfoldable pub toggle_screen_share : Facade → Facade
toggle_screen_share s =
    if s.state.screen_share_transition
    then s
    else record s { state = record s.state { screen_share_transition = true } }

unfoldable pub screen_share_toggled : ℕ → Facade → Facade
screen_share_toggled generation s =
    if is_current_generation generation s
    then record s { state = record s.state { screen_share_transition = false } }
    else s

abbrev pub is_current_connection : ℕ → ℕ → Facade → Bool
is_current_connection generation connection s =
    is_current_generation generation s && same_connection s.connection connection

-- `createAndSendOffer` begins.
abbrev pub offer_again : ℕ → ℕ → Facade → Facade
offer_again generation connection s =
    if is_current_connection generation connection s
    then record s { log = offer connection ∷ s.log }
    else s

abbrev pub is_active : CallPhase → Bool
is_active active = true
is_active _ = false

-- `startScreenShare` behind `getDisplayMedia`, where it goes no further.
unfoldable pub screen_captured : ℕ → ℕ → Capture → Facade → Facade
screen_captured generation connection capture s =
    if not (is_current_connection generation connection s) || not (is_active s.state.phase)
    then record s { log = stop_stream capture.stream ∷ s.log }
    else if not capture.live
    then record s {
      state = record s.state { status_label = "No live screen was selected." };
      log = stop_stream capture.stream ∷ s.log;
    }
    else s

abbrev lifecycle : String → Value
lifecycle type = obj (field (codes "type") (str (codes type)) no_fields)

abbrev sharing_label : Bool → Bool → String
sharing_label wanted audio =
    if wanted && not audio
    then "You are sharing your screen. System audio was not available."
    else "You are sharing your screen."

-- `startScreenShare` behind the senders.
unfoldable pub screen_shared : ℕ → Bool → Text → Text → ℕ → ℕ → Text → Capture → Facade → Facade
screen_shared now accepts request_id error_id generation connection call_id capture s =
    if not (is_current_connection generation connection s) || not capture.live
    then (let t = if capture.has_sender then offer_again generation connection s else s in
        record t { log = stop_stream capture.stream ∷ t.log })
    else if capture.audio && capture.audio_ended
    then record s { log = stop_stream capture.stream ∷ s.log }
    else offer_again generation connection (
        send_signal now accepts request_id error_id (lifecycle "screen-share-started") generation
          call_id
          (record s {
            state = record s.state {
              screen_share_stream = some capture.stream;
              screen_share_audio_active = capture.audio;
              status_label = sharing_label s.state.screen_share_audio_enabled capture.audio;
              error_label = none;
            };
          }))

-- Its `catch`.
unfoldable pub screen_share_failed : ℕ → ℕ → Facade → Facade
screen_share_failed generation stream s =
    let t = record s { log = stop_stream stream ∷ s.log } in
    if is_current_generation generation t
    then record t {
      state = record t.state {
        status_label = "Screen sharing could not start.";
        error_label = some "Screen sharing could not start.";
      };
    }
    else t

-- `stopScreenShare`, up to the senders and behind them; `owns` tells whether the track that has ended,
-- if it is given one, is of the stream that is shared.
unfoldable pub stop_screen_share : Bool → ℕ → ℕ → Text → Facade → Facade
stop_screen_share owns generation connection call_id s =
    if not (is_current_connection generation connection s) || is_empty call_id
    then s
    else elim s.state.screen_share_stream [
      | none ↦ s
      | some stream ↦ if not owns then s else record s {
        state = record s.state {
          screen_share_stream = none;
          screen_share_audio_active = false;
          status_label = "Screen sharing stopped.";
        };
        log = stop_stream stream ∷ s.log;
      }
    ]

unfoldable pub screen_share_stopped : ℕ → Bool → Text → Text → ℕ → ℕ → Text → Facade → Facade
screen_share_stopped now accepts request_id error_id generation connection call_id s =
    if not (is_current_connection generation connection s)
    then s
    else offer_again generation connection (
        send_signal now accepts request_id error_id (lifecycle "screen-share-stopped") generation
          call_id s)

-- `stopScreenShareAudio` behind the sender.
unfoldable pub screen_audio_stopped : ℕ → ℕ → Facade → Facade
screen_audio_stopped generation connection s =
    if not (is_current_connection generation connection s)
    then s
    else offer_again generation connection (record s {
      state = record s.state {
        screen_share_audio_active = false;
        status_label = "Screen sharing continues without system audio.";
      };
    })

-- `selectInputDeviceNow` behind the sender: `current` is the stream that it replaces.
unfoldable pub microphone_changed : ℕ → ℕ → ℕ → ℕ → Facade → Facade
microphone_changed generation connection current replacement s =
    if not (is_current_connection generation connection s)
    then record s { log = stop_stream replacement ∷ s.log }
    else record s {
      state = record s.state {
        local_stream = some replacement;
        error_label = none;
        status_label = "Microphone changed.";
      };
      log = stop_stream current ∷ s.log;
    }

-- The timer of `replaceTrack`.
unfoldable pub replace_timed_out : Text → ℕ → ℕ → Facade → Facade
replace_timed_out error_id generation connection s =
    if is_current_connection generation connection s
    then set_error error_id "Call ended because media could not be updated safely." generation s
    else s
