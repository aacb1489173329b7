-- ===== src/Call/Control.antt =====
-- What the user does to a call, and what the connection to the server does: the public methods of
-- home/call-facade.service.ts and the subscription to `readyChanges`.
use zwei.Common.{
  ℕ, Bool, true, false, not, ◌&&◌, ◌||◌, Option, none, some, List, [], ◌∷◌, if◌then◌else◌, String,
  any, is_some,
}
use zwei.Js.Text.{Text, text_eq, is_empty, codes}
use zwei.Call.{
  ScreenShareQuality, q360p, q720p, q1080p, q2k, CallPhase, CallState, Facade, RequestType, Effect,
  requesting, outgoing, incoming, connecting, caller, recipient, call_start, call_accept,
  call_decline, call_cancel, call_end, send, stop_stream, mute_stream, can_start, is_resting,
  is_truthy, idle_state, shrink, add, set_error, terminal, cleanup, begin_call_generation,
  invalidate_call_generation, is_current_generation, control,
}
use zwei.Call.Requests.{send_request}

-- `showRecoveredRinging`.
unfoldable pub show_recovered_ringing : Text → Text → Text → Facade → Facade
show_recovered_ringing call_id conversation_id caller_id s =
    if is_empty call_id || is_empty conversation_id || is_empty caller_id || not (can_start s)
    then s
    else (let t = begin_call_generation s in
        record t {
          dismiss_timer = false;
          state = record idle_state {
            phase = incoming;
            role = some recipient;
            call_id = some call_id;
            conversation_id = some conversation_id;
            peer_id = some caller_id;
            status_label = "Incoming audio call. Choose Accept to answer.";
          };
        })

-- `start`, up to the request for the microphone.
unfoldable pub start : Text → Text → Facade → Facade
start conversation_id peer_id s =
    if not (can_start s)
    then s
    else (let t = begin_call_generation s in
        record t {
          dismiss_timer = false;
          state = record t.state {
            phase = requesting;
            role = some caller;
            call_id = none;
            support_ref = none;
            conversation_id = some conversation_id;
            peer_id = some peer_id;
            muted = false;
            status_label = "Requesting microphone access...";
          };
        })

abbrev pub is_phase_requesting : CallPhase → Bool
is_phase_requesting requesting = true
is_phase_requesting _ = false

-- `start`, from the stream that `requestMicrophone` gives: it belongs to the generation that began.
unfoldable pub start_granted : ℕ → Bool → Text → Text → Text → Text → ℕ → ℕ → Facade → Facade
start_granted now accepts request_id error_id conversation_id peer_id generation stream s =
    if not (is_current_generation generation s) || not (is_phase_requesting s.state.phase)
    then record s { log = stop_stream stream ∷ s.log }
    else (let t = record s {
      state = record s.state {
        phase = outgoing;
        role = some caller;
        conversation_id = some conversation_id;
        peer_id = some peer_id;
        muted = false;
        local_stream = some stream;
        status_label = "Calling...";
      };
    } in
        let (asked, sent) =
          send_request now accepts error_id (control call_start request_id conversation_id)
            generation t in
        if sent then asked else record asked { log = stop_stream stream ∷ asked.log })

-- `microphoneFailure`, where it ends the call.
unfoldable pub microphone_failure : Text → String → ℕ → Facade → Facade
microphone_failure error_id label generation s =
    if not (is_current_generation generation s) then s else set_error error_id label generation s

abbrev pub is_incoming : CallPhase → Bool
is_incoming incoming = true
is_incoming _ = false

abbrev pub is_outgoing : CallPhase → Bool
is_outgoing outgoing = true
is_outgoing _ = false

abbrev pub or_empty : Option Text → Text
or_empty none = []
or_empty (some s) = s

-- `accept`.
unfoldable pub accept : ℕ → Bool → Text → Text → Facade → Facade
accept now accepts request_id error_id s =
    if not (is_incoming s.state.phase) || not (is_truthy s.state.call_id)
    then s
    else (send_request now accepts error_id
        (control call_accept request_id (or_empty s.state.call_id)) s.call_generation
        (record s {
          state = record s.state { phase = connecting; status_label = "Connecting call..." };
        })).0

-- `sendControl`, and `decline`, `cancel` and `end`, which differ in the type and the label.
unfoldable pub send_control : ℕ → Bool → Text → Text → RequestType → String → Facade → Facade
send_control now accepts request_id error_id type label s =
    if not (is_truthy s.state.call_id)
    then terminal label s.call_generation s
    else (let (asked, sent) =
          send_request now accepts error_id (control type request_id (or_empty s.state.call_id))
            s.call_generation s in
        if sent then terminal label s.call_generation asked else asked)

unfoldable pub decline : ℕ → Bool → Text → Text → Facade → Facade
unfolding send_control
decline now accepts request_id error_id s =
    send_control now accepts request_id error_id call_decline "Call declined." s

unfoldable pub cancel : ℕ → Bool → Text → Text → Facade → Facade
unfolding send_control
cancel now accepts request_id error_id s =
    send_control now accepts request_id error_id call_cancel "Call cancelled." s

unfoldable pub end : ℕ → Bool → Text → Text → Facade → Facade
unfolding send_control
end now accepts request_id error_id s =
    send_control now accepts request_id error_id call_end "Call ended." s

-- `toggleMute`.
unfoldable pub toggle_mute : Facade → Facade
toggle_mute s = elim s.state.local_stream [
  | none ↦ s
  | some stream ↦ record s {
    state = record s.state {
      muted = not s.state.muted;
      status_label = if s.state.muted then "Microphone on." else "Microphone muted.";
    };
    log = mute_stream stream (not s.state.muted) ∷ s.log;
  }
]

abbrev closing_type : CallPhase → RequestType
closing_type incoming = call_decline
closing_type outgoing = call_cancel
closing_type _ = call_end

abbrev pub log_closing : Text → CallState → List Effect → List Effect
log_closing request_id state l =
    if is_truthy state.call_id
    then send (control (closing_type state.phase) request_id (or_empty state.call_id)) ∷ l
    else l

-- `close`.
unfoldable pub close : Text → Facade → Facade
close request_id s =
    let t = cleanup (
      invalidate_call_generation
        (record s { dismiss_timer = false; log = log_closing request_id s.state s.log })) in
    record t { state = idle_state }

-- The loop that makes room among the orphaned starts, and `add`.
abbrev pub orphan : Option Text → List Text → List Text
orphan none xs = xs
orphan (some c) xs = add c (shrink 31 xs)

-- The subscription to `readyChanges`.
unfoldable pub ready_changes : Text → Bool → Facade → Facade
ready_changes error_id ready s =
    if ready || is_resting s.state.phase
    then s
    else set_error error_id "Realtime connection lost. Reconnecting..." s.call_generation (
        if not (is_truthy s.state.call_id) && is_truthy s.state.conversation_id
        then record s { orphaned_starts = orphan s.state.conversation_id s.orphaned_starts }
        else s)

-- `setScreenShareAudioEnabled`.
unfoldable pub set_screen_share_audio_enabled : Bool → Facade → Facade
set_screen_share_audio_enabled on s =
    if is_some s.state.screen_share_stream || s.state.screen_share_transition then s else record s {
      state = record s.state { screen_share_audio_enabled = on; screen_share_audio_active = false };
    }

-- `microphoneErrorLabel`, of the name of the error.
unfoldable pub microphone_error_label : Text → String
microphone_error_label name =
    if any (text_eq name) (codes "NotAllowedError" ∷ codes "PermissionDeniedError" ∷ [])
    then "Microphone permission was denied. Allow microphone access for this site and try again."
    else if text_eq name (codes "SecurityError")
    then "Microphone access is blocked by browser security settings."
    else if text_eq name (codes "NotFoundError")
    then "No microphone was found. Connect a microphone and try again."
    else if any (text_eq name) (codes "NotReadableError" ∷ codes "AbortError" ∷ [])
    then "The microphone is unavailable. Close other apps using it and try again."
    else "Microphone access is unavailable. Check the browser permission and microphone, then try again."

-- `screenShareDimensions`: the width and the height.
unfoldable pub screen_share_dimensions : ScreenShareQuality → ℕ × ℕ
screen_share_dimensions q360p = (640, 360)
screen_share_dimensions q720p = (1280, 720)
screen_share_dimensions q1080p = (1920, 1080)
screen_share_dimensions q2k = (2560, 1440)
