-- ===== src/Call/Media.antt =====
-- What runs off the signaling queue, and the callbacks of the peer connection: `handleAccepted`,
-- `handleSignal`, `createConnection` and `sendSignal` of home/call-facade.service.ts.
use zwei.Common.{
  ℕ, ◌+◌, Bool, true, false, not, ◌&&◌, ◌||◌, Option, none, some, List, [], ◌∷◌, ◌++◌, ◌==◌,
  if◌then◌else◌, is_some,
}
use zwei.Js.Text.{Text, is_empty}
use zwei.Js.Value.{Value, prop, is_text}
use zwei.Call.{
  CallPhase, CallRole, CallPayload, Facade, Effect, connecting, active, call_accept, call_signal,
  stop_stream, apply, offer, open_connection, matches, set_error, is_current_generation, is_truthy,
}
use zwei.Call.Requests.{send_request, clear_pending_requests}
use zwei.Call.Events.{is_caller, is_recipient}

abbrev is_connecting : CallPhase → Bool
is_connecting connecting = true
is_connecting _ = false

-- The guard of `handleAccepted`, and the request that it clears.
unfoldable pub is_acceptable : CallPayload → Facade → Bool
is_acceptable payload s =
    matches payload.call_id s
    && not (is_recipient s.state.role && not (is_connecting s.state.phase))

unfoldable pub accepted_begins : CallPayload → Facade → Facade
accepted_begins payload s =
    if is_acceptable payload s then clear_pending_requests s.call_generation call_accept s else s

-- `createConnection`, where `builds` tells whether the browser lets it.
unfoldable pub create_connection : Text → Bool → Facade → Facade × Bool
create_connection error_id builds s =
    if builds
    then (
      record s {
        connection = some s.next_connection;
        next_connection = s.next_connection + 1;
        remote_description_ready = false;
        pending_candidates = [];
        log = open_connection s.next_connection ∷ s.log;
      },
      true,
    )
    else (
      set_error error_id "Audio calls are not supported by this browser." s.call_generation s,
      false,
    )

-- `applySignal`: a candidate waits for the remote description, all else goes to the connection.
unfoldable pub apply_signal : Value → Facade → Facade
apply_signal signal s =
    if not (is_some s.connection) || not (is_truthy s.state.call_id)
    then s
    else if is_text (prop signal "type") "candidate" && not s.remote_description_ready
    then record s { pending_candidates = s.pending_candidates ++ prop signal "candidate" ∷ [] }
    else record s { log = apply signal ∷ s.log }

unfoldable pub apply_signals : List Value → Facade → Facade
apply_signals [] s = s
apply_signals (signal ∷ rest) s = apply_signals rest (apply_signal signal s)

-- `peerFor`.
abbrev pub peer_for : CallPayload → Option CallRole → Text
peer_for payload role = if is_caller role then payload.recipient_id else payload.caller_id

abbrev pub or_else : Option Text → Option Text → Option Text
or_else a b = if is_truthy a then a else b

abbrev pub same_stream : Option ℕ → Option ℕ → Bool
same_stream none none = true
same_stream (some m) (some n) = m == n
same_stream none (some n) = false
same_stream (some m) none = false

-- The stream of the continuation is stopped if it is new.
abbrev pub stop_new : Option ℕ → Option ℕ → Facade → Facade
stop_new none before s = s
stop_new (some k) before s =
    if same_stream (some k) before then s else record s { log = stop_stream k ∷ s.log }

abbrev pub offer_to : Option ℕ → List Effect → List Effect
offer_to none l = l
offer_to (some k) l = offer k ∷ l

-- The state of a call that goes on, and the signals that waited for the connection.
unfoldable pub connected : CallPayload → Option ℕ → Facade → Facade
connected payload stream s =
    let t = apply_signals s.pending_signals (record s {
      pending_signals = [];
      state = record s.state {
        phase = connecting;
        call_id = some payload.call_id;
        support_ref = or_else payload.support_ref s.state.support_ref;
        conversation_id = some payload.conversation_id;
        peer_id = some (peer_for payload s.state.role);
        local_stream = stream;
        status_label = "Connecting call...";
      };
    }) in
    record t { log = if is_caller s.state.role then offer_to t.connection t.log else t.log }

-- `handleAccepted` from the microphone on. `before` and `generation` are the stream and the generation
-- at its beginning, `stream` what the microphone or the caller's state gave.
unfoldable pub accepted_goes_on :
    Text → Bool → CallPayload → ℕ → Option ℕ → Option ℕ → Facade → Facade
accepted_goes_on error_id builds payload generation before stream s =
    if not (is_current_generation generation s)
      || not (matches payload.call_id s)
      || not (is_some stream)
    then stop_new stream before s
    else (let (t, built) = create_connection error_id builds s in
        if built then connected payload stream t else stop_new stream before t)

-- `handleSignal`.
unfoldable pub handle_signal_now : Text → Value → Facade → Facade
handle_signal_now call_id signal s =
    if not (matches call_id s)
    then s
    else if not (is_some s.connection)
    then record s { pending_signals = s.pending_signals ++ signal ∷ [] }
    else apply_signal signal s

abbrev pub same_connection : Option ℕ → ℕ → Bool
same_connection none k = false
same_connection (some j) k = j == k

-- `ontrack`, for an audio track.
unfoldable pub audio_track : ℕ → ℕ → Text → Facade → Facade
audio_track generation connection call_id s =
    if not (is_current_generation generation s)
      || not (same_connection s.connection connection)
      || not (matches call_id s)
    then s
    else record s {
      state = record s.state { phase = active; status_label = "Audio call connected." };
    }

-- `onconnectionstatechange`, for a connection that failed.
unfoldable pub connection_failed : Text → ℕ → ℕ → Facade → Facade
connection_failed error_id generation connection s =
    if is_current_generation generation s && same_connection s.connection connection
    then set_error error_id "Could not connect the audio call." generation s
    else s

-- `onicecandidate`, and `sendSignal`.
unfoldable pub send_signal : ℕ → Bool → Text → Text → Value → ℕ → Text → Facade → Facade
send_signal now accepts request_id error_id signal generation call_id s =
    if is_empty call_id || not (is_current_generation generation s)
    then s
    else (send_request now accepts error_id
        (record {
          type = call_signal;
          request_id = request_id;
          subject = call_id;
          signal = some signal;
        })
        generation s).0

unfoldable pub ice_candidate : ℕ → Bool → Text → Text → Value → ℕ → ℕ → Text → Facade → Facade
ice_candidate now accepts request_id error_id signal generation connection call_id s =
    if is_current_generation generation s && same_connection s.connection connection
    then send_signal now accepts request_id error_id signal generation call_id s
    else s
