-- ===== src/Call/State.antt =====
-- The state of a call: `CallState` and the fields of `CallFacade`, of home/call-facade.service.ts.
use zwei.Common.{ℕ, String, Bool, false, Option, none, List, []}
use zwei.Js.Text.{Text}
use zwei.Js.Value.{Value}

-- `CallPhase`.
pub data CallPhase : Type 0 where
  idle requesting outgoing incoming connecting active ended error : CallPhase

-- `CallRole`.
pub data CallRole : Type 0 where
  caller recipient : CallRole

-- `ScreenShareQuality`.
pub data ScreenShareQuality : Type 0 where
  q360p q720p q1080p q2k : ScreenShareQuality

-- `CallState`. A stream is known by a number.
pub record CallState : Type 0 where
  pub phase : CallPhase
  pub role : Option CallRole
  pub call_id : Option Text
  pub support_ref : Option Text
  pub conversation_id : Option Text
  pub peer_id : Option Text
  pub muted : Bool
  pub local_stream : Option ℕ
  pub screen_share_stream : Option ℕ
  pub screen_share_quality : ScreenShareQuality
  pub screen_share_audio_enabled : Bool
  pub screen_share_audio_active : Bool
  pub screen_share_transition : Bool
  pub status_label : String
  pub error_label : Option String

-- The requests of the client, by type, request ID, and what the payload holds.
pub data RequestType : Type 0 where
  call_start call_accept call_decline call_cancel call_end call_signal : RequestType

pub record Request : Type 0 where
  pub type : RequestType
  pub request_id : Text
  pub subject : Text
  pub signal : Option Value

-- An entry of `pendingRequestGenerations`, with its key.
pub record Pending : Type 0 where
  pub id : Text
  pub generation : ℕ
  pub type : RequestType
  pub created_at : ℕ

-- `CallPayload`, less what the facade does not read.
pub record CallPayload : Type 0 where
  pub call_id : Text
  pub conversation_id : Text
  pub caller_id : Text
  pub recipient_id : Text
  pub support_ref : Option Text

-- What `enqueueSignaling` queues.
pub data Operation : Type 0 where
  handle_accepted : CallPayload → Operation
  handle_signal : Text → Value → Operation

-- What the facade does to the world.
pub data Effect : Type 0 where
  send : Request → Effect
  stop_stream : ℕ → Effect
  mute_stream : ℕ → Bool → Effect
  open_connection : ℕ → Effect
  close_connection : ℕ → Effect
  enqueue : Operation → Effect
  apply : Value → Effect
  offer : ℕ → Effect

-- `connection` is known by a number, and `next_connection` is that of the next. The sets and the map
-- stand in insertion order. `dismiss_timer` tells whether the timer is set. `log` is what was done,
-- the last first.
pub record Facade : Type 0 where
  pub state : CallState
  pub connection : Option ℕ
  pub next_connection : ℕ
  pub pending_signals : List Value
  pub pending_candidates : List Value
  pub pending_requests : List Pending
  pub retired_call_ids : List Text
  pub orphaned_starts : List Text
  pub remote_description_ready : Bool
  pub call_generation : ℕ
  pub local_renegotiation_pending : Bool
  pub remote_screen_sharing : Bool
  pub dismiss_timer : Bool
  pub log : List Effect

-- `idleState`.
abbrev pub idle_state : CallState
idle_state = record {
  phase = idle;
  role = none;
  call_id = none;
  support_ref = none;
  conversation_id = none;
  peer_id = none;
  muted = false;
  local_stream = none;
  screen_share_stream = none;
  screen_share_quality = q720p;
  screen_share_audio_enabled = false;
  screen_share_audio_active = false;
  screen_share_transition = false;
  status_label = "No active call.";
  error_label = none;
}

abbrev pub initial : Facade
initial = record {
  state = idle_state;
  connection = none;
  next_connection = 0;
  pending_signals = [];
  pending_candidates = [];
  pending_requests = [];
  retired_call_ids = [];
  orphaned_starts = [];
  remote_description_ready = false;
  call_generation = 0;
  local_renegotiation_pending = false;
  remote_screen_sharing = false;
  dismiss_timer = false;
  log = [];
}
