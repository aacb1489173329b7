-- ===== src/Call.antt =====
-- A direct audio call: the state of `CallFacade` of frontend-app/src/app/home/call-facade.service.ts,
-- and the methods by which a call begins and ends. The lists of devices and playback are left out.
mod State
pub mod Requests
pub mod Control
pub mod Events
pub mod Media
pub mod Screen
pub mod Negotiation
pub mod Steps
mod Examples
unfoldable pub use State.*
use zwei.Common.{
  ℕ, zero, suc, ◌+◌, ◌≡◌, String, Bool, true, false, not, ◌&&◌, ◌||◌, Option, none, some, List, [],
  ◌∷◌, ◌++◌, ltb, leb, ◌==◌, if◌then◌else◌, length, any, is_some,
}
use zwei.Js.Text.{Text, text_eq, is_empty}
use zwei.Js.Value.{Value}

-- `canStart`: no call is under way.
abbrev pub is_resting : CallPhase → Bool
is_resting idle = true
is_resting ended = true
is_resting error = true
is_resting requesting = false
is_resting outgoing = false
is_resting incoming = false
is_resting connecting = false
is_resting active = false

abbrev pub can_start : Facade → Bool
can_start s = is_resting s.state.phase

-- `this.state.callID === callID`.
abbrev pub same_text : Option Text → Text → Bool
same_text none t = false
same_text (some s) t = text_eq s t

-- `matches`.
abbrev pub matches : Text → Facade → Bool
matches call_id s = same_text s.state.call_id call_id

-- `isCurrentGeneration`.
abbrev pub is_current_generation : ℕ → Facade → Bool
is_current_generation generation s = generation == s.call_generation

-- A text that is not empty, as `!` and `||` see it.
abbrev pub is_truthy : Option Text → Bool
is_truthy none = false
is_truthy (some s) = not (is_empty s)

-- `Set.prototype.add`, and the loop that deletes the oldest items down to a size.
abbrev pub add : Text → List Text → List Text
add t xs = if any (text_eq t) xs then xs else xs ++ t ∷ []

unfoldable pub shrink {ℓ} : {A : Type ℓ} → ℕ → List A → List A
shrink n [] = []
shrink n (x ∷ xs) = let rest = shrink n xs in if leb (length (x ∷ xs)) n then x ∷ xs else rest

-- `beginCallGeneration`.
unfoldable pub begin_call_generation : Facade → Facade
begin_call_generation s = record s {
  call_generation = s.call_generation + 1;
  pending_requests = [];
}

-- `invalidateCallGeneration`.
unfoldable pub invalidate_call_generation : Facade → Facade
invalidate_call_generation s = record s {
  call_generation = s.call_generation + 1;
  pending_requests = [];
  pending_candidates = [];
  remote_description_ready = false;
  local_renegotiation_pending = false;
}

-- `retireCurrentCall`.
unfoldable pub retire_current_call : Facade → Facade
retire_current_call s = elim s.state.call_id [
  | none ↦ s
  | some id ↦
      if is_empty id
      then s
      else record s { retired_call_ids = shrink 32 (add id s.retired_call_ids) }
]

-- `isRetiredCall`.
abbrev pub is_retired_call : Text → Facade → Bool
is_retired_call call_id s = any (text_eq call_id) s.retired_call_ids

abbrev pub log_stop : Option ℕ → List Effect → List Effect
log_stop none l = l
log_stop (some k) l = stop_stream k ∷ l

abbrev pub log_close : Option ℕ → List Effect → List Effect
log_close none l = l
log_close (some k) l = close_connection k ∷ l

-- `cleanup`.
unfoldable pub cleanup : Facade → Facade
cleanup s = record s {
  connection = none;
  remote_screen_sharing = false;
  pending_signals = [];
  pending_candidates = [];
  remote_description_ready = false;
  local_renegotiation_pending = false;
  log =
      log_close s.connection
        (log_stop s.state.screen_share_stream (log_stop s.state.local_stream s.log));
}

-- The state that `terminal` and `setError` leave.
abbrev pub notice : CallPhase → String → Option String → CallState → CallState
notice phase label failure state = record idle_state {
  phase = phase;
  support_ref = state.support_ref;
  screen_share_quality = state.screen_share_quality;
  screen_share_audio_enabled = state.screen_share_audio_enabled;
  status_label = label;
  error_label = failure;
}

-- What `terminal` and `setError` share: the call is retired, its generation is over, what it held is
-- released, and the notice goes away on its own.
unfoldable pub finish : CallPhase → String → Option String → Facade → Facade
finish phase label failure s =
    let t = cleanup (invalidate_call_generation (retire_current_call s)) in
    record t { state = notice phase label failure t.state; dismiss_timer = true }

-- `terminal`.
unfoldable pub terminal : String → ℕ → Facade → Facade
terminal label generation s =
    if not (is_current_generation generation s) then s else finish ended label none s

-- The request by which `setError` tells the server.
abbrev pub is_requesting : CallPhase → Bool
is_requesting requesting = true
is_requesting _ = false

abbrev pub farewell : CallPhase → RequestType
farewell incoming = call_decline
farewell _ = call_end

abbrev pub control : RequestType → Text → Text → Request
control type request_id call_id = record {
  type = type;
  request_id = request_id;
  subject = call_id;
  signal = none;
}

abbrev pub log_farewell : Text → CallState → List Effect → List Effect
log_farewell request_id state l = elim state.call_id [
  | none ↦ l
  | some id ↦
      if is_empty id || is_requesting state.phase
      then l
      else send (control (farewell state.phase) request_id id) ∷ l
]

-- `setError`.
unfoldable pub set_error : Text → String → ℕ → Facade → Facade
set_error request_id label generation s =
    if not (is_current_generation generation s)
    then s
    else finish error label (some label) (record s { log = log_farewell request_id s.state s.log })

-- The callback of `dismissNotice`.
unfoldable pub dismiss : Facade → Facade
dismiss s = record s { dismiss_timer = false; state = idle_state }
