-- ===== src/Call/Steps/Late/Growth.antt =====
-- The generation of the call, in home/call-facade.service.ts, is never taken back.
use zwei.Common.{
  ℕ, ◌≤◌, ◌≡◌, Bool, true, false, not, ◌&&◌, ◌||◌, Option, none, some, arith, if◌then◌else◌, String,
}
use zwei.Js.Text.{Text}
use zwei.Call.{
  CallPhase, Facade, Request, RequestType, outgoing, ended, error, finish, terminal, set_error,
  cleanup, invalidate_call_generation, retire_current_call, control, is_current_generation,
  log_farewell, caller, call_start, is_truthy, is_resting,
}
use zwei.Call.Requests.{send_request, prune_pending_requests}
use zwei.Call.Control.{
  start_granted, accept, close, ready_changes, send_control, is_incoming, is_phase_requesting,
  or_empty,
}

module _ (n : ℕ) where
  -- A state of that generation or a later one.
  pub record IsFrom (s : Facade) : Type 0 where
    pub since : n ≤ s.call_generation

  pub IsFrom-if : (b : Bool) (s t : Facade) → IsFrom s → IsFrom t → IsFrom (if b then s else t)
  IsFrom-if true s t hs ht = hs
  IsFrom-if false s t hs ht = ht

  pub IsFrom-if-pair :
      (b : Bool) (x y : Facade × Bool) → IsFrom x.0 → IsFrom y.0 → IsFrom (if b then x else y).0
  IsFrom-if-pair true x y hx hy = hx
  IsFrom-if-pair false x y hx hy = hy

  -- What leaves the generation as it is.
  pub IsFrom-same : (s t : Facade) → IsFrom s → t.call_generation ≡ s.call_generation → IsFrom t
  IsFrom-same s t h e = ground arith

  pub IsFrom-retire : (s : Facade) → IsFrom s → IsFrom (retire_current_call s)
  unfolding retire_current_call
  IsFrom-retire s h = ground arith

  pub IsFrom-finish :
      (phase : CallPhase) (label : String) (failure : Option String) (s : Facade)
      → IsFrom s
      → IsFrom (finish phase label failure s)
  unfolding finish cleanup invalidate_call_generation
  IsFrom-finish phase label failure s h = ground (arith, IsFrom-retire s h)

  pub IsFrom-terminal :
      (label : String) (g : ℕ) (s : Facade) → IsFrom s → IsFrom (terminal label g s)
  unfolding terminal
  IsFrom-terminal label g s h =
      IsFrom-if (not (is_current_generation g s)) _ _ h (IsFrom-finish ended label none s h)

  pub IsFrom-logged :
      (id : Text) (s : Facade)
      → IsFrom s
      → IsFrom (record s { log = log_farewell id s.state s.log })
  IsFrom-logged id s h = record { since = h.since }

  pub IsFrom-set_error :
      (id : Text) (label : String) (g : ℕ) (s : Facade) → IsFrom s → IsFrom (set_error id label g s)
  unfolding set_error
  IsFrom-set_error id label g s h =
      IsFrom-if (not (is_current_generation g s)) _ _ h
        (IsFrom-finish error label (some label) _ (IsFrom-logged id s h))

  pub IsFrom-send_request :
      (now : ℕ) (b : Bool) (e : Text) (r : Request) (g : ℕ) (s : Facade)
      → IsFrom s
      → IsFrom (send_request now b e r g s).0
  unfolding send_request prune_pending_requests
  IsFrom-send_request now b e r g s h = IsFrom-if-pair (not (is_current_generation g s)) _ _ h (
      IsFrom-if-pair b _ _ (record { since = h.since })
        (IsFrom-set_error e _ g _ (record { since = h.since })))

  pub IsFrom-granted :
      (m : ℕ) (b : Bool) (i e c p : Text) (g k : ℕ) (s : Facade)
      → IsFrom s
      → IsFrom (start_granted m b i e c p g k s)
  unfolding start_granted
  IsFrom-granted m b i e c p g k s h =
      let t = record s {
        state = record s.state {
          phase = outgoing;
          role = some caller;
          conversation_id = some c;
          peer_id = some p;
          muted = false;
          local_stream = some k;
          status_label = "Calling...";
        };
      } in
      let x = send_request m b e (control call_start i c) g t in
      let sent =
        IsFrom-send_request m b e (control call_start i c) g t (record { since = h.since }) in
      IsFrom-if (not (is_current_generation g s) || not (is_phase_requesting s.state.phase)) _ _
        (record { since = h.since }) (IsFrom-if x.1 _ _ sent (record { since = sent.since }))

  pub IsFrom-accept :
      (m : ℕ) (b : Bool) (i e : Text) (s : Facade) → IsFrom s → IsFrom (accept m b i e s)
  unfolding accept
  IsFrom-accept m b i e s h =
      IsFrom-if (not (is_incoming s.state.phase) || not (is_truthy s.state.call_id)) _ _ h
        (IsFrom-send_request m b e _ s.call_generation _ (record { since = h.since }))

  pub IsFrom-control :
      (m : ℕ) (b : Bool) (i e : Text) (type : RequestType) (label : String) (s : Facade)
      → IsFrom s
      → IsFrom (send_control m b i e type label s)
  unfolding send_control
  IsFrom-control m b i e type label s h =
      let r = control type i (or_empty s.state.call_id) in
      let x = send_request m b e r s.call_generation s in
      let sent = IsFrom-send_request m b e r s.call_generation s h in
      IsFrom-if (not (is_truthy s.state.call_id)) _ _ (IsFrom-terminal label s.call_generation s h)
        (IsFrom-if x.1 _ _ (IsFrom-terminal label s.call_generation x.0 sent) sent)

  pub IsFrom-close : (i : Text) (s : Facade) → IsFrom s → IsFrom (close i s)
  unfolding close cleanup invalidate_call_generation
  IsFrom-close i s h = ground arith

  pub IsFrom-ready : (e : Text) (b : Bool) (s : Facade) → IsFrom s → IsFrom (ready_changes e b s)
  unfolding ready_changes
  IsFrom-ready e b s h = IsFrom-if (b || is_resting s.state.phase) _ _ h (
      IsFrom-set_error e "Realtime connection lost. Reconnecting..." s.call_generation _ (
        IsFrom-if (not (is_truthy s.state.call_id) && is_truthy s.state.conversation_id) _ _
          (record { since = h.since }) h))
