-- ===== src/Call/Negotiation.antt =====
-- Offers and answers of a direct call: `applySignal`, `flushPendingCandidates` and `createAndSendOffer` of
-- home/call-facade.service.ts, over a peer connection of the browser. A signal is taken as a whole:
-- `enqueueSignaling` keeps the next one back, and nothing else is taken to happen while it waits.
pub mod PeerConnection
pub mod Settling
pub mod Glare
mod Examples
use zwei.Common.{
  ℕ, ◌≡◌, String, Bool, true, false, not, ◌&&◌, ◌||◌, Option, none, some, List, [], ◌∷◌, ◌++◌, ◌==◌,
  if◌then◌else◌, is_some,
}
use zwei.Js.Text.{Text, codes, is_empty}
use zwei.Js.Value.{Value, obj, field, no_fields, str, prop, is_text, text_of}
use zwei.Call.{CallRole, Facade, Request, call_signal, set_error, is_current_generation, is_truthy}
use zwei.Call.Events.{is_recipient}
use zwei.Call.Media.{send_signal, same_connection}
use zwei.Call.Negotiation.PeerConnection.{
  Rtc, SignalingState, is_stable, is_closed, have_local_offer, is_offered,
}

-- What a run of `applySignal` is given: the time, the names of the requests that it may send, and
-- whether the service takes each.
pub record Env : Type 0 where
  pub now : ℕ
  pub takes_answer : Bool
  pub takes_offer : Bool
  pub answer_id : Text
  pub offer_id : Text
  pub error_id : Text

abbrev pub offer_signal : Text → Value
offer_signal sdp =
    obj (field (codes "type") (str (codes "offer")) (field (codes "sdp") (str sdp) no_fields))

abbrev pub answer_signal : Text → Value
answer_signal sdp =
    obj (field (codes "type") (str (codes "answer")) (field (codes "sdp") (str sdp) no_fields))

module _ {P : Type 0} (rtc : Rtc P) (env : Env) where
  -- A stretch of the method goes on with the call and the connection, or throws.
  pub data Run : Type 0 where
    goes throws : Facade → P → Run

  infixl 5 ◌>>=◌
  abbrev pub ◌>>=◌ : Run → (Facade → P → Run) → Run
  goes s p >>= f = f s p
  throws s p >>= f = throws s p

  -- An operation of the connection, which may reject.
  abbrev pub on : Option P → Facade → P → Run
  on none s p = throws s p
  on (some q) s p = goes s q

  -- `flushPendingCandidates`, of the candidates that it took, for a connection and a generation.
  unfoldable pub flush_candidates : ℕ → ℕ → List Value → Facade → P → Run
  flush_candidates connection generation [] s p = goes s p
  flush_candidates connection generation (c ∷ rest) s p =
      if not (is_current_generation generation s) || not (same_connection s.connection connection)
      then goes s p
      else on (rtc.add_candidate c p) s p >>= flush_candidates connection generation rest

  unfoldable pub flush_pending_candidates : ℕ → ℕ → Facade → P → Run
  flush_pending_candidates connection generation s p =
      flush_candidates connection generation s.pending_candidates
        (record s { pending_candidates = [] }) p

  abbrev pub fails : String → ℕ → Facade → Facade
  fails label generation s =
      if is_current_generation generation s then set_error env.error_id label generation s else s

  -- `createAndSendOffer` behind `setLocalDescription`.
  abbrev pub offered : ℕ → ℕ → Text → Option Text → Facade → Facade
  offered connection generation call_id none s =
      if not (is_current_generation generation s) || not (same_connection s.connection connection)
      then s
      else fails "Could not update the call media." generation s
  offered connection generation call_id (some sdp) s =
      if not (is_current_generation generation s) || not (same_connection s.connection connection)
      then s
      else send_signal env.now env.takes_offer env.offer_id env.error_id (offer_signal sdp)
          generation call_id s

  abbrev pub make_offer : ℕ → ℕ → Text → Option (P × Option Text) → Facade → P → Facade × P
  make_offer connection generation call_id none s p =
      (fails "Could not update the call media." generation s, p)
  make_offer connection generation call_id (some (q, sdp)) s p =
      (offered connection generation call_id sdp s, q)

  -- `createAndSendOffer`.
  unfoldable pub create_and_send_offer : ℕ → ℕ → Text → Facade → P → Facade × P
  create_and_send_offer connection generation call_id s p =
      if not (is_current_generation generation s)
        || not (same_connection s.connection connection)
        || is_closed (rtc.signaling p)
      then (s, p)
      else if not (is_stable (rtc.signaling p))
      then (record s { local_renegotiation_pending = true }, p)
      else make_offer connection generation call_id (rtc.set_local_offer p) s p

  abbrev pub as_run : Facade × P → Run
  as_run (s, p) = goes s p

  -- The end of an offer and of an answer: a negotiation that had to wait.
  unfoldable pub renegotiate : ℕ → ℕ → Text → Facade → P → Run
  renegotiate connection generation call_id s p =
      if s.local_renegotiation_pending
      then as_run (
          create_and_send_offer connection generation call_id
            (record s { local_renegotiation_pending = false }) p)
      else goes s p

  abbrev pub answer_with : ℕ → ℕ → Text → Option Text → Facade → P → Run
  answer_with connection generation call_id none s p = throws s p
  answer_with connection generation call_id (some sdp) s p =
      on (rtc.set_local_answer sdp p) s p >>= λ s' q.
      renegotiate connection generation call_id
        (send_signal env.now env.takes_answer env.answer_id env.error_id (answer_signal sdp)
          generation call_id s')
        q

  -- An offer, once the connection is stable.
  unfoldable pub take_offer : ℕ → ℕ → Text → Text → Facade → P → Run
  take_offer connection generation call_id sdp s p = on (rtc.set_remote_offer sdp p) s p >>= λ s' q.
      flush_pending_candidates connection generation (record s' { remote_description_ready = true })
        q
      >>= λ s'' r. answer_with connection generation call_id (rtc.create_answer r) s'' r

  -- `isPolite`: the recipient gives way where both sides have made an offer.
  unfoldable pub receive_offer : ℕ → ℕ → Text → Text → Facade → P → Run
  receive_offer connection generation call_id sdp s p =
      if is_stable (rtc.signaling p)
      then take_offer connection generation call_id sdp s p
      else if not (is_recipient s.state.role)
      then goes s p
      else on (rtc.rollback p) (record s { local_renegotiation_pending = true }) p
        >>= take_offer connection generation call_id sdp

  unfoldable pub receive_answer : ℕ → ℕ → Text → Text → Facade → P → Run
  receive_answer connection generation call_id sdp s p =
      if not (is_offered (rtc.signaling p))
      then goes s p
      else on (rtc.set_remote_answer sdp p) s p >>= λ s' q.
          flush_pending_candidates connection generation
            (record s' { remote_description_ready = true }) q
          >>= renegotiate connection generation call_id

  -- `catch`.
  abbrev pub caught : ℕ → Run → Facade × P
  caught generation (goes s p) = (s, p)
  caught generation (throws s p) = (fails "Could not connect the audio call." generation s, p)

  unfoldable pub receive_candidate : ℕ → Value → Facade → P → Facade × P
  receive_candidate generation candidate s p =
      if not s.remote_description_ready
      then (record s { pending_candidates = s.pending_candidates ++ candidate ∷ [] }, p)
      else caught generation (on (rtc.add_candidate candidate p) s p)

  -- `applySignal`, for the connection and the call that there are.
  unfoldable pub process_signal_of : Option ℕ → Option Text → Value → Facade → P → Facade × P
  process_signal_of none call_id signal s p = (s, p)
  process_signal_of (some connection) none signal s p = (s, p)
  process_signal_of (some connection) (some call_id) signal s p =
      if is_empty call_id
      then (s, p)
      else if is_text (prop signal "type") "candidate"
      then receive_candidate s.call_generation (prop signal "candidate") s p
      else if is_text (prop signal "type") "offer"
      then caught s.call_generation
          (receive_offer connection s.call_generation call_id (text_of (prop signal "sdp")) s p)
      else if is_text (prop signal "type") "answer"
      then caught s.call_generation
          (receive_answer connection s.call_generation call_id (text_of (prop signal "sdp")) s p)
      else (s, p)

  unfoldable pub process_signal : Value → Facade → P → Facade × P
  process_signal signal s p = process_signal_of s.connection s.state.call_id signal s p
