-- ===== src/Call/Negotiation/PeerConnection.antt =====
-- The peer connection of the browser, as home/call-facade.service.ts uses it, with what its
-- documentation says of the signaling state. `none` is a rejected promise.
use zwei.Common.{◌≡◌, Bool, true, false, Option, none, some, List, [], ◌∷◌}
use zwei.Js.Text.{Text}
use zwei.Js.Value.{Value}

-- `RTCSignalingState`.
pub data SignalingState : Type 0 where
  stable have_local_offer have_remote_offer have_local_pranswer have_remote_pranswer closed :
      SignalingState

abbrev pub is_stable : SignalingState → Bool
is_stable stable = true
is_stable _ = false

abbrev pub is_offered : SignalingState → Bool
is_offered have_local_offer = true
is_offered _ = false

abbrev pub is_closed : SignalingState → Bool
is_closed closed = true
is_closed _ = false

-- `signalingState`, whether `remoteDescription` is there, `addIceCandidate`, `setLocalDescription` with its roll back, `localDescription`, which
-- has an SDP text or not, `setRemoteDescription` and `createAnswer`.
pub record Rtc (P : Type 0) : Type 0 where
  pub signaling : P → SignalingState
  pub has_remote : P → Bool
  pub add_candidate : Value → P → Option P
  pub set_local_offer : P → Option (P × Option Text)
  pub rollback : P → Option P
  pub set_remote_offer : Text → P → Option P
  pub create_answer : P → Option Text
  pub set_local_answer : Text → P → Option P
  pub set_remote_answer : Text → P → Option P

-- A result that is there, in a signaling state.
abbrev pub Comes : {P : Type 0} → Rtc P → SignalingState → Option P → Type 0
Comes rtc state none = true ≡ false
Comes rtc state (some q) = rtc.signaling q ≡ state

-- A result that is there, in a signaling state, with a remote description.
abbrev pub Describes : {P : Type 0} → Rtc P → SignalingState → Option P → Type 0
Describes rtc state none = true ≡ false
Describes rtc state (some q) = (rtc.signaling q ≡ state) × (rtc.has_remote q ≡ true)

abbrev pub All : (Value → Type 0) → List Value → Type 0
All Addable [] = Unit
All Addable (c ∷ cs) = Addable c × All Addable cs

-- A new offer, with its text.
abbrev pub Offers : {P : Type 0} → Rtc P → (Text → Type 0) → Option (P × Option Text) → Type 0
Offers rtc Valid none = true ≡ false
Offers rtc Valid (some (q, none)) = true ≡ false
Offers rtc Valid (some (q, some sdp)) = (rtc.signaling q ≡ have_local_offer) × Valid sdp

-- An answer, which the connection takes.
abbrev pub Answers : {P : Type 0} → Rtc P → (Text → Type 0) → P → Option Text → Type 0
Answers rtc Valid p none = true ≡ false
Answers rtc Valid p (some sdp) = Comes rtc stable (rtc.set_local_answer sdp p) × Valid sdp

-- What a connection does whose descriptions are valid: each operation is allowed in the signaling
-- state that the specification names, and leads to the one that it names. A candidate is added if there
-- is a remote description and the candidate is addable, that is, fits the descriptions; any other
-- candidate may be rejected.
pub record Lawful {P : Type 0} (rtc : Rtc P) (Valid : Text → Type 0) (Addable : Value → Type 0)
    : Type 0 where
  pub adds :
      (c : Value) (p : P)
      → Addable c
      → rtc.has_remote p ≡ true
      → Describes rtc (rtc.signaling p) (rtc.add_candidate c p)
  pub offers : (p : P) → rtc.signaling p ≡ stable → Offers rtc Valid (rtc.set_local_offer p)
  pub rolls_back : (p : P) → rtc.signaling p ≡ have_local_offer → Comes rtc stable (rtc.rollback p)
  pub takes_offer :
      (sdp : Text) (p : P)
      → Valid sdp
      → rtc.signaling p ≡ stable
      → Describes rtc have_remote_offer (rtc.set_remote_offer sdp p)
  pub answers :
      (p : P) → rtc.signaling p ≡ have_remote_offer → Answers rtc Valid p (rtc.create_answer p)
  pub takes_answer :
      (sdp : Text) (p : P)
      → Valid sdp
      → rtc.signaling p ≡ have_local_offer
      → Describes rtc stable (rtc.set_remote_answer sdp p)
