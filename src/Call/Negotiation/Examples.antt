-- ===== src/Call/Negotiation/Examples.antt =====
-- Two ends of a call of home/call-facade.service.ts that have made an offer at the same time, over a
-- connection that is its signaling state and whether it has a remote description.
use zwei.Common.{◌≡◌, refl, true, false, Option, none, some, [], ◌∷◌, Bool, ◌&&◌, if◌then◌else◌}
use zwei.Js.Text.{Text, codes}
use zwei.Js.Value.{Value, obj, no_fields}
use zwei.Call.{CallRole, Facade, caller, recipient, initial, connecting}
use zwei.Call.Negotiation.{Env}
use zwei.Call.Negotiation.PeerConnection.{
  Rtc, SignalingState, stable, have_local_offer, have_remote_offer, Lawful, Comes, Offers, Answers,
  Describes,
}
use zwei.Call.Negotiation.Glare.{End, Settles, process_signal-Settles}

-- Each operation is taken in its state only.
abbrev from_stable : SignalingState → SignalingState → Option SignalingState
from_stable stable next = some next
from_stable _ next = none

abbrev from_offer : SignalingState → SignalingState → Option SignalingState
from_offer have_local_offer next = some next
from_offer _ next = none

abbrev from_remote_offer : SignalingState → SignalingState → Option SignalingState
from_remote_offer have_remote_offer next = some next
from_remote_offer _ next = none

abbrev offer_from : SignalingState → Bool → Option ((SignalingState × Bool) × Option Text)
offer_from stable has = some ((have_local_offer, has), some (codes "o"))
offer_from _ has = none

abbrev answer_from : SignalingState → Option Text
answer_from have_remote_offer = some (codes "a")
answer_from _ = none

abbrev Simple : Type 0
Simple = SignalingState × Bool

-- The connection takes an object for a candidate, if it has a remote description.
abbrev is_object : Value → Bool
is_object (obj fs) = true
is_object _ = false

abbrev to_remote : Bool → Option SignalingState → Option Simple
to_remote has none = none
to_remote has (some state) = some (state, has)

abbrev simple : Rtc Simple
simple = record {
  signaling = λ p. p.0;
  has_remote = λ p. p.1;
  add_candidate = λ c p. if is_object c && p.1 then some p else none;
  set_local_offer = λ p. offer_from p.0 p.1;
  rollback = λ p. to_remote p.1 (from_offer p.0 stable);
  set_remote_offer = λ sdp p. to_remote true (from_stable p.0 have_remote_offer);
  create_answer = λ p. answer_from p.0;
  set_local_answer = λ sdp p. to_remote p.1 (from_remote_offer p.0 stable);
  set_remote_answer = λ sdp p. to_remote true (from_offer p.0 stable);
}

abbrev Any : Text → Type 0
Any sdp = Unit

abbrev IsObject : Value → Type 0
IsObject c = is_object c ≡ true

adds_lem :
    (c : Value) (p : Simple)
    → IsObject c
    → p.1 ≡ true
    → Describes simple p.0 (if is_object c && p.1 then some p else none)
adds_lem c (state, has) fit there = rw (fit, there) (refl, refl)

offers_lem : (p : Simple) → p.0 ≡ stable → Offers simple Any (offer_from p.0 p.1)
offers_lem (state, has) e = rw e (refl, tt)

rolls_back_lem :
    (p : Simple)
    → p.0 ≡ have_local_offer
    → Comes simple stable (to_remote p.1 (from_offer p.0 stable))
rolls_back_lem (state, has) e = rw e refl

takes_answer_lem :
    (p : Simple)
    → p.0 ≡ have_local_offer
    → Describes simple stable (to_remote true (from_offer p.0 stable))
takes_answer_lem (state, has) e = rw e (refl, refl)

takes_offer_lem :
    (p : Simple)
    → p.0 ≡ stable
    → Describes simple have_remote_offer (to_remote true (from_stable p.0 have_remote_offer))
takes_offer_lem (state, has) e = rw e (refl, refl)

answers_lem : (p : Simple) → p.0 ≡ have_remote_offer → Answers simple Any p (answer_from p.0)
answers_lem (state, has) e = rw e (refl, tt)

simple-Lawful : Lawful simple Any IsObject
simple-Lawful = record {
  adds = adds_lem;
  offers = offers_lem;
  rolls_back = rolls_back_lem;
  takes_offer = λ sdp p v e. takes_offer_lem p e;
  answers = answers_lem;
  takes_answer = λ sdp p v e. takes_answer_lem p e;
}

abbrev a_candidate : Value
a_candidate = obj no_fields

abbrev an_env : Text → Env
an_env id = record {
  now = 5;
  takes_answer = true;
  takes_offer = true;
  answer_id = id;
  offer_id = codes "o1";
  error_id = codes "e1";
}

abbrev one_end : Text → End
one_end id = record {
  env = an_env id;
  connection = 0;
  generation = 1;
  call_id = codes "call";
  takes_answer = refl;
  takes_offer = refl;
  filled = refl;
}

abbrev in_call : CallRole → Facade
in_call role = record initial {
  connection = some 0;
  pending_candidates = a_candidate ∷ [];
  call_generation = 1;
  state = record initial.state {
    phase = connecting;
    role = some role;
    call_id = some (codes "call");
  };
}

process_signal-Settles_example :
    Settles simple IsObject
      (one_end (codes "r1"))
      (one_end (codes "r2"))
      []
      []
      (codes "o")
      (codes "p")
      (in_call caller)
      (in_call recipient)
      (have_local_offer, false)
      (have_local_offer, false)
process_signal-Settles_example =
    process_signal-Settles simple Any IsObject simple-Lawful (one_end (codes "r1"))
      (one_end (codes "r2")) false false [] [] (codes "o") (codes "p") (in_call caller)
      (in_call recipient) (have_local_offer, false) (have_local_offer, false) tt refl refl
      (record {
        holds = refl;
        current = refl;
        called = refl;
        plays = refl;
        described = refl;
        waits = refl;
        said = refl;
        fit = (refl, tt);
      })
      (record {
        holds = refl;
        current = refl;
        called = refl;
        plays = refl;
        described = refl;
        waits = refl;
        said = refl;
        fit = (refl, tt);
      })
