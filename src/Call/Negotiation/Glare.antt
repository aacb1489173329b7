-- ===== src/Call/Negotiation/Glare.antt =====
-- Two ends of a call of home/call-facade.service.ts that have made an offer at the same time.
mod Described
pub use Described.*
use zwei.Common.{
  ℕ, ◌≡◌, refl, sym, subst, ◌∙◌, Bool, true, false, Option, some, List, [], ◌∷◌, arith,
}
use zwei.Js.Text.{Text, is_empty}
use zwei.Js.Value.{Value}
use zwei.Call.{CallRole, Facade, caller, recipient}
use zwei.Call.Negotiation.{
  Env, goes, offer_signal, answer_signal, answer_with, take_offer, receive_offer, receive_answer,
  renegotiate, caught, process_signal, process_signal_of, flush_pending_candidates,
}
use zwei.Call.Negotiation.PeerConnection.{Rtc, stable, have_local_offer, have_remote_offer, Lawful}
use zwei.Call.Negotiation.Settling.{
  On, sent, Comes-some, flush_pending-Reaches, IsAnswered, IsAnsweredAndOffered,
  answer_with-IsAnswered, answer_with-IsAnsweredAndOffered,
}

-- One end of the call: its connection, generation and ID, and how it sends.
pub record End : Type 0 where
  pub env : Env
  pub connection : ℕ
  pub generation : ℕ
  pub call_id : Text
  pub takes_answer : env.takes_answer ≡ true
  pub takes_offer : env.takes_offer ≡ true
  pub filled : is_empty call_id ≡ false

-- A call at this end that has sent `out`, has no negotiation that waits, and no candidate that waits and
-- cannot be added.
abbrev pub At : (Value → Type 0) → End → CallRole → Bool → List Value → Facade → Type 0
At Addable e role ready out s =
    On Addable e.connection e.generation e.call_id (some role) ready false out s

-- The exchange by which two ends settle that have both made an offer: the caller drops the recipient's
-- offer `y0`; the recipient answers the caller's offer `x0` with `x` and offers `y` again; the caller takes
-- the answer, and answers the offer with `z`, which the recipient takes.
pub record Settles {P : Type 0} (rtc : Rtc P) (Addable : Value → Type 0) (a b : End)
    (out_a out_b : List Value) (x0 y0 : Text) (s t : Facade) (p q : P) : Type 0 where
  pub s1 : Facade
  pub s2 : Facade
  pub t1 : Facade
  pub t2 : Facade
  pub p1 : P
  pub p2 : P
  pub q1 : P
  pub q2 : P
  pub x : Text
  pub y : Text
  pub z : Text
  pub drops : process_signal rtc a.env (offer_signal y0) s p ≡ (s, p)
  pub gives_way : process_signal rtc b.env (offer_signal x0) t q ≡ (t1, q1)
  pub sends : sent t1.log ≡ offer_signal y ∷ answer_signal x ∷ out_b
  pub takes : process_signal rtc a.env (answer_signal x) s p ≡ (s1, p1)
  pub replies : process_signal rtc a.env (offer_signal y) s1 p1 ≡ (s2, p2)
  pub sends_back : sent s2.log ≡ answer_signal z ∷ out_a
  pub ends : process_signal rtc b.env (answer_signal z) t1 q1 ≡ (t2, q2)
  pub caller_stable : rtc.signaling p2 ≡ stable
  pub recipient_stable : rtc.signaling q2 ≡ stable
  pub caller_settled : At Addable a caller true (answer_signal z ∷ out_a) s2
  pub recipient_settled : At Addable b recipient true (offer_signal y ∷ answer_signal x ∷ out_b) t2

-- Two ends of a call that have both made an offer settle: with connections that keep to their
-- documentation, services that take what is sent, and no candidate waiting at either end that the
-- connection would reject once it has a remote description, the exchange above leaves both
-- connections stable, both calls going on with a remote description, and no negotiation waiting.
pub process_signal-Settles :
    {P : Type 0} (rtc : Rtc P) (Valid : Text → Type 0) (Addable : Value → Type 0)
    → Lawful rtc Valid Addable
    → (a b : End) (ready_a ready_b : Bool) (out_a out_b : List Value) (x0 y0 : Text) (s t : Facade)
      (p q : P)
    → Valid x0
    → rtc.signaling p ≡ have_local_offer
    → rtc.signaling q ≡ have_local_offer
    → At Addable a caller ready_a out_a s
    → At Addable b recipient ready_b out_b t
    → Settles rtc Addable a b out_a out_b x0 y0 s t p q
process_signal-Settles rtc Valid Addable law a b ready_a ready_b out_a out_b x0 y0 s t p q v hp hq
      ha hb =
    let (t1, q1, x, y, e1, f1, vx, vy, o1) =
      process_offer-gives_way rtc Valid Addable law b.env b.takes_answer b.takes_offer b.connection
        b.generation b.call_id b.filled (some recipient) x0 ready_b false out_b t q v refl hq hb in
    let (p1, e2, f2, o2) =
      process_answer-stable rtc Valid Addable law a.env a.takes_answer a.takes_offer a.connection
        a.generation a.call_id a.filled (some caller) x ready_a out_a s p vx hp ha in
    let (s2, p2, z, e3, f3, vz, o3) =
      process_offer-IsAnswered rtc Valid Addable law a.env a.takes_answer a.takes_offer a.connection
        a.generation a.call_id a.filled (some caller) y true out_a (described s) p1 vy f2 o2 in
    let (q2, e4, f4, o4) =
      process_answer-stable rtc Valid Addable law b.env b.takes_answer b.takes_offer b.connection
        b.generation b.call_id b.filled (some recipient) z true
        (offer_signal y ∷ answer_signal x ∷ out_b) t1 q1 vz f1 o1 in
    record {
      s1 = described s;
      s2 = s2;
      t1 = t1;
      t2 = described t1;
      p1 = p1;
      p2 = p2;
      q1 = q1;
      q2 = q2;
      x = x;
      y = y;
      z = z;
      drops =
          process_offer-drops rtc Valid Addable law a.env a.takes_answer a.takes_offer a.connection
            a.generation a.call_id a.filled (some caller) y0 ready_a false out_a s p refl hp ha;
      gives_way = e1;
      sends = o1.said;
      takes = e2;
      replies = e3;
      sends_back = o3.said;
      ends = e4;
      caller_stable = f3;
      recipient_stable = f4;
      caller_settled = o3;
      recipient_settled = o4;
    }
