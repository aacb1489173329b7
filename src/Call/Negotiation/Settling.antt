-- ===== src/Call/Negotiation/Settling.antt =====
-- Offers and answers of home/call-facade.service.ts, one at a time: where they leave the call and a
-- connection that keeps to its documentation.
use zwei.Common.{
  ℕ, ◌≡◌, refl, sym, subst, ◌∙◌, Bool, true, false, Option, none, some, List, [], ◌∷◌, arith,
}
use zwei.Js.Text.{Text, is_empty}
use zwei.Js.Value.{Value}
use zwei.Call.{
  CallRole, Facade, Effect, send, stop_stream, mute_stream, open_connection, close_connection,
  enqueue, apply, offer,
}
use zwei.Call.Requests.{send_request, prune_pending_requests}
use zwei.Call.Media.{send_signal}
use zwei.Call.Negotiation.{
  Env, Run, goes, offer_signal, answer_signal, flush_candidates, flush_pending_candidates,
  create_and_send_offer, renegotiate, answer_with,
}
use zwei.Call.Negotiation.PeerConnection.{
  Rtc, SignalingState, stable, have_local_offer, have_remote_offer, Comes, Offers, Answers, Lawful,
  Describes, All,
}

abbrev sent_by : Option Value → List Value → List Value
sent_by none l = l
sent_by (some v) l = v ∷ l

-- The signals that were sent, the last first.
abbrev pub sent : List Effect → List Value
sent [] = []
sent (send r ∷ l) = sent_by r.signal (sent l)
sent (stop_stream k ∷ l) = sent l
sent (mute_stream k b ∷ l) = sent l
sent (open_connection k ∷ l) = sent l
sent (close_connection k ∷ l) = sent l
sent (enqueue o ∷ l) = sent l
sent (apply v ∷ l) = sent l
sent (offer k ∷ l) = sent l

-- A call that goes on: its connection, generation, ID and role, what its negotiation knows, what it has
-- sent, and candidates that wait and can be added.
pub record On (Addable : Value → Type 0) (connection generation : ℕ) (call_id : Text)
    (role : Option CallRole) (ready renegotiates : Bool) (out : List Value) (s : Facade)
    : Type 0 where
  pub holds : s.connection ≡ some connection
  pub current : s.call_generation ≡ generation
  pub called : s.state.call_id ≡ some call_id
  pub plays : s.state.role ≡ role
  pub described : s.remote_description_ready ≡ ready
  pub waits : s.local_renegotiation_pending ≡ renegotiates
  pub said : sent s.log ≡ out
  pub fit : All Addable s.pending_candidates

module _ (Addable : Value → Type 0) (k g : ℕ) (c : Text) (filled : is_empty c ≡ false)
    (role : Option CallRole) where
  pub On-send_signal :
      (now : ℕ) (id error_id : Text) (v : Value) (ready renegotiates : Bool) (out : List Value)
      (s : Facade)
      → On Addable k g c role ready renegotiates out s
      → On Addable k g c role ready renegotiates
          (v ∷ out)
          (send_signal now true id error_id v g c s)
  unfolding send_signal send_request prune_pending_requests
  On-send_signal now id error_id v ready renegotiates out s h = ground arith

module _ {P : Type 0} (rtc : Rtc P) (Valid : Text → Type 0) where
  pub Comes-some :
      (state : SignalingState) (o : Option P)
      → Comes rtc state o
      → (q : P) × (o ≡ some q) × (rtc.signaling q ≡ state)
  Comes-some state none h = cc
  Comes-some state (some q) h = (q, refl, h)

  pub Describes-some :
      (state : SignalingState) (o : Option P)
      → Describes rtc state o
      → (q : P) × (o ≡ some q) × (rtc.signaling q ≡ state) × (rtc.has_remote q ≡ true)
  Describes-some state none h = cc
  Describes-some state (some q) h = (q, refl, h.0, h.1)

  Offers-some :
      (o : Option (P × Option Text))
      → Offers rtc Valid o
      → (q : P) × (sdp : Text) × (o ≡ some (q, some sdp))
        × (rtc.signaling q ≡ have_local_offer)
        × Valid sdp
  Offers-some none h = cc
  Offers-some (some (q, none)) h = cc
  Offers-some (some (q, some sdp)) h = (q, sdp, refl, h.0, h.1)

  Answers-some :
      (p : P) (o : Option Text)
      → Answers rtc Valid p o
      → (sdp : Text) × (q : P) × (o ≡ some sdp)
        × (rtc.set_local_answer sdp p ≡ some q)
        × (rtc.signaling q ≡ stable)
        × Valid sdp
  Answers-some p none h = cc
  Answers-some p (some sdp) h =
      let (q, e, f) = Comes-some stable (rtc.set_local_answer sdp p) h.0 in
      (sdp, q, refl, e, f, h.1)

module _ {P : Type 0} (rtc : Rtc P) (Valid : Text → Type 0) (Addable : Value → Type 0)
    (law : Lawful rtc Valid Addable) (env : Env) (answers : env.takes_answer ≡ true)
    (offers : env.takes_offer ≡ true) (k g : ℕ) (c : Text) (filled : is_empty c ≡ false)
    (role : Option CallRole) where
  -- A stretch goes on with this call, and a connection in this signaling state.
  abbrev Reaches : SignalingState → Run rtc env → Facade → Type 0
  Reaches state r s = (q : P) × (r ≡ goes s q) × (rtc.signaling q ≡ state)

  flush_candidates-Reaches :
      (cs : List Value) (ready b : Bool) (out : List Value) (s : Facade) (p : P)
      → All Addable cs
      → rtc.has_remote p ≡ true
      → On Addable k g c role ready b out s
      → Reaches (rtc.signaling p) (flush_candidates rtc env k g cs s p) s
  unfolding flush_candidates
  flush_candidates-Reaches [] ready b out s p fit there h = (p, refl, refl)
  flush_candidates-Reaches (v ∷ cs) ready b out s p fit there h =
      let (q, e, f, kept) =
        Describes-some rtc Valid (rtc.signaling p) (rtc.add_candidate v p)
          (law.adds v p fit.0 there) in
      let (q', e', f') = flush_candidates-Reaches cs ready b out s q fit.1 kept h in
      (q', ground (arith, e, e', h.holds, h.current), f' ∙ f)

  pub flush_pending-Reaches :
      (ready b : Bool) (out : List Value) (s : Facade) (p : P)
      → rtc.has_remote p ≡ true
      → On Addable k g c role ready b out s
      → Reaches
          (rtc.signaling p)
          (flush_pending_candidates rtc env k g s p)
          (record s { pending_candidates = [] })
  unfolding flush_pending_candidates
  flush_pending-Reaches ready b out s p there h =
      flush_candidates-Reaches s.pending_candidates ready b out
        (record s { pending_candidates = [] }) p h.fit there
        (record {
          holds = h.holds;
          current = h.current;
          called = h.called;
          plays = h.plays;
          described = h.described;
          waits = h.waits;
          said = h.said;
          fit = tt;
        })

  On-sent :
      (takes : Bool) (id : Text) (v : Value) (ready b : Bool) (out : List Value) (s : Facade)
      → takes ≡ true
      → On Addable k g c role ready b out s
      → On Addable k g c role ready b (v ∷ out) (send_signal env.now takes id env.error_id v g c s)
  On-sent takes id v ready b out s e h =
      subst
        (λ t.
          On Addable k g c role ready b (v ∷ out) (send_signal env.now t id env.error_id v g c s))
        (sym e) (On-send_signal Addable k g c filled role env.now id env.error_id v ready b out s h)

  -- A new offer is sent, and waits for its answer.
  abbrev pub IsOffered : Bool → List Value → Facade × P → Type 0
  IsOffered ready out r =
      (s : Facade) × (q : P) × (sdp : Text) × (r ≡ (s, q))
      × (rtc.signaling q ≡ have_local_offer)
      × Valid sdp
      × On Addable k g c role ready false (offer_signal sdp ∷ out) s

  create_and_send_offer-IsOffered :
      (ready : Bool) (out : List Value) (s : Facade) (p : P)
      → rtc.signaling p ≡ stable
      → On Addable k g c role ready false out s
      → IsOffered ready out (create_and_send_offer rtc env k g c s p)
  unfolding create_and_send_offer
  create_and_send_offer-IsOffered ready out s p st h =
      let (q, sdp, e, f, v) = Offers-some rtc Valid (rtc.set_local_offer p) (law.offers p st) in
      (
        send_signal env.now env.takes_offer env.offer_id env.error_id (offer_signal sdp) g c s,
        q,
        sdp,
        ground (arith, e, st),
        f,
        v,
        On-sent env.takes_offer env.offer_id (offer_signal sdp) ready false out s offers h,
      )

  -- The connection is stable again, and an answer is sent.
  abbrev pub IsAnswered : List Value → Run rtc env → Type 0
  IsAnswered out r =
      (s : Facade) × (q : P) × (sdp : Text) × (r ≡ goes s q)
      × (rtc.signaling q ≡ stable)
      × Valid sdp
      × On Addable k g c role true false (answer_signal sdp ∷ out) s

  -- An answer is sent, and behind it a new offer, which waits for its answer.
  abbrev pub IsAnsweredAndOffered : List Value → Run rtc env → Type 0
  IsAnsweredAndOffered out r =
      (s : Facade) × (q : P) × (x : Text) × (y : Text) × (r ≡ goes s q)
      × (rtc.signaling q ≡ have_local_offer)
      × Valid x
      × Valid y
      × On Addable k g c role true false (offer_signal y ∷ answer_signal x ∷ out) s

  module _ (out : List Value) (s : Facade) (p : P) (st : rtc.signaling p ≡ have_remote_offer) where
    pub answer_with-IsAnswered :
        On Addable k g c role true false out s
        → IsAnswered out (answer_with rtc env k g c (rtc.create_answer p) s p)
    unfolding renegotiate
    answer_with-IsAnswered h =
        let (x, q, e, e', f, v) =
          Answers-some rtc Valid p (rtc.create_answer p) (law.answers p st) in
        let h' =
          On-sent env.takes_answer env.answer_id (answer_signal x) true false out s answers h in
        (
          send_signal env.now env.takes_answer env.answer_id env.error_id (answer_signal x) g c s,
          q,
          x,
          ground (arith, e, e', h'.waits),
          f,
          v,
          h',
        )

    pub answer_with-IsAnsweredAndOffered :
        On Addable k g c role true true out s
        → IsAnsweredAndOffered out (answer_with rtc env k g c (rtc.create_answer p) s p)
    unfolding renegotiate
    answer_with-IsAnsweredAndOffered h =
        let (x, q, e, e', f, v) =
          Answers-some rtc Valid p (rtc.create_answer p) (law.answers p st) in
        let t =
          send_signal env.now env.takes_answer env.answer_id env.error_id (answer_signal x) g c s in
        let h' =
          On-sent env.takes_answer env.answer_id (answer_signal x) true true out s answers h in
        let (u, r, y, e'', f', v', o) =
          create_and_send_offer-IsOffered true (answer_signal x ∷ out)
            (record t { local_renegotiation_pending = false }) q f
            (record {
              holds = h'.holds;
              current = h'.current;
              called = h'.called;
              plays = h'.plays;
              described = h'.described;
              waits = refl;
              said = h'.said;
              fit = h'.fit;
            }) in
        (u, r, x, y, ground (arith, e, e', h'.waits, e''), f', v, v', o)
