-- ===== src/Call/Negotiation/Glare/Described.antt =====
-- A signal at an end that has a remote description: `processSignal` of home/call-facade.service.ts run to its
-- end, branch by branch.
use zwei.Common.{
  ℕ, ◌≡◌, refl, sym, subst, ◌∙◌, Bool, true, false, Option, some, List, [], ◌∷◌, arith,
}
use zwei.Js.Text.{Text, is_empty}
use zwei.Js.Value.{Value}
use zwei.Call.{CallRole, Facade, caller, recipient}
use zwei.Call.Negotiation.{
  Env, goes, offer_signal, answer_signal, answer_with, take_offer, receive_offer, receive_answer,
  renegotiate, caught, process_signal, process_signal_of, flush_pending_candidates,
}
use zwei.Call.Negotiation.PeerConnection.{Rtc, stable, have_local_offer, have_remote_offer, Lawful}
use zwei.Call.Negotiation.Settling.{
  On, Comes-some, Describes-some, flush_pending-Reaches, IsAnswered, IsAnsweredAndOffered,
  answer_with-IsAnswered, answer_with-IsAnsweredAndOffered,
}

-- The call once a description has come from the other side.
abbrev pub described : Facade → Facade
described s = record s { remote_description_ready = true; pending_candidates = [] }

On-described :
    (Addable : Value → Type 0) (k g : ℕ) (c : Text) (role : Option CallRole) (ready b : Bool)
    (out : List Value) (s : Facade)
    → On Addable k g c role ready b out s
    → On Addable k g c role true b out (described s)
On-described Addable k g c role ready b out s h = record {
  holds = h.holds;
  current = h.current;
  called = h.called;
  plays = h.plays;
  described = refl;
  waits = h.waits;
  said = h.said;
  fit = tt;
}

module _ {P : Type 0} (rtc : Rtc P) (Valid : Text → Type 0) (Addable : Value → Type 0)
    (law : Lawful rtc Valid Addable) (env : Env) (answers : env.takes_answer ≡ true)
    (offers : env.takes_offer ≡ true) (k g : ℕ) (c : Text) (filled : is_empty c ≡ false)
    (role : Option CallRole) where
  flush_described :
      (ready b : Bool) (out : List Value) (s : Facade) (p : P)
      → rtc.has_remote p ≡ true
      → On Addable k g c role ready b out s
      → (q : P) × (flush_pending_candidates rtc env k g
            (record s { remote_description_ready = true })
            p
          ≡ goes (described s) q)
        × (rtc.signaling q ≡ rtc.signaling p)
  flush_described ready b out s p there h =
      flush_pending-Reaches rtc Valid Addable law env answers offers k g c filled role true b out
        (record s { remote_description_ready = true }) p there
        (record {
          holds = h.holds;
          current = h.current;
          called = h.called;
          plays = h.plays;
          described = refl;
          waits = h.waits;
          said = h.said;
          fit = h.fit;
        })

  -- The remote offer is set, and the candidates that waited for it are added.
  take_offer-answers :
      (sdp : Text) (ready b : Bool) (out : List Value) (s : Facade) (p : P)
      → Valid sdp
      → rtc.signaling p ≡ stable
      → On Addable k g c role ready b out s
      → (r : P) × (take_offer rtc env k g c sdp s p
          ≡ answer_with rtc env k g c (rtc.create_answer r) (described s) r)
        × (rtc.signaling r ≡ have_remote_offer)
  unfolding take_offer
  take_offer-answers sdp ready b out s p v st h =
      let (q, e, f, there) =
        Describes-some rtc Valid have_remote_offer (rtc.set_remote_offer sdp p)
          (law.takes_offer sdp p v st) in
      let (r, e', f') = flush_described ready b out s q there h in
      (r, ground (arith, e, e'), f' ∙ f)

  take_offer-IsAnswered :
      (sdp : Text) (ready : Bool) (out : List Value) (s : Facade) (p : P)
      → Valid sdp
      → rtc.signaling p ≡ stable
      → On Addable k g c role ready false out s
      → IsAnswered rtc Valid Addable law env answers offers k g c filled role out
          (take_offer rtc env k g c sdp s p)
  take_offer-IsAnswered sdp ready out s p v st h =
      let (r, e, f) = take_offer-answers sdp ready false out s p v st h in
      subst (IsAnswered rtc Valid Addable law env answers offers k g c filled role out) (sym e) (
        answer_with-IsAnswered rtc Valid Addable law env answers offers k g c filled role out
          (described s) r f (On-described Addable k g c role ready false out s h))

  take_offer-IsAnsweredAndOffered :
      (sdp : Text) (ready : Bool) (out : List Value) (s : Facade) (p : P)
      → Valid sdp
      → rtc.signaling p ≡ stable
      → On Addable k g c role ready true out s
      → IsAnsweredAndOffered rtc Valid Addable law env answers offers k g c filled role out
          (take_offer rtc env k g c sdp s p)
  take_offer-IsAnsweredAndOffered sdp ready out s p v st h =
      let (r, e, f) = take_offer-answers sdp ready true out s p v st h in
      subst (IsAnsweredAndOffered rtc Valid Addable law env answers offers k g c filled role out)
        (sym e)
        (answer_with-IsAnsweredAndOffered rtc Valid Addable law env answers offers k g c filled role
          out (described s) r f (On-described Addable k g c role ready true out s h))

  -- A signal goes to the connection of the call.
  process_offer :
      (sdp : Text) (ready b : Bool) (out : List Value) (s : Facade) (p : P)
      → On Addable k g c role ready b out s
      → process_signal rtc env (offer_signal sdp) s p
        ≡ caught rtc env g (receive_offer rtc env k g c sdp s p)
  unfolding process_signal process_signal_of
  process_offer sdp ready b out s p h = ground arith

  process_answer :
      (sdp : Text) (ready b : Bool) (out : List Value) (s : Facade) (p : P)
      → On Addable k g c role ready b out s
      → process_signal rtc env (answer_signal sdp) s p
        ≡ caught rtc env g (receive_answer rtc env k g c sdp s p)
  unfolding process_signal process_signal_of
  process_answer sdp ready b out s p h = ground arith

  -- An answer makes the connection stable.
  pub process_answer-stable :
      (sdp : Text) (ready : Bool) (out : List Value) (s : Facade) (p : P)
      → Valid sdp
      → rtc.signaling p ≡ have_local_offer
      → On Addable k g c role ready false out s
      → (q : P) × (process_signal rtc env (answer_signal sdp) s p ≡ (described s, q))
        × (rtc.signaling q ≡ stable)
        × On Addable k g c role true false out (described s)
  unfolding receive_answer renegotiate
  process_answer-stable sdp ready out s p v st h =
      let (q, e, f, there) =
        Describes-some rtc Valid stable (rtc.set_remote_answer sdp p)
          (law.takes_answer sdp p v st) in
      let (r, e', f') = flush_described ready false out s q there h in
      (
        r,
        ground (arith, process_answer sdp ready false out s p h, e, e', st, h.waits),
        f' ∙ f,
        On-described Addable k g c role ready false out s h,
      )

  -- An offer to a stable connection is answered.
  pub process_offer-IsAnswered :
      (sdp : Text) (ready : Bool) (out : List Value) (s : Facade) (p : P)
      → Valid sdp
      → rtc.signaling p ≡ stable
      → On Addable k g c role ready false out s
      → (t : Facade) × (q : P) × (x : Text) × (process_signal rtc env (offer_signal sdp) s p
          ≡ (t, q))
        × (rtc.signaling q ≡ stable)
        × Valid x
        × On Addable k g c role true false (answer_signal x ∷ out) t
  unfolding receive_offer
  process_offer-IsAnswered sdp ready out s p v st h =
      let (t, q, x, e, f, w, o) = take_offer-IsAnswered sdp ready out s p v st h in
      (t, q, x, ground (arith, process_offer sdp ready false out s p h, st, e), f, w, o)

  -- The side that does not give way drops the offer.
  pub process_offer-drops :
      (sdp : Text) (ready b : Bool) (out : List Value) (s : Facade) (p : P)
      → role ≡ some caller
      → rtc.signaling p ≡ have_local_offer
      → On Addable k g c role ready b out s
      → process_signal rtc env (offer_signal sdp) s p ≡ (s, p)
  unfolding receive_offer
  process_offer-drops sdp ready b out s p r st h =
      ground (arith, process_offer sdp ready b out s p h, st, r)

  -- The side that gives way takes its offer back, answers, and offers again.
  pub process_offer-gives_way :
      (sdp : Text) (ready b : Bool) (out : List Value) (s : Facade) (p : P)
      → Valid sdp
      → role ≡ some recipient
      → rtc.signaling p ≡ have_local_offer
      → On Addable k g c role ready b out s
      → (t : Facade) × (q : P) × (x : Text) × (y : Text) × (process_signal rtc env
            (offer_signal sdp)
            s
            p
          ≡ (t, q))
        × (rtc.signaling q ≡ have_local_offer)
        × Valid x
        × Valid y
        × On Addable k g c role true false (offer_signal y ∷ answer_signal x ∷ out) t
  unfolding receive_offer
  process_offer-gives_way sdp ready b out s p v r st h =
      let (p', e', f') = Comes-some rtc Valid stable (rtc.rollback p) (law.rolls_back p st) in
      let (t, q, x, y, e, f, w, w', o) =
        take_offer-IsAnsweredAndOffered sdp ready out
          (record s { local_renegotiation_pending = true }) p' v f'
          (record {
            holds = h.holds;
            current = h.current;
            called = h.called;
            plays = h.plays;
            described = h.described;
            waits = refl;
            said = h.said;
            fit = h.fit;
          }) in
      (t, q, x, y, ground (arith, process_offer sdp ready b out s p h, st, r, e', e), f, w, w', o)
