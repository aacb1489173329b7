-- ===== src/GroupCall/Peer/Steps/Flush.antt =====
-- `flushCandidates` of home/group-call-facade.service.ts as a whole, when nothing happens while it waits.
use zwei.Common.{
  ℕ, zero, suc, ◌≡◌, ◌≢◌, refl, sym, ap, subst, ◌∙◌, Bool, true, false, not, ◌&&◌, List, [], ◌∷◌,
  ◌++◌, length, All, arith, Bool-cases, inl, inr,
}
use zwei.Ice.Candidate.{Identity, Candidate}
use zwei.Ice.Generations.{Generation, matches_ice_generation}
use zwei.GroupCall.Peer.{
  Peer, Waiting, Connection, add_ice_candidate, flush_begins, flush_next, flush_of, flush_round,
  remove_timer, splice_out, has_timer, is_unambiguous, known_ice, installed_ice, has_fragment,
  filter, record_replacement_candidate,
}
use zwei.GroupCall.Peer.Steps.Allowed.{IsAlike, Alike-record}

-- All rounds of the loop, each of whose waits ends well.
abbrev pub flush_all : Connection → ℕ → Peer → Peer
flush_all c zero p = p
flush_all c (suc n) p = flush_all c n (flush_next c true p)

-- What the connection is given, the last first.
abbrev pub push_all : List Waiting → List (Candidate × Identity) → List (Candidate × Identity)
push_all [] l = l
push_all (w ∷ r) l = push_all r ((w.candidate, w.identity) ∷ l)

-- A timer that no item of a list has, and a list whose timers differ.
abbrev pub IsNew : ℕ → List Waiting → Type 0
IsNew t [] = Unit
IsNew t (w ∷ r) = (w.timer ≢ t) × IsNew t r

abbrev pub Distinct : List Waiting → Type 0
Distinct [] = Unit
Distinct (w ∷ r) = IsNew w.timer r × Distinct r

remove_timer-middle :
    (done rest : List Waiting) (w : Waiting)
    → IsNew w.timer done
    → remove_timer w.timer (done ++ w ∷ rest) ≡ done ++ rest
unfolding remove_timer
remove_timer-middle [] rest w h = ground arith
remove_timer-middle (v ∷ done) rest w (a, h) = ground (arith, remove_timer-middle done rest w h, a)

has_timer-middle :
    (done rest : List Waiting) (w : Waiting) → has_timer w.timer (done ++ w ∷ rest) ≡ true
has_timer-middle [] rest w = ground arith
has_timer-middle (v ∷ done) rest w = ground (arith, has_timer-middle done rest w)

splice_out-middle :
    (done rest : List Waiting) (w : Waiting)
    → IsNew w.timer done
    → splice_out w.timer (done ++ w ∷ rest) ≡ done ++ rest
unfolding splice_out
splice_out-middle done rest w h =
    ground (arith, has_timer-middle done rest w, remove_timer-middle done rest w h)

append_nil : (xs : List Waiting) → xs ++ [] ≡ xs
append_nil [] = refl
append_nil (x ∷ xs) = ap (λ l. x ∷ l) (append_nil xs)

All-nil : (ws : List Waiting) → All (λ w. IsNew w.timer []) ws
All-nil [] = tt
All-nil (w ∷ ws) = (tt, All-nil ws)

append_middle :
    (xs : List Waiting) (w : Waiting) (ys : List Waiting) → (xs ++ w ∷ []) ++ ys ≡ xs ++ w ∷ ys
append_middle [] w ys = refl
append_middle (x ∷ xs) w ys = ap (λ l. x ∷ l) (append_middle xs w ys)

module _ (c : Connection) (current pending retired : List Generation) where
  abbrev installed : List Generation
  installed = current ++ pending

  abbrev known : List Generation
  known = (current ++ pending) ++ retired

  abbrev pub is_installed : Waiting → Bool
  is_installed w = matches_ice_generation w.identity installed

  -- An item that is neither installed nor retired keeps waiting.
  abbrev pub is_unknown : Waiting → Bool
  is_unknown w =
      not (matches_ice_generation w.identity installed)
      && not (matches_ice_generation w.identity retired)

  -- An item at which the loop does not throw.
  abbrev pub IsClear : Waiting → Type 0
  IsClear w =
      (is_unambiguous w.identity known ≡ true)
      × (is_unknown w ≡ true → has_fragment w.identity known ≡ false)

  -- In the loop: what is done and waits on, and what is left.
  pub record In (done rest : List Waiting) (added : List (Candidate × Identity)) (p : Peer)
      : Type 0 where
    pub currently : p.current_ice ≡ current
    pub pends : p.pending_ice ≡ pending
    pub retires : p.retired_ice ≡ retired
    pub waits : p.candidates ≡ done ++ rest
    pub flushes : p.flushing ≡ rest
    pub gave : p.added ≡ added

  In-alike :
      {done rest : List Waiting} {added : List (Candidate × Identity)} {p t : Peer}
      → IsAlike p t
      → In done rest added p
      → In done rest added t
  In-alike a h = record {
    currently = a.current ∙ h.currently;
    pends = a.pending ∙ h.pends;
    retires = a.retired ∙ h.retires;
    waits = a.waiting ∙ h.waits;
    flushes = a.flushed ∙ h.flushes;
    gave = a.added ∙ h.gave;
  }

  -- A round at an item that is installed, that is retired, and that keeps waiting.
  module _ (done rest : List Waiting) (added : List (Candidate × Identity)) (w : Waiting) (p : Peer)
      (new : IsNew w.timer done) (clear : is_unambiguous w.identity known ≡ true)
      (h : In done (w ∷ rest) added p) where
    spliced : splice_out w.timer p.candidates ≡ done ++ rest
    spliced = ap (splice_out w.timer) h.waits ∙ splice_out-middle done rest w new

    is_clear : is_unambiguous w.identity (known_ice p) ≡ true
    is_clear = cc (h.currently, h.pends, h.retires, clear)

    round : flush_next c true p ≡ flush_round c true w (record p { flushing = rest })
    unfolding flush_next
    round = ap (λ l. flush_of c true l p) h.flushes

    round-installed :
        is_installed w ≡ true
        → In done rest ((w.candidate, w.identity) ∷ added) (flush_next c true p)
    unfolding add_ice_candidate
    round-installed m =
        let m' : matches_ice_generation w.identity (installed_ice p) ≡ true =
          cc (h.currently, h.pends, m) in
        let q = record p {
          flushing = rest;
          candidates = splice_out w.timer p.candidates;
          added = (w.candidate, w.identity) ∷ p.added;
        } in
        let e : flush_round c true w (record p { flushing = rest })
            ≡ record_replacement_candidate c w.identity w.candidate q =
          ground (arith, is_clear, m') in
        subst (In done rest ((w.candidate, w.identity) ∷ added)) (sym (round ∙ e)) (
          In-alike (Alike-record c w.identity w.candidate q) (record {
            currently = h.currently;
            pends = h.pends;
            retires = h.retires;
            waits = spliced;
            flushes = refl;
            gave = ap (λ l. (w.candidate, w.identity) ∷ l) h.gave;
          }))

    round-retired :
        is_installed w ≡ false
        → matches_ice_generation w.identity retired ≡ true
        → In done rest added (flush_next c true p)
    round-retired m r =
        let m' : matches_ice_generation w.identity (installed_ice p) ≡ false =
          cc (h.currently, h.pends, m) in
        let r' : matches_ice_generation w.identity p.retired_ice ≡ true = cc (h.retires, r) in
        let q = record p { flushing = rest; candidates = splice_out w.timer p.candidates } in
        let e : flush_round c true w (record p { flushing = rest }) ≡ q =
          ground (arith, is_clear, m', r') in
        subst (In done rest added) (sym (round ∙ e)) (record {
          currently = h.currently;
          pends = h.pends;
          retires = h.retires;
          waits = spliced;
          flushes = refl;
          gave = h.gave;
        })

    round-unknown :
        is_installed w ≡ false
        → matches_ice_generation w.identity retired ≡ false
        → has_fragment w.identity known ≡ false
        → In (done ++ w ∷ []) rest added (flush_next c true p)
    round-unknown m r u =
        let m' : matches_ice_generation w.identity (installed_ice p) ≡ false =
          cc (h.currently, h.pends, m) in
        let r' : matches_ice_generation w.identity p.retired_ice ≡ false = cc (h.retires, r) in
        let u' : has_fragment w.identity (known_ice p) ≡ false =
          cc (h.currently, h.pends, h.retires, u) in
        let e : flush_round c true w (record p { flushing = rest }) ≡ record p { flushing = rest } =
          ground (arith, is_clear, m', r', u') in
        subst (In (done ++ w ∷ []) rest added) (sym (round ∙ e)) (record {
          currently = h.currently;
          pends = h.pends;
          retires = h.retires;
          waits = h.waits ∙ sym (append_middle done w rest);
          flushes = refl;
          gave = h.gave;
        })

  Ends-subst :
      (done : List Waiting) (added : List (Candidate × Identity)) (t : Peer)
      {us us' gs gs' : List Waiting}
      → us ≡ us'
      → gs ≡ gs'
      → In (done ++ us') [] (push_all gs' added) t
      → In (done ++ us) [] (push_all gs added) t
  Ends-subst done added t {us} {us'} {gs} {gs'} e f h =
      subst (λ l. In (done ++ l) [] (push_all gs added) t) (sym e)
        (subst (λ l. In (done ++ us') [] (push_all l added) t) (sym f) h)

  IsNew-append :
      (t : ℕ) (done : List Waiting) (w : Waiting)
      → IsNew t done
      → w.timer ≢ t
      → IsNew t (done ++ w ∷ [])
  IsNew-append t [] w h k = (k, tt)
  IsNew-append t (v ∷ done) w (a, h) k = (a, IsNew-append t done w h k)

  All-IsNew :
      (done rest : List Waiting) (w : Waiting)
      → All (λ v. IsNew v.timer done) rest
      → IsNew w.timer rest
      → All (λ v. IsNew v.timer (done ++ w ∷ [])) rest
  All-IsNew done [] w h k = tt
  All-IsNew done (v ∷ rest) w (a, h) (b, k) =
      (IsNew-append v.timer done w a (λ e. b (sym e)), All-IsNew done rest w h k)

  flush_all-In :
      (rest done : List Waiting) (added : List (Candidate × Identity)) (p : Peer)
      → In done rest added p
      → All IsClear rest
      → Distinct rest
      → All (λ w. IsNew w.timer done) rest
      → In
          (done ++ filter is_unknown rest)
          []
          (push_all (filter is_installed rest) added)
          (flush_all c (length rest) p)
  flush_all-In [] done added p h clear d n = record {
    currently = h.currently;
    pends = h.pends;
    retires = h.retires;
    waits = h.waits ∙ sym (append_nil (done ++ []));
    flushes = h.flushes;
    gave = h.gave;
  }
  flush_all-In (w ∷ rest) done added p h (k, clear) (d, ds) (n, ns) =
      let X = flush_all c (length rest) (flush_next c true p) in
      elim (Bool-cases (is_installed w)) [
        | inl m ↦
            Ends-subst done added X {us = filter is_unknown (w ∷ rest)}
              {us' = filter is_unknown rest} {gs = filter is_installed (w ∷ rest)}
              {gs' = w ∷ filter is_installed rest} (ground (arith, m)) (ground (arith, m))
              (flush_all-In rest done ((w.candidate, w.identity) ∷ added) (flush_next c true p)
                (round-installed done rest added w p n k.0 h m) clear ds ns)
        | inr m ↦ elim (Bool-cases (matches_ice_generation w.identity retired)) [
          | inl r ↦
              Ends-subst done added X {us = filter is_unknown (w ∷ rest)}
                {us' = filter is_unknown rest} {gs = filter is_installed (w ∷ rest)}
                {gs' = filter is_installed rest} (ground (arith, m, r)) (ground (arith, m))
                (flush_all-In rest done added (flush_next c true p)
                  (round-retired done rest added w p n k.0 h m r) clear ds ns)
          | inr r ↦
              Ends-subst done added X {us = filter is_unknown (w ∷ rest)}
                {us' = w ∷ filter is_unknown rest} {gs = filter is_installed (w ∷ rest)}
                {gs' = filter is_installed rest} (ground (arith, m, r)) (ground (arith, m))
                (subst (λ l. In l [] (push_all (filter is_installed rest) added) X)
                  (append_middle done w (filter is_unknown rest))
                  (flush_all-In rest (done ++ w ∷ []) added (flush_next c true p)
                    (round-unknown done rest added w p n k.0 h m r (k.1 (ground (arith, m, r))))
                    clear ds (All-IsNew done rest w ns d)))
        ]
      ]

-- The whole of `flushCandidates` is two filters, if nothing else happens meanwhile, all the promises
-- resolve, no two candidates share a timer, and none is ambiguous or of an unknown generation with a
-- known user fragment: the connection is given the candidates of installed generations, in the order in
-- which they came, and those that are neither installed nor retired wait on in their order.
pub flush_all_lem :
    (c : Connection) (p : Peer)
    → All (IsClear c p.current_ice p.pending_ice p.retired_ice) p.candidates
    → Distinct p.candidates
    → ((flush_all c (length p.candidates) (flush_begins p)).candidates
        ≡ filter (is_unknown c p.current_ice p.pending_ice p.retired_ice) p.candidates)
      × ((flush_all c (length p.candidates) (flush_begins p)).added
          ≡ push_all
              (filter (is_installed c p.current_ice p.pending_ice p.retired_ice) p.candidates)
              p.added)
unfolding flush_begins
flush_all_lem c p clear d =
    let h =
      flush_all-In c p.current_ice p.pending_ice p.retired_ice p.candidates [] p.added
        (record p { flushing = p.candidates })
        (record {
          currently = refl;
          pends = refl;
          retires = refl;
          waits = refl;
          flushes = refl;
          gave = refl;
        })
        clear d (All-nil p.candidates) in
    (h.waits ∙ append_nil _, h.gave)
