-- ===== src/GroupCall/Peer/Steps/Added.antt =====
-- Which candidates a peer of home/group-call-facade.service.ts hands to its connection.
use zwei.GroupCall.Peer.Steps.Allowed.{
  AddsFit, IsAlike, IsParsed, AllParsed, Parsed, Keeps, Alike-confirm, Parsed-alike, Keeps-fail,
  Keeps-add, AllParsed-append, AllParsed-remove, AllParsed-splice,
}
use zwei.Common.{
  not-false, ◌+◌, ℕ, ◌≡◌, refl, inl, Bool, not, ◌&&◌, ◌||◌, Option, none, some, List, [], ◌∷◌, leb,
  length, arith, is_some, if-keeps, if-cases,
}
use zwei.Js.Value.{Value}
use zwei.Ice.Candidate.{Identity, Candidate, ice_candidate_identity}
use zwei.Ice.Candidate.Laws.{ice_candidate_identity_again}
use zwei.Ice.Generations.{matches_ice_generation}
use zwei.GroupCall.Peer.{
  Peer, Waiting, Connection, ice_queue_limit, retire_ice, remember_local_ice, accept_candidate,
  apply_candidate, accept_parsed, expire, expire_found, get_timer, flush_begins, flush_next,
  flush_of, flush_round, remove_timer, splice_out, keep_unresolved, is_unambiguous, known_ice,
  installed_ice, has_fragment, is_nil,
}
use zwei.GroupCall.Peer.Steps.{
  Action, act, perform, Reach, joins, then_does, queues, finishes, times_out, fails,
  hears_candidate, drops_offer, sets_offer, sets_answer, answers, offers, rolls_back, flushes,
  expires, connects, queue_signal, signal_done, offer_dropped, offer_set, offer_answered,
  answer_set, offer_made,
}

Keeps-accept :
    (c : Connection) (resolves : Bool) (timer : ℕ) (x : Candidate) (i : Identity) (p : Peer)
    → IsParsed x i
    → Parsed p
    → Keeps p (accept_candidate c resolves timer x i p)
unfolding accept_candidate
Keeps-accept c resolves timer x i p k h =
    if-cases (Keeps p) (not (is_unambiguous i (known_ice p))) (λ e. Keeps-fail p p refl h)
      (λ u.
        if-cases (Keeps p) (matches_ice_generation i (installed_ice p))
          (λ m.
            Keeps-add c resolves x i p p refl (k, m, not-false (is_unambiguous i (known_ice p)) u)
              h)
          (λ m.
            if-keeps (Keeps p) (matches_ice_generation i p.retired_ice)
              (record { parsed = h; adds = inl refl })
              (if-keeps (Keeps p)
                (has_fragment i (known_ice p) || leb ice_queue_limit (length p.candidates))
                (Keeps-fail p p refl h)
                (record {
                  parsed = record {
                    waiting =
                        AllParsed-append p.candidates
                          ((record { candidate = x; identity = i; timer = timer }) ∷ []) h.waiting
                          (k, tt);
                    flushed = h.flushed;
                  };
                  adds = inl refl;
                }))))

Keeps-Parsed :
    (c : Connection) (expired resolves : Bool) (timer : ℕ) (v : Value)
    (o : Option (Candidate × Identity)) (p : Peer)
    → ice_candidate_identity v ≡ o
    → Parsed p
    → Keeps p (accept_parsed c expired resolves timer o p)
Keeps-Parsed c expired resolves timer v none p e h = Keeps-fail p p refl h
Keeps-Parsed c expired resolves timer v (some (x, i)) p e h =
    if-keeps (Keeps p) expired (Keeps-fail p p refl h)
      (Keeps-accept c resolves timer x i p (ice_candidate_identity_again v x i e) h)

Keeps-parts :
    (p q : Peer) → q.added ≡ p.added → AllParsed q.candidates → AllParsed q.flushing → Keeps p q
Keeps-parts p q e w f = record { parsed = record { waiting = w; flushed = f }; adds = inl e }

Alike-keep : (i : Identity) (p : Peer) → IsAlike p (keep_unresolved i p)
unfolding keep_unresolved
Alike-keep i p = record {
  waiting = ground arith;
  flushed = ground arith;
  added = ground arith;
  current = ground arith;
  pending = ground arith;
  retired = ground arith;
}

Keeps-expire_found :
    (c : Connection) (timer : ℕ) (o : Option Waiting) (p : Peer)
    → Parsed p
    → Keeps p (expire_found c timer o p)
Keeps-expire_found c timer none p h = Keeps-parts p p refl h.waiting h.flushed
Keeps-expire_found c timer (some w) p h =
    let q = record p { candidates = remove_timer timer p.candidates } in
    let h' : Parsed q = record {
      waiting = AllParsed-remove timer p.candidates h.waiting;
      flushed = h.flushed;
    } in
    let a = Alike-keep w.identity q in
    if-keeps (Keeps p)
      (not c.is_connected
        && (is_nil p.current_ice || not c.stable || is_some p.outstanding_negotiation))
      (Keeps-fail p q refl h') (record { parsed = Parsed-alike a h'; adds = inl a.added })

-- A round of the loop, for an item of its copy; the generations of `q` are those of `p`.
Keeps-round :
    (c : Connection) (resolves : Bool) (w : Waiting) (p : Peer) (rest : List Waiting)
    → IsParsed w.candidate w.identity
    → AllParsed rest
    → Parsed p
    → Keeps p (flush_round c resolves w (record p { flushing = rest }))
Keeps-round c resolves w p rest k ks h =
    let q = record p { flushing = rest } in
    let h' : Parsed q = record { waiting = h.waiting; flushed = ks } in
    let r = record q { candidates = splice_out w.timer p.candidates } in
    let h'' : Parsed r = record {
      waiting = AllParsed-splice w.timer p.candidates h.waiting;
      flushed = ks;
    } in
    if-cases (Keeps p) (not (is_unambiguous w.identity (known_ice p))) (λ e. Keeps-fail p q refl h')
      (λ u.
        if-keeps (Keeps p)
          (not (matches_ice_generation w.identity (installed_ice p))
            && not (matches_ice_generation w.identity p.retired_ice))
          (if-keeps (Keeps p) (has_fragment w.identity (known_ice p)) (Keeps-fail p q refl h')
            (Keeps-parts p q refl h.waiting ks))
          (if-cases (Keeps p) (matches_ice_generation w.identity (installed_ice p))
            (λ m.
              Keeps-add c resolves w.candidate w.identity p r refl
                (k, m, not-false (is_unambiguous w.identity (known_ice p)) u) h'')
            (λ m. Keeps-parts p r refl h''.waiting ks)))

Keeps-flush_of :
    (c : Connection) (resolves : Bool) (ws : List Waiting) (p : Peer)
    → AllParsed ws
    → Parsed p
    → Keeps p (flush_of c resolves ws p)
Keeps-flush_of c resolves [] p k h = Keeps-parts p p refl h.waiting h.flushed
Keeps-flush_of c resolves (w ∷ rest) p k h = Keeps-round c resolves w p rest k.0 k.1 h

act-Keeps : (a : Action) (p : Peer) → Parsed p → Keeps p (act a p)
unfolding queue_signal signal_done offer_dropped offer_set offer_answered answer_set offer_made
    apply_candidate expire flush_begins flush_next retire_ice remember_local_ice
act-Keeps queues p h =
    if-keeps (Keeps p) (leb ice_queue_limit (length p.candidates + p.operations))
      (Keeps-fail p p refl h)
      (Keeps-parts p (record p { operations = p.operations + 1 }) refl h.waiting h.flushed)
act-Keeps finishes p h = Keeps-parts p _ refl h.waiting h.flushed
act-Keeps times_out p h = Keeps-fail p p refl h
act-Keeps fails p h = Keeps-fail p p refl h
act-Keeps (hears_candidate c expired resolves timer v) p h =
    Keeps-Parsed c expired resolves timer v (ice_candidate_identity v) p refl h
act-Keeps (drops_offer sdp) p h = Keeps-parts p _ refl h.waiting h.waiting
act-Keeps (sets_offer sdp) p h = Keeps-parts p _ refl h.waiting h.waiting
act-Keeps (sets_answer sdp) p h = Keeps-parts p _ refl h.waiting h.waiting
act-Keeps (answers c installed) p h =
    let q = record (retire_ice p.current_ice (remember_local_ice installed p)) {
      current_ice = p.pending_ice;
      pending_ice = [];
    } in
    let a = Alike-confirm c q in
    let parsed = Parsed-alike a (record { waiting = h.waiting; flushed = h.flushed }) in
    record { parsed = parsed; adds = inl a.added }
act-Keeps (offers installed id) p h = Keeps-parts p _ refl h.waiting h.flushed
act-Keeps (rolls_back installed) p h = Keeps-parts p _ refl h.waiting h.flushed
act-Keeps (flushes c resolves) p h = Keeps-flush_of c resolves p.flushing p h.flushed h
act-Keeps (expires c timer) p h = Keeps-expire_found c timer (get_timer timer p.candidates) p h
act-Keeps (connects c) p h = record {
  parsed = Parsed-alike (Alike-confirm c p) h;
  adds = inl (Alike-confirm c p).added;
}

perform-Keeps : (a : Action) (p : Peer) → Parsed p → Keeps p (perform a p)
unfolding perform
perform-Keeps a p h =
    if-keeps (Keeps p) p.is_open (act-Keeps a p h) (Keeps-parts p p refl h.waiting h.flushed)

Reach-Parsed : {p : Peer} → Reach p → Parsed p
Reach-Parsed joins = record { waiting = tt; flushed = tt }
Reach-Parsed (then_does {p = p} a r) = (perform-Keeps a p (Reach-Parsed r)).parsed

-- Whatever has happened to a peer, a step hands at most one candidate to its connection, and that one
-- is as the protocol allows it, belongs to a generation that is installed at that time, and matches no
-- two generations of different passwords, the retired ones included.
pub added_is_fit : {p : Peer} → Reach p → (a : Action) → AddsFit p (perform a p)
added_is_fit {p} r a = (perform-Keeps a p (Reach-Parsed r)).adds
