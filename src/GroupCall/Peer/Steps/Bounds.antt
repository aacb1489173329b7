-- ===== src/GroupCall/Peer/Steps/Bounds.antt =====
-- The lists of a peer of home/group-call-facade.service.ts stay within `iceQueueLimit`.
use zwei.GroupCall.Peer.Steps.Recovery.{
  Bounded, length-remove_timer, length-splice_out, Bounded-fail_ice, Bounded-retire_ice,
  Bounded-remember, Bounded-confirm, Bounded-record, Bounded-queue, Bounded-keep,
}
use zwei.Common.{
  ℕ, ◌≤◌, Bool, not, ◌&&◌, ◌||◌, Option, none, some, List, [], ◌∷◌, ◌++◌, leb, length,
  length-append, arith, is_some, if-keeps, if-cases,
}
use zwei.Js.Text.{Text}
use zwei.Ice.Candidate.{Identity, Candidate, ice_candidate_identity}
use zwei.Ice.Generations.{Generation, ice_generations, matches_ice_generation}
use zwei.GroupCall.Peer.{
  Peer, Waiting, Connection, ice_queue_limit, retire_ice, add_ice_candidate, accept_candidate,
  apply_candidate, accept_parsed, expire, expire_found, get_timer, flush_begins, flush_next,
  flush_of, flush_round, remove_timer, splice_out, is_unambiguous, known_ice, installed_ice,
  has_fragment, is_nil,
}
use zwei.GroupCall.Peer.Steps.{
  Action, act, perform, Reach, joins, then_does, queues, finishes, times_out, fails,
  hears_candidate, drops_offer, sets_offer, sets_answer, answers, offers, rolls_back, flushes,
  expires, connects, signal_done, offer_dropped, offer_set, offer_answered, answer_set, offer_made,
}

-- Fewer candidates wait, or there is room for one more.
Bounded-waiting :
    (ws : List Waiting) (p : Peer)
    → length ws ≤ ice_queue_limit
    → Bounded p
    → Bounded (record p { candidates = ws })
Bounded-waiting ws p le h = record {
  waiting = le;
  queued = h.queued;
  retired = h.retired;
  retired_local = h.retired_local;
  unresolved = h.unresolved;
}

Bounded-add :
    (c : Connection) (resolves : Bool) (x : Candidate) (i : Identity) (p : Peer)
    → Bounded p
    → Bounded (add_ice_candidate c resolves x i p)
unfolding add_ice_candidate
Bounded-add c resolves x i p h =
    let q = record p { added = (x, i) ∷ p.added } in
    let h' : Bounded q = record {
      waiting = h.waiting;
      queued = h.queued;
      retired = h.retired;
      retired_local = h.retired_local;
      unresolved = h.unresolved;
    } in
    if-keeps Bounded resolves (Bounded-record c i x q h') (Bounded-fail_ice q h')

Bounded-accept :
    (c : Connection) (resolves : Bool) (timer : ℕ) (x : Candidate) (i : Identity) (p : Peer)
    → Bounded p
    → Bounded (accept_candidate c resolves timer x i p)
unfolding accept_candidate
Bounded-accept c resolves timer x i p h =
    let w : Waiting = record { candidate = x; identity = i; timer = timer } in
    if-keeps Bounded (not (is_unambiguous i (known_ice p))) (Bounded-fail_ice p h) (
      if-keeps Bounded (matches_ice_generation i (installed_ice p)) (Bounded-add c resolves x i p h)
        (if-keeps Bounded (matches_ice_generation i p.retired_ice) h (
          if-cases Bounded
            (has_fragment i (known_ice p) || leb ice_queue_limit (length p.candidates))
            (λ e. Bounded-fail_ice p h)
            (λ e.
              Bounded-waiting (p.candidates ++ w ∷ []) p
                (ground (arith, length-append p.candidates (w ∷ []))) h))))

Bounded-parsed :
    (c : Connection) (expired resolves : Bool) (timer : ℕ) (o : Option (Candidate × Identity))
    (p : Peer)
    → Bounded p
    → Bounded (accept_parsed c expired resolves timer o p)
Bounded-parsed c expired resolves timer none p h = Bounded-fail_ice p h
Bounded-parsed c expired resolves timer (some (x, i)) p h =
    if-keeps Bounded expired (Bounded-fail_ice p h) (Bounded-accept c resolves timer x i p h)

Bounded-expire_found :
    (c : Connection) (timer : ℕ) (o : Option Waiting) (p : Peer)
    → Bounded p
    → Bounded (expire_found c timer o p)
Bounded-expire_found c timer none p h = h
Bounded-expire_found c timer (some w) p h =
    let q = record p { candidates = remove_timer timer p.candidates } in
    let h' =
      Bounded-waiting (remove_timer timer p.candidates) p
        (omega (arith, length-remove_timer timer p.candidates, h.waiting)) h in
    if-keeps Bounded
      (not c.is_connected
        && (is_nil p.current_ice || not c.stable || is_some p.outstanding_negotiation))
      (Bounded-fail_ice q h') (Bounded-keep w.identity q h')

-- A change of the copy that is flushed.
Bounded-flushing : (ws : List Waiting) (p : Peer) → Bounded p → Bounded (record p { flushing = ws })
Bounded-flushing ws p h = record {
  waiting = h.waiting;
  queued = h.queued;
  retired = h.retired;
  retired_local = h.retired_local;
  unresolved = h.unresolved;
}

Bounded-round :
    (c : Connection) (resolves : Bool) (w : Waiting) (p : Peer)
    → Bounded p
    → Bounded (flush_round c resolves w p)
Bounded-round c resolves w p h =
    let q = record p { candidates = splice_out w.timer p.candidates } in
    let h' =
      Bounded-waiting (splice_out w.timer p.candidates) p
        (omega (arith, length-splice_out w.timer p.candidates, h.waiting)) h in
    if-keeps Bounded (not (is_unambiguous w.identity (known_ice p))) (Bounded-fail_ice p h) (
      if-keeps Bounded
        (not (matches_ice_generation w.identity (installed_ice p))
          && not (matches_ice_generation w.identity p.retired_ice))
        (if-keeps Bounded (has_fragment w.identity (known_ice p)) (Bounded-fail_ice p h) h)
        (if-keeps Bounded (matches_ice_generation w.identity (installed_ice p))
          (Bounded-add c resolves w.candidate w.identity q h') h'))

Bounded-flush_of :
    (c : Connection) (resolves : Bool) (ws : List Waiting) (p : Peer)
    → Bounded p
    → Bounded (flush_of c resolves ws p)
Bounded-flush_of c resolves [] p h = h
Bounded-flush_of c resolves (w ∷ rest) p h =
    Bounded-round c resolves w (record p { flushing = rest }) (Bounded-flushing rest p h)

-- A change of the generations that are in use, and of the negotiation.
Bounded-installed :
    (a b : List Generation) (n : Option Text) (p : Peer)
    → Bounded p
    → Bounded (record p { current_ice = a; pending_ice = b; outstanding_negotiation = n })
Bounded-installed a b n p h = record {
  waiting = h.waiting;
  queued = h.queued;
  retired = h.retired;
  retired_local = h.retired_local;
  unresolved = h.unresolved;
}

Bounded-flush_begins : (p : Peer) → Bounded p → Bounded (flush_begins p)
unfolding flush_begins
Bounded-flush_begins p h = Bounded-flushing p.candidates p h

act-Bounded : (a : Action) (p : Peer) → Bounded p → Bounded (act a p)
unfolding signal_done offer_dropped offer_set offer_answered answer_set offer_made apply_candidate
    expire flush_next
act-Bounded queues p h = Bounded-queue p h
act-Bounded finishes p h = ground arith
act-Bounded times_out p h = Bounded-fail_ice p h
act-Bounded fails p h = Bounded-fail_ice p h
act-Bounded (hears_candidate c expired resolves timer v) p h =
    Bounded-parsed c expired resolves timer (ice_candidate_identity v) p h
act-Bounded (drops_offer sdp) p h =
    Bounded-flush_begins (retire_ice (ice_generations sdp) p)
      (Bounded-retire_ice (ice_generations sdp) p h)
act-Bounded (sets_offer sdp) p h =
    Bounded-flush_begins _ (Bounded-installed p.current_ice (ice_generations sdp) none p h)
act-Bounded (sets_answer sdp) p h = Bounded-flush_begins _ (
    Bounded-installed (ice_generations sdp) [] none (retire_ice p.current_ice p)
      (Bounded-retire_ice p.current_ice p h))
act-Bounded (answers c installed) p h = Bounded-confirm c _ (
    Bounded-installed p.pending_ice [] _ _
      (Bounded-retire_ice p.current_ice _ (Bounded-remember installed p h)))
act-Bounded (offers installed id) p h =
    Bounded-installed _ _ (some id) _ (Bounded-remember installed p h)
act-Bounded (rolls_back installed) p h = Bounded-remember installed p h
act-Bounded (flushes c resolves) p h = Bounded-flush_of c resolves p.flushing p h
act-Bounded (expires c timer) p h = Bounded-expire_found c timer (get_timer timer p.candidates) p h
act-Bounded (connects c) p h = Bounded-confirm c p h

perform-Bounded : (a : Action) (p : Peer) → Bounded p → Bounded (perform a p)
unfolding perform
perform-Bounded a p h = if-keeps Bounded p.is_open (act-Bounded a p h) h

-- Whatever the others send, a peer never keeps more than `iceQueueLimit` candidates that wait, signals
-- that are queued, retired generations of either side, or unresolved candidates.
pub Reach-Bounded_peer : {p : Peer} → Reach p → Bounded p
Reach-Bounded_peer joins = record {
  waiting = omega arith;
  queued = omega arith;
  retired = omega arith;
  retired_local = omega arith;
  unresolved = omega arith;
}
Reach-Bounded_peer (then_does {p = p} a r) = perform-Bounded a p (Reach-Bounded_peer r)
