-- ===== src/GroupCall/Peer/Steps/Recovery.antt =====
-- What a peer of home/group-call-facade.service.ts keeps, and the steps of its recovery.
use zwei.Common.{
  ℕ, zero, suc, ◌-◌, ◌≤◌, ◌≡◌, refl, Bool, true, false, List, [], ◌∷◌, ◌++◌, ltb, length, drop, any,
  length-append, arith, if-keeps, if-cases, ltb→lt,
}
use zwei.Ice.Candidate.{Identity, Candidate}
use zwei.Ice.Generations.{Generation}
use zwei.GroupCall.Peer.{
  Peer, Waiting, Unresolved, Connection, ice_queue_limit, fail_ice, last_items, retire_ice,
  remember_local_ice, confirm_ice_recovery, mark_all, unmark, record_replacement_candidate,
  remove_timer, drop_last, splice_out, keep_unresolved, installed_ice, add_generations,
  same_ice_identity,
}
use zwei.GroupCall.Peer.Steps.{queue_signal}

pub record Bounded (p : Peer) : Type 0 where
  pub waiting : length p.candidates ≤ ice_queue_limit
  pub queued : p.operations ≤ ice_queue_limit
  pub retired : length p.retired_ice ≤ ice_queue_limit
  pub retired_local : length p.retired_local_ice ≤ ice_queue_limit
  pub unresolved : length p.unresolved_ice ≤ ice_queue_limit

length-drop {ℓ} : {A : Type ℓ} (n : ℕ) (xs : List A) → length (drop n xs) ≡ length xs - n
length-drop zero xs = omega arith
length-drop (suc n) [] = omega arith
length-drop (suc n) (x ∷ xs) = omega (arith, length-drop n xs)

length-last_items {ℓ} : {A : Type ℓ} (n : ℕ) (xs : List A) → length (last_items n xs) ≤ n
unfolding last_items
length-last_items n xs = omega (arith, length-drop (length xs - n) xs)

length-mark_all :
    (i : Identity) (gs : List Generation) (us : List Unresolved)
    → length (mark_all i gs us) ≡ length us
length-mark_all i gs [] = refl
length-mark_all i gs (u ∷ us) = omega (arith, length-mark_all i gs us)

length-unmark : (i : Identity) (us : List Unresolved) → length (unmark i us) ≡ length us
length-unmark i [] = refl
length-unmark i (u ∷ us) = ground (arith, length-unmark i us)

pub length-remove_timer : (t : ℕ) (ws : List Waiting) → length (remove_timer t ws) ≤ length ws
unfolding remove_timer
length-remove_timer t [] = omega arith
length-remove_timer t (w ∷ ws) = ground (arith, length-remove_timer t ws)

length-drop_last : (ws : List Waiting) → length (drop_last ws) ≤ length ws
unfolding drop_last
length-drop_last [] = omega arith
length-drop_last (w ∷ []) = omega arith
length-drop_last (w ∷ v ∷ r) = omega (arith, length-drop_last (v ∷ r))

pub length-splice_out : (t : ℕ) (ws : List Waiting) → length (splice_out t ws) ≤ length ws
unfolding splice_out
length-splice_out t ws = ground (arith, length-remove_timer t ws, length-drop_last ws)

pub Bounded-fail_ice : (p : Peer) → Bounded p → Bounded (fail_ice p)
unfolding fail_ice
Bounded-fail_ice p h = ground arith

pub Bounded-retire_ice : (gs : List Generation) (p : Peer) → Bounded p → Bounded (retire_ice gs p)
unfolding retire_ice
Bounded-retire_ice gs p h = record {
  waiting = h.waiting;
  queued = h.queued;
  retired = length-last_items 64 (add_generations gs p.retired_ice);
  retired_local = h.retired_local;
  unresolved = h.unresolved;
}

pub Bounded-remember :
    (gs : List Generation) (p : Peer) → Bounded p → Bounded (remember_local_ice gs p)
unfolding remember_local_ice
Bounded-remember gs p h = record {
  waiting = h.waiting;
  queued = h.queued;
  retired = h.retired;
  retired_local = length-last_items 64 _;
  unresolved = h.unresolved;
}

-- A change of the unresolved candidates alone.
Bounded-unresolved :
    (us : List Unresolved) (u o : Bool) (p : Peer)
    → length us ≤ ice_queue_limit
    → Bounded p
    → Bounded (record p { unresolved_ice = us; uncertain = u; unresolved_ice_overflow = o })
Bounded-unresolved us u o p le h = record {
  waiting = h.waiting;
  queued = h.queued;
  retired = h.retired;
  retired_local = h.retired_local;
  unresolved = le;
}

pub Bounded-confirm : (c : Connection) (p : Peer) → Bounded p → Bounded (confirm_ice_recovery c p)
unfolding confirm_ice_recovery
Bounded-confirm c p h =
    if-keeps Bounded _ h (Bounded-unresolved [] false p.unresolved_ice_overflow p (omega arith) h)

pub Bounded-record :
    (c : Connection) (i : Identity) (x : Candidate) (p : Peer)
    → Bounded p
    → Bounded (record_replacement_candidate c i x p)
unfolding record_replacement_candidate
Bounded-record c i x p h = if-keeps Bounded _ h (
    Bounded-confirm c _ (
      Bounded-unresolved (mark_all i (installed_ice p) p.unresolved_ice) p.uncertain
        p.unresolved_ice_overflow p
        (omega (arith, length-mark_all i (installed_ice p) p.unresolved_ice, h.unresolved)) h))

pub Bounded-queue : (p : Peer) → Bounded p → Bounded (queue_signal p)
unfolding queue_signal
Bounded-queue p h = ground (arith, Bounded-fail_ice p h)

pub Bounded-keep : (i : Identity) (p : Peer) → Bounded p → Bounded (keep_unresolved i p)
unfolding keep_unresolved
Bounded-keep i p h =
    if-keeps Bounded (any (λ u. same_ice_identity u.identity i) p.unresolved_ice)
      (Bounded-unresolved (unmark i p.unresolved_ice) true p.unresolved_ice_overflow p
        (omega (arith, length-unmark i p.unresolved_ice, h.unresolved)) h)
      (if-cases Bounded (ltb (length p.unresolved_ice) 64)
        (λ e.
          Bounded-unresolved
            (p.unresolved_ice ++ (record { identity = i; replacement_applied = false }) ∷ []) true
            p.unresolved_ice_overflow p
            (omega (
              arith,
              ltb→lt (length p.unresolved_ice) 64 e,
              length-append p.unresolved_ice
                  ((record { identity = i; replacement_applied = false }) ∷ []),
            ))
            h)
        (λ e. Bounded-unresolved p.unresolved_ice true true p h.unresolved h))
