-- ===== src/GroupCall/Peer.antt =====
-- The ICE candidates of one peer of a group call: `acceptCandidate`, `flushCandidates` and what they
-- share, of home/group-call-facade.service.ts. The methods of a peer run one at a time, but a timer may
-- fire while one waits for the connection, so each stretch between two waits is a function.
mod Generations
pub mod Steps
mod Examples
unfoldable pub use Generations.*
use zwei.Common.{
  ℕ, zero, suc, ◌+◌, ◌-◌, Bool, true, false, not, ◌&&◌, ◌||◌, Option, none, some, List, [], ◌∷◌,
  ◌++◌, ltb, leb, ◌==◌, if◌then◌else◌, length, drop, any, every, is_some,
}
use zwei.Js.Text.{Text, text_eq, is_empty}
use zwei.Js.Value.{Value}
use zwei.Ice.Candidate.{Identity, Candidate, ice_candidate_identity}
use zwei.Ice.Generations.{Generation, ice_generations, is_generation_of, matches_ice_generation}

abbrev confirms : Peer → Unresolved → Bool
confirms p u = u.replacement_applied && matches_ice_generation u.identity p.current_ice

-- `confirmIceRecovery`.
unfoldable pub confirm_ice_recovery : Connection → Peer → Peer
confirm_ice_recovery c p =
    if p.unresolved_ice_overflow
      || is_nil p.unresolved_ice
      || not c.is_connected
      || not c.stable
      || not (every (confirms p) p.unresolved_ice)
    then p
    else record p { unresolved_ice = []; uncertain = false }

abbrev replaces : Identity → List Generation → Unresolved → Bool
replaces identity installed u =
    any (λ g. is_generation_of u.identity g && is_generation_of identity g) installed

abbrev pub mark_all : Identity → List Generation → List Unresolved → List Unresolved
mark_all identity installed [] = []
mark_all identity installed (u ∷ r) =
    record u { replacement_applied = u.replacement_applied || replaces identity installed u }
    ∷ mark_all identity installed r

-- `recordReplacementCandidate`.
unfoldable pub record_replacement_candidate : Connection → Identity → Candidate → Peer → Peer
record_replacement_candidate c identity candidate p =
    if is_empty candidate.line || p.unresolved_ice_overflow || is_nil p.unresolved_ice
    then p
    else confirm_ice_recovery c
        (record p { unresolved_ice = mark_all identity (installed_ice p) p.unresolved_ice })

-- `addIceCandidate`, which resolves or rejects, and what follows it.
unfoldable pub add_ice_candidate : Connection → Bool → Candidate → Identity → Peer → Peer
add_ice_candidate c resolves candidate identity p =
    let q = record p { added = (candidate, identity) ∷ p.added } in
    if resolves then record_replacement_candidate c identity candidate q else fail_ice q

-- `acceptCandidate`; what it throws makes `applySignal` remove the peer.
unfoldable pub accept_candidate : Connection → Bool → ℕ → Candidate → Identity → Peer → Peer
accept_candidate c resolves timer candidate identity p =
    if not (is_unambiguous identity (known_ice p))
    then fail_ice p
    else if matches_ice_generation identity (installed_ice p)
    then add_ice_candidate c resolves candidate identity p
    else if matches_ice_generation identity p.retired_ice
    then p
    else if has_fragment identity (known_ice p) || leb ice_queue_limit (length p.candidates)
    then fail_ice p
    else record p {
      candidates =
          p.candidates
          ++ (record { candidate = candidate; identity = identity; timer = timer }) ∷ [];
    }

-- `applySignal` of a candidate; `expired` tells that its deadline is over.
abbrev pub accept_parsed :
    Connection → Bool → Bool → ℕ → Option (Candidate × Identity) → Peer → Peer
accept_parsed c expired resolves timer none p = fail_ice p
accept_parsed c expired resolves timer (some (candidate, identity)) p =
    if expired then fail_ice p else accept_candidate c resolves timer candidate identity p

unfoldable pub apply_candidate : Connection → Bool → Bool → ℕ → Value → Peer → Peer
apply_candidate c expired resolves timer value p =
    accept_parsed c expired resolves timer (ice_candidate_identity value) p

abbrev pub has_timer : ℕ → List Waiting → Bool
has_timer t = any (λ w. w.timer == t)

-- `splice(index, 1)` at the index of an item, and `splice(-1, 1)`, which takes the last.
unfoldable pub remove_timer : ℕ → List Waiting → List Waiting
remove_timer t [] = []
remove_timer t (w ∷ r) = let rest = remove_timer t r in if w.timer == t then r else w ∷ rest

unfoldable pub drop_last : List Waiting → List Waiting
drop_last [] = []
drop_last (w ∷ []) = []
drop_last (w ∷ v ∷ r) = w ∷ drop_last (v ∷ r)

unfoldable pub splice_out : ℕ → List Waiting → List Waiting
splice_out t ws = if has_timer t ws then remove_timer t ws else drop_last ws

abbrev pub get_timer : ℕ → List Waiting → Option Waiting
get_timer t [] = none
get_timer t (w ∷ r) = if w.timer == t then some w else get_timer t r

abbrev same_text_option : Option Text → Option Text → Bool
same_text_option none none = true
same_text_option none (some b) = false
same_text_option (some a) none = false
same_text_option (some a) (some b) = text_eq a b

abbrev same_index_option : Option ℕ → Option ℕ → Bool
same_index_option none none = true
same_index_option none (some b) = false
same_index_option (some a) none = false
same_index_option (some a) (some b) = a == b

abbrev pub same_ice_identity : Identity → Identity → Bool
same_ice_identity a b =
    text_eq a.ufrag b.ufrag && same_text_option a.mid b.mid && same_index_option a.index b.index

abbrev pub unmark : Identity → List Unresolved → List Unresolved
unmark identity [] = []
unmark identity (u ∷ r) =
    let rest = unmark identity r in
    if same_ice_identity u.identity identity
    then record u { replacement_applied = false } ∷ r
    else u ∷ rest

-- The candidate stays unresolved, and is warned about.
unfoldable pub keep_unresolved : Identity → Peer → Peer
keep_unresolved identity p =
    let q = record p { uncertain = true } in
    if any (λ u. same_ice_identity u.identity identity) p.unresolved_ice
    then record q { unresolved_ice = unmark identity p.unresolved_ice }
    else if ltb (length p.unresolved_ice) ice_queue_limit
    then record q {
      unresolved_ice =
          p.unresolved_ice ++ (record { identity = identity; replacement_applied = false }) ∷ [];
    }
    else record q { unresolved_ice_overflow = true }

abbrev pub expire_found : Connection → ℕ → Option Waiting → Peer → Peer
expire_found c timer none p = p
expire_found c timer (some w) p =
    let q = record p { candidates = remove_timer timer p.candidates } in
    if not c.is_connected
      && (is_nil p.current_ice || not c.stable || is_some p.outstanding_negotiation)
    then fail_ice q
    else keep_unresolved w.identity q

-- The timer of a candidate fires.
unfoldable pub expire : Connection → ℕ → Peer → Peer
expire c timer p = expire_found c timer (get_timer timer p.candidates) p

-- `flushCandidates` begins with a copy of what waits.
unfoldable pub flush_begins : Peer → Peer
flush_begins p = record p { flushing = p.candidates }

-- One round of its loop.
abbrev pub flush_round : Connection → Bool → Waiting → Peer → Peer
flush_round c resolves w p =
    if not (is_unambiguous w.identity (known_ice p))
    then fail_ice p
    else if not (matches_ice_generation w.identity (installed_ice p))
        && not (matches_ice_generation w.identity p.retired_ice)
    then (if has_fragment w.identity (known_ice p) then fail_ice p else p)
    else (let q = record p { candidates = splice_out w.timer p.candidates } in
        if matches_ice_generation w.identity (installed_ice p)
        then add_ice_candidate c resolves w.candidate w.identity q
        else q)

abbrev pub flush_of : Connection → Bool → List Waiting → Peer → Peer
flush_of c resolves [] p = p
flush_of c resolves (w ∷ rest) p = flush_round c resolves w (record p { flushing = rest })

unfoldable pub flush_next : Connection → Bool → Peer → Peer
flush_next c resolves p = flush_of c resolves p.flushing p
