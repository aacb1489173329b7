-- ===== src/GroupCall/Peer/Steps.antt =====
-- A peer of a group call as a state machine: what the signals, the timers and the connection do to the
-- ICE candidates of home/group-call-facade.service.ts, in any order.
pub mod Recovery
pub mod Bounds
pub mod Allowed
pub mod Added
pub mod Flush
use zwei.Common.{
  ℕ, ◌+◌, ◌-◌, ◌≡◌, Bool, true, false, Option, none, some, List, [], ◌∷◌, leb, if◌then◌else◌,
  length,
}
use zwei.Js.Text.{Text}
use zwei.Js.Value.{Value}
use zwei.Ice.Generations.{Generation, ice_generations}
use zwei.GroupCall.Peer.{
  Peer, Connection, new_peer, ice_queue_limit, fail_ice, retire_ice, remember_local_ice,
  confirm_ice_recovery, apply_candidate, expire, flush_begins, flush_next,
}

-- `queueSignal`: a signal waits for its turn, if there is room.
unfoldable pub queue_signal : Peer → Peer
queue_signal p =
    if leb ice_queue_limit (length p.candidates + p.operations)
    then fail_ice p
    else record p { operations = p.operations + 1 }

unfoldable pub signal_done : Peer → Peer
signal_done p = record p { operations = p.operations - 1 }

-- `applySignal`, in its stretches. An offer that loses to this side's own:
unfoldable pub offer_dropped : Text → Peer → Peer
offer_dropped sdp p = flush_begins (retire_ice (ice_generations sdp) p)

-- an offer that is set as the remote description;
unfoldable pub offer_set : Text → Peer → Peer
offer_set sdp p =
    flush_begins (record p { outstanding_negotiation = none; pending_ice = ice_generations sdp })

-- its answer, set as the local description, where `installed` is what `localIce` finds;
unfoldable pub offer_answered : Connection → List Generation → Peer → Peer
offer_answered c installed p =
    let q = retire_ice p.current_ice (remember_local_ice installed p) in
    confirm_ice_recovery c (record q { current_ice = p.pending_ice; pending_ice = [] })

-- and an answer that is set as the remote description.
unfoldable pub answer_set : Text → Peer → Peer
answer_set sdp p = flush_begins (record (retire_ice p.current_ice p) {
  current_ice = ice_generations sdp;
  pending_ice = [];
  outstanding_negotiation = none;
})

-- `offer`, behind `setLocalDescription`, and `rollbackLocalOffer`.
unfoldable pub offer_made : List Generation → Text → Peer → Peer
offer_made installed id p = record (remember_local_ice installed p) {
  outstanding_negotiation = some id;
}

-- A connection, whether `addIceCandidate` resolves, a timer and whether a deadline is over.
pub data Action : Type 0 where
  queues finishes times_out fails : Action
  hears_candidate : Connection → Bool → Bool → ℕ → Value → Action
  drops_offer sets_offer sets_answer : Text → Action
  answers : Connection → List Generation → Action
  offers : List Generation → Text → Action
  rolls_back : List Generation → Action
  flushes : Connection → Bool → Action
  expires : Connection → ℕ → Action
  connects : Connection → Action

abbrev pub act : Action → Peer → Peer
act queues p = queue_signal p
act finishes p = signal_done p
act times_out p = fail_ice p
act fails p = fail_ice p
act (hears_candidate c expired resolves timer v) p = apply_candidate c expired resolves timer v p
act (drops_offer sdp) p = offer_dropped sdp p
act (sets_offer sdp) p = offer_set sdp p
act (sets_answer sdp) p = answer_set sdp p
act (answers c installed) p = offer_answered c installed p
act (offers installed id) p = offer_made installed id p
act (rolls_back installed) p = remember_local_ice installed p
act (flushes c resolves) p = flush_next c resolves p
act (expires c timer) p = expire c timer p
act (connects c) p = confirm_ice_recovery c p

-- Nothing happens to a peer that is removed: its timers are cleared, and its methods end.
unfoldable pub perform : Action → Peer → Peer
perform a p = if p.is_open then act a p else p

pub data Reach : Peer → Type 0 where
  joins : Reach new_peer
  then_does : {p : Peer} (a : Action) → Reach p → Reach (perform a p)
