-- ===== src/GroupCall/Peer/Generations.antt =====
-- The state of a peer and the generations of its ICE candidates: `PeerConnectionState`, `retireIce`,
-- `rememberLocalIce` and `assertUnambiguousIce` of home/group-call-facade.service.ts.
use zwei.Common.{
  ℕ, ◌-◌, Bool, true, false, not, ◌&&◌, Option, none, some, List, [], ◌∷◌, ◌++◌, ◌==◌,
  if◌then◌else◌, length, drop, any,
}
use zwei.Js.Text.{Text, text_eq}
use zwei.Ice.Candidate.{Identity, Candidate}
use zwei.Ice.Generations.{Generation, is_generation_of}

-- `iceQueueLimit`.
abbrev pub ice_queue_limit : ℕ
ice_queue_limit = 64

-- An item of `candidates`. Its timer tells it from all others.
pub record Waiting : Type 0 where
  pub candidate : Candidate
  pub identity : Identity
  pub timer : ℕ

-- An item of `unresolvedIce`.
pub record Unresolved : Type 0 where
  pub identity : Identity
  pub replacement_applied : Bool

-- `PeerConnectionState`, as far as ICE goes. `operations` counts `signalOperations`; `flushing` is what a
-- loop of `flushCandidates` has left of its copy; `is_open` tells that the peer is not removed, and
-- `uncertain` that it is one of `uncertainPeers`. `added` are the candidates that the connection was
-- given, the last first.
pub record Peer : Type 0 where
  pub current_ice : List Generation
  pub pending_ice : List Generation
  pub retired_ice : List Generation
  pub local_ice : List Generation
  pub retired_local_ice : List Generation
  pub unresolved_ice : List Unresolved
  pub unresolved_ice_overflow : Bool
  pub candidates : List Waiting
  pub operations : ℕ
  pub flushing : List Waiting
  pub outstanding_negotiation : Option Text
  pub is_open : Bool
  pub uncertain : Bool
  pub added : List (Candidate × Identity)

-- The state that `connectionFor` makes.
abbrev pub new_peer : Peer
new_peer = record {
  current_ice = [];
  pending_ice = [];
  retired_ice = [];
  local_ice = [];
  retired_local_ice = [];
  unresolved_ice = [];
  unresolved_ice_overflow = false;
  candidates = [];
  operations = 0;
  flushing = [];
  outstanding_negotiation = none;
  is_open = true;
  uncertain = false;
  added = [];
}

-- `connectionState === 'is_connected'` and `signalingState === 'stable'`.
pub record Connection : Type 0 where
  pub is_connected : Bool
  pub stable : Bool

abbrev pub is_nil {ℓ} : {A : Type ℓ} → List A → Bool
is_nil [] = true
is_nil (_ ∷ _) = false

abbrev pub filter {ℓ} : {A : Type ℓ} → (A → Bool) → List A → List A
filter p [] = []
filter p (x ∷ xs) = let rest = filter p xs in if p x then x ∷ rest else rest

-- `failIce`: the peer is removed.
unfoldable pub fail_ice : Peer → Peer
fail_ice p = record p { is_open = false; uncertain = false; flushing = [] }

abbrev same_generation : Generation → Generation → Bool
same_generation a b =
    text_eq a.ufrag b.ufrag
    && text_eq a.mid b.mid
    && (a.index == b.index)
    && text_eq a.password b.password

-- The last items, as `splice(0, length - limit)` leaves them.
unfoldable pub last_items {ℓ} : {A : Type ℓ} → ℕ → List A → List A
last_items n xs = drop (length xs - n) xs

unfoldable pub add_generations : List Generation → List Generation → List Generation
add_generations [] known = known
add_generations (g ∷ rest) known =
    add_generations rest (if any (same_generation g) known then known else known ++ g ∷ [])

-- `retireIce`.
unfoldable pub retire_ice : List Generation → Peer → Peer
retire_ice generations p = record p {
  retired_ice = last_items ice_queue_limit (add_generations generations p.retired_ice);
}

-- `rememberLocalIce`, for what is installed now.
unfoldable pub remember_local_ice : List Generation → Peer → Peer
remember_local_ice installed p = record p {
  retired_local_ice = last_items ice_queue_limit (
      add_generations (filter (λ g. not (any (same_generation g) installed)) p.local_ice)
        p.retired_local_ice);
  local_ice = installed;
}

abbrev pub installed_ice : Peer → List Generation
installed_ice p = p.current_ice ++ p.pending_ice

abbrev pub known_ice : Peer → List Generation
known_ice p = installed_ice p ++ p.retired_ice

-- `assertUnambiguousIce`: all that match have one password.
abbrev passwords_agree : Option Text → List Generation → Bool
passwords_agree none [] = true
passwords_agree none (g ∷ r) = passwords_agree (some g.password) r
passwords_agree (some s) [] = true
passwords_agree (some s) (g ∷ r) = text_eq s g.password && passwords_agree (some s) r

unfoldable pub is_unambiguous : Identity → List Generation → Bool
is_unambiguous identity generations =
    passwords_agree none (filter (is_generation_of identity) generations)

abbrev pub has_fragment : Identity → List Generation → Bool
has_fragment identity = any (λ g. text_eq g.ufrag identity.ufrag)
