-- ===== src/GroupCall/Peer/Steps/Allowed.antt =====
-- Candidates of a peer that are as the protocol allows them, of home/group-call-facade.service.ts.
use zwei.Common.{
  ℕ, ◌≡◌, refl, sym, ap, subst, ◌∙◌, ◌⊎◌, inl, inr, Bool, true, false, some, List, [], ◌∷◌, ◌++◌,
  ◌==◌, All, if-keeps,
}
use zwei.Ice.Candidate.{Identity, Candidate, ice_candidate_identity, candidate_value}
use zwei.Ice.Generations.{matches_ice_generation}
use zwei.GroupCall.Peer.{
  Peer, Waiting, Unresolved, Connection, fail_ice, confirm_ice_recovery, mark_all,
  record_replacement_candidate, add_ice_candidate, remove_timer, drop_last, splice_out, has_timer,
  is_unambiguous, known_ice, installed_ice,
}

-- A candidate as the protocol allows it, with its identity.
abbrev pub IsParsed : Candidate → Identity → Type 0
IsParsed x i = ice_candidate_identity (candidate_value x) ≡ some (x, i)

abbrev pub AllParsed : List Waiting → Type 0
AllParsed ws = All (λ w. IsParsed w.candidate w.identity) ws

pub record Parsed (p : Peer) : Type 0 where
  pub waiting : AllParsed p.candidates
  pub flushed : AllParsed p.flushing

-- A candidate that the connection may be given: it is as the protocol allows it, one of the generations
-- that are installed has it, and all that match it, the retired ones too, have one password.
abbrev pub IsFit : Peer → Candidate → Identity → Type 0
IsFit p x i =
    IsParsed x i
    × (matches_ice_generation i (installed_ice p) ≡ true)
    × (is_unambiguous i (known_ice p) ≡ true)

-- Nothing is added, or one candidate that is fit.
abbrev pub AddsFit : Peer → Peer → Type 0
AddsFit p t =
    (t.added ≡ p.added)
    ⊎ ((x : Candidate) × (i : Identity) × (t.added ≡ (x, i) ∷ p.added) × IsFit p x i)

-- What a step does to what waits, is flushed and was added.
pub record Keeps (p t : Peer) : Type 0 where
  pub parsed : Parsed t
  pub adds : AddsFit p t

-- The same waits, is flushed, was added and is in use.
pub record IsAlike (p t : Peer) : Type 0 where
  pub waiting : t.candidates ≡ p.candidates
  pub flushed : t.flushing ≡ p.flushing
  pub added : t.added ≡ p.added
  pub current : t.current_ice ≡ p.current_ice
  pub pending : t.pending_ice ≡ p.pending_ice
  pub retired : t.retired_ice ≡ p.retired_ice

Alike-unresolved :
    (us : List Unresolved) (u : Bool) (p : Peer)
    → IsAlike p (record p { unresolved_ice = us; uncertain = u })
Alike-unresolved us u p = record {
  waiting = refl;
  flushed = refl;
  added = refl;
  current = refl;
  pending = refl;
  retired = refl;
}

pub Alike-confirm : (c : Connection) (p : Peer) → IsAlike p (confirm_ice_recovery c p)
unfolding confirm_ice_recovery
Alike-confirm c p =
    if-keeps (IsAlike p) _ (Alike-unresolved p.unresolved_ice p.uncertain p)
      (Alike-unresolved [] false p)

Alike-trans : {p q r : Peer} → IsAlike p q → IsAlike q r → IsAlike p r
Alike-trans h k = record {
  waiting = k.waiting ∙ h.waiting;
  flushed = k.flushed ∙ h.flushed;
  added = k.added ∙ h.added;
  current = k.current ∙ h.current;
  pending = k.pending ∙ h.pending;
  retired = k.retired ∙ h.retired;
}

pub Alike-record :
    (c : Connection) (i : Identity) (x : Candidate) (p : Peer)
    → IsAlike p (record_replacement_candidate c i x p)
unfolding record_replacement_candidate
Alike-record c i x p =
    let us = mark_all i (installed_ice p) p.unresolved_ice in
    if-keeps (IsAlike p) _ (Alike-unresolved p.unresolved_ice p.uncertain p) (
      Alike-trans (Alike-unresolved us p.uncertain p)
        (Alike-confirm c (record p { unresolved_ice = us })))

pub Parsed-alike : {p t : Peer} → IsAlike p t → Parsed p → Parsed t
Parsed-alike a h = record {
  waiting = subst AllParsed (sym a.waiting) h.waiting;
  flushed = subst AllParsed (sym a.flushed) h.flushed;
}

pub Keeps-fail : (p q : Peer) → q.added ≡ p.added → Parsed q → Keeps p (fail_ice q)
unfolding fail_ice
Keeps-fail p q e h = record { parsed = record { waiting = h.waiting; flushed = tt }; adds = inl e }

pub Keeps-add :
    (c : Connection) (resolves : Bool) (x : Candidate) (i : Identity) (p q : Peer)
    → q.added ≡ p.added
    → IsFit p x i
    → Parsed q
    → Keeps p (add_ice_candidate c resolves x i q)
unfolding add_ice_candidate fail_ice
Keeps-add c resolves x i p q e fit h =
    let r = record q { added = (x, i) ∷ q.added } in
    let h' : Parsed r = record { waiting = h.waiting; flushed = h.flushed } in
    let e' = ap (λ l. (x, i) ∷ l) e in
    if-keeps (Keeps p) resolves
      (record {
        parsed = Parsed-alike (Alike-record c i x r) h';
        adds = inr (x, i, (Alike-record c i x r).added ∙ e', fit);
      })
      (record { parsed = record { waiting = h.waiting; flushed = tt }; adds = inr (x, i, e', fit) })

pub AllParsed-append : (ws vs : List Waiting) → AllParsed ws → AllParsed vs → AllParsed (ws ++ vs)
AllParsed-append [] vs h k = k
AllParsed-append (w ∷ ws) vs (a, h) k = (a, AllParsed-append ws vs h k)

pub AllParsed-remove : (t : ℕ) (ws : List Waiting) → AllParsed ws → AllParsed (remove_timer t ws)
unfolding remove_timer
AllParsed-remove t [] h = tt
AllParsed-remove t (w ∷ ws) (a, h) =
    if-keeps AllParsed (w.timer == t) h (a, AllParsed-remove t ws h)

AllParsed-drop_last : (ws : List Waiting) → AllParsed ws → AllParsed (drop_last ws)
unfolding drop_last
AllParsed-drop_last [] h = tt
AllParsed-drop_last (w ∷ []) h = tt
AllParsed-drop_last (w ∷ v ∷ r) (a, h) = (a, AllParsed-drop_last (v ∷ r) h)

pub AllParsed-splice : (t : ℕ) (ws : List Waiting) → AllParsed ws → AllParsed (splice_out t ws)
unfolding splice_out
AllParsed-splice t ws h =
    if-keeps AllParsed (has_timer t ws) (AllParsed-remove t ws h) (AllParsed-drop_last ws h)
