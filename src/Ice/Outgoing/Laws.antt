-- ===== src/Ice/Outgoing/Laws.antt =====
-- When `outgoingIceCandidate` of home/group-ice-generation.ts sends a candidate.
use zwei.Common.{
  ◌≢◌, Option-cases, ℕ, ◌≡◌, Bool, true, false, not, Option, some, List, [], ◌∷◌, arith, any, inl,
  inr,
}
use zwei.Js.Text.{Text}
use zwei.Js.Value.{Value}
use zwei.Ice.Candidate.{Candidate, Identity, ice_candidate_identity}
use zwei.Ice.Generations.{Generation, is_generation_of, matches_ice_generation}
use zwei.Ice.Outgoing.{
  chosen_ufrag, ufrags_of, enriched, is_nil, BrowserCandidate, Outgoing, candidate, stale,
  ambiguous, media, judge, mid_of, index_of, outgoing_ice_candidate,
}

any-media :
    (p : Generation → Bool) (mid : Option Text) (index : Option ℕ) (gs : List Generation)
    → any p (media mid index gs) ≡ true
    → any p gs ≡ true
unfolding media
any-media p mid index [] h = h
any-media p mid index (g ∷ gs) h = ground (arith, any-media p mid index gs)

matches-media :
    (identity : Identity) (mid : Option Text) (index : Option ℕ) (gs : List Generation)
    → matches_ice_generation identity (media mid index gs) ≡ true
    → matches_ice_generation identity gs ≡ true
unfolding matches_ice_generation
matches-media identity mid index gs h = any-media (is_generation_of identity) mid index gs h

module _ (known : Bool) (ufrag : Text) (value : Value) (current previous : List Generation) where
  judge-candidate :
      (c : Candidate)
      → judge known ufrag value current previous ≡ candidate c
      → (identity : Identity) × (ice_candidate_identity value ≡ some (c, identity))
        × (matches_ice_generation identity current ≡ true)
  unfolding judge
  judge-candidate c h = elim (Option-cases (ice_candidate_identity value)) [
    | inl refused ↦ ground arith
    | inr ((d, identity), found) ↦ (identity, ground arith, ground arith)
  ]

  judge-stale :
      judge known ufrag value current previous ≡ stale
      → (c : Candidate) × (identity : Identity) × (ice_candidate_identity value
          ≡ some (c, identity))
        × (matches_ice_generation identity current ≡ false)
        × (matches_ice_generation identity previous ≡ true)
  unfolding judge
  judge-stale h = elim (Option-cases (ice_candidate_identity value)) [
    | inl refused ↦ ground arith
    | inr ((d, identity), found) ↦ (d, identity, ground arith, ground arith, ground arith)
  ]

module _ (v : BrowserCandidate) (installed retired : List Generation) where
  -- A decided candidate comes from the judgement on the fragment that was chosen.
  outgoing-judge :
      (o : Outgoing)
      → o ≢ ambiguous
      → outgoing_ice_candidate v installed retired ≡ o
      → (ufrag : Text) × (chosen_ufrag (ufrags_of v) (media (mid_of v) (index_of v) installed)
          ≡ some ufrag)
        × (judge
              (not (is_nil (ufrags_of v)))
              ufrag
              (enriched v.candidate (mid_of v) (index_of v) ufrag)
              (media (mid_of v) (index_of v) installed)
              (media (mid_of v) (index_of v) retired)
            ≡ o)
  unfolding outgoing_ice_candidate
  outgoing-judge o clear h =
      elim (Option-cases (chosen_ufrag (ufrags_of v) (media (mid_of v) (index_of v) installed))) [
        | inl unknown ↦ absurd (clear (ground arith))
        | inr (ufrag, chosen) ↦ (ufrag, chosen, ground arith)
      ]

  -- A candidate is sent only with a username fragment under which it is a valid candidate of an
  -- installed generation.
  pub outgoing_ice_candidate-candidate :
      (c : Candidate)
      → outgoing_ice_candidate v installed retired ≡ candidate c
      → (ufrag : Text) × (identity : Identity) × (ice_candidate_identity
            (enriched v.candidate (mid_of v) (index_of v) ufrag)
          ≡ some (c, identity))
        × (matches_ice_generation identity installed ≡ true)
  outgoing_ice_candidate-candidate c h =
      let (ufrag, _, e) = outgoing-judge (candidate c) (λ p. cc p) h in
      let (identity, valid, matching) = judge-candidate _ ufrag _ _ _ c e in
      (ufrag, identity, valid, matches-media identity (mid_of v) (index_of v) installed matching)

  -- A candidate is stale only if, under the chosen fragment, it is valid, a retired generation has
  -- it, and no installed generation of its media section has.
  pub outgoing_ice_candidate-stale :
      outgoing_ice_candidate v installed retired ≡ stale
      → (ufrag : Text) × (c : Candidate) × (identity : Identity) × (chosen_ufrag
            (ufrags_of v)
            (media (mid_of v) (index_of v) installed)
          ≡ some ufrag)
        × (ice_candidate_identity (enriched v.candidate (mid_of v) (index_of v) ufrag)
            ≡ some (c, identity))
        × (matches_ice_generation identity (media (mid_of v) (index_of v) installed) ≡ false)
        × (matches_ice_generation identity retired ≡ true)
  outgoing_ice_candidate-stale h =
      let (ufrag, chosen, e) = outgoing-judge stale (λ p. cc p) h in
      let (c, identity, valid, absent, matching) = judge-stale _ ufrag _ _ _ e in
      (
        ufrag,
        c,
        identity,
        chosen,
        valid,
        absent,
        matches-media identity (mid_of v) (index_of v) retired matching,
      )
