-- ===== src/Ice/Examples.antt =====
-- Runs of the ICE helpers of home/group-ice-generation.ts.
use zwei.Common.{◌≡◌, refl, true, false, none, some, [], ◌∷◌, ◌++◌, length, All}
use zwei.Js.Text.{Text, codes, code_point_count}
use zwei.Js.Value.{Value, obj, field, no_fields, str}
use zwei.Ice.Lines.{is_candidate_line, embedded_ufrags, has_unicode_space}
use zwei.Ice.Candidate.{
  Identity, Candidate, absent, present, ice_candidate_identity, candidate_value, identify, is_line,
  is_username, is_mid, is_index, agrees, text_slot, index_slot,
}
use zwei.Ice.Candidate.Laws.{
  IsIdentity, ice_candidate_identity_again, ice_candidate_identity-IsIdentity,
}
use zwei.Ice.Generations.{Generation, is_generation_of, ice_generations, matches_ice_generation}
use zwei.Ice.Generations.Sections.{IsGeneration, sections, ice_generations-IsGeneration}
use zwei.Ice.Outgoing.{
  BrowserCandidate, candidate, stale, media, is_unclear, judge, with_ufrag, credentials, enriched,
  mid_of, index_of, outgoing_ice_candidate, chosen_ufrag, ufrags_of,
}
use zwei.Ice.Outgoing.Laws.{outgoing_ice_candidate-candidate, outgoing_ice_candidate-stale}

abbrev line : Text
line = codes "candidate:1 1 udp 2122 10.0.0.1 50000 typ host"

abbrev raw : Value
raw = obj (
    field (codes "candidate") (str line) (
      field (codes "sdpMid") (str (codes "0"))
        (field (codes "usernameFragment") (str (codes "frag")) no_fields)))

abbrev accepted : Candidate
accepted = record {
  line = line;
  sdp_mid = present (codes "0");
  sdp_m_line_index = absent;
  username_fragment = present (codes "frag");
}

abbrev identity : Identity
identity = record { mid = some (codes "0"); index = none; ufrag = codes "frag" }

raw-accepted : ice_candidate_identity raw ≡ some (accepted, identity)
unfolding ice_candidate_identity identify is_line is_username is_mid is_index agrees
    is_candidate_line embedded_ufrags has_unicode_space code_point_count text_slot index_slot
raw-accepted = refl

ice_candidate_identity_again_example :
    ice_candidate_identity (candidate_value accepted) ≡ some (accepted, identity)
ice_candidate_identity_again_example =
    ice_candidate_identity_again raw accepted identity raw-accepted

ice_candidate_identity-IsIdentity_example : IsIdentity identity
ice_candidate_identity-IsIdentity_example =
    ice_candidate_identity-IsIdentity raw accepted identity raw-accepted

abbrev sdp : Text
sdp =
    codes "v=0"
    ++ 13 ∷ 10 ∷ codes "m=audio 9"
    ++ 10 ∷ codes "a=mid:0"
    ++ 10 ∷ codes "a=ice-ufrag:frag"
    ++ 10 ∷ codes "a=ice-pwd:secret"
    ++ 10 ∷ []

abbrev generation_0 : Generation
generation_0 = record {
  mid = codes "0";
  index = 0;
  ufrag = codes "frag";
  password = codes "secret";
}

ice_generations-IsGeneration_example :
    All (IsGeneration (length (sections sdp))) (ice_generations sdp)
ice_generations-IsGeneration_example = ice_generations-IsGeneration sdp

abbrev browser : BrowserCandidate
browser = record {
  candidate = line;
  sdp_mid = some (codes "0");
  sdp_m_line_index = some 0;
  username_fragment = none;
  json_candidate = some line;
  json_sdp_mid = some (codes "0");
  json_sdp_m_line_index = some 0;
  json_username_fragment = none;
}

abbrev sent : Candidate
sent = record {
  line = line;
  sdp_mid = present (codes "0");
  sdp_m_line_index = present 0;
  username_fragment = present (codes "frag");
}

browser-sent : outgoing_ice_candidate browser (generation_0 ∷ []) [] ≡ candidate sent
unfolding outgoing_ice_candidate is_unclear media judge with_ufrag credentials
    matches_ice_generation is_generation_of ice_candidate_identity identify is_line is_username
    is_mid is_index agrees is_candidate_line embedded_ufrags has_unicode_space code_point_count
    text_slot index_slot
browser-sent = refl

abbrev named : BrowserCandidate
named = record browser { username_fragment = some (codes "frag") }

named-stale : outgoing_ice_candidate named [] (generation_0 ∷ []) ≡ stale
unfolding outgoing_ice_candidate is_unclear media judge with_ufrag credentials
    matches_ice_generation is_generation_of ice_candidate_identity identify is_line is_username
    is_mid is_index agrees is_candidate_line embedded_ufrags has_unicode_space code_point_count
    text_slot index_slot
named-stale = refl

outgoing_ice_candidate-candidate_example :
    (ufrag : Text) × (found : Identity) × (ice_candidate_identity
        (enriched browser.candidate (mid_of browser) (index_of browser) ufrag)
      ≡ some (sent, found))
    × (matches_ice_generation found (generation_0 ∷ []) ≡ true)
outgoing_ice_candidate-candidate_example =
    outgoing_ice_candidate-candidate browser (generation_0 ∷ []) [] sent browser-sent

outgoing_ice_candidate-stale_example :
    (ufrag : Text) × (c : Candidate) × (found : Identity) × (chosen_ufrag
        (ufrags_of named)
        (media (mid_of named) (index_of named) [])
      ≡ some ufrag)
    × (ice_candidate_identity (enriched named.candidate (mid_of named) (index_of named) ufrag)
        ≡ some (c, found))
    × (matches_ice_generation found (media (mid_of named) (index_of named) []) ≡ false)
    × (matches_ice_generation found (generation_0 ∷ []) ≡ true)
outgoing_ice_candidate-stale_example =
    outgoing_ice_candidate-stale named [] (generation_0 ∷ []) named-stale
