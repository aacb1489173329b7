-- ===== src/Ice/Outgoing.antt =====
-- `outgoingIceCandidate` of home/group-ice-generation.ts: a candidate of the browser, enriched with
-- what the installed local generations say of it.
pub mod Laws
use zwei.Common.{
  ℕ, ◌≡◌, Bool, true, false, not, ◌&&◌, ◌||◌, Option, none, some, List, [], ◌∷◌, ◌++◌, ◌==◌, leb,
  if◌then◌else◌, length, any, is_some,
}
use zwei.Js.Text.{Text, codes, text_eq, is_empty}
use zwei.Js.Value.{Value, null, num, str, obj, no_fields, field, pos}
use zwei.Ice.Lines.{embedded_ufrags}
use zwei.Ice.Candidate.{Candidate, Identity, first, ice_candidate_identity}
use zwei.Ice.Generations.{Generation, matches_ice_generation}

-- `RTCIceCandidate`, and what its `toJSON()` returns; `none` for `null` and `undefined`.
pub record BrowserCandidate : Type 0 where
  pub candidate : Text
  pub sdp_mid : Option Text
  pub sdp_m_line_index : Option ℕ
  pub username_fragment : Option Text
  pub json_candidate : Option Text
  pub json_sdp_mid : Option Text
  pub json_sdp_m_line_index : Option ℕ
  pub json_username_fragment : Option Text

pub data Outgoing : Type 0 where
  candidate : Candidate → Outgoing
  stale ambiguous : Outgoing

-- `a != null && b != null && a !== b`.
abbrev texts_differ : Option Text → Option Text → Bool
texts_differ none b = false
texts_differ (some s) none = false
texts_differ (some s) (some t) = not (text_eq s t)

abbrev numbers_differ : Option ℕ → Option ℕ → Bool
numbers_differ none b = false
numbers_differ (some m) none = false
numbers_differ (some m) (some n) = not (m == n)

-- `a ?? b`.
abbrev pub or_if_none {ℓ} : {A : Type ℓ} → Option A → Option A → Option A
or_if_none none b = b
or_if_none (some a) b = some a

abbrev pub present_only : List (Option Text) → List Text
present_only [] = []
present_only (none ∷ r) = present_only r
present_only (some s ∷ r) = s ∷ present_only r

-- `new Set(texts)`.
abbrev pub distinct : List Text → List Text
distinct [] = []
distinct (s ∷ r) = let rest = distinct r in if any (text_eq s) r then rest else s ∷ rest

abbrev fits_mid : Option Text → Text → Bool
fits_mid none s = true
fits_mid (some t) s = text_eq s t

abbrev fits_index : Option ℕ → ℕ → Bool
fits_index none n = true
fits_index (some m) n = n == m

-- The local function `media`.
unfoldable pub media : Option Text → Option ℕ → List Generation → List Generation
media mid index [] = []
media mid index (g ∷ gs) =
    let rest = media mid index gs in
    if fits_mid mid g.mid && fits_index index g.index then g ∷ rest else rest

unfoldable pub with_ufrag : Text → List Generation → List Generation
with_ufrag ufrag [] = []
with_ufrag ufrag (g ∷ gs) =
    let rest = with_ufrag ufrag gs in if text_eq g.ufrag ufrag then g ∷ rest else rest

unfoldable pub credentials : List Generation → List Text
credentials [] = []
credentials (g ∷ gs) = (g.ufrag ++ 0 ∷ g.password) ∷ credentials gs

abbrev first_ufrag : List Generation → Option Text
first_ufrag [] = none
first_ufrag (g ∷ _) = some g.ufrag

abbrev pub is_nil : List Text → Bool
is_nil [] = true
is_nil (_ ∷ _) = false

-- `{candidate, sdpMid, sdpMLineIndex, usernameFragment}` as it is handed on.
abbrev pub text_or_null : Option Text → Value
text_or_null none = null
text_or_null (some s) = str s

abbrev pub index_or_null : Option ℕ → Value
index_or_null none = null
index_or_null (some n) = num (pos n)

abbrev pub enriched : Text → Option Text → Option ℕ → Text → Value
enriched line mid index ufrag = obj (
    field (codes "candidate") (str line) (
      field (codes "sdpMid") (text_or_null mid) (
        field (codes "sdpMLineIndex") (index_or_null index)
          (field (codes "usernameFragment") (str ufrag) no_fields))))

-- Behind the choice of the username fragment: `local` and `previous` are the installed and the
-- retired generations of the media section, `known` tells whether the browser named a fragment.
unfoldable pub judge : Bool → Text → Value → List Generation → List Generation → Outgoing
judge known ufrag value current previous = elim (ice_candidate_identity value) [
  | none ↦ ambiguous
  | some (c, identity) ↦
      if not (matches_ice_generation identity current)
      then (if matches_ice_generation identity previous then stale else ambiguous)
      else if length (
            distinct (
              credentials
                (if known then with_ufrag ufrag (current ++ previous) else current ++ previous)))
          == 1
      then candidate c
      else ambiguous
]

-- `ufrags`.
abbrev pub ufrags_of : BrowserCandidate → List Text
ufrags_of v =
    present_only
      (v.json_username_fragment ∷ v.username_fragment ∷ first (embedded_ufrags v.candidate) ∷ [])

abbrev pub mid_of : BrowserCandidate → Option Text
mid_of v = or_if_none v.json_sdp_mid v.sdp_mid

abbrev pub index_of : BrowserCandidate → Option ℕ
index_of v = or_if_none v.json_sdp_m_line_index v.sdp_m_line_index

-- `ufrags[0] || local[0]?.ufrag`.
abbrev pub chosen_ufrag : List Text → List Generation → Option Text
chosen_ufrag [] current = first_ufrag current
chosen_ufrag (s ∷ _) current = if is_empty s then first_ufrag current else some s

-- The guards in front of the choice.
unfoldable pub is_unclear : BrowserCandidate → Bool
is_unclear v =
    texts_differ v.json_candidate (some v.candidate)
    || texts_differ v.json_sdp_mid v.sdp_mid
    || numbers_differ v.json_sdp_m_line_index v.sdp_m_line_index
    || not (leb (length (distinct (ufrags_of v))) 1)
    || any is_empty (ufrags_of v)
    || not (is_some (mid_of v) || is_some (index_of v))

-- `outgoingIceCandidate`.
unfoldable pub outgoing_ice_candidate :
    BrowserCandidate → List Generation → List Generation → Outgoing
outgoing_ice_candidate v installed retired =
    let current = media (mid_of v) (index_of v) installed in
    let previous = media (mid_of v) (index_of v) retired in
    if is_unclear v then ambiguous else elim (chosen_ufrag (ufrags_of v) current) [
      | none ↦ ambiguous
      | some ufrag ↦
          if is_empty ufrag
          then ambiguous
          else judge (not (is_nil (ufrags_of v))) ufrag
              (enriched v.candidate (mid_of v) (index_of v) ufrag) current previous
    ]
