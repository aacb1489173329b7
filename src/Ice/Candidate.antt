-- ===== src/Ice/Candidate.antt =====
-- `iceCandidateIdentity` of home/group-ice-generation.ts.
pub mod Laws
use zwei.Common.{
  ap, ◌∙◌, if-eq-some, &&-true, ℕ, zero, suc, ◌≤◌, ◌<◌, ◌≡◌, refl, ◌⊎◌, inl, inr, Bool, true, false,
  not, ◌&&◌, ◌||◌, Option, none, some, List, [], ◌∷◌, arith, leb, ltb, if◌then◌else◌, length, any,
  every, Bool-cases, Option-cases, is_some, String,
}
use zwei.Js.Text.{>>=-eq-some, Text, codes, text_eq, is_empty, code_point_count, ◌>>=◌}
use zwei.Js.Value.{
  Value, undefined, null, bool, num, str, arr, obj, Fields, no_fields, field, pos, prop, keys_of,
  is_object, is_string, is_null, is_undefined, is_nullish, text_of, natural_of,
}
use zwei.Ice.Lines.{is_candidate_line, embedded_ufrags, has_unicode_space}

-- `IceCandidateIdentity`.
pub record Identity : Type 0 where
  pub mid : Option Text
  pub index : Option ℕ
  pub ufrag : Text

-- A property of an object that the program builds: absent, `null` or a value.
pub data Slot (A : Type 0) : Type 0 where
  absent : Slot A
  nothing : Slot A
  present : A → Slot A

-- `GroupIceCandidate`.
pub record Candidate : Type 0 where
  pub line : Text
  pub sdp_mid : Slot Text
  pub sdp_m_line_index : Slot ℕ
  pub username_fragment : Slot Text

-- A limit on `Array.from(text).length`.
abbrev pub at_most : ℕ → Text → Bool
at_most n s = leb (code_point_count s) n

abbrev pub candidate_keys : List Text
candidate_keys =
    codes "candidate" ∷ codes "sdpMid" ∷ codes "sdpMLineIndex" ∷ codes "usernameFragment" ∷ []

-- The embedded username fragment, or `undefined`; none of it is empty.
abbrev pub first : List Text → Option Text
first [] = none
first (s ∷ _) = some s

unfoldable pub is_line : Value → Bool
is_line line =
    is_string line
    && at_most 4096 (text_of line)
    && (is_empty (text_of line) || is_candidate_line (text_of line))
    && leb (length (embedded_ufrags (text_of line))) 1
    && every (at_most 256) (embedded_ufrags (text_of line))

-- The tests on `username`, its agreement with what is embedded included.
unfoldable pub agrees : Option Text → Text → Bool
agrees none username = true
agrees (some embedded) username = text_eq embedded username

unfoldable pub is_username : Option Text → Value → Bool
is_username embedded username =
    is_nullish username
    || is_string username
      && not (is_empty (text_of username))
      && at_most 256 (text_of username)
      && not (has_unicode_space (text_of username))
      && agrees embedded (text_of username)

unfoldable pub is_mid : Value → Bool
is_mid mid =
    is_nullish mid || is_string mid && not (is_empty (text_of mid)) && at_most 256 (text_of mid)

unfoldable pub is_index : Value → Bool
is_index index = is_nullish index || elim (natural_of index) [ none ↦ false | some n ↦ leb n 65535 ]

abbrev pub or_embedded : Value → Option Text → Option Text
or_embedded username embedded = if is_string username then some (text_of username) else embedded

-- A string, or `undefined` for any other value.
abbrev pub text_or_none : Value → Option Text
text_or_none v = if is_string v then some (text_of v) else none

-- `null` and strings are copied, and nothing else.
unfoldable pub text_slot : Value → Slot Text
text_slot v = if is_null v then nothing else if is_string v then present (text_of v) else absent

unfoldable pub index_slot : Value → Slot ℕ
index_slot v =
    if is_null v then nothing else elim (natural_of v) [ none ↦ absent | some n ↦ present n ]

-- What is left when the keys of the candidate are known.
unfoldable pub identify : Value → Value → Value → Value → Option (Candidate × Identity)
identify line mid index username =
    let embedded = first (embedded_ufrags (text_of line)) in
    if is_line line
      && is_username embedded username
      && is_mid mid
      && is_index index
      && not (is_nullish mid && is_nullish index)
    then (do
      ufrag ← or_embedded username embedded
      some (
        record {
          line = text_of line;
          sdp_mid = text_slot mid;
          sdp_m_line_index = index_slot index;
          username_fragment = text_slot username;
        },
        record { mid = text_or_none mid; index = natural_of index; ufrag = ufrag },
      ))
    else none

abbrev pub is_candidate_key : Text → Bool
is_candidate_key k = any (text_eq k) candidate_keys

-- `iceCandidateIdentity`.
unfoldable pub ice_candidate_identity : Value → Option (Candidate × Identity)
ice_candidate_identity value =
    if is_object value && every is_candidate_key (keys_of value)
    then identify (prop value "candidate") (prop value "sdpMid") (prop value "sdpMLineIndex")
        (prop value "usernameFragment")
    else none

-- The object that the result of `iceCandidateIdentity` holds as `candidate`.
abbrev pub text_field : String → Slot Text → Fields → Fields
text_field k absent rest = rest
text_field k nothing rest = field (codes k) null rest
text_field k (present s) rest = field (codes k) (str s) rest

abbrev pub index_field : String → Slot ℕ → Fields → Fields
index_field k absent rest = rest
index_field k nothing rest = field (codes k) null rest
index_field k (present n) rest = field (codes k) (num (pos n)) rest

abbrev pub candidate_value : Candidate → Value
candidate_value c = obj (
    field (codes "candidate") (str c.line) (
      text_field "sdpMid" c.sdp_mid (
        index_field "sdpMLineIndex" c.sdp_m_line_index
          (text_field "usernameFragment" c.username_fragment no_fields))))
