-- ===== src/Ice/Candidate/Laws.antt =====
-- What `iceCandidateIdentity` of home/group-ice-generation.ts accepts.
use zwei.Common.{
  ap, ◌∙◌, if-eq-some, ℕ, ◌≤◌, ◌≡◌, Bool, true, false, not, ◌&&◌, ◌||◌, Option, some, arith, every,
  is_some,
}
use zwei.Js.Text.{>>=-eq-some, Text, is_empty, code_point_count}
use zwei.Js.Value.{
  Value, undefined, null, num, str, pos, prop, keys_of, is_object, is_nullish, text_of,
}
use zwei.Ice.Lines.{embedded_ufrags}
use zwei.Ice.Candidate.{
  Identity, Slot, Candidate, first, is_line, is_username, is_mid, is_index, or_embedded, text_slot,
  index_slot, identify, is_candidate_key, ice_candidate_identity, candidate_value, absent, nothing,
  present,
}

-- What the relay may rely on of an accepted identity.
pub record IsIdentity (i : Identity) : Type 0 where
  pub located : (is_some i.mid || is_some i.index) ≡ true
  pub short_mid : (s : Text) → i.mid ≡ some s → (is_empty s ≡ false) × (code_point_count s ≤ 256)
  pub small_index : (n : ℕ) → i.index ≡ some n → n ≤ 65535
  pub short_ufrag : code_point_count i.ufrag ≤ 256

module _ (line mid index username : Value) (c : Candidate) (i : Identity) where
  identify-IsIdentity : identify line mid index username ≡ some (c, i) → IsIdentity i
  unfolding identify is_line is_username is_mid is_index
  identify-IsIdentity h = record {
    located = ground arith;
    short_mid = λ s e. ground arith;
    small_index = λ n e. ground arith;
    short_ufrag = ground arith;
  }

-- What a slot reads as.
abbrev slot_text : Slot Text → Value
slot_text absent = undefined
slot_text nothing = null
slot_text (present s) = str s

abbrev slot_index : Slot ℕ → Value
slot_index absent = undefined
slot_index nothing = null
slot_index (present n) = num (pos n)

slot_text-text_slot : (v : Value) → is_mid v ≡ true → slot_text (text_slot v) ≡ v
unfolding is_mid text_slot
slot_text-text_slot v h = ground arith

slot_text-username :
    (o : Option Text) (v : Value) → is_username o v ≡ true → slot_text (text_slot v) ≡ v
unfolding is_username text_slot
slot_text-username o v h = ground arith

slot_index-index_slot : (v : Value) → is_index v ≡ true → slot_index (index_slot v) ≡ v
unfolding is_index index_slot
slot_index-index_slot v h = ground arith

str-text_of : (v : Value) → is_line v ≡ true → str (text_of v) ≡ v
unfolding is_line
str-text_of v h = ground arith

abbrev accepts : Value → Value → Value → Value → Bool
accepts line mid index username =
    is_line line
    && is_username (first (embedded_ufrags (text_of line))) username
    && is_mid mid
    && is_index index
    && not (is_nullish mid && is_nullish index)

conjuncts :
    (a b c d e : Bool)
    → (a && b && c && d && e) ≡ true
    → (a ≡ true) × (b ≡ true) × (c ≡ true) × (d ≡ true)
conjuncts a b c d e h = ground arith

module _ (line mid index username : Value) (c : Candidate) (i : Identity) where
  identify_parts :
      identify line mid index username ≡ some (c, i)
      → (accepts line mid index username ≡ true)
        × (c ≡ record {
          line = text_of line;
          sdp_mid = text_slot mid;
          sdp_m_line_index = index_slot index;
          username_fragment = text_slot username;
        })
  unfolding identify
  identify_parts h =
      let (ok, found) = if-eq-some (accepts line mid index username) _ h in
      let (u, _, e) =
        >>=-eq-some (or_embedded username (first (embedded_ufrags (text_of line)))) _ found in
      (ok, cc e)

ice_candidate_identity-candidate_value :
    (line : Text) (m : Slot Text) (n : Slot ℕ) (u : Slot Text)
    → ice_candidate_identity (
        candidate_value
          (record { line = line; sdp_mid = m; sdp_m_line_index = n; username_fragment = u }))
      ≡ identify (str line) (slot_text m) (slot_index n) (slot_text u)
unfolding ice_candidate_identity
ice_candidate_identity-candidate_value line m n u = ground arith

module _ (value : Value) (c : Candidate) (i : Identity) where
  ice_candidate_identity-identify :
      ice_candidate_identity value ≡ some (c, i)
      → identify
          (prop value "candidate")
          (prop value "sdpMid")
          (prop value "sdpMLineIndex")
          (prop value "usernameFragment")
        ≡ some (c, i)
  unfolding ice_candidate_identity
  ice_candidate_identity-identify h =
      (if-eq-some (is_object value && every is_candidate_key (keys_of value)) _ h).1

-- An accepted candidate, sent on as the program rebuilt it, is accepted again, as it is and with the
-- same identity.
pub ice_candidate_identity_again :
    (value : Value) (c : Candidate) (i : Identity)
    → ice_candidate_identity value ≡ some (c, i)
    → ice_candidate_identity (candidate_value c) ≡ some (c, i)
ice_candidate_identity_again value c i h =
    let line = prop value "candidate" in
    let mid = prop value "sdpMid" in
    let index = prop value "sdpMLineIndex" in
    let username = prop value "usernameFragment" in
    let e = ice_candidate_identity-identify value c i h in
    let (ok, parts) = identify_parts line mid index username c i e in
    let (l, u, m, n) =
      conjuncts (is_line line) (is_username (first (embedded_ufrags (text_of line))) username)
        (is_mid mid) (is_index index) (not (is_nullish mid && is_nullish index)) ok in
    let same_line : str c.line ≡ line =
      ap (λ (d : Candidate). str d.line) parts ∙ str-text_of line l in
    let same_mid : slot_text c.sdp_mid ≡ mid =
      ap (λ (d : Candidate). slot_text d.sdp_mid) parts ∙ slot_text-text_slot mid m in
    let same_index : slot_index c.sdp_m_line_index ≡ index =
      ap (λ (d : Candidate). slot_index d.sdp_m_line_index) parts ∙ slot_index-index_slot index n in
    let same_username : slot_text c.username_fragment ≡ username =
      ap (λ (d : Candidate). slot_text d.username_fragment) parts
      ∙ slot_text-username (first (embedded_ufrags (text_of line))) username u in
    ice_candidate_identity-candidate_value c.line c.sdp_mid c.sdp_m_line_index c.username_fragment
    ∙ cc (same_line, same_mid, same_index, same_username, e)

-- An accepted candidate names a media section by mid or by index; its mid is not empty and at most
-- 256 code points long, its index at most 65535, and its username fragment at most 256 code points.
pub ice_candidate_identity-IsIdentity :
    (value : Value) (c : Candidate) (i : Identity)
    → ice_candidate_identity value ≡ some (c, i)
    → IsIdentity i
ice_candidate_identity-IsIdentity value c i h =
    identify-IsIdentity (prop value "candidate") (prop value "sdpMid") (prop value "sdpMLineIndex")
      (prop value "usernameFragment") c i (ice_candidate_identity-identify value c i h)
