-- ===== src/Ice/Generations.antt =====
-- `iceGenerations` and `matchesIceGeneration` of home/group-ice-generation.ts.
pub mod Sections
use zwei.Common.{
  ℕ, zero, suc, ◌+◌, ◌*◌, ◌≤◌, ◌<◌, ◌≡◌, refl, Bool, true, false, not, ◌&&◌, ◌||◌, Option, none,
  some, List, [], ◌∷◌, ◌++◌, arith, ◌==◌, if◌then◌else◌, length, length-append, any, is_some, drop,
  All, Bool-cases, inl, inr,
}
use zwei.Js.Text.{Text, codes, text_eq, is_empty, is_space, trim, literal, ◌>>=◌}
use zwei.Ice.Candidate.{Identity}

-- `IceMediaGeneration`.
pub record Generation : Type 0 where
  pub mid : Text
  pub index : ℕ
  pub ufrag : Text
  pub password : Text

-- An `m=` section, while its lines are read.
pub record Media : Type 0 where
  pub mid : Option Text
  pub ufrag : Option Text
  pub password : Option Text
  pub index : ℕ

pub record Reading : Type 0 where
  pub session_ufrag : Option Text
  pub session_password : Option Text
  pub media : List Media
  pub bundles : List (List Text)

-- `split(/\r?\n/)`: a line ends at a line feed, with one carriage return in front of it.
add_to_line : ℕ → List Text → List Text
add_to_line c [] = (c ∷ []) ∷ []
add_to_line c (l ∷ ls) = (c ∷ l) ∷ ls

pub split_lines : Text → List Text
split_lines [] = [] ∷ []
split_lines (c ∷ []) = if c == 10 then [] ∷ [] ∷ [] else (c ∷ []) ∷ []
split_lines (c ∷ d ∷ s) = elim (c == 10) [
  | true ↦ [] ∷ split_lines (d ∷ s)
  | false ↦ elim (c == 13 && d == 10) [
    | true ↦ [] ∷ split_lines s
    | false ↦ add_to_line c (split_lines (d ∷ s))
  ]
]

-- `split(/\s+/)` of a trimmed text.
words_from : Text → List Text
words_from [] = [] ∷ []
words_from (c ∷ s) = let rest = words_from s in if is_space c then [] ∷ rest else add_to_line c rest

without_empty : List Text → List Text
without_empty [] = []
without_empty (w ∷ ws) = let rest = without_empty ws in if is_empty w then rest else w ∷ rest

pub split_words : Text → List Text
split_words s = if is_empty s then [] ∷ [] else without_empty (words_from s)

abbrev pub with_mid : Text → Media → Media
with_mid s m = record m { mid = some s }

abbrev pub with_ufrag : Text → Media → Media
with_ufrag s m = record m { ufrag = some s }

abbrev pub with_password : Text → Media → Media
with_password s m = record m { password = some s }

abbrev pub new_media : ℕ → Media
new_media n = record { mid = none; ufrag = none; password = none; index = n }

-- `media[media.length - 1].f = …`.
unfoldable pub update_last : (Media → Media) → List Media → List Media
update_last f [] = []
update_last f (m ∷ []) = f m ∷ []
update_last f (m ∷ n ∷ ms) = m ∷ update_last f (n ∷ ms)

abbrev is_nil {ℓ} : {A : Type ℓ} → List A → Bool
is_nil [] = true
is_nil (_ ∷ _) = false

-- `line.startsWith(prefix)`.
abbrev starts_with : Text → Text → Bool
starts_with prefix line = is_some (literal prefix line)

-- Which branch of the loop over the lines a line takes, and whether there is a section yet.
pub data LineKind : Type 0 where
  section bundle ignored : LineKind
  session_ufrag session_password : LineKind
  section_ufrag section_password section_mid : LineKind

unfoldable pub line_kind : Bool → Text → LineKind
line_kind no_media line =
    if starts_with (codes "m=") line
    then section
    else if no_media && starts_with (codes "a=group:BUNDLE ") line
    then bundle
    else if starts_with (codes "a=ice-ufrag:") line
    then (if no_media then LineKind.session_ufrag else section_ufrag)
    else if starts_with (codes "a=ice-pwd:") line
    then (if no_media then LineKind.session_password else section_password)
    else if starts_with (codes "a=mid:") line && not no_media
    then section_mid
    else ignored

unfoldable pub read_as : LineKind → Reading → Text → Reading
read_as section r line = record r { media = r.media ++ new_media (length r.media) ∷ [] }
read_as bundle r line = record r { bundles = r.bundles ++ split_words (trim (drop 15 line)) ∷ [] }
read_as ignored r line = r
read_as LineKind.session_ufrag r line = record r { session_ufrag = some (trim (drop 12 line)) }
read_as LineKind.session_password r line = record r {
  session_password = some (trim (drop 10 line));
}
read_as section_ufrag r line = record r {
  media = update_last (with_ufrag (trim (drop 12 line))) r.media;
}
read_as section_password r line = record r {
  media = update_last (with_password (trim (drop 10 line))) r.media;
}
read_as section_mid r line = record r {
  media = update_last (with_mid (trim (drop 6 line))) r.media;
}

-- One round of the loop over the lines.
unfoldable pub read_line : Reading → Text → Reading
read_line r line = read_as (line_kind (is_nil r.media) line) r line

unfoldable pub read_lines : Reading → List Text → Reading
read_lines r [] = r
read_lines r (line ∷ lines) = read_lines (read_line r line) lines

-- A text that is not empty, as `||` and `&&` see it.
abbrev pub truthy : Option Text → Option Text
truthy none = none
truthy (some s) = if is_empty s then none else some s

-- `a || b`.
abbrev pub or_else : Option Text → Option Text → Option Text
or_else a b = elim (truthy a) [ some s ↦ some s | none ↦ b ]

-- `item.mid === mid`, of a text.
abbrev has_mid : Text → Media → Bool
has_mid mid m = elim m.mid [ none ↦ false | some s ↦ text_eq s mid ]

unfoldable pub find_bundle : Option Text → List (List Text) → Option (List Text)
find_bundle none groups = none
find_bundle (some mid) [] = none
find_bundle (some mid) (g ∷ gs) =
    let rest = find_bundle (some mid) gs in
    if not (is_empty mid) && any (text_eq mid) g then some g else rest

unfoldable pub find_media : Text → List Media → Option Media
find_media mid [] = none
find_media mid (m ∷ ms) = let rest = find_media mid ms in if has_mid mid m then some m else rest

-- `media.find(item => item.mid === bundle[0])`; a bundle that was found is not empty.
unfoldable pub find_transport : List Text → List Media → Option Media
find_transport [] ms = none
find_transport (mid ∷ _) ms = find_media mid ms

-- `transport?.field || (transport ? session : undefined)`.
abbrev transported : Option Media → (Media → Option Text) → Option Text → Option Text
transported none field session = none
transported (some m) field session = or_else (field m) session

-- `mid && ufrag && password`, pushed.
unfoldable pub generation : Option Text → ℕ → Option Text → Option Text → List Generation
generation mid index ufrag password = elim (truthy mid) [
  | none ↦ []
  | some m ↦ elim (truthy ufrag) [
    | none ↦ []
    | some u ↦ elim (truthy password) [
      | none ↦ []
      | some p ↦ record { mid = m; index = index; ufrag = u; password = p } ∷ []
    ]
  ]
]

abbrev option_eq : Option Text → Option Text → Bool
option_eq none none = true
option_eq none (some b) = false
option_eq (some a) none = false
option_eq (some a) (some b) = text_eq a b

-- One section of the last loop.
unfoldable pub generations_of_section : Reading → Media → List Generation
generations_of_section r part =
    let bundle = find_bundle part.mid r.bundles in
    let transport : Option Media = elim bundle [
      | none ↦ some part
      | some group ↦ find_transport group r.media
    ] in
    let ufrag = transported transport (λ m. m.ufrag) r.session_ufrag in
    let password = transported transport (λ m. m.password) r.session_password in
    let own_ufrag = or_else part.ufrag r.session_ufrag in
    let own_password = or_else part.password r.session_password in
    generation part.mid part.index ufrag password
    ++ (if is_some bundle && not (option_eq own_ufrag ufrag && option_eq own_password password)
        then generation part.mid part.index own_ufrag own_password
        else [])

unfoldable pub generations_of : Reading → List Media → List Generation
generations_of r [] = []
generations_of r (m ∷ ms) = generations_of_section r m ++ generations_of r ms

abbrev pub nothing_read : Reading
nothing_read = record { session_ufrag = none; session_password = none; media = []; bundles = [] }

-- `iceGenerations`.
unfoldable pub ice_generations : Text → List Generation
ice_generations sdp = let r = read_lines nothing_read (split_lines sdp) in generations_of r r.media

-- `undefined`, or the value.
abbrev allows_mid : Option Text → Text → Bool
allows_mid none s = true
allows_mid (some t) s = text_eq s t

abbrev allows_index : Option ℕ → ℕ → Bool
allows_index none n = true
allows_index (some m) n = n == m

unfoldable pub is_generation_of : Identity → Generation → Bool
is_generation_of identity item =
    text_eq item.ufrag identity.ufrag
    && allows_mid identity.mid item.mid
    && allows_index identity.index item.index

-- `matchesIceGeneration`.
unfoldable pub matches_ice_generation : Identity → List Generation → Bool
matches_ice_generation identity generations = any (is_generation_of identity) generations
