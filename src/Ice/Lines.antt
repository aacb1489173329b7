-- ===== src/Ice/Lines.antt =====
-- The regular expressions of home/group-ice-generation.ts, as matchers that consume a text. Their
-- classes are disjoint where one follows another, so no match needs a second try.
use zwei.Common.{
  ℕ, ◌≡◌, refl, Bool, true, false, not, ◌&&◌, ◌||◌, Option, none, some, List, [], ◌∷◌, leb, ◌==◌,
  if◌then◌else◌, any,
}
use zwei.Js.Text.{Text, codes, text_eq, is_digit, is_empty, ◌>>=◌}

-- `[ \t\n\f\r]`.
pub is_blank : ℕ → Bool
is_blank c = c == 32 || c == 9 || c == 10 || c == 12 || c == 13

abbrev is_not_blank : ℕ → Bool
is_not_blank c = not (is_blank c)

-- What is behind the longest run of a class.
skip : (ℕ → Bool) → Text → Text
skip p [] = []
skip p (c ∷ s) = if p c then skip p s else c ∷ s

-- `p+`.
some_of : (ℕ → Bool) → Text → Option Text
some_of p [] = none
some_of p (c ∷ s) = if p c then some (skip p s) else none

-- Letters under the flags `iu`: upper case, and U+017F and U+212A, which fold to 's' and 'k'.
abbrev fold_case : ℕ → ℕ
fold_case c =
    if leb 65 c && leb c 90
    then Prim.Native.Nat.◌+◌ c 32
    else if c == 0x17f
    then 115
    else if c == 0x212a
    then 107
    else c

word : Text → Text → Option Text
word [] s = some s
word (x ∷ xs) [] = none
word (x ∷ xs) (c ∷ s) = elim (x == fold_case c) [ true ↦ word xs s | false ↦ none ]

-- `(?:a|b)`, of texts that are no prefixes of one another.
one_of : List Text → Text → Option Text
one_of [] s = none
one_of (w ∷ ws) s = elim (word w s) [ some r ↦ some r | none ↦ one_of ws s ]

abbrev is_line_feed : ℕ → Bool
is_line_feed c = c == 10

-- `(?:[ \t\n\f\r]+[^\n]*)?(?![\s\S])`.
is_tail : Text → Bool
is_tail [] = true
is_tail (c ∷ s) = is_blank c && not (any is_line_feed (skip is_blank s))

ends_in_tail : Option Text → Bool
ends_in_tail none = false
ends_in_tail (some s) = is_tail s

-- The prefix of `candidateLine`, up to the type of the candidate.
candidate_head : Text → Option Text
candidate_head s = do
  s ← word (codes "candidate:") s
  s ← some_of is_not_blank s
  s ← some_of is_blank s
  s ← some_of is_digit s
  s ← some_of is_blank s
  s ← one_of (codes "udp" ∷ codes "tcp" ∷ []) s
  s ← some_of is_blank s
  s ← some_of is_digit s
  s ← some_of is_blank s
  s ← some_of is_not_blank s
  s ← some_of is_blank s
  s ← some_of is_digit s
  s ← some_of is_blank s
  s ← word (codes "typ") s
  s ← some_of is_blank s
  one_of (codes "host" ∷ codes "srflx" ∷ codes "prflx" ∷ codes "relay" ∷ []) s

-- `candidateLine.test(line)`.
unfoldable pub is_candidate_line : Text → Bool
unfolding candidate_head word one_of some_of skip is_tail ends_in_tail is_blank is_digit
is_candidate_line line = ends_in_tail (candidate_head line)

-- The runs of characters between blanks.
add_to_token : ℕ → List Text → List Text
add_to_token c [] = (c ∷ []) ∷ []
add_to_token c (t ∷ ts) = (c ∷ t) ∷ ts

-- The first of the tokens is the one that is still open, and may be empty.
tokens_from : Text → List Text
tokens_from [] = [] ∷ []
tokens_from (c ∷ s) =
    let rest = tokens_from s in if is_blank c then [] ∷ rest else add_to_token c rest

drop_empty : List Text → List Text
drop_empty [] = []
drop_empty (t ∷ ts) = let rest = drop_empty ts in if is_empty t then rest else t ∷ rest

-- `embeddedUfrags`: a token "ufrag" takes the token behind it, and the search goes on behind that.
ufrags_of : List Text → List Text
ufrags_of [] = []
ufrags_of (t ∷ []) = []
ufrags_of (t ∷ value ∷ ts) = elim (text_eq t (codes "ufrag")) [
  | true ↦ value ∷ ufrags_of ts
  | false ↦ ufrags_of (value ∷ ts)
]

unfoldable pub embedded_ufrags : Text → List Text
unfolding ufrags_of drop_empty tokens_from add_to_token is_blank
embedded_ufrags line = ufrags_of (drop_empty (tokens_from line))

-- `unicodeSpace.test(text)`.
is_unicode_space : ℕ → Bool
is_unicode_space c =
    (leb 9 c && leb c 13)
    || c == 32
    || c == 0x85
    || c == 0xa0
    || c == 0x1680
    || (leb 0x2000 c && leb c 0x200a)
    || c == 0x2028
    || c == 0x2029
    || c == 0x202f
    || c == 0x205f
    || c == 0x3000

unfoldable pub has_unicode_space : Text → Bool
unfolding is_unicode_space
has_unicode_space s = any is_unicode_space s

candidate_line_example :
    is_candidate_line (codes "candidate:1 1 UDP 2122 10.0.0.1 50000 typ host ufrag abc") ≡ true
unfolding is_candidate_line
candidate_line_example = refl

candidate_line_tail :
    is_candidate_line (codes "candidate:1 1 udp 2122 10.0.0.1 50000 typ hosted") ≡ false
unfolding is_candidate_line
candidate_line_tail = refl

embedded_ufrags_example :
    embedded_ufrags (codes " typ host ufrag ufrag abc ufrag d") ≡ codes "ufrag" ∷ codes "d" ∷ []
unfolding embedded_ufrags
embedded_ufrags_example = refl
