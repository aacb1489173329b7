-- ===== src/Js/Text.antt =====
-- JavaScript strings as lists of UTF-16 code units, with the parts of `String.prototype` and of
-- the regular expressions that frontend-app/src/app uses.
use Prim.Native.Char.{code}
use zwei.Common.{
  ℕ, zero, suc, ◌+◌, ◌≡◌, refl, String, Bool, true, false, ◌&&◌, ◌||◌, Option, none, some, List, [],
  ◌∷◌, leb, ◌==◌, ==_iff, if◌then◌else◌, &&-true, &&-intro,
}

abbrev pub Text : Type 0
Text = List ℕ

-- A text literal. Those of the program are ASCII, where code points are code units.
abbrev pub codes : String → Text
codes String.[] = []
codes (String.◌∷◌ c s) = code c ∷ codes s

-- `===` on strings.
abbrev pub text_eq : Text → Text → Bool
text_eq [] [] = true
text_eq [] (y ∷ ys) = false
text_eq (x ∷ xs) [] = false
text_eq (x ∷ xs) (y ∷ ys) = (x == y) && text_eq xs ys

pub text_eq→≡ : (s t : Text) → text_eq s t ≡ true → s ≡ t
text_eq→≡ [] [] h = refl
text_eq→≡ [] (y ∷ ys) h = cc
text_eq→≡ (x ∷ xs) [] h = cc
text_eq→≡ (x ∷ xs) (y ∷ ys) h =
    let (p, q) = &&-true (x == y) (text_eq xs ys) h in cc ((==_iff x y).0 p, text_eq→≡ xs ys q)

pub text_eq_refl : (s : Text) → text_eq s s ≡ true
text_eq_refl [] = refl
text_eq_refl (x ∷ xs) = &&-intro (x == x) (text_eq xs xs) ((==_iff x x).1 refl) (text_eq_refl xs)

-- What `trim` strips and `\s` matches: the white space and line terminators of ECMAScript.
unfoldable pub is_space : ℕ → Bool
is_space c =
    (leb 9 c && leb c 13)
    || c == 32
    || c == 160
    || c == 5760
    || (leb 8192 c && leb c 8202)
    || c == 8232
    || c == 8233
    || c == 8239
    || c == 8287
    || c == 12288
    || c == 65279

unfoldable pub trim_start : Text → Text
trim_start [] = []
trim_start (c ∷ s) = if is_space c then trim_start s else c ∷ s

-- A character in front of what is left of the text behind it.
trim_keep : ℕ → Text → Text
trim_keep c [] = if is_space c then [] else c ∷ []
trim_keep c (d ∷ r) = c ∷ d ∷ r

unfoldable pub trim_end : Text → Text
unfolding trim_keep
trim_end [] = []
trim_end (c ∷ s) = trim_keep c (trim_end s)

-- `String.prototype.trim`.
unfoldable pub trim : Text → Text
unfolding trim_start trim_end is_space
trim s = trim_end (trim_start s)

abbrev pub is_empty : Text → Bool
is_empty [] = true
is_empty (_ ∷ _) = false

unfoldable pub is_digit : ℕ → Bool
is_digit c = leb 48 c && leb c 57

-- A lower-case hexadecimal digit, and the same with upper case as under the `i` flag.
unfoldable pub is_hex : ℕ → Bool
unfolding is_digit
is_hex c = is_digit c || (leb 97 c && leb c 102)

unfoldable pub is_hex_any_case : ℕ → Bool
unfolding is_hex
is_hex_any_case c = is_hex c || (leb 65 c && leb c 70)

-- A run of exactly `n` characters of a class, and the text behind it.
unfoldable pub run : (ℕ → Bool) → ℕ → Text → Option Text
run p zero s = some s
run p (suc n) [] = none
run p (suc n) (c ∷ s) = elim (p c) [ true ↦ run p n s | false ↦ none ]

-- A literal, and the text behind it.
unfoldable pub literal : Text → Text → Option Text
literal [] s = some s
literal (x ∷ xs) [] = none
literal (x ∷ xs) (c ∷ s) = elim (x == c) [ true ↦ literal xs s | false ↦ none ]

-- Sequencing of matchers: each is given the text that the one before it left.
infixl 5 ◌>>=◌
abbrev pub ◌>>=◌ {ℓ κ} : {A : Type ℓ} {B : Type κ} → Option A → (A → Option B) → Option B
none >>= f = none
some a >>= f = f a

-- `/^hhhhhhhh-(?:hhhh-){3}hhhhhhhhhhhh$/` over a class `h`.
uuid_shape : (ℕ → Bool) → Text → Option Text
uuid_shape h s = do
  s ← run h 8 s
  s ← literal (codes "-") s
  s ← run h 4 s
  s ← literal (codes "-") s
  s ← run h 4 s
  s ← literal (codes "-") s
  s ← run h 4 s
  s ← literal (codes "-") s
  run h 12 s

abbrev at_end : Option Text → Bool
at_end none = false
at_end (some s) = is_empty s

-- `CANONICAL_UUID` of home/wire.mapper.ts, lower case only.
unfoldable pub is_canonical_uuid : Text → Bool
unfolding uuid_shape run literal is_hex
is_canonical_uuid s = at_end (uuid_shape is_hex s)

-- The `i` flag: the pattern of `isUUID` in home/data-provider.service.ts.
unfoldable pub is_uuid_text : Text → Bool
unfolding uuid_shape run literal is_hex_any_case
is_uuid_text s = at_end (uuid_shape is_hex_any_case s)

-- Code points of a text: a high surrogate before a low one is one of them.
abbrev pub is_high_surrogate : ℕ → Bool
is_high_surrogate c = leb 0xd800 c && leb c 0xdbff

abbrev pub is_low_surrogate : ℕ → Bool
is_low_surrogate c = leb 0xdc00 c && leb c 0xdfff

count_points : Bool → Text → ℕ
count_points after_high [] = 0
count_points after_high (c ∷ s) =
    (if after_high && is_low_surrogate c then 0 else 1) + count_points (is_high_surrogate c) s

-- `Array.from(text).length`.
unfoldable pub code_point_count : Text → ℕ
unfolding count_points
code_point_count s = count_points false s

uuid_example : is_canonical_uuid (codes "0189a0b1-0000-7000-8000-00000000000f") ≡ true
unfolding is_canonical_uuid
uuid_example = refl

trim_example : trim (codes "  a b ") ≡ codes "a b"
unfolding trim
trim_example = refl

-- Inversion of a chain that succeeds.
pub >>=-eq-some {ℓ κ} :
    {A : Type ℓ} {B : Type κ} (m : Option A) (f : A → Option B) {b : B}
    → (m >>= f) ≡ some b
    → (a : A) × (m ≡ some a) × (f a ≡ some b)
>>=-eq-some none f h = cc
>>=-eq-some (some a) f h = (a, refl, h)
