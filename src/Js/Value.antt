-- ===== src/Js/Value.antt =====
-- JavaScript values of type `unknown`: what `JSON.parse` returns, with `undefined` for what is
-- missing. The fields of an object stand in insertion order.
use zwei.Common.{
  ◌≡◌, ap, ℕ, ◌^◌, ◌-◌, String, Bool, true, false, ◌&&◌, ◌||◌, Option, none, some, List, [], ◌∷◌,
  leb, ◌==◌, if◌then◌else◌,
}
use zwei.Js.Text.{Text, codes, text_eq, text_eq→≡}

-- A double: an integer, or any other (a fraction, an infinity, NaN).
-- `negsuc n` is -(n + 1).
pub data Number : Type 0 where
  pos : ℕ → Number
  negsuc : ℕ → Number
  other : Number

mutual
  pub data Value : Type 0 where
    undefined : Value
    null : Value
    bool : Bool → Value
    num : Number → Value
    str : Text → Value
    arr : Items → Value
    obj : Fields → Value

  pub data Items : Type 0 where
    no_items : Items
    cons : Value → Items → Items

  pub data Fields : Type 0 where
    no_fields : Fields
    field : Text → Value → Fields → Fields

abbrev pub items : Items → List Value
items no_items = []
items (cons v r) = v ∷ items r

abbrev pub from_list : List Value → Items
from_list [] = no_items
from_list (v ∷ r) = cons v (from_list r)

-- `Object.keys(value)`.
abbrev pub keys : Fields → List Text
keys no_fields = []
keys (field k v r) = k ∷ keys r

abbrev pub lookup : Text → Fields → Value
lookup k no_fields = undefined
lookup k (field j v r) = if text_eq k j then v else lookup k r

-- `value.name`, on an object.
abbrev pub prop : Value → String → Value
prop (obj fs) k = lookup (codes k) fs
prop undefined k = undefined
prop null k = undefined
prop (bool b) k = undefined
prop (num n) k = undefined
prop (str s) k = undefined
prop (arr xs) k = undefined

abbrev pub has_key : Text → Fields → Bool
has_key k no_fields = false
has_key k (field j v r) = text_eq k j || has_key k r

-- `'name' in value` and `hasOwnProperty`, on an object.
abbrev pub has : Value → String → Bool
has (obj fs) k = has_key (codes k) fs
has undefined k = false
has null k = false
has (bool b) k = false
has (num n) k = false
has (str s) k = false
has (arr xs) k = false

abbrev pub keys_of : Value → List Text
keys_of (obj fs) = keys fs
keys_of undefined = []
keys_of null = []
keys_of (bool b) = []
keys_of (num n) = []
keys_of (str s) = []
keys_of (arr xs) = []

-- `value === undefined`, `value === null`, `value == null`.
abbrev pub is_undefined : Value → Bool
is_undefined undefined = true
is_undefined null = false
is_undefined (bool b) = false
is_undefined (num n) = false
is_undefined (str s) = false
is_undefined (arr xs) = false
is_undefined (obj fs) = false

abbrev pub is_null : Value → Bool
is_null null = true
is_null undefined = false
is_null (bool b) = false
is_null (num n) = false
is_null (str s) = false
is_null (arr xs) = false
is_null (obj fs) = false

abbrev pub is_nullish : Value → Bool
is_nullish v = is_undefined v || is_null v

-- `typeof value === 'string'`.
abbrev pub is_string : Value → Bool
is_string (str s) = true
is_string undefined = false
is_string null = false
is_string (bool b) = false
is_string (num n) = false
is_string (arr xs) = false
is_string (obj fs) = false

-- `typeof value === 'boolean'`.
abbrev pub is_boolean : Value → Bool
is_boolean (bool b) = true
is_boolean undefined = false
is_boolean null = false
is_boolean (str s) = false
is_boolean (num n) = false
is_boolean (arr xs) = false
is_boolean (obj fs) = false

-- `value === true`.
abbrev pub is_true : Value → Bool
is_true (bool b) = b
is_true undefined = false
is_true null = false
is_true (str s) = false
is_true (num n) = false
is_true (arr xs) = false
is_true (obj fs) = false

-- `Array.isArray(value)`.
abbrev pub is_array : Value → Bool
is_array (arr xs) = true
is_array undefined = false
is_array null = false
is_array (bool b) = false
is_array (num n) = false
is_array (str s) = false
is_array (obj fs) = false

-- `value !== null && typeof value === 'object' && !Array.isArray(value)`.
abbrev pub is_object : Value → Bool
is_object (obj fs) = true
is_object undefined = false
is_object null = false
is_object (bool b) = false
is_object (num n) = false
is_object (str s) = false
is_object (arr xs) = false

-- The items of an array, and none of any other value; the text of a string.
abbrev pub items_of : Value → List Value
items_of (arr xs) = items xs
items_of undefined = []
items_of null = []
items_of (bool b) = []
items_of (num n) = []
items_of (str s) = []
items_of (obj fs) = []

abbrev pub text_of : Value → Text
text_of (str s) = s
text_of undefined = []
text_of null = []
text_of (bool b) = []
text_of (num n) = []
text_of (arr xs) = []
text_of (obj fs) = []

-- `value === 'literal'`.
abbrev pub is_text : Value → String → Bool
is_text v s = is_string v && text_eq (text_of v) (codes s)

-- `value === 4`, at a natural number.
abbrev pub is_number : Value → ℕ → Bool
is_number (num (pos n)) k = n == k
is_number (num (negsuc n)) k = false
is_number (num other) k = false
is_number undefined k = false
is_number null k = false
is_number (bool b) k = false
is_number (str s) k = false
is_number (arr xs) k = false
is_number (obj fs) k = false

abbrev pub max_safe_integer : ℕ
max_safe_integer = 2 ^ 53 - 1

-- The value of a safe integer that is not negative: `Number.isSafeInteger(value) && value >= 0`.
abbrev pub natural_of : Value → Option ℕ
natural_of (num (pos n)) = if leb n max_safe_integer then some n else none
natural_of (num (negsuc n)) = none
natural_of (num other) = none
natural_of undefined = none
natural_of null = none
natural_of (bool b) = none
natural_of (str s) = none
natural_of (arr xs) = none
natural_of (obj fs) = none

pub is_text→≡ : (v : Value) (s : String) → is_text v s ≡ true → v ≡ str (codes s)
is_text→≡ (str t) s h = ap str (text_eq→≡ t (codes s) h)
is_text→≡ undefined s h = cc
is_text→≡ null s h = cc
is_text→≡ (bool b) s h = cc
is_text→≡ (num n) s h = cc
is_text→≡ (arr xs) s h = cc
is_text→≡ (obj fs) s h = cc
