-- ===== src/Session/Stored.antt =====
-- What `AuthService` of frontend-app/src/app/auth/auth.service.ts reads from tokens and from
-- `localStorage`, and what it writes there.
use zwei.Common.{
  ℕ, ◌+◌, Bool, true, false, not, ◌&&◌, ◌||◌, Option, none, some, [], ◌∷◌, leb, ◌==◌, if◌then◌else◌,
  any,
}
use zwei.Js.Text.{Text, codes, text_eq, is_empty}
use zwei.Js.Value.{Value, obj, str, field, no_fields, prop, has, is_object, is_string, text_of}

-- `BrowserSessionSelector`, `IntendedSession` and `PendingLogout`.
pub record Selector : Type 0 where
  pub browser_id : Text
  pub generation : Text

pub record Binding : Type 0 where
  pub subject : Text
  pub browser_id : Text
  pub generation : Text

pub record PendingLogout : Type 0 where
  pub binding : Binding
  pub receipt : Text

-- `Token` or `ContinuedBrowserSession`, as the server sent it. `claims` is what `JSON.parse(atob(...))`
-- gives of the access token's second part, or `none` where it throws.
pub record Token : Type 0 where
  pub token_type : Text
  pub claims : Option Value
  pub expires_in : ℕ
  pub browser_id : Value
  pub generation : Value

-- An item of the storage: what `JSON.parse` reads in it, if it can.
pub data Raw : Type 0 where
  blank junk : Raw
  json : Value → Raw

-- A text that is there and is not empty: `typeof value === 'string' && value`.
abbrev pub is_filled : Value → Bool
is_filled v = is_string v && not (is_empty (text_of v))

-- `parseBinding`.
unfoldable pub parse_binding : Option Raw → Option Binding
parse_binding none = none
parse_binding (some blank) = none
parse_binding (some junk) = none
parse_binding (some (json v)) =
    if not (is_object v)
      || not (has v "subject")
      || not (has v "browser_id")
      || not (has v "generation")
    then none
    else if is_filled (prop v "subject")
        && is_filled (prop v "browser_id")
        && is_filled (prop v "generation")
    then some (record {
      subject = text_of (prop v "subject");
      browser_id = text_of (prop v "browser_id");
      generation = text_of (prop v "generation");
    })
    else none

-- `/^[A-Za-z0-9_-]{42}[AEIMQUYcgkosw048]$/`.
is_base64url : ℕ → Bool
is_base64url c =
    (leb 65 c && leb c 90)
    || (leb 97 c && leb c 122)
    || (leb 48 c && leb c 57)
    || c == 95
    || c == 45

is_last : ℕ → Bool
is_last c = any (λ d. c == d) (codes "AEIMQUYcgkosw048")

is_receipt_from : ℕ → Text → Bool
is_receipt_from n [] = false
is_receipt_from n (c ∷ []) = n == 42 && is_last c
is_receipt_from n (c ∷ d ∷ r) = is_base64url c && is_receipt_from (n + 1) (d ∷ r)

unfoldable pub is_receipt : Text → Bool
unfolding is_receipt_from is_base64url is_last
is_receipt s = is_receipt_from 0 s

-- `parsePendingLogout`.
abbrev with_receipt : Value → Binding → Option PendingLogout
with_receipt v b =
    if is_object v
      && has v "receipt"
      && is_string (prop v "receipt")
      && is_receipt (text_of (prop v "receipt"))
    then some (record { binding = b; receipt = text_of (prop v "receipt") })
    else none

abbrev value_of : Option Raw → Value
value_of none = Value.null
value_of (some blank) = Value.null
value_of (some junk) = Value.null
value_of (some (json v)) = v

unfoldable pub parse_pending_logout : Option Raw → Option PendingLogout
parse_pending_logout raw = elim (parse_binding raw) [
  | none ↦ none
  | some b ↦ with_receipt (value_of raw) b
]

-- `JSON.stringify` of a binding and of a pending logout.
abbrev pub binding_json : Binding → Raw
binding_json b = json (
    obj (
      field (codes "subject") (str b.subject) (
        field (codes "browser_id") (str b.browser_id)
          (field (codes "generation") (str b.generation) no_fields))))

abbrev pub pending_json : PendingLogout → Raw
pending_json p = json (
    obj (
      field (codes "subject") (str p.binding.subject) (
        field (codes "browser_id") (str p.binding.browser_id) (
          field (codes "generation") (str p.binding.generation)
            (field (codes "receipt") (str p.receipt) no_fields)))))

-- `sameBinding` and `samePending`.
unfoldable pub same_binding : Option Binding → Option Binding → Bool
same_binding none b = false
same_binding (some a) none = false
same_binding (some a) (some b) =
    text_eq a.subject b.subject
    && text_eq a.browser_id b.browser_id
    && text_eq a.generation b.generation

abbrev pub binding_of : Option PendingLogout → Option Binding
binding_of none = none
binding_of (some p) = some p.binding

abbrev same_receipt : Option PendingLogout → Option PendingLogout → Bool
same_receipt none none = true
same_receipt none (some b) = false
same_receipt (some a) none = false
same_receipt (some a) (some b) = text_eq a.receipt b.receipt

unfoldable pub same_pending : Option PendingLogout → Option PendingLogout → Bool
same_pending a b = same_binding (binding_of a) (binding_of b) && same_receipt a b

-- `subjectOf`.
unfoldable pub subject_of : Token → Option Text
subject_of token = elim token.claims [
  | none ↦ none
  | some v ↦
      if is_object v && has v "sub" && is_filled (prop v "sub")
      then some (text_of (prop v "sub"))
      else none
]

-- `selectorOf`.
unfoldable pub selector_of : Token → Option Selector
selector_of token =
    if is_filled token.browser_id && is_filled token.generation
    then some
        (record { browser_id = text_of token.browser_id; generation = text_of token.generation })
    else none

abbrev pub bind : Text → Selector → Binding
bind subject selector = record {
  subject = subject;
  browser_id = selector.browser_id;
  generation = selector.generation;
}

abbrev pub selects : Binding → Selector
selects b = record { browser_id = b.browser_id; generation = b.generation }
