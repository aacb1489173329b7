-- ===== src/Protocol/Diagnostics.antt =====
-- `invalidGroupCandidate` of home/data-provider.service.ts: the local diagnostic for a candidate that
-- the relay passed on and this client refuses.
use zwei.Common.{
  ◌∙◌, ◌≡◌, String, Bool, true, false, not, ◌&&◌, Option, none, some, [], ◌∷◌, arith, if◌then◌else◌,
  is_some,
}
use zwei.Js.Text.{Text, codes}
use zwei.Js.Value.{
  Fields, no_fields, field, undefined, null, bool, num, obj, arr, lookup, has_key, str, is_text→≡,
  Value, prop, has, is_string, text_of, is_text,
}
use zwei.Ice.Candidate.{ice_candidate_identity}
use zwei.Protocol.Fields.{is_record, is_sequence, exact_keys}
use zwei.Protocol.Calls.{is_valid_group_call_signal}
use zwei.Protocol.Events.{is_group_signal, is_versioned, is_valid_socket_event}

-- The payload of `group.call.invalid_candidate`: who sent the candidate, and nothing of it.
pub record InvalidCandidate : Type 0 where
  pub room_id : Text
  pub generation : Value
  pub from_user_id : Text
  pub from_device_id : Text

-- The guards of `invalidGroupCandidate`.
unfoldable pub is_invalid_candidate : Value → Bool
is_invalid_candidate event =
    let payload = prop event "payload" in
    let signal = prop payload "signal" in
    is_versioned event
    && is_text (prop event "type") "group.call.signal"
    && is_record payload
    && is_string (prop payload "room_id")
    && is_sequence (prop payload "generation")
    && is_string (prop payload "from_user_id")
    && is_string (prop payload "from_device_id")
    && is_record signal
    && is_text (prop signal "type") "candidate"
    && exact_keys signal ("type" ∷ "candidate" ∷ [])
    && not (is_some (ice_candidate_identity (prop signal "candidate")))

-- `invalidGroupCandidate`.
pub invalid_group_candidate : Value → Option InvalidCandidate
invalid_group_candidate event =
    let payload = prop event "payload" in
    if is_invalid_candidate event
    then some (record {
      room_id = text_of (prop payload "room_id");
      generation = prop payload "generation";
      from_user_id = text_of (prop payload "from_user_id");
      from_device_id = text_of (prop payload "from_device_id");
    })
    else none

guarded : (a b c : Bool) → (if not (a && true && b) then false else c) ≡ (a && b && c)
guarded a b c = ground arith

abbrev pub signal_of : Value → Value
signal_of event = prop (prop event "payload") "signal"

candidate_signal :
    (v : Value)
    → prop v "type" ≡ str (codes "candidate")
    → is_valid_group_call_signal v ≡ (
        is_record v
        && exact_keys v ("type" ∷ "candidate" ∷ [])
        && is_some (ice_candidate_identity (prop v "candidate")))
unfolding is_valid_group_call_signal
candidate_signal v e = rw e (ground arith)

-- The envelope and the shape of a candidate signal; only the identity of the candidate is open.
abbrev pub is_candidate_signal : Value → Bool
is_candidate_signal event =
    let payload = prop event "payload" in
    is_versioned event
    && is_text (prop event "type") "group.call.signal"
    && is_record payload
    && is_string (prop payload "room_id")
    && is_sequence (prop payload "generation")
    && is_string (prop payload "from_user_id")
    && is_string (prop payload "from_device_id")
    && is_record (signal_of event)
    && is_text (prop (signal_of event) "type") "candidate"
    && exact_keys (signal_of event) ("type" ∷ "candidate" ∷ [])

guards :
    (a b c d e f g h i j k : Bool)
    → (a && b && c && d && e && f && g && h && i && j && not k) ≡ true
    → (b ≡ true) × (i ≡ true) × (k ≡ false)
guards a b c d e f g h i j k p = ground arith

-- What a reported event is: a signal with a candidate that has no identity.
is_invalid_candidate-type :
    (event : Value)
    → is_invalid_candidate event ≡ true
    → (is_text (prop event "type") "group.call.signal" ≡ true)
      × (is_text (prop (signal_of event) "type") "candidate" ≡ true)
      × (is_some (ice_candidate_identity (prop (signal_of event) "candidate")) ≡ false)
unfolding is_invalid_candidate
is_invalid_candidate-type event h =
    guards (is_versioned event) (is_text (prop event "type") "group.call.signal")
      (is_record (prop event "payload")) (is_string (prop (prop event "payload") "room_id"))
      (is_sequence (prop (prop event "payload") "generation"))
      (is_string (prop (prop event "payload") "from_user_id"))
      (is_string (prop (prop event "payload") "from_device_id")) (is_record (signal_of event))
      (is_text (prop (signal_of event) "type") "candidate")
      (exact_keys (signal_of event) ("type" ∷ "candidate" ∷ []))
      (is_some (ice_candidate_identity (prop (signal_of event) "candidate"))) h

and_false : (a b c : Bool) → c ≡ false → (a && b && c) ≡ false
and_false a b c h = ground arith

last_false : (a b c d e f : Bool) → f ≡ false → (a && b && c && d && e && f) ≡ false
last_false a b c d e f h = ground arith

module _ (parses : Text → Bool) (event : Value) where
  -- Where the type of an event is known, the `switch` takes its case.
  signal_event :
      prop event "type" ≡ str (codes "group.call.signal")
      → is_valid_socket_event parses event
        ≡ (is_versioned event && has event "payload" && is_group_signal (prop event "payload"))
  unfolding is_valid_socket_event
  signal_event e =
      rw e (
        guarded (is_versioned event) (has event "payload") (is_group_signal (prop event "payload")))

  -- An event that is reported as an invalid candidate is not valid: it is not emitted twice.
  is_invalid_candidate-refused :
      is_invalid_candidate event ≡ true → is_valid_socket_event parses event ≡ false
  unfolding is_group_signal
  is_invalid_candidate-refused reported =
      let payload = prop event "payload" in
      let (type, kind, unknown) = is_invalid_candidate-type event reported in
      let signal =
        candidate_signal (signal_of event)
          (is_text→≡ (prop (signal_of event) "type") "candidate" kind) in
      signal_event (is_text→≡ (prop event "type") "group.call.signal" type)
      ∙ and_false (is_versioned event) (has event "payload") (is_group_signal payload) (
          last_false (is_record payload) (is_string (prop payload "room_id"))
            (is_sequence (prop payload "generation")) (is_string (prop payload "from_user_id"))
            (is_string (prop payload "from_device_id"))
            (is_valid_group_call_signal (signal_of event))
            (signal
              ∙ and_false (is_record (signal_of event))
                  (exact_keys (signal_of event) ("type" ∷ "candidate" ∷ []))
                  (is_some (ice_candidate_identity (prop (signal_of event) "candidate"))) unknown))

has_key-lookup : (k : Text) (fs : Fields) → is_record (lookup k fs) ≡ true → has_key k fs ≡ true
has_key-lookup k no_fields h = cc
has_key-lookup k (field j v r) h = ground (arith, has_key-lookup k r)

has-prop : (v : Value) (k : String) → is_record (prop v k) ≡ true → has v k ≡ true
has-prop (obj fs) k h = has_key-lookup (codes k) fs h
has-prop undefined k h = cc
has-prop null k h = cc
has-prop (bool b) k h = cc
has-prop (num n) k h = cc
has-prop (str s) k h = cc
has-prop (arr xs) k h = cc

all_guards :
    (a b c d e f g h i j : Bool)
    → (a && b && c && d && e && f && g && h && i && j) ≡ true
    → (a ≡ true)
      × (b ≡ true)
      × (c ≡ true)
      × (d ≡ true)
      × (e ≡ true)
      × (f ≡ true)
      × (g ≡ true)
      × (h ≡ true)
      × (i ≡ true)
      × (j ≡ true)
all_guards a b c d e f g h i j p = ground arith

module _ (a b c d e f g r i j k : Bool)
    (all : (a && b && c && d && e && f && g && r && i && j) ≡ true) where
  valid_by_identity :
      (present s : Bool)
      → present ≡ true
      → s ≡ (r && j && k)
      → (a && present && (c && d && e && f && g && s)) ≡ k
  valid_by_identity present s p q = ground arith

  reported_by_identity : (a && b && c && d && e && f && g && r && i && j && not k) ≡ not k
  reported_by_identity = ground arith

-- A candidate signal with a sound envelope is never lost: it is valid if its candidate has an
-- identity, and reported as an invalid candidate otherwise.
pub candidate_signal_is_kept :
    (parses : Text → Bool) (event : Value)
    → is_candidate_signal event ≡ true
    → (is_valid_socket_event parses event
        ≡ is_some (ice_candidate_identity (prop (signal_of event) "candidate")))
      × (is_invalid_candidate event
          ≡ not (is_some (ice_candidate_identity (prop (signal_of event) "candidate"))))
unfolding is_group_signal is_invalid_candidate
candidate_signal_is_kept parses event h =
    let payload = prop event "payload" in
    let a = is_versioned event in
    let b = is_text (prop event "type") "group.call.signal" in
    let c = is_record payload in
    let d = is_string (prop payload "room_id") in
    let e = is_sequence (prop payload "generation") in
    let f = is_string (prop payload "from_user_id") in
    let g = is_string (prop payload "from_device_id") in
    let r = is_record (signal_of event) in
    let i = is_text (prop (signal_of event) "type") "candidate" in
    let j = exact_keys (signal_of event) ("type" ∷ "candidate" ∷ []) in
    let k = is_some (ice_candidate_identity (prop (signal_of event) "candidate")) in
    let held = all_guards a b c d e f g r i j h in
    let type = is_text→≡ (prop event "type") "group.call.signal" held.1 in
    let signal =
      candidate_signal (signal_of event)
        (is_text→≡ (prop (signal_of event) "type") "candidate" held.8) in
    (
      signal_event parses event type
          ∙ valid_by_identity a b c d e f g r i j k h (has event "payload")
              (is_valid_group_call_signal (signal_of event)) (has-prop event "payload" held.2)
              signal,
      reported_by_identity a b c d e f g r i j k h,
    )
