-- ===== src/Protocol/Sync.antt =====
-- What the guards on synced and discovered rooms of home/data-provider.service.ts tell apart.
use zwei.Common.{◌≡◌, refl, String, Bool, true, false, not, ◌&&◌, ◌||◌, arith, Bool-cases, inl, inr}
use zwei.Js.Text.{Text, codes}
use zwei.Js.Value.{
  Value, Fields, no_fields, field, undefined, null, bool, num, str, arr, obj, lookup, has_key, prop,
  has, is_undefined, is_text, is_text→≡,
}
use zwei.Protocol.Rooms.{
  is_group_call_ended_sync_payload, is_group_call_active_sync_payload, is_group_room_payload,
  is_ice_lease, is_group_call_discovered_room_payload,
}

undefined-lookup : (k : Text) (fs : Fields) → has_key k fs ≡ false → lookup k fs ≡ undefined
undefined-lookup k no_fields h = refl
undefined-lookup k (field j v r) h = ground (arith, undefined-lookup k r)

-- A property that is not there reads as `undefined`.
undefined-prop : (v : Value) (k : String) → has v k ≡ false → prop v k ≡ undefined
undefined-prop (obj fs) k h = undefined-lookup (codes k) fs h
undefined-prop undefined k h = refl
undefined-prop null k h = refl
undefined-prop (bool b) k h = refl
undefined-prop (num n) k h = refl
undefined-prop (str s) k h = refl
undefined-prop (arr xs) k h = refl

-- Two of a row of conjuncts.
second_and_fourth :
    (a b c d e : Bool) → (a && b && c && not d && e) ≡ true → (b ≡ true) × (d ≡ false)
second_and_fourth a b c d e h = ground arith

not_both :
    (v : Value) → is_text v "ended" ≡ true → (is_text v "ringing" || is_text v "active") ≡ false
not_both v h = rw (is_text→≡ v "ended" h)

module _ (parses : Text → Bool) (v : Value) where
  ended-status :
      is_group_call_ended_sync_payload v ≡ true → is_text (prop v "status") "ended" ≡ true
  unfolding is_group_call_ended_sync_payload
  ended-status h = ground arith

  active-status :
      is_group_call_active_sync_payload parses v ≡ true
      → (is_text (prop v "status") "ringing" || is_text (prop v "status") "active") ≡ true
  unfolding is_group_call_active_sync_payload
  active-status h = ground arith

  room-lease :
      is_group_room_payload parses v ≡ true
      → is_ice_lease parses (prop v "ice_servers") (prop v "ice_expires_at") ≡ true
  unfolding is_group_room_payload
  room-lease h = ground arith

  -- A synced payload that says the call is over is never taken for one that says it goes on.
  ended_sync_is_not_active :
      is_group_call_ended_sync_payload v ≡ true → is_group_call_active_sync_payload parses v ≡ false
  ended_sync_is_not_active h = elim (Bool-cases (is_group_call_active_sync_payload parses v)) [
    | inl active ↦ cc (active-status active, not_both (prop v "status") (ended-status h))
    | inr passed ↦ passed
  ]

  -- A discovered room carries neither ICE servers nor a time at which they expire.
  discovered_room_has_no_lease :
      is_group_call_discovered_room_payload parses v ≡ true
      → (prop v "ice_servers" ≡ undefined) × (is_undefined (prop v "ice_expires_at") ≡ true)
  unfolding is_group_call_discovered_room_payload is_ice_lease
  discovered_room_has_no_lease h =
      let (room, absent) =
        second_and_fourth _ (is_group_room_payload parses v) _ (has v "ice_servers") _ h in
      let servers = undefined-prop v "ice_servers" absent in
      (servers, rw servers at (room-lease room))
