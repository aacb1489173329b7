-- ===== src/Call/Requests.antt =====
-- The requests that await an answer: `sendRequest`, `prunePendingRequests` and `clearPendingRequests`
-- of home/call-facade.service.ts.
use zwei.Common.{
  ℕ, ◌-◌, Bool, true, false, not, ◌&&◌, Option, none, some, List, [], ◌∷◌, ltb, ◌==◌, if◌then◌else◌,
}
use zwei.Js.Text.{Text, text_eq}
use zwei.Call.{
  Facade, Pending, Request, RequestType, call_start, call_accept, call_decline, call_cancel,
  call_end, call_signal, send, shrink, set_error, is_current_generation,
}

abbrev pub same_type : RequestType → RequestType → Bool
same_type call_start call_start = true
same_type call_accept call_accept = true
same_type call_decline call_decline = true
same_type call_cancel call_cancel = true
same_type call_end call_end = true
same_type call_signal call_signal = true
same_type _ _ = false

abbrev lifetime : RequestType → ℕ
lifetime call_signal = 15000
lifetime _ = 60000

-- The loop over the requests: what is older than its lifetime is deleted.
unfoldable pub drop_expired : ℕ → List Pending → List Pending
drop_expired now [] = []
drop_expired now (p ∷ ps) =
    let rest = drop_expired now ps in
    if ltb (lifetime p.type) (now - p.created_at) then rest else p ∷ rest

-- `prunePendingRequests`.
unfoldable pub prune_pending_requests : ℕ → Facade → Facade
prune_pending_requests now s = record s {
  pending_requests = shrink 128 (drop_expired now s.pending_requests);
}

-- `Map.prototype.delete` and `set`: an entry that is there keeps its place.
unfoldable pub delete : Text → List Pending → List Pending
delete id [] = []
delete id (p ∷ ps) = let rest = delete id ps in if text_eq id p.id then rest else p ∷ rest

unfoldable pub set : Pending → List Pending → List Pending
set q [] = q ∷ []
set q (p ∷ ps) = let rest = set q ps in if text_eq q.id p.id then q ∷ ps else p ∷ rest

unfoldable pub get : Text → List Pending → Option Pending
get id [] = none
get id (p ∷ ps) = let rest = get id ps in if text_eq id p.id then some p else rest

-- `clearPendingRequests`, of one type.
unfoldable pub clear : ℕ → RequestType → List Pending → List Pending
clear generation type [] = []
clear generation type (p ∷ ps) =
    let rest = clear generation type ps in
    if (p.generation == generation) && same_type p.type type then rest else p ∷ rest

unfoldable pub clear_pending_requests : ℕ → RequestType → Facade → Facade
clear_pending_requests generation type s = record s {
  pending_requests = clear generation type s.pending_requests;
}

abbrev pub pending_of : ℕ → ℕ → Request → Pending
pending_of now generation request = record {
  id = request.request_id;
  generation = generation;
  type = request.type;
  created_at = now;
}

-- `sendRequest`, where `accepts` is what `dataProvider.send` answers, and `error_id` names the
-- request that a failure sends.
unfoldable pub send_request : ℕ → Bool → Text → Request → ℕ → Facade → Facade × Bool
send_request now accepts error_id request generation s =
    if not (is_current_generation generation s)
    then (s, false)
    else (let t = prune_pending_requests now s in
        let asked = record t {
          pending_requests = set (pending_of now generation request) t.pending_requests;
          log = send request ∷ t.log;
        } in
        if accepts then (asked, true) else (
          set_error error_id "The secure connection is unavailable." generation (record asked {
            pending_requests = delete request.request_id asked.pending_requests;
          }),
          false,
        ))
