-- ===== src/GroupAccess/Departure.antt =====
-- `depart`, of home/home-group-access-facade.service.ts: the request to leave or delete a group, and its
-- answers. An answer is given the number of the departure that it belongs to.
use zwei.Common.{
  if-keeps, ℕ, ◌+◌, true, false, not, ◌&&◌, ◌||◌, Option, none, some, ltb, ◌==◌, if◌then◌else◌, max,
  is_some,
}
use zwei.GroupAccess.{
  Access, Leaving, Context, departure_pending, departure_finished, emit, cancel_request,
  fetch_latest, quarantine, remove, finish_departure, revision_for,
}

-- `depart`, up to the answer. `departure.revision` is `revisionFor`, computed behind the first raise.
unfoldable pub depart : ℕ → Context → Access → Access
depart projection c a =
    if is_some a.departure
    then a
    else (let b = record a { revision = max a.revision projection } in
        let leaving : Leaving = record {
          number = a.next_departure;
          revision = revision_for projection b;
          context = c;
          removal_observed = false;
        } in
        let p = emit (departure_pending a.group_id) (record b {
          departure = some leaving;
          next_departure = a.next_departure + 1;
          context = none;
        }) in
        let q = cancel_request p in record q { revision = max q.revision leaving.revision })

-- The lookups that began before are fenced off.
unfoldable pub raise_fence : Leaving → Access → Access
raise_fence d a =
    let b = cancel_request (record a {
      quarantined = true;
      failed = false;
      context = some d.context;
      departure_generation = a.departure_generation + 1;
      departure_fence =
          some (record { generation = a.departure_generation + 1; revision = d.revision });
      departure_reconciliation_required = true;
    }) in
    record b { request_revision = b.request_revision + 1 }

-- The request has succeeded.
unfoldable pub succeed : Leaving → Access → Access
succeed d a =
    if d.removal_observed && is_some a.removed_revision
    then finish_departure a
    else (let behind =
          ltb d.revision a.revision
          && (not d.removal_observed || not (is_some a.removed_revision)) in
        let b = if behind then raise_fence d a else a in
        let q = finish_departure (if b.revision == d.revision then remove d.revision b else b) in
        if behind then fetch_latest q else q)

-- The request has failed.
unfoldable pub fail : Leaving → Access → Access
fail d a =
    let b =
      if d.removal_observed
      then a
      else (let q = cancel_request (quarantine d.context a) in
          fetch_latest (record q { request_revision = q.request_revision + 1 })) in
    record (emit (departure_finished b.group_id true) b) { departure = none }

abbrev pub of_departure : ℕ → (Leaving → Access → Access) → Option Leaving → Access → Access
of_departure n f none a = a
of_departure n f (some d) a = if d.number == n then f d a else a

-- What the answer keeps, whichever departure it belongs to.
pub of_departure-keeps {κ} :
    (P : Access → Type κ) (n : ℕ) (f : Leaving → Access → Access) (d : Option Leaving) (a : Access)
    → ((e : Leaving) → P (f e a))
    → P a
    → P (of_departure n f d a)
of_departure-keeps P n f none a keeps h = h
of_departure-keeps P n f (some d) a keeps h = if-keeps P (d.number == n) (keeps d) h

-- `next` of the request; what is answered behind another departure is ignored.
unfoldable pub departure_succeeds : ℕ → Access → Access
departure_succeeds n a = of_departure n succeed a.departure a

-- `error` of the request.
unfoldable pub departure_fails : ℕ → Access → Access
departure_fails n a = of_departure n fail a.departure a
