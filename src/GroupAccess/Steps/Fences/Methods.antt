-- ===== src/GroupAccess/Steps/Fences/Methods.antt =====
-- What a fence of home/home-group-access-facade.service.ts says of lookups, along its methods but those of
-- lookups and departures.
use zwei.Common.{
  ℕ, ◌<◌, ◌≤◌, ◌≡◌, Bool, true, false, not, ◌&&◌, ◌||◌, Option, none, some, List, [], ◌∷◌, arith,
  ltb, leb, ◌==◌, max, is_some, All, if-keeps, if-cases,
}
use zwei.GroupAccess.{
  Access, Context, Fetch, Fence, emit, mark_projection_changed, mark_authorized, is_removed_at,
  cancel_request, fetch_latest, request_group, quarantine, mark_removed, remove, definitive_removal,
  accept_projection, membership_changed, conversation_created, without_number, without_request,
  quarantine_for_verification, verify_quarantined, retry_one, finish_departure, removal_observed,
  supersede, raise_revision, lift_removal, forget_removal,
}
use zwei.GroupAccess.Lookup.{is_past_fence}

-- A lookup that began before the departure of the fence is superseded; none is of a later time.
pub record IsKnown (f : Option Fence) (rr dg : ℕ) (k : Fetch) : Type 0 where
  pub fetched : k.fetch_revision ≤ rr
  pub begun : k.departure_generation ≤ dg
  pub superseded :
      is_past_fence f k.departure_generation ≡ false → is_some f ≡ true → k.fetch_revision < rr

-- The fence is below the revision, and of a departure that has been.
abbrev pub IsLow : Option Fence → ℕ → ℕ → Type 0
IsLow none dg r = Unit
IsLow (some f) dg r = (f.generation ≤ dg) × (f.revision < r)

-- This of a revision, the numbers of requests and departures, a fence, and the lookups.
pub record Fenced (r rr dg : ℕ) (f : Option Fence) (ks : List Fetch) : Type 0 where
  pub low : IsLow f dg r
  pub known : All (IsKnown f rr dg) ks

abbrev pub IsFenced : Access → Type 0
IsFenced a = Fenced a.revision a.request_revision a.departure_generation a.departure_fence a.lookups

pub IsLow-grown : (f : Option Fence) (dg r s : ℕ) → r ≤ s → IsLow f dg r → IsLow f dg s
IsLow-grown none dg r s le h = tt
IsLow-grown (some f) dg r s le h = (h.0, omega (arith, h.1))

pub known-grown :
    (f : Option Fence) (rr rs dg : ℕ) (ks : List Fetch)
    → rr ≤ rs
    → All (IsKnown f rr dg) ks
    → All (IsKnown f rs dg) ks
known-grown f rr rs dg [] le h = tt
known-grown f rr rs dg (k ∷ ks) le h = (
  record {
    fetched = omega (arith, h.0.fetched);
    begun = h.0.begun;
    superseded = λ p q. omega (arith, h.0.superseded p q);
  },
  known-grown f rr rs dg ks le h.1,
)

pub All-without_number :
    (P : Fetch → Type 0) (n : ℕ) (ks : List Fetch) → All P ks → All P (without_number n ks)
All-without_number P n [] h = tt
All-without_number P n (k ∷ ks) h =
    let rest = All-without_number P n ks h.1 in if-keeps (All P) (k.number == n) rest (h.0, rest)

pub All-without_request :
    (P : Fetch → Type 0) (o : Option ℕ) (ks : List Fetch) → All P ks → All P (without_request o ks)
All-without_request P none ks h = h
All-without_request P (some n) ks h = All-without_number P n ks h

module _ {dg : ℕ} {f : Option Fence} {ks : List Fetch} where
  pub grown : {r rr s rs : ℕ} → r ≤ s → rr ≤ rs → Fenced r rr dg f ks → Fenced s rs dg f ks
  grown {r} {rr} {s} {rs} le more h = record {
    low = IsLow-grown f dg r s le h.low;
    known = known-grown f rr rs dg ks more h.known;
  }

-- What begins now is past the fence.
is_past_fence-now :
    (f : Option Fence) (dg r : ℕ) → IsLow f dg r → is_some f ≡ true → is_past_fence f dg ≡ true
is_past_fence-now none dg r low there = cc
is_past_fence-now (some f) dg r low there = ground arith

pub IsFenced-fetch : (a : Access) → IsFenced a → IsFenced (fetch_latest a)
unfolding fetch_latest emit
IsFenced-fetch a h = if-keeps IsFenced (not a.serves_groups) h (record {
  low = h.low;
  known = (
    record {
      fetched = omega arith;
      begun = omega arith;
      superseded = λ p q.
          absurd
            (cc (p, is_past_fence-now a.departure_fence a.departure_generation a.revision h.low q));
    },
    h.known,
  );
})

pub IsFenced-cancel : (a : Access) → IsFenced a → IsFenced (cancel_request a)
unfolding cancel_request
IsFenced-cancel a h = record {
  low = h.low;
  known = All-without_request _ a.request a.lookups h.known;
}

pub IsFenced-request :
    (n : ℕ) (c : Option Context) (a : Access) → IsFenced a → IsFenced (request_group n c a)
unfolding request_group
IsFenced-request n c a h =
    if-keeps IsFenced a.in_flight (grown (omega arith) (ground arith) h)
      (IsFenced-fetch _ (grown (omega arith) (ground arith) h))

pub IsFenced-quarantine : (c : Context) (a : Access) → IsFenced a → IsFenced (quarantine c a)
unfolding quarantine emit mark_projection_changed
IsFenced-quarantine c a h =
    if-keeps IsFenced (not a.quarantined) h
      (if-keeps IsFenced (not (is_some a.context) && c.selected) h h)

pub IsFenced-remove : (n : ℕ) (a : Access) → IsFenced a → IsFenced (remove n a)
unfolding remove mark_removed emit
IsFenced-remove n a h = grown (omega arith) (ground arith) h

pub IsFenced-supersede : (n : ℕ) (a : Access) → IsFenced a → IsFenced (supersede n a)
unfolding supersede
IsFenced-supersede n a h = if-keeps IsFenced a.in_flight (grown (omega arith) (omega arith) h) h

pub IsFenced-revision :
    (n : ℕ) (a : Access) → a.revision ≤ n → IsFenced a → IsFenced (record a { revision = n })
IsFenced-revision n a le h = grown le (omega arith) h

pub IsFenced-accept : (n : ℕ) (a : Access) → IsFenced a → IsFenced (accept_projection n a).0
unfolding accept_projection raise_revision lift_removal mark_projection_changed
IsFenced-accept n a h =
    let raised =
      if-cases IsFenced (ltb a.revision n)
        (λ newer.
          IsFenced-supersede n (record a { revision = n }) (IsFenced-revision n a (ground arith) h))
        (λ _. h) in
    if-keeps (λ (x : Access × Bool). IsFenced x.0)
      (ltb n a.revision || is_removed_at a.removed_revision n) h (if-keeps IsFenced _ raised raised)

pub IsFenced-authorizes : (n : ℕ) (a : Access) → IsFenced a → IsFenced (mark_authorized n a)
unfolding mark_authorized mark_projection_changed
IsFenced-authorizes n a h =
    if-cases IsFenced (ltb a.revision n) (λ newer. IsFenced-revision n a (ground arith) h) (λ _. h)

pub IsFenced-definitive : (n : ℕ) (a : Access) → IsFenced a → IsFenced (definitive_removal n a)
unfolding definitive_removal
IsFenced-definitive n a h =
    if-keeps IsFenced (is_removed_at a.removed_revision (max n a.revision) && not a.quarantined) h
      (IsFenced-remove n _ (IsFenced-cancel a h))

pub IsFenced-created : (c : Context) (a : Access) → IsFenced a → IsFenced (conversation_created c a)
unfolding conversation_created
IsFenced-created c a h = IsFenced-request _ (some c) a h

pub IsFenced-waits :
    (c : Context) (a : Access) → IsFenced a → IsFenced (quarantine_for_verification c a)
unfolding quarantine_for_verification
IsFenced-waits c a h =
    if-keeps IsFenced (not a.quarantined) (IsFenced-quarantine c a h)
      (if-keeps IsFenced (not (is_some a.context) && c.selected) h h)

pub IsFenced-verifies : (c : Context) (a : Access) → IsFenced a → IsFenced (verify_quarantined c a)
unfolding verify_quarantined
IsFenced-verifies c a h =
    let b = IsFenced-waits c a h in
    if-keeps IsFenced (not (quarantine_for_verification c a).in_flight)
      (IsFenced-request _ (some c) _ b) b

pub IsFenced-retries : (a : Access) → IsFenced a → IsFenced (retry_one a)
unfolding retry_one
IsFenced-retries a h =
    if-keeps IsFenced ((a.quarantined || removal_observed a.departure) && not a.in_flight)
      (IsFenced-request _ none a h) h

pub IsFenced-finish_departure : (a : Access) → IsFenced a → IsFenced (finish_departure a)
unfolding finish_departure emit
IsFenced-finish_departure a h = h

pub IsFenced-forget : (n : ℕ) (a : Access) → IsFenced a → IsFenced (forget_removal n a)
unfolding forget_removal
IsFenced-forget n a h = if-keeps IsFenced (not (is_removed_at a.removed_revision n)) h h

pub IsFenced-changes :
    (n : ℕ) (deleted : Bool) (c : Context) (a : Access)
    → IsFenced a
    → IsFenced (membership_changed n deleted c a)
unfolding membership_changed mark_projection_changed
IsFenced-changes n deleted c a h =
    if-cases IsFenced (leb n (max a.revision c.projection_revision)) (λ _. h)
      λ newer.
        let s =
          IsFenced-supersede n (record a { revision = n })
            (IsFenced-revision n a (ground arith) h) in
        if-keeps IsFenced deleted (IsFenced-remove n _ (IsFenced-cancel _ s))
          (IsFenced-request n none _ (IsFenced-quarantine c _ (IsFenced-forget n _ s)))
