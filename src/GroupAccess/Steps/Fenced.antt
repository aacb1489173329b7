-- ===== src/GroupAccess/Steps/Fenced.antt =====
-- A lookup of home/home-group-access-facade.service.ts that began before a departure which has ended well.
use zwei.Common.{
  ◌⊎◌, ℕ, ◌<◌, ◌≤◌, ◌≡◌, refl, Bool, true, false, not, ◌&&◌, ◌||◌, Option, none, some, List, [],
  ◌∷◌, arith, ltb, ◌==◌, if◌then◌else◌, max, is_some, All, if-keeps, if-cases, inl, inr, subst,
}
use zwei.Js.Text.{Text, text_eq}
use zwei.Wire.Groups.{GroupConversation}
use zwei.GroupAccess.{
  Access, Fetch, Fence, Leaving, emit, mark_projection_changed, is_removed_at, fetch_latest,
  quarantine, mark_removed, remove, finish_departure, is_fenced, or_context,
}
use zwei.GroupAccess.Lookup.{
  superseded_projection, unfit_projection, received, finish_lookup, lookup_next, quarantine_leaving,
  is_behind_fence, is_past_fence,
}
use zwei.GroupAccess.Lookup.Cases.{received-cases}
use zwei.GroupAccess.Steps.{Action, answers, find_lookup, perform, run}
use zwei.GroupAccess.{AccessOutcome, new_access, authorized}
use zwei.GroupAccess.Steps.Fences.{IsLow, IsFenced, run-IsFenced, new_access-IsFenced}

-- The groups that outcomes restore, the last first.
abbrev pub restorations : List AccessOutcome → List GroupConversation
restorations [] = []
restorations (authorized g _ _ ∷ r) = g ∷ restorations r
restorations (_ ∷ r) = restorations r

-- A lookup began before the departure of the fence.
abbrev pub IsStale : Fetch → Access → Type 0
IsStale k a =
    (is_some a.departure_fence ≡ true)
    × (is_past_fence a.departure_fence k.departure_generation ≡ false)

-- It is held back from every revision that the group has reached.
is_behind_fence-low :
    (f : Option Fence) (dg r kg v : ℕ)
    → IsLow f dg r
    → is_some f ≡ true
    → is_past_fence f kg ≡ false
    → r ≤ v
    → is_behind_fence f kg v ≡ true
is_behind_fence-low none dg r kg v low there stale le = cc
is_behind_fence-low (some f) dg r kg v low there stale le = ground arith

pub is_behind_fence-stale :
    (f : Option Fence) (kg v : ℕ)
    → is_behind_fence f kg v ≡ true
    → (is_some f ≡ true) × (is_past_fence f kg ≡ false)
is_behind_fence-stale none kg v behind = cc
is_behind_fence-stale (some f) kg v behind = (refl, ground arith)

-- These have been restored.
record Restores (gs : List GroupConversation) (a : Access) : Type 0 where
  groups : restorations a.outcomes ≡ gs

module _ {gs : List GroupConversation} where
  Restores-quarantine_leaving :
      (d : Option Leaving) (a : Access) → Restores gs a → Restores gs (quarantine_leaving d a)
  unfolding quarantine_leaving quarantine emit mark_projection_changed
  Restores-quarantine_leaving none a h = h
  Restores-quarantine_leaving (some d) a h =
      if-keeps (Restores gs) (not a.quarantined) (record { groups = h.groups })
        (if-keeps (Restores gs)
          (not (is_some a.context) && (or_context a.context d.context).selected)
          (record { groups = h.groups }) h)

  Restores-fetch : (a : Access) → Restores gs a → Restores gs (fetch_latest a)
  unfolding fetch_latest emit
  Restores-fetch a h =
      if-keeps (Restores gs) (not a.serves_groups) (record { groups = h.groups })
        (record { groups = h.groups })

  Restores-finish_lookup :
      (k : Fetch) (x : Access × Bool) → Restores gs x.0 → Restores gs (finish_lookup k x)
  unfolding finish_lookup
  Restores-finish_lookup k (b, again) h =
      if-keeps (Restores gs) (again && not (is_some b.removed_revision && not b.quarantined))
        (Restores-fetch _ (record { groups = h.groups })) (record { groups = h.groups })

module _ (k : Fetch) (g : GroupConversation) (a : Access) (inv : IsFenced a)
    (stale : IsStale k a) where
  held_back :
      a.revision ≤ g.membership_revision
      → is_behind_fence a.departure_fence k.departure_generation g.membership_revision ≡ true
  held_back =
      is_behind_fence-low a.departure_fence a.departure_generation a.revision k.departure_generation
        g.membership_revision inv.low stale.0 stale.1

  Restores-unfit :
      {gs : List GroupConversation} → Restores gs a → Restores gs (unfit_projection k g a).0
  unfolding unfit_projection superseded_projection emit
  Restores-unfit {gs} h =
      let b =
        if-cases (Restores gs)
          (text_eq g.id a.group_id
            && ltb a.revision g.membership_revision
            && not (k.fetch_revision == a.request_revision)
            && not (is_removed_at a.removed_revision g.membership_revision))
          (λ newer.
            if-cases (Restores gs)
              (is_fenced a
                || is_behind_fence a.departure_fence k.departure_generation g.membership_revision)
              (λ _. record { groups = h.groups })
              (λ free. absurd (ground (arith, held_back (ground arith)))))
          (λ _. h) in
      if-keeps (λ (x : Access × Bool). Restores gs x.0) _ b
        (if-keeps (λ (x : Access × Bool). Restores gs x.0)
          (not (k.fetch_revision == a.request_revision)) b (record { groups = b.groups }))

  Restores-received : {gs : List GroupConversation} → Restores gs a → Restores gs (received k g a).0
  unfolding finish_departure remove mark_removed emit
  Restores-received {gs} h =
      received-cases k g a (λ (x : Access × Bool). Restores gs x.0)
        (λ _.
          Restores-quarantine_leaving a.departure
            (record a { revision = max a.revision g.membership_revision })
            (record { groups = h.groups }))
        (λ _. record { groups = h.groups }) (λ _. record { groups = h.groups })
        (λ _. record { groups = h.groups }) (λ _. Restores-unfit h)
        (λ _ _. record { groups = h.groups })
        (λ free fit. absurd (ground (arith, held_back (ground arith))))

found-head :
    (b : Bool) (l k : Fetch) (rest : Option Fetch)
    → (if b then some l else rest) ≡ some k
    → (l ≡ k) ⊎ (rest ≡ some k)
found-head true l k rest e = inl (cc e)
found-head false l k rest e = inr e

All-find :
    (P : Fetch → Type 0) (n : ℕ) (ks : List Fetch) (k : Fetch)
    → All P ks
    → find_lookup n ks ≡ some k
    → P k
All-find P n [] k h e = cc
All-find P n (l ∷ ks) k h e = elim (found-head (l.number == n) l k (find_lookup n ks) e) [
  | inl found ↦ subst P found h.0
  | inr later ↦ All-find P n ks k h.1 later
]

received-stale :
    (k : Fetch) (g : GroupConversation) (a : Access)
    → a.departure ≡ none
    → text_eq g.id a.group_id ≡ true
    → is_behind_fence a.departure_fence k.departure_generation g.membership_revision ≡ true
    → received k g a ≡ (
      record a {
        revision = max a.revision g.membership_revision;
        quarantined = true;
        failed = false;
      },
      not (k.fetch_revision == a.request_revision),
    )
unfolding received
received-stale k g a free same behind = rw (free, same, behind)

repeated :
    (k : Fetch) (g : GroupConversation) (a : Access)
    → a.departure ≡ none
    → text_eq g.id a.group_id ≡ true
    → is_behind_fence a.departure_fence k.departure_generation g.membership_revision ≡ true
    → k.fetch_revision < a.request_revision
    → ((lookup_next k g a).quarantined ≡ true) × ((lookup_next k g a).in_flight ≡ a.serves_groups)
unfolding lookup_next finish_lookup fetch_latest emit
repeated k g a free same behind lt =
    let late : (k.fetch_revision == a.request_revision) ≡ false = ground arith in
    rw (received-stale k g a free same behind, late) (ground arith)

-- Whatever has happened, the projection that a lookup brings which has not ended, but which began before
-- the departure of the fence, restores no group.
pub stale_lookup_restores_nothing :
    (id : Text) (xs : List Action) (n : ℕ) (g : GroupConversation) (k : Fetch)
    → find_lookup n (run xs (new_access id)).lookups ≡ some k
    → IsStale k (run xs (new_access id))
    → restorations (perform (answers n g) (run xs (new_access id))).outcomes
      ≡ restorations (run xs (new_access id)).outcomes
unfolding perform lookup_next
stale_lookup_restores_nothing id xs n g k found stale =
    let a = run xs (new_access id) in
    let inv = run-IsFenced xs (new_access id) (new_access-IsFenced id) in
    rw found
      (Restores-finish_lookup k (received k g a)
        (Restores-received k g a inv stale (record { groups = refl }))).groups

-- Whatever has happened, if no departure is pending and a lookup that has not ended began before the
-- departure of the fence, its projection of this group, at a revision above that of the departure, leaves
-- the group quarantined, and a new lookup is under way wherever `getGroup` is a function.
pub stale_lookup_is_repeated :
    (id : Text) (xs : List Action) (n : ℕ) (g : GroupConversation) (k : Fetch)
    → find_lookup n (run xs (new_access id)).lookups ≡ some k
    → (run xs (new_access id)).departure ≡ none
    → text_eq g.id (run xs (new_access id)).group_id ≡ true
    → is_behind_fence
        (run xs (new_access id)).departure_fence
        k.departure_generation
        g.membership_revision
      ≡ true
    → ((perform (answers n g) (run xs (new_access id))).quarantined ≡ true)
      × ((perform (answers n g) (run xs (new_access id))).in_flight
          ≡ (run xs (new_access id)).serves_groups)
unfolding perform lookup_next
stale_lookup_is_repeated id xs n g k found free same behind =
    let a = run xs (new_access id) in
    let inv = run-IsFenced xs (new_access id) (new_access-IsFenced id) in
    let known = All-find _ n a.lookups k inv.known found in
    let fence =
      is_behind_fence-stale a.departure_fence k.departure_generation g.membership_revision behind in
    rw found (repeated k g a free same behind (known.superseded fence.1 fence.0))
