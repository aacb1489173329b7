-- ===== src/GroupAccess/Listing/Shown.antt =====
-- What `projectConversationList` of home/home-group-access-facade.service.ts shows of a group.
use zwei.Common.{
  ℕ, ◌≡◌, ◌≤◌, refl, Bool, true, false, not, ◌&&◌, Option, none, some, arith, leb, if◌then◌else◌,
  ◌⊎◌, inl, inr, if-cases, ◌∙◌,
}
use zwei.Wire.Groups.{GroupConversation}
use zwei.GroupAccess.{
  Access, mark_projection_changed, is_removed_at, is_fenced, emit, supersede, raise_revision,
  lift_removal, accept_projection,
}
use zwei.GroupAccess.Lookup.{departs_below}
use zwei.GroupAccess.Listing.{restore_listed, project_group}

-- What the list may show of a group: its own item, which no removal, departure or later revision that is
-- known overrules, and, if the group was quarantined, no fence either; or what was shown before.
abbrev pub IsShown :
    Option GroupConversation
    → GroupConversation
    → Access
    → Access × Option GroupConversation
    → Type 0
IsShown existing g a (b, none) = Unit
IsShown existing g a (b, some h) =
    (b.quarantined ≡ false)
    × (((h ≡ g)
          × (b.revision ≡ g.membership_revision)
          × (a.revision ≤ g.membership_revision)
          × (is_removed_at a.removed_revision g.membership_revision ≡ false)
          × (departs_below a.departure g.membership_revision ≡ false)
          × ((a.quarantined && is_fenced a) ≡ false))
        ⊎ ((existing ≡ some h) × (a.quarantined ≡ false)))

-- A projection that is accepted leaves what is quarantined, and is at the revision that it leaves,
-- which no removal or later revision overrules.
accepted_at :
    (n : ℕ) (a : Access)
    → ((accept_projection n a).0.quarantined ≡ a.quarantined)
      × ((accept_projection n a).1 ≡ true
          → ((accept_projection n a).0.revision ≡ n)
            × (a.revision ≤ n)
            × (is_removed_at a.removed_revision n ≡ false))
unfolding accept_projection raise_revision lift_removal supersede mark_projection_changed
accepted_at n a = ground arith

IsShown-existing :
    (existing : Option GroupConversation) (g : GroupConversation) (a b : Access) (kept : Bool)
    → b.quarantined ≡ false
    → a.quarantined ≡ false
    → IsShown existing g a (b, if kept then existing else none)
IsShown-existing existing g a b false free was = tt
IsShown-existing none g a b true free was = tt
IsShown-existing (some h) g a b true free was = (free, inr (refl, was))

-- Whatever is known of a group, the round of `projectConversationList` for it leaves a group that it
-- shows unquarantined. It shows the item of the list only if a removal, the revision known and a
-- departure under way all allow its revision, and, for a group that was quarantined, only if no
-- fence holds it back; the group is known at that revision then. All else that it may show is what
-- was shown before, of a group that was not quarantined.
pub project_group-IsShown :
    (existing : Option GroupConversation) (g : GroupConversation) (a : Access)
    → IsShown existing g a (project_group existing g a)
unfolding project_group restore_listed emit mark_projection_changed
project_group-IsShown existing g a =
    if-cases (IsShown existing g a) (departs_below a.departure g.membership_revision) (λ _. tt)
      λ stays.
        if-cases (IsShown existing g a)
          (a.quarantined
            && not (is_fenced a)
            && leb a.revision g.membership_revision
            && not (is_removed_at a.removed_revision g.membership_revision))
          (λ fits. (
            refl,
            inl (
              refl,
              refl,
              ground (arith, fits),
              ground (arith, fits),
              stays,
              ground (arith, fits),
            ),
          ))
          λ _.
            if-cases (IsShown existing g a) a.quarantined (λ _. tt)
              λ free.
                let at = accepted_at g.membership_revision a in
                if-cases (IsShown existing g a) (accept_projection g.membership_revision a).1
                  (λ accepted.
                    let (here, known, kept) = at.1 accepted in
                    (at.0 ∙ free, inl (refl, here, known, kept, stays, rw free refl)))
                  (λ _.
                    IsShown-existing existing g a (accept_projection g.membership_revision a).0 _
                      (at.0 ∙ free) free)
