-- ===== src/Session/Retry/Finished.antt =====
-- The retry of a pending logout, of auth/auth.service.ts, from its request to its end.
use zwei.Common.{◌≡◌, refl, ap, ◌∙◌, ◌⊎◌, inl, inr, true, false, Option, none, some, arith}
use zwei.Js.Text.{text_eq_refl, is_empty}
use zwei.Session.Stored.{
  Binding, PendingLogout, parse_binding, parse_pending_logout, pending_json, same_binding,
  same_pending, is_receipt,
}
use zwei.Session.{Auth, read_binding, pending_logout}
use zwei.Session.Logout.{
  done, posts_retry, remove_owned_binding, clear_pending_logout, retry_answered,
  retry_pending_logout,
}

-- A pending logout as the service makes it: no part is empty, and the receipt has its form.
pub record IsWhole (p : PendingLogout) : Type 0 where
  pub subject : is_empty p.binding.subject ≡ false
  pub browser_id : is_empty p.binding.browser_id ≡ false
  pub generation : is_empty p.binding.generation ≡ false
  pub receipt : is_receipt p.receipt ≡ true

same_binding_refl : (b : Binding) → same_binding (some b) (some b) ≡ true
unfolding same_binding
same_binding_refl b =
    rw (text_eq_refl b.subject, text_eq_refl b.browser_id, text_eq_refl b.generation)

same_pending_refl : (p : PendingLogout) → same_pending (some p) (some p) ≡ true
unfolding same_pending
same_pending_refl p = rw (same_binding_refl p.binding, text_eq_refl p.receipt)

-- What is written is read again.
pub parse_pending_logout-pending_json :
    (p : PendingLogout) → IsWhole p → parse_pending_logout (some (pending_json p)) ≡ some p
unfolding parse_pending_logout parse_binding
parse_pending_logout-pending_json p w = rw (w.subject, w.browser_id, w.generation, w.receipt)

-- Nothing else is stored than this binding.
abbrev pub IsFree : Binding → Auth → Type 0
IsFree b s =
    (parse_binding s.intended ≡ none) ⊎ (same_binding (parse_binding s.intended) (some b) ≡ true)

-- The binding is gone, or there was none.
pub record IsRemoved (s t : Auth) : Type 0 where
  pub gone : parse_binding t.intended ≡ none
  pub pending : t.pending ≡ s.pending
  pub reads : t.reads ≡ true
  pub writes : t.writes ≡ true

parse_binding-none : parse_binding none ≡ none
unfolding parse_binding
parse_binding-none = refl

same_binding-none : (o : Option Binding) → same_binding none o ≡ false
unfolding same_binding
same_binding-none o = refl

pub remove_owned-IsRemoved :
    (b : Binding) (s : Auth)
    → s.reads ≡ true
    → s.writes ≡ true
    → IsFree b s
    → ((remove_owned_binding (some b) s).1 ≡ true) × IsRemoved s (remove_owned_binding (some b) s).0
unfolding remove_owned_binding
remove_owned-IsRemoved b s r w (inl e) = ground (arith, e, same_binding-none (some b))
remove_owned-IsRemoved b s r w (inr e) = ground (arith, e, parse_binding-none)

-- A pending logout that is in the storage, in a browser whose storage works.
pub record IsKept (p : PendingLogout) (s : Auth) : Type 0 where
  pub pending : parse_pending_logout s.pending ≡ some p
  pub reads : s.reads ≡ true
  pub writes : s.writes ≡ true

kept_same :
    (p : PendingLogout) (s : Auth)
    → IsKept p s
    → same_pending (parse_pending_logout s.pending) (some p) ≡ true
kept_same p s k = ap (λ o. same_pending o (some p)) k.pending ∙ same_pending_refl p

clear-IsDone :
    (p : PendingLogout) (s : Auth)
    → IsKept p s
    → ((clear_pending_logout p s).1 ≡ true)
      × ((clear_pending_logout p s).0 ≡ record s { pending = none })
unfolding clear_pending_logout
clear-IsDone p s k =
    ground (arith, ap (λ o. same_pending o (some p)) k.pending ∙ same_pending_refl p)

retry_pending-posts :
    (p : PendingLogout) (s : Auth)
    → IsKept p s
    → IsFree p.binding s
    → retry_pending_logout s ≡ posts_retry p
unfolding retry_pending_logout read_binding
retry_pending-posts p s k (inl e) = ground (arith, k.pending, e)
retry_pending-posts p s k (inr e) = ground (arith, k.pending, e)

retry_answered-done :
    (p : PendingLogout) (s : Auth)
    → IsKept p s
    → IsFree p.binding s
    → retry_answered p s
      ≡ (record (remove_owned_binding (some p.binding) s).0 { pending = none }, done)
unfolding retry_answered
retry_answered-done p s k f =
    let (removed, r) = remove_owned-IsRemoved p.binding s k.reads k.writes f in
    let (c, d) = clear-IsDone p (remove_owned_binding (some p.binding) s).0 (record {
      pending = ap parse_pending_logout r.pending ∙ k.pending;
      reads = r.reads;
      writes = r.writes;
    }) in
    ground (arith, kept_same p s k, removed, c, d)

-- A retry that the server confirms leaves neither the pending item nor the binding.
pub retry_finishes :
    (p : PendingLogout) (s : Auth)
    → IsKept p s
    → IsFree p.binding s
    → (retry_pending_logout s ≡ posts_retry p)
      × ((retry_answered p s).1 ≡ done)
      × (pending_logout (retry_answered p s).0 ≡ false)
      × (read_binding (retry_answered p s).0 ≡ none)
unfolding pending_logout read_binding
retry_finishes p s k f =
    let e = retry_answered-done p s k f in
    let (removed, r) = remove_owned-IsRemoved p.binding s k.reads k.writes f in
    (
      retry_pending-posts p s k f,
      ap (λ x. x.1) e,
      ground (arith, e, r.reads),
      ground (arith, e, r.gone),
    )
