-- ===== src/Ice/Generations/Sections.antt =====
-- What `iceGenerations` of home/group-ice-generation.ts returns.
use zwei.Common.{
  drop, ℕ, ◌+◌, ◌≤◌, ◌<◌, ◌≡◌, refl, ◌∙◌, Bool, true, false, Option, List, [], ◌∷◌, ◌++◌, arith,
  if◌then◌else◌, length, All,
}
use zwei.Js.Text.{trim, Text, is_empty}
use zwei.Ice.Generations.{
  LineKind, section, section_ufrag, section_password, section_mid, read_as, new_media, with_mid,
  with_ufrag, with_password, nothing_read, Generation, Media, Reading, update_last, read_line,
  read_lines, split_lines, generation, generations_of_section, generations_of, ice_generations,
}

-- Sections carry their positions, counted from `k`.
abbrev AreIndexed : ℕ → List Media → Type 0
AreIndexed k [] = Unit
AreIndexed k (m ∷ ms) = (m.index ≡ k) × AreIndexed (k + 1) ms

AreIndexed-snoc :
    (k : ℕ) (ms : List Media) (m : Media)
    → AreIndexed k ms
    → m.index ≡ k + length ms
    → AreIndexed k (ms ++ m ∷ [])
AreIndexed-snoc k [] m h e = (omega arith, tt)
AreIndexed-snoc k (n ∷ ms) m h e = (h.0, AreIndexed-snoc (k + 1) ms m h.1 (omega arith))

AreIndexed-update_last :
    (f : Media → Media)
    → ((m : Media) → (f m).index ≡ m.index)
    → (k : ℕ) (ms : List Media) → AreIndexed k ms
    → AreIndexed k (update_last f ms)
unfolding update_last
AreIndexed-update_last f same k [] h = tt
AreIndexed-update_last f same k (m ∷ []) h = (same m ∙ h.0, tt)
AreIndexed-update_last f same k (m ∷ n ∷ ms) h =
    (h.0, AreIndexed-update_last f same (k + 1) (n ∷ ms) h.1)

record HasSections (r : Reading) : Type 0 where
  indexed : AreIndexed 0 r.media

HasSections-read_as :
    (k : LineKind) (r : Reading) (line : Text) → HasSections r → HasSections (read_as k r line)
unfolding read_as
HasSections-read_as section r line h = record {
  indexed = AreIndexed-snoc 0 r.media (new_media (length r.media)) h.indexed (omega arith);
}
HasSections-read_as section_ufrag r line h = record {
  indexed =
      AreIndexed-update_last (with_ufrag (trim (drop 12 line))) (λ m. refl) 0 r.media h.indexed;
}
HasSections-read_as section_password r line h = record {
  indexed =
      AreIndexed-update_last (with_password (trim (drop 10 line))) (λ m. refl) 0 r.media h.indexed;
}
HasSections-read_as section_mid r line h = record {
  indexed = AreIndexed-update_last (with_mid (trim (drop 6 line))) (λ m. refl) 0 r.media h.indexed;
}
HasSections-read_as _ r line h = record { indexed = h.indexed }

HasSections-read_line : (r : Reading) (line : Text) → HasSections r → HasSections (read_line r line)
unfolding read_line
HasSections-read_line r line h = HasSections-read_as _ r line h

HasSections-read_lines :
    (r : Reading) (lines : List Text) → HasSections r → HasSections (read_lines r lines)
unfolding read_lines
HasSections-read_lines r [] h = h
HasSections-read_lines r (line ∷ lines) h =
    HasSections-read_lines (read_line r line) lines (HasSections-read_line r line h)

-- A generation that can be matched: of one of `n` sections, and with nothing empty.
pub record IsGeneration (n : ℕ) (g : Generation) : Type 0 where
  pub in_range : g.index < n
  pub has_mid : is_empty g.mid ≡ false
  pub has_ufrag : is_empty g.ufrag ≡ false
  pub has_password : is_empty g.password ≡ false

generation-IsGeneration :
    (n : ℕ) (mid : Option Text) (index : ℕ) (ufrag password : Option Text)
    → index < n
    → All (IsGeneration n) (generation mid index ufrag password)
unfolding generation
generation-IsGeneration n mid index ufrag password h = ground arith

All-append :
    (P : Generation → Type 0) (xs ys : List Generation) → All P xs → All P ys → All P (xs ++ ys)
All-append P [] ys hx hy = hy
All-append P (x ∷ xs) ys hx hy = (hx.0, All-append P xs ys hx.1 hy)

All-if :
    (n : ℕ) (b : Bool) (xs : List Generation)
    → All (IsGeneration n) xs
    → All (IsGeneration n) (if b then xs else [])
All-if n true xs h = h
All-if n false xs h = tt

generations_of_section-IsGeneration :
    (n : ℕ) (r : Reading) (m : Media)
    → m.index < n
    → All (IsGeneration n) (generations_of_section r m)
unfolding generations_of_section
generations_of_section-IsGeneration n r m h =
    All-append (IsGeneration n) _ _ (generation-IsGeneration n m.mid m.index _ _ h)
      (All-if n _ _ (generation-IsGeneration n m.mid m.index _ _ h))

generations_of-IsGeneration :
    (n k : ℕ) (r : Reading) (ms : List Media)
    → AreIndexed k ms
    → k + length ms ≤ n
    → All (IsGeneration n) (generations_of r ms)
unfolding generations_of
generations_of-IsGeneration n k r [] h le = tt
generations_of-IsGeneration n k r (m ∷ ms) h le =
    All-append (IsGeneration n) (generations_of_section r m) (generations_of r ms)
      (generations_of_section-IsGeneration n r m (omega (arith, h.0)))
      (generations_of-IsGeneration n (k + 1) r ms h.1 (omega arith))

abbrev pub sections : Text → List Media
sections sdp = (read_lines nothing_read (split_lines sdp)).media

-- Whatever the SDP text, each generation read from it has a mid, a username fragment and a password
-- that are not empty, and the index of one of the `m=` sections of the text.
pub ice_generations-IsGeneration :
    (sdp : Text) → All (IsGeneration (length (sections sdp))) (ice_generations sdp)
unfolding ice_generations
ice_generations-IsGeneration sdp =
    generations_of-IsGeneration (length (sections sdp)) 0
      (read_lines nothing_read (split_lines sdp)) (sections sdp)
      (HasSections-read_lines nothing_read (split_lines sdp) (record { indexed = tt })).indexed
      (omega arith)
