-- ===== src/Bridge/Trace/Rotation.antt =====
-- app/engine/bridge.py, `Tracer._rotate`: where the files of a trace go.
use ser2net.Common.{
  ℕ, zero, suc, ◌+◌, ◌≤◌, ◌<◌, ◌≡◌, refl, ap, ◌∙◌, ◌≢◌, inl, inr, Option, none, some, List, [],
  arith, ◌==◌, Bool-cases, Option-cases, length,
}
use ser2net.Bridge.Trace.{Files, set_file, shift_one, shift_all, open_append, rotate}

shift_one-some :
    (files : Files) (i : ℕ) (c : List ℕ)
    → files i ≡ some c
    → shift_one files i ≡ set_file (set_file files (i + 1) (some c)) i none
unfolding shift_one
shift_one-some files i c h = rw (h, shift_one)

shift_one-none : (files : Files) (i : ℕ) → files i ≡ none → shift_one files i ≡ files
unfolding shift_one
shift_one-none files i h = rw (h, shift_one)

-- A file that is neither the source nor the target stays.
shift_one-other : (files : Files) (i j : ℕ) → j ≢ i → j ≢ i + 1 → shift_one files i j ≡ files j
shift_one-other files i j ne ne' = elim (Option-cases (files i)) [
  | inl absent ↦ rw (shift_one-none files i absent)
  | inr (c, found) ↦ rw (shift_one-some files i c found) (ground arith)
]

shift_one-source : (files : Files) (i : ℕ) → shift_one files i i ≡ none
shift_one-source files i = elim (Option-cases (files i)) [
  | inl absent ↦ rw (shift_one-none files i absent) absent
  | inr (c, found) ↦ rw (shift_one-some files i c found) (ground arith)
]

shift_one-target :
    (files : Files) (i : ℕ) (c : List ℕ) → files i ≡ some c → shift_one files i (i + 1) ≡ some c
shift_one-target files i c found = rw (shift_one-some files i c found) (ground arith)

shift_all-suc : (n : ℕ) (files : Files) → shift_all files (suc n) ≡ shift_all (shift_one files n) n
unfolding shift_all
shift_all-suc n files = refl

shift_all-above : (n : ℕ) (files : Files) (j : ℕ) → n < j → shift_all files n j ≡ files j
unfolding shift_all
shift_all-above zero files j h = refl
shift_all-above (suc n) files j h =
    shift_all-above n (shift_one files n) j (omega arith)
    ∙ shift_one-other files n j (λ e. omega arith) (λ e. omega arith)

shift_all-next :
    (n : ℕ) (files : Files) (i : ℕ) (c : List ℕ)
    → i < n
    → files i ≡ some c
    → shift_all files n (i + 1) ≡ some c
shift_all-next zero files i c h found = absurd (omega arith)
shift_all-next (suc n) files i c h found = elim (Bool-cases (i == n)) [
  | inl same ↦
      let e : i ≡ n = ground arith in
      ap (λ (f : Files). f (i + 1)) (shift_all-suc n files)
      ∙ shift_all-above n (shift_one files n) (i + 1) (omega arith)
      ∙ rw e (shift_one-target files n c (rw e at found))
  | inr other ↦
      let lt : i < n = ground arith in
      let still = shift_one-other files n i (λ e. omega arith) (λ e. omega arith) ∙ found in
      ap (λ (f : Files). f (i + 1)) (shift_all-suc n files)
      ∙ shift_all-next n (shift_one files n) i c lt still
]

shift_all-first : (n : ℕ) (files : Files) → 1 ≤ n → shift_all files n 0 ≡ none
unfolding shift_all
shift_all-first zero files h = absurd (omega arith)
shift_all-first (suc zero) files h = shift_one-source files 0
shift_all-first (suc (suc n)) files h =
    shift_all-first (suc n) (shift_one files (suc n)) (omega arith)

open_append-none : (files : Files) → files 0 ≡ none → open_append files ≡ set_file files 0 (some [])
open_append-none files h = rw (h, open_append)

rotate_lem :
    (keep : ℕ) (files : Files)
    → rotate (suc keep) files ≡ set_file (shift_all files (suc keep)) 0 (some [])
unfolding rotate
rotate_lem keep files =
    open_append-none (shift_all files (suc keep)) (shift_all-first (suc keep) files (omega arith))

-- Rotation with at least one old file kept starts an empty trace file, and every file up to the
-- number kept moves one place up, the trace file itself to place one.
pub rotate-shifts :
    (keep : ℕ) (files : Files)
    → 1 ≤ keep
    → (rotate keep files 0 ≡ some [])
      × ((i : ℕ) (c : List ℕ) → i < keep → files i ≡ some c → rotate keep files (i + 1) ≡ some c)
rotate-shifts zero files h = absurd (omega arith)
rotate-shifts (suc keep) files h = (
  rw (rotate_lem keep files),
  λ i c lt found.
      rw (rotate_lem keep files) (ground (arith, shift_all-next (suc keep) files i c lt found)),
)

-- Every file is smaller than a bound.
abbrev pub AllSmall : ℕ → Files → Type 0
AllSmall bound files = (i : ℕ) (c : List ℕ) → files i ≡ some c → length c < bound

pub set_file-AllSmall :
    (bound : ℕ) (files : Files) (i : ℕ) (new : Option (List ℕ))
    → ((c : List ℕ) → new ≡ some c → length c < bound)
    → AllSmall bound files
    → AllSmall bound (set_file files i new)
set_file-AllSmall bound files i new small all j c found = elim (Bool-cases (j == i)) [
  | inl same ↦ small c (ground arith)
  | inr other ↦ all j c (ground arith)
]

shift_one-AllSmall :
    (bound : ℕ) (files : Files) (i : ℕ) → AllSmall bound files → AllSmall bound (shift_one files i)
shift_one-AllSmall bound files i all = elim (Option-cases (files i)) [
  | inl absent ↦ rw (shift_one-none files i absent) all
  | inr (c, found) ↦ rw (shift_one-some files i c found) (
      set_file-AllSmall bound (set_file files (i + 1) (some c)) i none (λ d e. cc)
        (set_file-AllSmall bound files (i + 1) (some c) (λ d e. all i d (found ∙ e)) all))
]

shift_all-AllSmall :
    (bound n : ℕ) (files : Files) → AllSmall bound files → AllSmall bound (shift_all files n)
unfolding shift_all
shift_all-AllSmall bound zero files all = all
shift_all-AllSmall bound (suc n) files all =
    shift_all-AllSmall bound n (shift_one files n) (shift_one-AllSmall bound files n all)

pub rotate_zero : (files : Files) → rotate 0 files ≡ set_file files 0 (some [])
unfolding rotate
rotate_zero files = refl

empty_small : (bound : ℕ) → 1 ≤ bound → (c : List ℕ) → some [] ≡ some c → length c < bound
empty_small bound h c e = let same : [] ≡ c = cc in rw (← same) h

pub rotate-AllSmall :
    (bound keep : ℕ) (files : Files)
    → 1 ≤ bound
    → AllSmall bound files
    → AllSmall bound (rotate keep files)
rotate-AllSmall bound zero files h all =
    rw (rotate_zero files) (set_file-AllSmall bound files 0 (some []) (empty_small bound h) all)
rotate-AllSmall bound (suc keep) files h all = rw (rotate_lem keep files) (
    set_file-AllSmall bound (shift_all files (suc keep)) 0 (some []) (empty_small bound h)
      (shift_all-AllSmall bound (suc keep) files all))
