-- ===== src/Bridge/Trace/Sizes.antt =====
-- app/engine/bridge.py, `Tracer._append`: the sizes of the files of a trace.
use ser2net.Common.{
  ℕ, zero, suc, ◌+◌, ◌≤◌, ◌<◌, ◌≡◌, ◌∙◌, inl, inr, some, List, [], ◌∷◌, ◌++◌, arith, leb, if-elim,
  Option-cases, length, All, length-append,
}
use ser2net.Bridge.Trace.{Files, set_file, rotate, write_file, flush, append_lines, size_of, append}
use ser2net.Bridge.Trace.Rotation.{
  AllSmall, set_file-AllSmall, rotate_zero, rotate-AllSmall, rotate-shifts,
}

size_of-some : (files : Files) (c : List ℕ) → files 0 ≡ some c → size_of files ≡ length c
size_of-some files c h = rw (h, size_of)

-- What a write leaves in the trace file.
write_file_lem :
    (files : Files) (new : List ℕ)
    → (c : List ℕ) × (write_file files new ≡ set_file files 0 (some c))
      × (length c ≡ size_of files + length new)
unfolding write_file
write_file_lem files new = elim (Option-cases (files 0)) [
  | inl absent ↦ (
    new,
    rw (absent, write_file),
    let e : size_of files ≡ 0 = rw (absent, size_of) in omega arith,
  )
  | inr (old, found) ↦ (
    old ++ new,
    rw (found, write_file),
    omega (arith, size_of-some files old found, length-append old new),
  )
]

write_file-AllSmall :
    (bound : ℕ) (files : Files) (new : List ℕ)
    → size_of files + length new < bound
    → AllSmall bound files
    → AllSmall bound (write_file files new)
write_file-AllSmall bound files new small all =
    let (c, made, size) = write_file_lem files new in
    rw made (
      set_file-AllSmall bound files 0 (some c)
        (λ d e. let same : c ≡ d = cc in rw (← same) (omega arith)) all)

write_file-size :
    (files : Files) (new : List ℕ) → size_of (write_file files new) ≡ size_of files + length new
write_file-size files new =
    let (c, made, size) = write_file_lem files new in
    size_of-some (write_file files new) c (rw made) ∙ size

rotate-size : (keep : ℕ) (files : Files) → size_of (rotate keep files) ≡ 0
rotate-size zero files = size_of-some (rotate 0 files) [] (rw (rotate_zero files))
rotate-size (suc keep) files =
    size_of-some (rotate (suc keep) files) [] (rotate-shifts (suc keep) files (omega arith)).0

-- The trace file is below its limit, and no file is larger by more than a line.
pub record IsLimited (max_bytes longest : ℕ) (files : Files) : Type 0 where
  pub current : size_of files < max_bytes
  pub all : AllSmall (max_bytes + longest) files

flush-IsLimited :
    (max_bytes longest : ℕ) (pending : List ℕ) (files : Files)
    → size_of files + length pending < max_bytes
    → IsLimited max_bytes longest files
    → IsLimited max_bytes longest (flush pending files)
unfolding flush
flush-IsLimited max_bytes longest [] files small v = v
flush-IsLimited max_bytes longest (b ∷ pending) files small v = record {
  current = rw (write_file-size files (b ∷ pending)) small;
  all = write_file-AllSmall (max_bytes + longest) files (b ∷ pending) (omega arith) v.all;
}

-- The file once it is full, rotated.
full-IsLimited :
    (max_bytes longest keep : ℕ) (new : List ℕ) (files : Files)
    → 1 ≤ max_bytes
    → size_of files + length new < max_bytes + longest
    → IsLimited max_bytes longest files
    → IsLimited max_bytes longest (rotate keep (write_file files new))
full-IsLimited max_bytes longest keep new files some_bytes small v = record {
  current = rw (rotate-size keep (write_file files new)) some_bytes;
  all =
      rotate-AllSmall (max_bytes + longest) keep (write_file files new) (omega arith)
        (write_file-AllSmall (max_bytes + longest) files new small v.all);
}

lines-IsLimited :
    (max_bytes longest keep size : ℕ) (pending : List ℕ) (lines : List (List ℕ)) (files : Files)
    → 1 ≤ max_bytes
    → All (λ l. length l ≤ longest) lines
    → size ≡ size_of files + length pending
    → size < max_bytes
    → IsLimited max_bytes longest files
    → IsLimited max_bytes longest (append_lines max_bytes keep size pending lines files)
unfolding append_lines
lines-IsLimited max_bytes longest keep size pending [] files some_bytes short counted small v =
    flush-IsLimited max_bytes longest pending files (omega arith) v
lines-IsLimited max_bytes longest keep size pending (l ∷ lines) files some_bytes short counted small
      v =
    let joined = length-append pending l in
    if-elim (IsLimited max_bytes longest) (leb max_bytes (size + length l))
      (λ full.
        let rotated =
          full-IsLimited max_bytes longest keep (pending ++ l) files some_bytes
            (omega (arith, joined, short.0)) v in
        lines-IsLimited max_bytes longest keep 0 [] lines
          (rotate keep (write_file files (pending ++ l))) some_bytes short.1
          (omega (arith, rotate-size keep (write_file files (pending ++ l)))) some_bytes rotated)
      (λ more.
        lines-IsLimited max_bytes longest keep (size + length l) (pending ++ l) lines files
          some_bytes short.1 (omega (arith, joined)) (ground arith) v)

-- A batch of lines, none longer than `longest`, keeps the trace file below a limit of at least one
-- byte, and every file of the trace below that limit and the longest line.
pub append-IsLimited :
    (max_bytes longest keep : ℕ) (lines : List (List ℕ)) (files : Files)
    → 1 ≤ max_bytes
    → All (λ l. length l ≤ longest) lines
    → IsLimited max_bytes longest files
    → IsLimited max_bytes longest (append max_bytes keep lines files)
unfolding append
append-IsLimited max_bytes longest keep lines files some_bytes short v =
    lines-IsLimited max_bytes longest keep (size_of files) [] lines files some_bytes short
      (omega arith) v.current v
