-- ===== src/Import/Assemble/Kept.antt =====
-- app/ser2net_import.py, `_assemble`: the connections that the first loop keeps.
use ser2net.Common.{
  false, ◌≡◌, refl, inl, inr, Option, none, some, List, [], ◌∷◌, Bool-cases, All, All-append,
  Pairwise, Pairwise-snoc,
}
use ser2net.Common.Result.{Result, ok, err}
use ser2net.Config.{ConfigError, Floats, World}
use ser2net.Config.Mapping.{validate}
use ser2net.Config.App.{clashes}
use ser2net.Import.{Conn, mapping_of}
use ser2net.Import.Assemble.{Kept, conn_listener, taken_by, keep_free, keep_valid, keep_all}

module _ (fl : Floats) (os : World) where
  abbrev pub IsValidConn : Conn fl → Type 0
  IsValidConn c = validate fl os (mapping_of fl os "" c) ≡ ok tt

  -- The earlier of two kept connections leaves the later one's address free.
  abbrev pub LeavesFree : Conn fl → Conn fl → Type 0
  LeavesFree o c = clashes (conn_listener fl os o) (conn_listener fl os c) ≡ false

  abbrev pub IsKept : List (Conn fl) → Type 0
  IsKept kept = All IsValidConn kept × Pairwise LeavesFree kept

  taken_by-none :
      (kept : List (Conn fl)) (c : Conn fl)
      → taken_by fl os kept c ≡ none
      → All (λ o. LeavesFree o c) kept
  unfolding taken_by
  taken_by-none [] c h = tt
  taken_by-none (o ∷ kept) c h =
      elim (Bool-cases (clashes (conn_listener fl os o) (conn_listener fl os c))) [
        | inl e ↦ absurd (cc (h, e))
        | inr e ↦ (e, taken_by-none kept c (rw (← h, e) refl))
      ]

  keep_free-IsKept :
      (o : Option (Conn fl)) (c : Conn fl) (k : Kept fl)
      → taken_by fl os k.0 c ≡ o
      → IsValidConn c
      → IsKept k.0
      → IsKept (keep_free fl o c k).0
  keep_free-IsKept none c (kept, ws) e v h = (
    All-append IsValidConn kept (c ∷ []) h.0 (v, tt),
    Pairwise-snoc LeavesFree kept c h.1 (taken_by-none kept c e),
  )
  keep_free-IsKept (some o) c (kept, ws) e v h = h

  keep_valid-IsKept :
      (r : Result ConfigError (Unit {0})) (c : Conn fl) (k : Kept fl)
      → validate fl os (mapping_of fl os "" c) ≡ r
      → IsKept k.0
      → IsKept (keep_valid fl os r c k).0
  keep_valid-IsKept (ok done) c (kept, ws) e h =
      keep_free-IsKept (taken_by fl os kept c) c (kept, ws) refl e h
  keep_valid-IsKept (err e) c (kept, ws) q h = h

  pub keep_all-IsKept :
      (cs : List (Conn fl)) (k : Kept fl) → IsKept k.0 → IsKept (keep_all fl os cs k).0
  unfolding keep_all
  keep_all-IsKept [] k h = h
  keep_all-IsKept (c ∷ cs) k h =
      keep_all-IsKept cs (keep_valid fl os (validate fl os (mapping_of fl os "" c)) c k)
        (keep_valid-IsKept (validate fl os (mapping_of fl os "" c)) c k refl h)
