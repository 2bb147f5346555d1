-- ===== src/Import/Strings/RoundTrip.antt =====
-- app/ser2net_import.py, `_convert`: text whose backslashes were doubled.
use ser2net.Common.{
  ℕ, zero, Bool, true, false, ◌≡◌, refl, ap, ◌≢◌, ◌&&◌, inl, inr, List, [], ◌∷◌, arith, Bool-cases,
  ◌==◌, if◌then◌else◌, All,
}
use ser2net.Config.{Floats}
use ser2net.Import.{Conn}
use ser2net.Import.Strings.{
  Kind, gone, is_banner, is_file, is_separator, Converted, drop_gone, one, escapes, convert,
}

abbrev pub doubled : List ℕ → List ℕ
doubled [] = []
doubled (c ∷ cs) = let rest = doubled cs in if c == b'\\' then b'\\' ∷ b'\\' ∷ rest else c ∷ rest

drop_gone-none : (in_file : Bool) (cs : List ℕ) → All (λ c. c ≢ gone) cs → drop_gone in_file cs ≡ cs
unfolding drop_gone
drop_gone-none in_file [] h = refl
drop_gone-none in_file (x ∷ []) h = let e : (x == gone) ≡ false = ground (arith, h.0) in rw (e) refl
drop_gone-none in_file (x ∷ y ∷ cs) h =
    let e : (x == gone) ≡ false = ground (arith, h.0) in
    let e' : (y == gone) ≡ false = ground (arith, h.1.0) in
    kept (x == gone) (in_file && is_separator x) (y == gone) e e'
      (drop_gone-none in_file (y ∷ cs) h.1)
  where
    kept :
        (g s g' : Bool)
        → g ≡ false
        → g' ≡ false
        → drop_gone in_file (y ∷ cs) ≡ y ∷ cs
        → (if g
            then drop_gone in_file (y ∷ cs)
            else if s && g'
            then drop_gone in_file cs
            else x ∷ drop_gone in_file (y ∷ cs))
          ≡ x ∷ y ∷ cs
    kept true s g' e e' ih = absurd (cc (e))
    kept false s true e e' ih = absurd (cc (e'))
    kept false true false e e' ih = ap (λ r. x ∷ r) ih
    kept false false false e e' ih = ap (λ r. x ∷ r) ih

abbrev in_front : ℕ → Converted → Converted
in_front x r = record r { out = x ∷ r.out }

module _ (fl : Floats) where
  escapes-doubled :
      (c : Conn fl) (kind : Kind) (text : List ℕ)
      → escapes fl c kind zero (doubled text) ≡ record { out = text; fixed = []; lost = [] }
  unfolding escapes one
  escapes-doubled c kind [] = refl
  escapes-doubled c kind (x ∷ text) = elim (Bool-cases (x == b'\\')) [
    | inl e ↦
        let x_is : x ≡ b'\\' = ground (arith, e) in
        rw (x_is) (ap (in_front b'\\') (escapes-doubled c kind text))
    | inr e ↦ rw (e, e) (ap (in_front x) (escapes-doubled c kind text))
  ]

  -- A string or a file name whose backslashes are doubled is read as it was, and nothing is noted
  -- about it, if it does not hold the mark of the source.
  pub convert-doubled :
      (c : Conn fl) (kind : Kind) (what text : List ℕ)
      → is_banner kind ≡ false
      → All (λ x. x ≢ gone) text
      → convert fl c (doubled text) kind what ≡ (c, text)
  unfolding convert
  convert-doubled c kind what text b h =
      rw (b, escapes-doubled c kind text) (ap (λ r. (c, r)) (drop_gone-none (is_file kind) text h))
