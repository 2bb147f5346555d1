-- ===== src/Config/Options/TraceName.antt =====
-- app/config.py, `trace_file_name`: a trace is written inside its folder.
use ser2net.Common.{
  ℕ, zero, suc, ◌≤◌, Bool, true, false, ◌≡◌, refl, sym, ap, ◌∙◌, ◌≢◌, inl, inr, List, [], ◌∷◌,
  arith, ◌==◌, Bool-cases, if◌then◌else◌, length, take, length-take, All, All-take, All-imply,
}
use ser2net.Common.Texts.{lstrip_of, rstrip_of, keep_last, strip_of, strip}
use ser2net.Config.{World}
use ser2net.Config.Options.{
  last_component, is_dot, or_default, is_name_char, replace_bad, clean, name_of, trace_file_name,
  trace_default_name,
}

abbrev StartsWithout : (ℕ → Bool) → List ℕ → Type 0
StartsWithout p [] = Unit {0}
StartsWithout p (c ∷ cs) = p c ≡ false

lstrip_of-StartsWithout : (p : ℕ → Bool) (cs : List ℕ) → StartsWithout p (lstrip_of p cs)
lstrip_of-StartsWithout p [] = tt
lstrip_of-StartsWithout p (c ∷ cs) = elim (Bool-cases (p c)) [
  | inl e ↦ rw (e) (lstrip_of-StartsWithout p cs)
  | inr e ↦ rw (e) e
]

keep_last-StartsWithout :
    (p : ℕ → Bool) (c : ℕ) (cs : List ℕ) → p c ≡ false → StartsWithout p (keep_last p c cs)
keep_last-StartsWithout p c [] h = rw (h) h
keep_last-StartsWithout p c (d ∷ cs) h = h

rstrip_of-StartsWithout :
    (p : ℕ → Bool) (cs : List ℕ) → StartsWithout p cs → StartsWithout p (rstrip_of p cs)
rstrip_of-StartsWithout p [] h = tt
rstrip_of-StartsWithout p (c ∷ cs) h = keep_last-StartsWithout p c (rstrip_of p cs) h

take-StartsWithout :
    (p : ℕ → Bool) (n : ℕ) (cs : List ℕ) → StartsWithout p cs → StartsWithout p (take n cs)
take-StartsWithout p zero cs h = tt
take-StartsWithout p (suc n) [] h = tt
take-StartsWithout p (suc n) (c ∷ cs) h = h

module _ (P : ℕ → Type 0) where
  lstrip_of-All : (p : ℕ → Bool) (cs : List ℕ) → All P cs → All P (lstrip_of p cs)
  lstrip_of-All p [] h = tt
  lstrip_of-All p (c ∷ cs) h = elim (Bool-cases (p c)) [
    | inl e ↦ rw (e) (lstrip_of-All p cs h.1)
    | inr e ↦ rw (e) h
  ]

  keep_last-All : (p : ℕ → Bool) (c : ℕ) (cs : List ℕ) → P c → All P cs → All P (keep_last p c cs)
  keep_last-All p c (d ∷ cs) hc h = (hc, h)
  keep_last-All p c [] hc h = elim (Bool-cases (p c)) [
    | inl e ↦ rw (e) tt
    | inr e ↦ rw (e) (hc, tt)
  ]

  rstrip_of-All : (p : ℕ → Bool) (cs : List ℕ) → All P cs → All P (rstrip_of p cs)
  rstrip_of-All p [] h = tt
  rstrip_of-All p (c ∷ cs) h = keep_last-All p c (rstrip_of p cs) h.0 (rstrip_of-All p cs h.1)

length-keep_last :
    (p : ℕ → Bool) (c : ℕ) (cs : List ℕ) → length (keep_last p c cs) ≤ suc (length cs)
length-keep_last p c (d ∷ cs) = omega arith
length-keep_last p c [] = ground arith

length-rstrip_of : (p : ℕ → Bool) (cs : List ℕ) → length (rstrip_of p cs) ≤ length cs
length-rstrip_of p [] = omega arith
length-rstrip_of p (c ∷ cs) =
    omega (arith, length-keep_last p c (rstrip_of p cs), length-rstrip_of p cs)

-- A file name that stays in its folder on every system: it has no separator, no drive, and does
-- not start with a dot, so it is neither `.` nor `..`.
abbrev pub IsPlain : List ℕ → Type 0
IsPlain name =
    All (λ c. (c ≢ b'/') × (c ≢ b'\\') × (c ≢ b':')) name
    × (length name ≤ 80)
    × StartsWithout (λ c. c == b'.') name

module _ (os : World) where
  abbrev IsNameChar : ℕ → Type 0
  IsNameChar c = is_name_char os c ≡ true

  marked :
      (inside : Bool) (more : List ℕ)
      → All IsNameChar more
      → All IsNameChar (if inside then more else b'_' ∷ more)
  marked true more h = h
  marked false more h = (refl, h)

  replace_bad-IsNameChar : (inside : Bool) (cs : List ℕ) → All IsNameChar (replace_bad os inside cs)
  unfolding replace_bad
  replace_bad-IsNameChar inside [] = tt
  replace_bad-IsNameChar inside (c ∷ cs) = elim (Bool-cases (is_name_char os c)) [
    | inl e ↦ rw (e) (e, replace_bad-IsNameChar false cs)
    | inr e ↦ rw (e) (marked inside (replace_bad os true cs) (replace_bad-IsNameChar true cs))
  ]

  differs : (c d : ℕ) → IsNameChar c → is_name_char os d ≡ false → c ≢ d
  differs c d h n e = absurd (opposite (sym n ∙ (ap (is_name_char os) (sym e) ∙ h)))
    where
      opposite : false ≡ true → ⊥
      opposite q = cc

  no_separator : (c : ℕ) → IsNameChar c → (c ≢ b'/') × (c ≢ b'\\') × (c ≢ b':')
  no_separator c h = (differs c b'/' h refl, differs c b'\\' h refl, differs c b':' h refl)

  dot_start : (cs : List ℕ) → StartsWithout is_dot cs → StartsWithout (λ c. c == b'.') cs
  dot_start [] h = tt
  dot_start (c ∷ cs) h = ground arith

  clean-IsPlain : (name : List ℕ) → IsPlain (clean os name)
  clean-IsPlain name =
      let replaced = replace_bad os false name in
      let stripped = strip_of is_dot replaced in
      let chars = rstrip_of-All IsNameChar is_dot (take 80 stripped) (
        All-take IsNameChar 80 stripped (
          rstrip_of-All IsNameChar is_dot (lstrip_of is_dot replaced)
            (lstrip_of-All IsNameChar is_dot replaced (replace_bad-IsNameChar false name)))) in
      let starts = rstrip_of-StartsWithout is_dot (take 80 stripped) (
        take-StartsWithout is_dot 80 stripped (
          rstrip_of-StartsWithout is_dot (lstrip_of is_dot replaced)
            (lstrip_of-StartsWithout is_dot replaced))) in
      (
        All-imply (clean os name) no_separator chars,
        omega (arith, length-rstrip_of is_dot (take 80 stripped), length-take 80 stripped),
        dot_start (clean os name) starts,
      )

  or_default-IsPlain : (name : List ℕ) → IsPlain name → IsPlain (or_default name)
  or_default-IsPlain (c ∷ cs) h = h
  or_default-IsPlain [] h =
      (All-imply trace_default_name no_separator default_chars, omega arith, refl)
    where
      default_chars : All IsNameChar trace_default_name
      default_chars = (refl, (refl, (refl, (refl, (refl, (refl, (refl, (refl, (refl, tt)))))))))

  name_of-IsPlain : (raw : List ℕ) → IsPlain (name_of os raw)
  name_of-IsPlain [] = (tt, omega arith, tt)
  name_of-IsPlain (c ∷ cs) =
      or_default-IsPlain (clean os (last_component [] (c ∷ cs)))
        (clean-IsPlain (last_component [] (c ∷ cs)))

  -- Whatever `trace_both` holds, the file name made of it has at most 80 characters, no slash of
  -- either kind and no colon, and does not start with a dot.
  pub trace_file_name-IsPlain : (value : List ℕ) → IsPlain (trace_file_name os value)
  unfolding trace_file_name
  trace_file_name-IsPlain value = name_of-IsPlain (strip value)
