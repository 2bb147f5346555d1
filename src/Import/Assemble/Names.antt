-- ===== src/Import/Assemble/Names.antt =====
-- app/ser2net_import.py, `_assemble`: the name that a mapping gets is not in use.
use ser2net.Common.{
  ℕ, zero, suc, ◌+◌, ◌≤◌, ◌<◌, true, false, ◌≡◌, refl, ap, ◌≢◌, ◌⊎◌, inl, inr, List, [], ◌∷◌, ◌++◌,
  arith, Bool-cases, length, bytes_eq, if◌then◌else◌,
}
use ser2net.Common.Texts.{all_space, is_any_of, bytes_eq_iff, codes}
use ser2net.Common.Decimal.{str, str-injective}
use ser2net.Import.Assemble.{numbered, free_name, unique_name}

append_cancel : (xs ys zs : List ℕ) → xs ++ ys ≡ xs ++ zs → ys ≡ zs
append_cancel [] ys zs h = h
append_cancel (x ∷ xs) ys zs h = append_cancel xs ys zs (cc)

append_last : (xs ys : List ℕ) (c : ℕ) → xs ++ (c ∷ []) ≡ ys ++ (c ∷ []) → xs ≡ ys
append_last [] [] c h = refl
append_last [] (y ∷ []) c h = absurd (cc)
append_last [] (y ∷ z ∷ ys) c h = absurd (cc)
append_last (x ∷ []) [] c h = absurd (cc)
append_last (x ∷ z ∷ xs) [] c h = absurd (cc)
append_last (x ∷ xs) (y ∷ ys) c h = cc (append_last xs ys c (cc))

numbered-injective : (base : List ℕ) (k j : ℕ) → numbered base k ≡ numbered base j → k ≡ j
numbered-injective base k j h =
    str-injective k j
      (append_last (str k) (str j) b')' (append_cancel (codes " (") _ _ (append_cancel base _ _ h)))

-- The candidates of the loop: the base, then the numbered ones from 2.
abbrev candidate : List ℕ → ℕ → List ℕ
candidate base zero = base
candidate base (suc k) = numbered base (suc (suc k))

length-numbered : (base : List ℕ) (k : ℕ) → length base < length (numbered base k)
length-numbered [] k = omega arith
length-numbered (c ∷ base) k = omega (arith, length-numbered base k)

candidate-injective : (base : List ℕ) (k j : ℕ) → candidate base k ≡ candidate base j → k ≡ j
candidate-injective base zero zero h = refl
candidate-injective base zero (suc j) h =
    absurd (omega (arith, ap length h, length-numbered base (suc (suc j))))
candidate-injective base (suc k) zero h =
    absurd (omega (arith, ap length h, length-numbered base (suc (suc k))))
candidate-injective base (suc k) (suc j) h =
    omega (arith, numbered-injective base (suc (suc k)) (suc (suc j)) h)

-- The names other than one of them.
without : List ℕ → List (List ℕ) → List (List ℕ)
without t [] = []
without t (s ∷ used) = let rest = without t used in if bytes_eq t s then rest else s ∷ rest

length-without_le : (t : List ℕ) (used : List (List ℕ)) → length (without t used) ≤ length used
unfolding without
length-without_le t [] = omega arith
length-without_le t (s ∷ used) = ground (arith, length-without_le t used)

length-without :
    (t : List ℕ) (used : List (List ℕ))
    → is_any_of t used ≡ true
    → length (without t used) < length used
unfolding without
length-without t [] h = absurd (cc)
length-without t (s ∷ used) h = ground (arith, length-without t used, length-without_le t used)

is_any_of-without :
    (s t : List ℕ) (used : List (List ℕ))
    → s ≢ t
    → is_any_of s used ≡ true
    → is_any_of s (without t used) ≡ true
unfolding without
is_any_of-without s t [] n h = h
is_any_of-without s t (r ∷ used) n h =
    ground (arith, is_any_of-without s t used n, bytes_eq_iff s r, bytes_eq_iff t r)

-- As many candidates as are in use need as many names in use.
candidates_le :
    (base : List ℕ) (n k : ℕ) (used : List (List ℕ))
    → ((i : ℕ) → i < n → is_any_of (candidate base (k + i)) used ≡ true)
    → n ≤ length used
candidates_le base zero k used h = omega arith
candidates_le base (suc n) k used h =
    let here : is_any_of (candidate base k) used ≡ true =
      rw (← ap (λ i. is_any_of (candidate base i) used) (k_plus_0 k)) (h 0 (omega arith)) in
    let rest = without (candidate base k) used in
    let fewer = length-without (candidate base k) used here in
    let others : (i : ℕ) → i < n → is_any_of (candidate base (suc k + i)) rest ≡ true = λ i l.
      is_any_of-without (candidate base (suc k + i)) (candidate base k) used
        (λ e. absurd (omega (arith, candidate-injective base (suc k + i) k e)))
        (rw (← ap (λ i. is_any_of (candidate base i) used) (k_plus_suc k i))
          (h (suc i) (omega arith))) in
    omega (arith, fewer, candidates_le base n (suc k) rest others)
  where
    k_plus_0 : (k : ℕ) → k + 0 ≡ k
    k_plus_0 k = omega arith

    k_plus_suc : (k i : ℕ) → k + suc i ≡ suc k + i
    k_plus_suc k i = omega arith

free_name-candidate :
    (fuel : ℕ) (used : List (List ℕ)) (base : List ℕ) (j : ℕ)
    → (i : ℕ) × (free_name fuel used base (suc j) (candidate base j) ≡ candidate base i)
unfolding free_name
free_name-candidate zero used base j = (j, refl)
free_name-candidate (suc fuel) used base j = elim (Bool-cases (is_any_of (candidate base j) used)) [
  | inl e ↦ let (i, q) = free_name-candidate fuel used base (suc j) in (i, rw (e) q)
  | inr e ↦ (j, rw (e) refl)
]

free_or_used :
    (fuel : ℕ) (used : List (List ℕ)) (base : List ℕ) (j : ℕ)
    → (is_any_of (free_name fuel used base (suc j) (candidate base j)) used ≡ false)
      ⊎ ((i : ℕ) → i < fuel → is_any_of (candidate base (j + i)) used ≡ true)
unfolding free_name
free_or_used zero used base j = inr (λ i l. absurd (omega arith))
free_or_used (suc fuel) used base j = elim (Bool-cases (is_any_of (candidate base j) used)) [
  | inr e ↦ inl (rw (e) e)
  | inl e ↦ elim (free_or_used fuel used base (suc j)) [
    | inl q ↦ inl (rw (e) q)
    | inr q ↦ inr (shifted e q)
  ]
]
  where
    shifted :
        is_any_of (candidate base j) used ≡ true
        → ((i : ℕ) → i < fuel → is_any_of (candidate base (suc j + i)) used ≡ true)
        → (i : ℕ) → i < suc fuel
        → is_any_of (candidate base (j + i)) used ≡ true
    shifted e q zero l = let same : j + 0 ≡ j = omega arith in rw (same) e
    shifted e q (suc i) l =
        let same : j + suc i ≡ suc j + i = omega arith in rw (same) (q i (omega arith))

-- The loop finds a name that is not in use.
pub unique_name_is_free :
    (used : List (List ℕ)) (base : List ℕ) → is_any_of (unique_name used base) used ≡ false
unique_name_is_free used base = elim (free_or_used (suc (length used)) used base 0) [
  | inl q ↦ q
  | inr q ↦ absurd (omega (arith, candidates_le base (suc (length used)) 0 used q))
]

all_space-append : (xs ys : List ℕ) → all_space xs ≡ false → all_space (xs ++ ys) ≡ false
all_space-append [] ys h = absurd (cc)
all_space-append (x ∷ xs) ys h = ground (arith, all_space-append xs ys)

candidate_not_blank :
    (base : List ℕ) (i : ℕ) → all_space base ≡ false → all_space (candidate base i) ≡ false
candidate_not_blank base zero h = h
candidate_not_blank base (suc i) h = all_space-append base _ h

pub unique_name_not_blank :
    (used : List (List ℕ)) (base : List ℕ)
    → all_space base ≡ false
    → all_space (unique_name used base) ≡ false
unique_name_not_blank used base h =
    let (i, q) = free_name-candidate (suc (length used)) used base 0 in
    rw (q) (candidate_not_blank base i h)
