-- ===== src/Bridge/Closeon/Stream.antt =====
-- app/engine/bridge.py, `_check_closeon`: the carry-over from read to read.
use mathlib.Core.List.{flatten}
use ser2net.Common.{
  ℕ, zero, suc, ◌-◌, ◌≤◌, ◌≡◌, refl, sym, ap, ◌∙◌, ◌||◌, append-nil, append_assoc, inl, inr, Bool,
  true, false, List, [], ◌∷◌, ◌++◌, arith, ltb, leb, if◌then◌else◌, Bool-cases, leb→le, length,
  drop, length-append,
}
use ser2net.Bridge.Closeon.{starts_with, contains, last, check_closeon, watch}

-- All the data since the read of the last match, instead of the carry-over.
watch_history : List ℕ → List ℕ → List (List ℕ) → List Bool
watch_history pat history [] = []
watch_history pat history (chunk ∷ chunks) =
    let window = history ++ chunk in
    let hit = contains pat window in
    let rest = watch_history pat (if hit then [] else window) chunks in hit ∷ rest

starts_with-append :
    (pat window more : List ℕ)
    → length pat ≤ length window
    → starts_with pat (window ++ more) ≡ starts_with pat window
unfolding starts_with
starts_with-append [] window more h = refl
starts_with-append (p ∷ pat) [] more h = absurd (omega arith)
starts_with-append (p ∷ pat) (b ∷ window) more h =
    ground (arith, starts_with-append pat window more (omega arith))

drop_zero_le : (n : ℕ) (xs : List ℕ) → n ≡ 0 → drop n xs ≡ xs
drop_zero_le n xs e = rw e

drop-suc_cons : (n m x : ℕ) (xs : List ℕ) → n ≡ suc m → drop n (x ∷ xs) ≡ drop m xs
drop-suc_cons n m x xs e = rw e

last_all : (n : ℕ) (xs : List ℕ) → length xs ≤ n → last n xs ≡ xs
last_all n xs h = drop_zero_le (length xs - n) xs (omega arith)

last_cons : (n x : ℕ) (xs : List ℕ) → n ≤ length xs → last n (x ∷ xs) ≡ last n xs
last_cons n x xs h = drop-suc_cons (suc (length xs) - n) (length xs - n) x xs (omega arith)

-- The last bytes of a stream are those of its last bytes.
last-last-append : (n : ℕ) (xs ys : List ℕ) → last n (last n xs ++ ys) ≡ last n (xs ++ ys)
last-last-append n [] ys = rw (last_all n [] (omega arith))
last-last-append n (x ∷ xs) ys = elim (Bool-cases (leb n (length xs))) [
  | inl fits ↦
      let le = leb→le n (length xs) fits in
      rw (last_cons n x xs le) (
        last-last-append n xs ys
        ∙ sym (last_cons n x (xs ++ ys) (omega (arith, length-append xs ys))))
  | inr short ↦ rw (last_all n (x ∷ xs) (ground arith))
]

contains_parts :
    (pat : List ℕ) (x : ℕ) (xs : List ℕ)
    → contains pat (x ∷ xs) ≡ false
    → (starts_with pat (x ∷ xs) ≡ false) × (contains pat xs ≡ false)
unfolding contains
contains_parts pat x xs h = ground arith

contains_later :
    (pat : List ℕ) (x : ℕ) (xs : List ℕ)
    → starts_with pat (x ∷ xs) ≡ false
    → contains pat (x ∷ xs) ≡ contains pat xs
unfolding contains
contains_later pat x xs h = ground arith

-- Where the history holds no match, its last bytes, one fewer than the pattern has, are enough.
contains-last :
    (pat history chunk : List ℕ)
    → 1 ≤ length pat
    → contains pat history ≡ false
    → contains pat (last (length pat - 1) history ++ chunk) ≡ contains pat (history ++ chunk)
contains-last pat [] chunk h absent = rw (last_all (length pat - 1) [] (omega arith))
contains-last pat (x ∷ history) chunk h absent =
    elim (Bool-cases (leb (length pat - 1) (length history))) [
      | inl fits ↦
          let le = leb→le (length pat - 1) (length history) fits in
          let (first, rest) = contains_parts pat x history absent in
          let nowhere : starts_with pat (x ∷ (history ++ chunk)) ≡ false =
            starts_with-append pat (x ∷ history) chunk (omega arith) ∙ first in
          rw (last_cons (length pat - 1) x history le) (
            contains-last pat history chunk h rest
            ∙ sym (contains_later pat x (history ++ chunk) nowhere))
      | inr short ↦ rw (last_all (length pat - 1) (x ∷ history) (ground arith))
    ]

drop_all : (n : ℕ) (xs : List ℕ) → length xs ≤ n → drop n xs ≡ []
drop_all zero [] h = refl
drop_all zero (x ∷ xs) h = absurd (omega arith)
drop_all (suc n) [] h = refl
drop_all (suc n) (x ∷ xs) h = drop_all n xs (omega arith)

last_none : (n : ℕ) (xs : List ℕ) → n ≡ 0 → last n xs ≡ []
last_none n xs e = drop_all (length xs - n) xs (omega arith)

-- One chunk, with the carry-over that the history leaves.
check_closeon-history :
    (pat history chunk : List ℕ)
    → 1 ≤ length pat
    → contains pat history ≡ false
    → check_closeon pat (last (length pat - 1) history) chunk ≡ (
        if contains pat (history ++ chunk)
        then (true, [])
        else (false, last (length pat - 1) (history ++ chunk)))
unfolding check_closeon
check_closeon-history pat history chunk h absent = elim (Bool-cases (ltb 1 (length pat))) [
  | inl many ↦ rw (
    contains-last pat history chunk h absent,
    many,
    last-last-append (length pat - 1) history chunk,
  )
  | inr single ↦
      let k : length pat - 1 ≡ 0 = ground arith in
      rw (
        contains-last pat history chunk h absent,
        single,
        last_none (length pat - 1) history k,
        last_none (length pat - 1) (history ++ chunk) k,
      )
]

watch_cons :
    (pat tail chunk : List ℕ) (chunks : List (List ℕ))
    → watch pat tail (chunk ∷ chunks)
      ≡ (check_closeon pat tail chunk).0 ∷ watch pat (check_closeon pat tail chunk).1 chunks
unfolding watch
watch_cons pat tail chunk chunks = refl

contains_nil : (pat : List ℕ) → 1 ≤ length pat → contains pat [] ≡ false
contains_nil [] h = absurd (omega arith)
contains_nil (p ∷ pat) h = unfold contains in refl

watch-history :
    (pat history : List ℕ) (chunks : List (List ℕ))
    → 1 ≤ length pat
    → contains pat history ≡ false
    → watch pat (last (length pat - 1) history) chunks ≡ watch_history pat history chunks
unfolding watch_history
watch-history pat history [] h absent = unfold watch in refl
watch-history pat history (chunk ∷ chunks) h absent =
    let now = check_closeon-history pat history chunk h absent in
    elim (Bool-cases (contains pat (history ++ chunk))) [
      | inl hit ↦
          let fresh =
            rw (last_all (length pat - 1) [] (omega arith)) at
              (watch-history pat [] chunks h (contains_nil pat h)) in
          watch_cons pat _ chunk chunks ∙ rw (now, hit, fresh)
      | inr miss ↦
          watch_cons pat _ chunk chunks
          ∙ rw (now, miss, watch-history pat (history ++ chunk) chunks h miss)
    ]

watch-watch_history :
    (pat : List ℕ) (chunks : List (List ℕ))
    → 1 ≤ length pat
    → watch pat [] chunks ≡ watch_history pat [] chunks
watch-watch_history pat chunks h =
    rw (last_all (length pat - 1) [] (omega arith)) at
      (watch-history pat [] chunks h (contains_nil pat h))

-- Whether a read matched.
pub has_hit : List Bool → Bool
has_hit [] = false
has_hit (hit ∷ hits) = hit || has_hit hits

starts_with-more :
    (pat window more : List ℕ)
    → starts_with pat window ≡ true
    → starts_with pat (window ++ more) ≡ true
unfolding starts_with
starts_with-more [] window more h = refl
starts_with-more (p ∷ pat) [] more h = absurd (cc)
starts_with-more (p ∷ pat) (b ∷ window) more h =
    let rest = starts_with-more pat window more in ground (arith, rest)

contains-more :
    (pat window more : List ℕ)
    → 1 ≤ length pat
    → contains pat window ≡ true
    → contains pat (window ++ more) ≡ true
unfolding contains
contains-more pat [] more h found = absurd (cc (found, contains_nil pat h))
contains-more pat (b ∷ window) more h found =
    let rest = contains-more pat window more h in
    let start = starts_with-more pat (b ∷ window) more in ground (arith, rest, start)

has_hit-watch_history :
    (pat history : List ℕ) (chunks : List (List ℕ))
    → 1 ≤ length pat
    → contains pat history ≡ false
    → has_hit (watch_history pat history chunks) ≡ contains pat (history ++ flatten chunks)
unfolding has_hit watch_history flatten
has_hit-watch_history pat history [] h absent = rw (append-nil history, absent) refl
has_hit-watch_history pat history (chunk ∷ chunks) h absent =
    elim (Bool-cases (contains pat (history ++ chunk))) [
      | inl hit ↦
          let found = contains-more pat (history ++ chunk) (flatten chunks) h hit in
          rw (← append_assoc history chunk (flatten chunks), found, hit) refl
      | inr miss ↦
          rw (← append_assoc history chunk (flatten chunks), miss)
            (has_hit-watch_history pat (history ++ chunk) chunks h miss)
    ]

-- For a pattern of at least one byte, from no carry-over on, some read matches, and the clients
-- are closed, exactly when the data of all reads together holds the pattern, however the data is
-- cut into reads.
pub watch-contains :
    (pat : List ℕ) (chunks : List (List ℕ))
    → 1 ≤ length pat
    → has_hit (watch pat [] chunks) ≡ contains pat (flatten chunks)
watch-contains pat chunks h =
    ap has_hit (watch-watch_history pat chunks h)
    ∙ has_hit-watch_history pat [] chunks h (contains_nil pat h)
