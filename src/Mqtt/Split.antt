-- ===== src/Mqtt/Split.antt =====
-- app/engine/mqtt_pub.py: the lines of a stream, and what the search for a newline says of them.
use mathlib.Core.Path.{subst}
use ser2net.Common.{
  ℕ, ◌<◌, ◌≡◌, refl, ◌∙◌, inl, inr, true, false, Option, none, some, List, [], ◌∷◌, ◌++◌,
  append-nil, append_assoc, arith, ◌==◌, if◌then◌else◌, Bool-cases, Option-cases, length,
}
use ser2net.Mqtt.{newline, find_newline}

-- The complete lines of a stream and the incomplete one, behind what has been read of the first.
unfoldable pub split : List ℕ → List ℕ → List (List ℕ) × List ℕ
split start [] = ([], start)
split start (b ∷ bytes) =
    let fresh = split [] bytes in
    let longer = split (start ++ b ∷ []) bytes in
    if b == newline then (start ∷ fresh.0, fresh.1) else longer

pub split-newline :
    (start bytes : List ℕ) (b : ℕ)
    → (b == newline) ≡ true
    → split start (b ∷ bytes) ≡ (start ∷ (split [] bytes).0, (split [] bytes).1)
unfolding split
split-newline start bytes b h = rw h

pub split_other :
    (start bytes : List ℕ) (b : ℕ)
    → (b == newline) ≡ false
    → split start (b ∷ bytes) ≡ split (start ++ b ∷ []) bytes
unfolding split
split_other start bytes b h = rw h

pub split-append :
    (start xs ys : List ℕ)
    → split start (xs ++ ys)
      ≡ ((split start xs).0 ++ (split (split start xs).1 ys).0, (split (split start xs).1 ys).1)
split-append start [] ys = unfold split in refl
split-append start (b ∷ xs) ys =
    let fresh = split-append [] xs ys in
    let longer = split-append (start ++ b ∷ []) xs ys in
    elim (Bool-cases (b == newline)) [
      | inl ends ↦ rw (split-newline start (xs ++ ys) b ends, split-newline start xs b ends, fresh)
      | inr goes ↦ rw (split_other start (xs ++ ys) b goes, split_other start xs b goes) longer
    ]

find_hit :
    (b : ℕ) (bytes : List ℕ) → (b == newline) ≡ true → find_newline (b ∷ bytes) ≡ some ([], bytes)
unfolding find_newline
find_hit b bytes h = rw h

find_past :
    (b : ℕ) (bytes : List ℕ) (o : Option (List ℕ × List ℕ))
    → (b == newline) ≡ false
    → find_newline bytes ≡ o
    → find_newline (b ∷ bytes) ≡ elim o [ none ↦ none | some (line, rest) ↦ some (b ∷ line, rest) ]
unfolding find_newline
find_past b bytes o h e = rw (h, e)

-- What the search for a newline says of the lines of the buffer.
abbrev pub Found : List ℕ → List ℕ → Option (List ℕ × List ℕ) → Type 0
Found start bytes none = split start bytes ≡ ([], start ++ bytes)
Found start bytes (some (line, rest)) =
    (split start bytes ≡ ((start ++ line) ∷ (split [] rest).0, (split [] rest).1))
    × (length rest < length bytes)

pub find_newline-Found : (start bytes : List ℕ) → Found start bytes (find_newline bytes)
find_newline-Found start [] = unfold find_newline in unfold split in rw (append-nil start) refl
find_newline-Found start (b ∷ bytes) =
    let past = find_newline-Found (start ++ b ∷ []) bytes in
    elim (Bool-cases (b == newline)) [
      | inl ends ↦
          rw (find_hit b bytes ends)
            (split-newline start bytes b ends ∙ rw (append-nil start), omega arith)
      | inr goes ↦ elim (Option-cases (find_newline bytes)) [
        | inl absent ↦ rw (find_past b bytes none goes absent) (
            split_other start bytes b goes
            ∙ subst (Found (start ++ b ∷ []) bytes) absent past
            ∙ rw (append_assoc start (b ∷ []) bytes))
        | inr ((line, rest), found) ↦
            let (lines, small) = subst (Found (start ++ b ∷ []) bytes) found past in
            rw (find_past b bytes (some (line, rest)) goes found) (
              split_other start bytes b goes ∙ lines ∙ rw (append_assoc start (b ∷ []) line),
              omega arith,
            )
      ]
    ]
