-- ===== src/Import/Text/Split.antt =====
-- app/ser2net_import.py, `_split_gensio`: the parts of a gensio string.
use ser2net.Common.{
  ℕ, false, ◌≡◌, refl, sym, ap, ◌∙◌, ◌≢◌, none, List, [], ◌∷◌, ◌++◌, append-nil, append_assoc,
  arith, ◌==◌, All, is_nil,
}
use ser2net.Common.Texts.{strip}
use ser2net.Import.Text.{Splitter, split_char, split_all, nonempty, split_gensio}

-- A character that the loop takes as it is.
abbrev pub IsPlainChar : ℕ → Type 0
IsPlainChar c = (c ≢ b'\\') × (c ≢ b'"') × (c ≢ b'\'') × (c ≢ b'(') × (c ≢ b')') × (c ≢ b',')

-- A part that needs no quotes: not empty, without spaces around it, of plain characters.
abbrev pub IsPlainPart : List ℕ → Type 0
IsPlainPart p = (is_nil p ≡ false) × (strip p ≡ p) × All IsPlainChar p

-- Parts with a comma between them.
abbrev pub commas : List ℕ → List (List ℕ) → List ℕ
commas p [] = p
commas p (q ∷ ps) = p ++ (b',' ∷ commas q ps)

abbrev between : List (List ℕ) → List ℕ → Splitter
between parts buf = record { parts = parts; buf = buf; depth = 0; quote = none; escaped = false }

split_char-plain :
    (parts : List (List ℕ)) (buf : List ℕ) (c : ℕ)
    → IsPlainChar c
    → split_char (between parts buf) c ≡ between parts (buf ++ (c ∷ []))
split_char-plain parts buf c (n1, n2, n3, n4, n5, n6) =
    let e1 : (c == b'\\') ≡ false = ground (arith, n1) in
    let e2 : (c == b'"') ≡ false = ground (arith, n2) in
    let e3 : (c == b'\'') ≡ false = ground (arith, n3) in
    let e4 : (c == b'(') ≡ false = ground (arith, n4) in
    let e5 : (c == b')') ≡ false = ground (arith, n5) in
    let e6 : (c == b',') ≡ false = ground (arith, n6) in rw (e1, e2, e3, e4, e5, e6) refl

split_all-plain :
    (parts : List (List ℕ)) (buf p rest : List ℕ)
    → All IsPlainChar p
    → split_all (between parts buf) (p ++ rest) ≡ split_all (between parts (buf ++ p)) rest
unfolding split_all
split_all-plain parts buf [] rest h = rw (append-nil buf) refl
split_all-plain parts buf (c ∷ p) rest h =
    ap (λ s. split_all s (p ++ rest)) (split_char-plain parts buf c h.0)
    ∙ split_all-plain parts (buf ++ (c ∷ [])) p rest h.1
    ∙ ap (λ b. split_all (between parts b) rest) (append_assoc buf (c ∷ []) p)

-- What the loop and its end make of a state.
abbrev ended : Splitter → List (List ℕ)
ended s = s.parts ++ (strip s.buf ∷ [])

split_all-commas :
    (parts : List (List ℕ)) (p : List ℕ) (ps : List (List ℕ))
    → All IsPlainPart (p ∷ ps)
    → ended (split_all (between parts []) (commas p ps)) ≡ parts ++ (p ∷ ps)
unfolding split_all
split_all-commas parts p [] h =
    ap (λ q. ended (split_all (between parts []) q)) (sym (append-nil p))
    ∙ ap ended (split_all-plain parts [] p [] h.0.2)
    ∙ ap (λ q. parts ++ (q ∷ [])) h.0.1
split_all-commas parts p (q ∷ ps) h =
    ap ended (split_all-plain parts [] p (b',' ∷ commas q ps) h.0.2)
    ∙ ap (λ r. ended (split_all (between (parts ++ (r ∷ [])) []) (commas q ps))) h.0.1
    ∙ split_all-commas (parts ++ (p ∷ [])) q ps h.1
    ∙ append_assoc parts (p ∷ []) (q ∷ ps)

nonempty-plain : (ps : List (List ℕ)) → All IsPlainPart ps → nonempty ps ≡ ps
nonempty-plain [] h = refl
nonempty-plain (p ∷ ps) h = rw (h.0.0, nonempty-plain ps h.1) refl

-- Plain parts that are joined by commas are split into those parts.
pub split_gensio-commas :
    (p : List ℕ) (ps : List (List ℕ))
    → All IsPlainPart (p ∷ ps)
    → split_gensio (commas p ps) ≡ p ∷ ps
unfolding split_gensio
split_gensio-commas p ps h = ap nonempty (split_all-commas [] p ps h) ∙ nonempty-plain (p ∷ ps) h
