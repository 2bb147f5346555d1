-- ===== src/Import/Text.antt =====
-- app/ser2net_import.py: the words and the gensio strings of a ser2net configuration.
pub mod Split
use ser2net.Common.{
  ℕ, ◌+◌, ◌-◌, Bool, true, false, ◌&&◌, ◌||◌, Option, none, some, List, [], ◌∷◌, ◌++◌, leb, ◌==◌,
  is_nil, if◌then◌else◌,
}
use ser2net.Common.Texts.{codes, strip, is_any_of, is_space, lstrip_of}

-- `str.lower` as far as it matters to the ASCII words that the results are compared with: the Kelvin
-- sign is the one other character whose small letter is in ASCII.
abbrev pub lower_char : ℕ → ℕ
lower_char c = if leb b'A' c && leb c b'Z' then c + 32 else if c == 0x212A then b'k' else c

abbrev pub lower : List ℕ → List ℕ
lower [] = []
lower (c ∷ cs) = lower_char c ∷ lower cs

abbrev pub true_words : List (List ℕ)
true_words = codes "true" ∷ codes "yes" ∷ codes "on" ∷ codes "1" ∷ []

abbrev pub false_words : List (List ℕ)
false_words = codes "false" ∷ codes "no" ∷ codes "off" ∷ codes "0" ∷ []

-- `_bool`
unfoldable pub bool_of : List ℕ → Option Bool
unfolding strip
bool_of value =
    let v = lower (strip value) in
    if is_any_of v true_words
    then some true
    else if is_any_of v false_words
    then some false
    else none

-- The loop of `_split_gensio`. After a backslash outside quotes the next character is taken as it
-- is: `escaped` is true there.
pub record Splitter : Type 0 where
  pub parts : List (List ℕ)
  pub buf : List ℕ
  pub depth : ℕ
  pub quote : Option ℕ
  pub escaped : Bool

abbrev pub start : Splitter
start = record { parts = []; buf = []; depth = 0; quote = none; escaped = false }

abbrev pub add : Splitter → ℕ → Splitter
add s ch = record s { buf = s.buf ++ (ch ∷ []); escaped = false }

abbrev pub split_char : Splitter → ℕ → Splitter
split_char s ch =
    if ch == b'\\'
    then record s { buf = s.buf ++ (ch ∷ []); escaped = true }
    else if ch == b'"' || ch == b'\''
    then record s { buf = s.buf ++ (ch ∷ []); quote = some ch }
    else if ch == b'('
    then record s { buf = s.buf ++ (ch ∷ []); depth = s.depth + 1 }
    else if ch == b')'
    then record s { buf = s.buf ++ (ch ∷ []); depth = s.depth - 1 }
    else if ch == b',' && s.depth == 0
    then record s { parts = s.parts ++ (strip s.buf ∷ []); buf = [] }
    else add s ch

abbrev pub in_quote : Option ℕ → Splitter → ℕ → Splitter
in_quote none s ch = if s.escaped then add s ch else split_char s ch
in_quote (some q) s ch = record s {
  buf = s.buf ++ (ch ∷ []);
  quote = if ch == q then none else some q;
}

unfoldable pub split_all : Splitter → List ℕ → Splitter
unfolding strip
split_all s [] = s
split_all s (ch ∷ spec) = split_all (in_quote s.quote s ch) spec

abbrev pub nonempty : List (List ℕ) → List (List ℕ)
nonempty [] = []
nonempty (p ∷ ps) = let rest = nonempty ps in if is_nil p then rest else p ∷ rest

unfoldable pub split_gensio : List ℕ → List (List ℕ)
unfolding split_all strip
split_gensio spec = let s = split_all start spec in nonempty (s.parts ++ (strip s.buf ∷ []))

abbrev pub is_layer_char : ℕ → Bool
is_layer_char c =
    leb b'A' c && leb c b'Z'
    || leb b'a' c && leb c b'z'
    || leb b'0' c && leb c b'9'
    || c == b'_'
    || c == b'-'

-- The longest run of characters of a layer's name, and the rest.
abbrev pub name_and_rest : List ℕ → List ℕ × List ℕ
name_and_rest [] = ([], [])
name_and_rest (c ∷ cs) =
    let (name, rest) = name_and_rest cs in
    if is_layer_char c then (c ∷ name, rest) else ([], c ∷ cs)

-- What stands before a last `)`.
abbrev pub closed : List ℕ → Option (List ℕ)
closed [] = none
closed (c ∷ []) = if c == b')' then some [] else none
closed (c ∷ d ∷ cs) = elim (closed (d ∷ cs)) [ none ↦ none | some inner ↦ some (c ∷ inner) ]

abbrev pub options_of : List ℕ → Option (List ℕ)
options_of [] = none
options_of (c ∷ cs) = if c == b'(' then closed cs else none

abbrev pub layer_of : List ℕ → List ℕ → Option (List ℕ) → List ℕ × List (List ℕ)
layer_of part name none = (part, [])
layer_of part [] (some inner) = (part, [])
layer_of part (c ∷ name) (some inner) = (c ∷ name, split_gensio inner)

-- `_layer`, of a stripped part.
unfoldable pub layer : List ℕ → List ℕ × List (List ℕ)
unfolding split_gensio
layer part =
    let (name, rest) = name_and_rest part in
    layer_of part name (options_of (lstrip_of is_space rest))
