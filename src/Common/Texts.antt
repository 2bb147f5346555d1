-- ===== src/Common/Texts.antt =====
-- Strings: `String` where the source only compares whole strings, a list of code points where it
-- walks them.
use Prim.Native.Nat.{ℕ}
use Prim.Native.Char.{code}
use Prim.Native.String.{String}
use text.Mathlib.Text
use text.Mathlib.TextEquality.{eq_iff}
use mathlib.Core.Path.{◌≡◌, refl}
use mathlib.Core.Logic.{◌↔◌}
use mathlib.Core.Bool.{Bool, true, false, ◌&&◌, ◌||◌}
use mathlib.Core.List.{List, [], ◌∷◌}
use ser2net.Common.Equal.{bytes_eq, bytes_eq_refl, bytes_eq→eq}
use ser2net.Common.Tests.{leb, ◌==◌, if◌then◌else◌}

abbrev pub codes : String → List ℕ
codes String.[] = []
codes (String.◌∷◌ c s) = code c ∷ codes s

-- Python's `==` of strings.
abbrev pub same : String → String → Bool
same s t = Text.◌==◌ s t

pub same_iff : (s t : String) → (same s t ≡ true) ↔ (s ≡ t)
same_iff s t = eq_iff s t

pub same_refl : (s : String) → same s s ≡ true
same_refl s = (eq_iff s s).1 refl

-- `s in (...)`
abbrev pub is_one_of : String → List String → Bool
is_one_of s [] = false
is_one_of s (t ∷ ts) = same s t || is_one_of s ts

-- The same for code points.
abbrev pub is_any_of : List ℕ → List (List ℕ) → Bool
is_any_of s [] = false
is_any_of s (t ∷ ts) = bytes_eq s t || is_any_of s ts

pub bytes_eq_iff : (s t : List ℕ) → (bytes_eq s t ≡ true) ↔ (s ≡ t)
bytes_eq_iff s t = (bytes_eq→eq s t, λ e. rw (e) (bytes_eq_refl t))

-- `str.isspace` of one character, of every script.
abbrev pub is_space : ℕ → Bool
is_space c =
    leb 9 c && leb c 13
    || leb 28 c && leb c 32
    || c == 0x85
    || c == 0xA0
    || c == 0x1680
    || leb 0x2000 c && leb c 0x200A
    || c == 0x2028
    || c == 0x2029
    || c == 0x202F
    || c == 0x205F
    || c == 0x3000

abbrev pub all_space : List ℕ → Bool
all_space [] = true
all_space (c ∷ cs) = is_space c && all_space cs

-- `not s.strip()`
unfoldable pub is_blank : String → Bool
is_blank s = all_space (codes s)

-- `not s`
abbrev pub is_empty : String → Bool
is_empty String.[] = true
is_empty (String.◌∷◌ c s) = false

-- `str.lstrip()`, `str.rstrip()` and `str.strip()` on code points, for the characters of a test.
abbrev pub lstrip_of : (ℕ → Bool) → List ℕ → List ℕ
lstrip_of p [] = []
lstrip_of p (c ∷ cs) = if p c then lstrip_of p cs else c ∷ cs

abbrev pub keep_last : (ℕ → Bool) → ℕ → List ℕ → List ℕ
keep_last p c [] = if p c then [] else c ∷ []
keep_last p c (d ∷ ds) = c ∷ d ∷ ds

abbrev pub rstrip_of : (ℕ → Bool) → List ℕ → List ℕ
rstrip_of p [] = []
rstrip_of p (c ∷ cs) = keep_last p c (rstrip_of p cs)

abbrev pub strip_of : (ℕ → Bool) → List ℕ → List ℕ
strip_of p cs = rstrip_of p (lstrip_of p cs)

unfoldable pub strip : List ℕ → List ℕ
strip cs = strip_of is_space cs
