-- ===== src/Import/Strings.antt =====
-- app/ser2net_import.py, `_convert`: the escapes in banners, strings and names of trace files.
pub mod RoundTrip
use ser2net.Common.{
  length, zero, ℕ, suc, ◌+◌, ◌-◌, ◌*◌, ◌%◌, Bool, true, false, not, ◌&&◌, ◌||◌, Option, none, some,
  List, [], ◌∷◌, ◌++◌, leb, ◌==◌, if◌then◌else◌,
}
use ser2net.Common.Int.{pos, negsuc}
use ser2net.Common.Texts.{codes, is_any_of}
use ser2net.Common.Decimal.{str}
use ser2net.Config.{Floats, Scalar, boolean, integer, real, other}
use ser2net.Import.{Conn, note, fixed_text, left_out}

pub data Kind : Type 0 where
  banner bytes file : Kind

-- `_GONE`
abbrev pub gone : ℕ
gone = 0xE000

abbrev pub is_hex : ℕ → Bool
is_hex c = leb b'0' c && leb c b'9' || leb b'a' c && leb c b'f' || leb b'A' c && leb c b'F'

abbrev pub hex_value : ℕ → ℕ
hex_value c = if leb c b'9' then c - 48 else if leb b'a' c then c - 87 else c - 55

abbrev pub is_octal : ℕ → Bool
is_octal c = leb b'0' c && leb c b'7'

-- The first characters of a class, at most `n` of them.
abbrev pub run_of : (ℕ → Bool) → ℕ → List ℕ → List ℕ
run_of is_in zero cs = []
run_of is_in (suc n) [] = []
run_of is_in (suc n) (c ∷ cs) = let more = run_of is_in n cs in if is_in c then c ∷ more else []

-- What `_ESCAPE` matches behind a backslash.
pub data Escape : Type 0 where
  hex octal : List ℕ → Escape
  char : ℕ → Escape

abbrev pub x_escape : List ℕ → Escape
x_escape [] = char b'x'
x_escape (d ∷ digits) = hex (d ∷ digits)

abbrev pub escape_of : ℕ → List ℕ → Escape
escape_of c cs =
    if c == b'x'
    then x_escape (run_of is_hex 2 cs)
    else if is_octal c
    then octal (run_of is_octal 3 (c ∷ cs))
    else char c

abbrev pub escape_length : Escape → ℕ
escape_length (hex digits) = suc (length digits)
escape_length (octal digits) = length digits
escape_length (char c) = 1

abbrev pub value_in : ℕ → ℕ → List ℕ → ℕ
value_in base acc [] = acc
value_in base acc (d ∷ digits) = value_in base (acc * base + hex_value d) digits

-- `_C_ESCAPES`
abbrev pub c_escape : ℕ → Option ℕ
c_escape c =
    if c == b'a'
    then some 7
    else if c == b'b'
    then some 8
    else if c == b'f'
    then some 12
    else if c == b't'
    then some 9
    else if c == b'v'
    then some 11
    else if c == b'\\' || c == b'?' || c == b'\'' || c == b'"'
    then some c
    else none

abbrev pub is_in : ℕ → List ℕ → Bool
is_in c [] = false
is_in c (d ∷ ds) = c == d || is_in c ds

-- `_TIME_ESCAPES`
abbrev pub time_escapes : List ℕ
time_escapes = codes "YyMmADeUHhiSqPT"

abbrev pub after_slash : List ℕ → List ℕ → List ℕ
after_slash last [] = last
after_slash last (c ∷ cs) =
    let new = after_slash [] cs in
    let more = after_slash (last ++ (c ∷ [])) cs in if c == b'/' then new else more

abbrev pub is_banner : Kind → Bool
is_banner banner = true
is_banner bytes = false
is_banner file = false

abbrev pub is_file : Kind → Bool
is_file banner = false
is_file bytes = false
is_file file = true

-- What an escape becomes: a text, the serial parameters, or nothing.
pub data Outcome : Type 0 where
  plain : List ℕ → Outcome
  serial dropped : ℕ → Outcome

-- The text so far, and the escapes that were written as fixed text and left out.
pub record Converted : Type 0 where
  pub out : List ℕ
  pub fixed : List (List ℕ)
  pub lost : List (List ℕ)

abbrev pub nothing : Converted
nothing = record { out = []; fixed = []; lost = [] }

-- `list(dict.fromkeys(texts))`
abbrev pub unique : List (List ℕ) → List (List ℕ) → List (List ℕ)
unique seen [] = []
unique seen (t ∷ texts) =
    let old = unique seen texts in
    let new = unique (t ∷ seen) texts in if is_any_of t seen then old else t ∷ new

abbrev pub is_separator : ℕ → Bool
is_separator c = c == b'-' || c == b'_' || c == b'.' || c == b':' || c == b' '

-- In a file name what is gone takes the separator before it along.
unfoldable pub drop_gone : Bool → List ℕ → List ℕ
drop_gone in_file [] = []
drop_gone in_file (x ∷ []) = if x == gone then [] else x ∷ []
drop_gone in_file (x ∷ y ∷ cs) =
    let next = drop_gone in_file (y ∷ cs) in
    let behind = drop_gone in_file cs in
    if x == gone then next else if in_file && is_separator x && y == gone then behind else x ∷ next

-- `text.replace("\r", "\\r").replace("\n", "\\n")`
abbrev pub escape_lines : List ℕ → List ℕ
escape_lines [] = []
escape_lines (c ∷ cs) =
    let rest = escape_lines cs in
    if c == 13 then b'\\' ∷ b'r' ∷ rest else if c == 10 then b'\\' ∷ b'n' ∷ rest else c ∷ rest

module _ (fl : Floats) where
  -- A connection has integers only.
  abbrev pub text_of : Scalar fl → List ℕ
  text_of (integer (pos n)) = str n
  text_of (integer (negsuc n)) = b'-' ∷ str (suc n)
  text_of (boolean b) = []
  text_of (real x) = []
  text_of other = []

  abbrev pub serial_text : Conn fl → List ℕ
  serial_text c =
      text_of c.serial.baudrate
      ++ (codes c.serial.parity ++ (text_of c.serial.bytesize ++ text_of c.serial.stopbits))

  abbrev pub line_escape : Kind → ℕ → List ℕ
  line_escape kind ch =
      if is_banner kind then b'\\' ∷ ch ∷ [] else if ch == b'r' then 13 ∷ [] else 10 ∷ []

  abbrev pub device_escape : Kind → Conn fl → List ℕ
  device_escape banner c = b'\\' ∷ b'd' ∷ []
  device_escape file c = after_slash [] c.device
  device_escape bytes c = c.device

  -- `one`, of a character that is none of `_C_ESCAPES`.
  abbrev pub other_char : Conn fl → Kind → ℕ → Outcome
  other_char c kind ch =
      if ch == b'r' || ch == b'n'
      then plain (line_escape kind ch)
      else if ch == b'd' || ch == b'o'
      then plain (device_escape kind c)
      else if ch == b'p'
      then plain (if is_banner kind then b'\\' ∷ b'p' ∷ [] else text_of c.network.port)
      else if ch == b'N' && not c.v3
      then plain (if is_banner kind then b'\\' ∷ b'N' ∷ [] else c.name)
      else if ch == b'I' && is_banner kind
      then plain (b'\\' ∷ b'I' ∷ [])
      else if ch == b'B' || ch == b's' && not (is_file kind)
      then serial ch
      else if is_in ch time_escapes || ch == b'I' || ch == b's'
      then dropped ch
      else plain (ch ∷ [])

  abbrev pub one_char : Option ℕ → Conn fl → Kind → ℕ → Outcome
  one_char (some v) c kind ch = plain (v ∷ [])
  one_char none c kind ch = other_char c kind ch

  unfoldable pub one : Conn fl → Kind → Escape → Outcome
  one c kind (hex digits) = plain (value_in 16 0 digits ∷ [])
  one c kind (octal digits) = plain ((value_in 8 0 digits % 256) ∷ [])
  one c kind (char ch) = one_char (c_escape ch) c kind ch

  abbrev pub put : Conn fl → Outcome → Converted → Converted
  put c (plain text) rest = record rest { out = text ++ rest.out }
  put c (serial ch) rest = record rest {
    out = serial_text c ++ rest.out;
    fixed = (b'\\' ∷ ch ∷ []) ∷ rest.fixed;
  }
  put c (dropped ch) rest = record rest {
    out = gone ∷ rest.out;
    lost = (b'\\' ∷ ch ∷ []) ∷ rest.lost;
  }

  -- Behind a backslash: `rest` is what becomes of the text behind so many characters.
  abbrev pub at_backslash : Conn fl → Kind → List ℕ → (ℕ → Converted) → Converted
  at_backslash c kind [] rest = record nothing { out = b'\\' ∷ [] }
  at_backslash c kind (d ∷ ds) rest =
      let e = escape_of d ds in put c (one c kind e) (rest (escape_length e))

  -- `_ESCAPE.sub(one, text)`, when the first characters were matched already.
  unfoldable pub escapes : Conn fl → Kind → ℕ → List ℕ → Converted
  unfolding one
  escapes c kind skipped [] = nothing
  escapes c kind (suc skipped) (x ∷ cs) = escapes c kind skipped cs
  escapes c kind zero (x ∷ cs) =
      let escaped = at_backslash c kind cs (λ n. escapes c kind n cs) in
      let rest = escapes c kind zero cs in
      if x == b'\\' then escaped else record rest { out = x ∷ rest.out }

  abbrev pub note_fixed : List ℕ → List (List ℕ) → Conn fl → Conn fl
  note_fixed what [] c = c
  note_fixed what (e ∷ fixed) c =
      note fl (fixed_text what (unique [] (e ∷ fixed)) (serial_text c)) c

  abbrev pub note_lost : Kind → List ℕ → List (List ℕ) → Conn fl → Conn fl
  note_lost kind what [] c = c
  note_lost kind what (e ∷ lost) c = note fl (left_out (is_file kind) what (unique [] (e ∷ lost))) c

  -- `_convert`: the text, and the connection with its notes.
  unfoldable pub convert : Conn fl → List ℕ → Kind → List ℕ → Conn fl × List ℕ
  unfolding escapes drop_gone
  convert c text kind what =
      let r = escapes c kind zero (if is_banner kind then escape_lines text else text) in
      (note_lost kind what r.lost (note_fixed what r.fixed c), drop_gone (is_file kind) r.out)
