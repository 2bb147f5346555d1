-- ===== src/Bridge/Trace.antt =====
-- app/engine/bridge.py, `Tracer`: the queue before the writer thread, the format of a line, and the
-- rotation of the trace file, on a file system that does not fail.
pub mod Account
pub mod Rotation
pub mod Sizes
use ser2net.Common.Decimal.{decimal}
use ser2net.Common.{
  ℕ, zero, suc, ◌+◌, ◌-◌, ◌*◌, ◌/◌, ◌%◌, Bool, not, ◌||◌, Option, none, some, List, [], ◌∷◌, ◌++◌,
  ltb, leb, ◌==◌, if◌then◌else◌, length,
}

-- A chunk with the text of its arrival time, which is empty when timestamps are off.
pub record Chunk : Type 0 where
  pub stamp : List ℕ
  pub direction : List ℕ
  pub content : List ℕ

abbrev pub queue_max_bytes : ℕ
queue_max_bytes = 8 * 1024 * 1024

-- `queue` waits for the writer thread, `batch` has been taken by it.
pub record Tracer : Type 0 where
  pub is_open : Bool
  pub hex : Bool
  pub queue : List Chunk
  pub batch : List Chunk
  pub queued : ℕ
  pub dropped : ℕ

unfoldable pub write : Tracer → Chunk → Tracer
write t c =
    if not t.is_open || length c.content == 0
    then t
    else if ltb queue_max_bytes (t.queued + length c.content)
    then record t { dropped = t.dropped + length c.content }
    else record t { queued = t.queued + length c.content; queue = t.queue ++ c ∷ [] }

abbrev pub hex_digit : ℕ → ℕ
hex_digit d = if ltb d 10 then 48 + d else 87 + d

-- `data.hex(' ')`
unfoldable pub hex_dump : List ℕ → List ℕ
hex_dump [] = []
hex_dump (b ∷ []) = hex_digit (b / 16) ∷ hex_digit (b % 16) ∷ []
hex_dump (b ∷ c ∷ rest) = hex_digit (b / 16) ∷ hex_digit (b % 16) ∷ 32 ∷ hex_dump (c ∷ rest)

unfoldable pub format : Bool → Chunk → List ℕ
unfolding decimal hex_dump
format hex c =
    if hex
    then c.stamp
      ++ c.direction
      ++ (32 ∷ 91 ∷ decimal (suc (length c.content)) (length c.content))
      ++ (93 ∷ 32 ∷ hex_dump c.content)
      ++ (10 ∷ [])
    else c.stamp ++ c.direction ++ (32 ∷ c.content) ++ (10 ∷ [])

-- What the writer puts out: a chunk, or the notice of the bytes dropped since the last line.
pub data Entry : Type 0 where
  notice : ℕ → Entry
  line : Chunk → Entry

-- `self._q.get()` into the batch.
unfoldable pub fetch : Tracer → Tracer
fetch t = elim t.queue [ [] ↦ t | c ∷ rest ↦ record t { queue = rest; batch = t.batch ++ c ∷ [] } ]

-- One round over the batch.
unfoldable pub emit_from : Tracer → List Chunk → Tracer × List Entry
emit_from t [] = (t, [])
emit_from t (c ∷ rest) = (
  record t { batch = rest; queued = t.queued - length c.content; dropped = 0 },
  if t.dropped == 0 then line c ∷ [] else notice t.dropped ∷ line c ∷ [],
)

unfoldable pub emit : Tracer → Tracer × List Entry
unfolding emit_from
emit t = emit_from t t.batch

-- The files of a trace: 0 is the trace file, i is `<file>.i`.
abbrev pub Files : Type 0
Files = ℕ → Option (List ℕ)

abbrev pub set_file : Files → ℕ → Option (List ℕ) → Files
set_file files i content j = if j == i then content else files j

-- `if os.path.exists(src): os.replace(src, dst)`, for src the file before dst.
unfoldable pub shift_one : Files → ℕ → Files
shift_one files i = elim (files i) [
  | none ↦ files
  | some content ↦ set_file (set_file files (i + 1) (some content)) i none
]

-- The loop from `keep` down to 1.
unfoldable pub shift_all : Files → ℕ → Files
unfolding shift_one
shift_all files zero = files
shift_all files (suc i) = shift_all (shift_one files i) i

-- `open(path, "ab")` keeps what is there.
abbrev pub open_append : Files → Files
open_append files = elim (files 0) [ none ↦ set_file files 0 (some []) | some content ↦ files ]

unfoldable pub rotate : ℕ → Files → Files
unfolding shift_all
rotate zero files = set_file files 0 (some [])
rotate (suc keep) files = open_append (shift_all files (suc keep))

-- `_write`
unfoldable pub write_file : Files → List ℕ → Files
write_file files content = elim (files 0) [
  | none ↦ set_file files 0 (some content)
  | some old ↦ set_file files 0 (some (old ++ content))
]

-- `if pending: self._write(pending)`
unfoldable pub flush : List ℕ → Files → Files
unfolding write_file
flush [] files = files
flush (b ∷ pending) files = write_file files (b ∷ pending)

-- The loop of `_append`, with the size of the file and the pending lines.
unfoldable pub append_lines : ℕ → ℕ → ℕ → List ℕ → List (List ℕ) → Files → Files
unfolding flush rotate
append_lines max_bytes keep size pending [] files = flush pending files
append_lines max_bytes keep size pending (l ∷ lines) files =
    let full =
      append_lines max_bytes keep 0 [] lines (rotate keep (write_file files (pending ++ l))) in
    let more = append_lines max_bytes keep (size + length l) (pending ++ l) lines files in
    if leb max_bytes (size + length l) then full else more

abbrev pub size_of : Files → ℕ
size_of files = elim (files 0) [ none ↦ 0 | some content ↦ length content ]

unfoldable pub append : ℕ → ℕ → List (List ℕ) → Files → Files
unfolding append_lines
append max_bytes keep lines files = append_lines max_bytes keep (size_of files) [] lines files
