-- ===== src/Mqtt.antt =====
-- app/engine/mqtt_pub.py, `MqttPublisher.feed`: serial bytes become one message for each line. The
-- client of the MQTT library is the list of what is published to it.
pub mod Split
pub mod Lines
mod Tests
use ser2net.Common.{
  ℕ, zero, suc, ◌-◌, Bool, not, ◌&&◌, Option, none, some, List, [], ◌∷◌, ◌++◌, ltb, ◌==◌,
  if◌then◌else◌, length, drop,
}

abbrev pub newline : ℕ
newline = 10

abbrev pub max_line_buffer : ℕ
max_line_buffer = 65536

pub record Publisher : Type 0 where
  pub connected : Bool
  pub buf : List ℕ

-- `buf.find(b"\n")`, as what stands before the newline and what stands after it.
unfoldable pub find_newline : List ℕ → Option (List ℕ × List ℕ)
find_newline [] = none
find_newline (b ∷ bytes) =
    let later = find_newline bytes in
    if b == newline
    then some ([], bytes)
    else elim later [ none ↦ none | some (line, rest) ↦ some (b ∷ line, rest) ]

-- `rstrip(b"\r")`
unfoldable pub rstrip : List ℕ → List ℕ
rstrip [] = []
rstrip (b ∷ bytes) =
    let rest = rstrip bytes in if b == 13 && (length rest == 0) then [] else b ∷ rest

-- `if line: self._publish(...)`, before the lines that follow.
abbrev pub publish : List ℕ → List (List ℕ) → List (List ℕ)
publish [] later = later
publish (b ∷ line) later = (b ∷ line) ∷ later

-- The loop, on fuel: every round takes a newline off the buffer.
unfoldable pub drain_lines : ℕ → List ℕ → List (List ℕ) × List ℕ
unfolding find_newline rstrip
drain_lines zero buf = ([], buf)
drain_lines (suc fuel) buf = elim (find_newline buf) [
  | none ↦ ([], buf)
  | some (line, rest) ↦
      let (later, left) = drain_lines fuel rest in (publish (rstrip line) later, left)
]

-- `del self._buf[:-4096]`
abbrev pub bounded : List ℕ → List ℕ
bounded buf = if ltb max_line_buffer (length buf) then drop (length buf - 4096) buf else buf

unfoldable pub feed : Publisher → List ℕ → Publisher × List (List ℕ)
unfolding drain_lines
feed p bytes =
    if not p.connected
    then (p, [])
    else let buf = p.buf ++ bytes in
      let (lines, left) = drain_lines (length buf) buf in (record p { buf = bounded left }, lines)

unfoldable pub feed_all : Publisher → List (List ℕ) → Publisher × List (List ℕ)
unfolding feed
feed_all p [] = (p, [])
feed_all p (chunk ∷ chunks) =
    let (p', now) = feed p chunk in let (p'', later) = feed_all p' chunks in (p'', now ++ later)
