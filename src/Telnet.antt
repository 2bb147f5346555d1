-- ===== src/Telnet.antt =====
-- app/engine/protocols/telnet.py: IAC escaping and option negotiation of one client session.
-- A byte string is a `List ℕ`; the dicts of option states are functions from the option.
pub mod Escape
pub mod Negotiation
pub mod Settling
pub mod Tokens
mod Tests
use ser2net.Common.{
  ℕ, ◌*◌, Bool, true, false, not, ◌||◌, Option, none, some, List, [], ◌∷◌, ◌++◌, ltb, ◌==◌,
  if◌then◌else◌, length,
}

abbrev pub iac : ℕ
iac = 255

abbrev pub dont : ℕ
dont = 254

abbrev pub do_ : ℕ
do_ = 253

abbrev pub wont : ℕ
wont = 252

abbrev pub will : ℕ
will = 251

abbrev pub sb : ℕ
sb = 250

abbrev pub se : ℕ
se = 240

abbrev pub opt_binary : ℕ
opt_binary = 0

abbrev pub opt_sga : ℕ
opt_sga = 3

abbrev pub is_supported : ℕ → Bool
is_supported opt = opt == opt_binary || opt == opt_sga

pub data Mode : Type 0 where
  text after_iac option subneg subneg_iac : Mode

-- `dict.get`: none is a missing key.
abbrev pub Options : Type 0
Options = ℕ → Option Bool

abbrev pub update : Options → ℕ → Bool → Options
update options opt on j = if j == opt then some on else options j

pub record Session : Type 0 where
  pub net_out : List ℕ
  pub mode : Mode
  pub cmd : ℕ
  pub local_options : Options
  pub remote_options : Options

-- `not options.get(opt)` and `options.get(opt) is not False`.
abbrev pub is_off : Option Bool → Bool
is_off none = true
is_off (some on) = not on

abbrev pub not_false : Option Bool → Bool
not_false none = true
not_false (some on) = on

abbrev pub max_net_out : ℕ
max_net_out = 64 * 1024

-- `_send(IAC, verb, opt)`
unfoldable pub send : Session → ℕ → ℕ → Session
send s verb opt =
    if ltb (length s.net_out) max_net_out
    then record s { net_out = s.net_out ++ iac ∷ verb ∷ opt ∷ [] }
    else s

unfoldable pub set_local : Session → ℕ → Bool → Session
set_local s opt on = record s { local_options = update s.local_options opt on }

unfoldable pub set_remote : Session → ℕ → Bool → Session
set_remote s opt on = record s { remote_options = update s.remote_options opt on }

-- One round of the loop in `__init__`.
unfoldable pub request_option : Session → ℕ → Session
unfolding send set_local set_remote
request_option s opt = send (set_remote (send (set_local s opt true) will opt) opt true) do_ opt

unfoldable pub new_session : Session
unfolding request_option
new_session = request_option (request_option blank opt_binary) opt_sga
  where
    blank : Session
    blank = record {
      net_out = [];
      mode = text;
      cmd = 0;
      local_options = λ opt. none;
      remote_options = λ opt. none;
    }

unfoldable pub take_net_out : Session → Session × List ℕ
take_net_out s = (record s { net_out = [] }, s.net_out)

-- `data.replace(b"\xff", b"\xff\xff")`, which is `data` itself where it holds no 0xFF.
unfoldable pub from_serial : List ℕ → List ℕ
from_serial [] = []
from_serial (b ∷ rest) = if b == 0xFF then b ∷ b ∷ from_serial rest else b ∷ from_serial rest

-- The branches of `_negotiate` for DO, DONT, WILL and WONT.
unfoldable pub on_do : Session → ℕ → Session
unfolding send set_local
on_do s opt =
    if is_supported opt
    then if is_off (s.local_options opt) then send (set_local s opt true) will opt else s
    else if not_false (s.local_options opt)
    then send (set_local s opt false) wont opt
    else s

unfoldable pub on_dont : Session → ℕ → Session
unfolding send set_local
on_dont s opt = if not_false (s.local_options opt) then send (set_local s opt false) wont opt else s

unfoldable pub on_will : Session → ℕ → Session
unfolding send set_remote
on_will s opt =
    if is_supported opt
    then if is_off (s.remote_options opt) then send (set_remote s opt true) do_ opt else s
    else if not_false (s.remote_options opt)
    then send (set_remote s opt false) dont opt
    else s

unfoldable pub on_wont : Session → ℕ → Session
unfolding send set_remote
on_wont s opt =
    if not_false (s.remote_options opt) then send (set_remote s opt false) dont opt else s

unfoldable pub negotiate : Session → ℕ → ℕ → Session
negotiate s cmd opt =
    if cmd == do_
    then on_do s opt
    else if cmd == dont
    then on_dont s opt
    else if cmd == will
    then on_will s opt
    else if cmd == wont
    then on_wont s opt
    else s

abbrev pub set_mode : Session → Mode → Session
set_mode s mode = record s { mode = mode }

abbrev pub is_command : ℕ → Bool
is_command b = b == do_ || (b == dont || (b == will || b == wont))

-- One byte of the loop in `from_network`, in each state, with what it appends to `out`.
unfoldable pub step : Mode → Session → ℕ → Session × List ℕ
step text s b = if b == iac then (set_mode s after_iac, []) else (s, b ∷ [])
step after_iac s b =
    if b == iac
    then (set_mode s text, iac ∷ [])
    else if is_command b
    then (record s { cmd = b; mode = option }, [])
    else if b == sb
    then (set_mode s subneg, [])
    else (set_mode s text, [])
step option s b = (set_mode (negotiate s s.cmd b) text, [])
step subneg s b = if b == iac then (set_mode s subneg_iac, []) else (s, [])
step subneg_iac s b = (set_mode s (if b == se then text else subneg), [])

unfoldable pub from_network : Session → List ℕ → Session × List ℕ
unfolding step
from_network s [] = (s, [])
from_network s (b ∷ rest) =
    let (s', out) = step s.mode s b in let (s'', more) = from_network s' rest in (s'', out ++ more)
