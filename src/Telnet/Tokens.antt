-- ===== src/Telnet/Tokens.antt =====
-- app/engine/protocols/telnet.py, `from_network`: the tokens of a stream.
use ser2net.Common.{
  ℕ, ◌≡◌, refl, ◌∙◌, ◌≢◌, true, false, List, [], ◌∷◌, ◌++◌, append_assoc, arith, All,
}
use ser2net.Telnet.{
  Session, Mode, text, after_iac, option, subneg, iac, sb, se, set_mode, is_command, negotiate,
  step, from_serial, from_network,
}
use ser2net.Telnet.Escape.{text_byte, escaped_iac, set_mode_self}

pub data Token : Type 0 where
  byte : ℕ → Token
  literal_iac : Token
  command : ℕ → ℕ → Token
  subnegotiation : List ℕ → Token
  ignored : ℕ → Token

-- How a peer writes a token.
abbrev pub render : Token → List ℕ
render (byte b) = b ∷ []
render literal_iac = iac ∷ iac ∷ []
render (command cmd opt) = iac ∷ cmd ∷ opt ∷ []
render (subnegotiation payload) = iac ∷ sb ∷ from_serial payload ++ iac ∷ se ∷ []
render (ignored c) = iac ∷ c ∷ []

-- Tokens that are told apart: a data byte is no IAC, a command is one of the four, and the other
-- two-byte commands are none of those that mean something.
abbrev pub IsToken : Token → Type 0
IsToken (byte b) = b ≢ iac
IsToken literal_iac = Unit {0}
IsToken (command cmd opt) = is_command cmd ≡ true
IsToken (subnegotiation payload) = Unit {0}
IsToken (ignored c) = (c ≢ iac) × (is_command c ≡ false) × (c ≢ sb)

-- The bytes for the serial port, and the session after the token.
abbrev pub data_of : Token → List ℕ
data_of (byte b) = b ∷ []
data_of literal_iac = iac ∷ []
data_of (command cmd opt) = []
data_of (subnegotiation payload) = []
data_of (ignored c) = []

abbrev pub after : Session → Token → Session
after s (command cmd opt) =
    set_mode (negotiate (record s { cmd = cmd; mode = option }) cmd opt) text
after s (byte b) = s
after s literal_iac = s
after s (subnegotiation payload) = s
after s (ignored c) = s

set_mode_idem : (s : Session) (m n : Mode) → s.mode ≡ n → set_mode (set_mode s m) n ≡ s
set_mode_idem s m n h = set_mode_self s h

-- Inside a subnegotiation the escaped payload is skipped.
skip_payload :
    (s : Session) (payload rest : List ℕ)
    → from_network (set_mode s subneg) (from_serial payload ++ rest)
      ≡ from_network (set_mode s subneg) rest
unfolding from_network from_serial
skip_payload s [] rest = refl
skip_payload s (b ∷ payload) rest = ground (arith, skip_payload s payload rest)

-- After an IAC the session waits for the command.
after_iac_lem :
    (s : Session) (rest : List ℕ)
    → s.mode ≡ text
    → from_network s (iac ∷ rest) ≡ from_network (set_mode s after_iac) rest
unfolding from_network
after_iac_lem s rest h =
    let e : step s.mode s iac ≡ (set_mode s after_iac, []) = rw h (unfold step in refl) in rw e

read_command :
    (s : Session) (cmd opt : ℕ) (rest : List ℕ)
    → is_command cmd ≡ true
    → from_network (set_mode s after_iac) (cmd ∷ opt ∷ rest)
      ≡ from_network (after s (command cmd opt)) rest
unfolding from_network
read_command s cmd opt rest h =
    let e : step after_iac (set_mode s after_iac) cmd
        ≡ (record s { cmd = cmd; mode = option }, []) =
      unfold step in ground arith in
    rw e (unfold step in refl)

read_ignored :
    (s : Session) (c : ℕ) (rest : List ℕ)
    → IsToken (ignored c)
    → from_network (set_mode s after_iac) (c ∷ rest) ≡ from_network (set_mode s text) rest
unfolding from_network
read_ignored s c rest h =
    let e : step after_iac (set_mode s after_iac) c ≡ (set_mode s text, []) =
      unfold step in ground arith in
    rw e

read_subnegotiation :
    (s : Session) (payload rest : List ℕ)
    → from_network (set_mode s after_iac) (sb ∷ from_serial payload ++ iac ∷ se ∷ rest)
      ≡ from_network (set_mode s text) rest
unfolding from_network
read_subnegotiation s payload rest =
    let e : from_network (set_mode s subneg) (iac ∷ se ∷ rest)
        ≡ from_network (set_mode s text) rest =
      unfold step in refl in
    let e' = skip_payload s payload (iac ∷ se ∷ rest) ∙ e in unfold step in ground (arith, e')

-- Each token yields its data and its change of the session, whatever follows it.
pub from_network-render :
    (s : Session) (t : Token) (rest : List ℕ)
    → s.mode ≡ text
    → IsToken t
    → from_network s (render t ++ rest)
      ≡ ((from_network (after s t) rest).0, data_of t ++ (from_network (after s t) rest).1)
from_network-render s (byte b) rest h ok = text_byte s b rest h ok
from_network-render s literal_iac rest h ok = escaped_iac s rest h
from_network-render s (command cmd opt) rest h ok =
    after_iac_lem s (cmd ∷ opt ∷ rest) h ∙ read_command s cmd opt rest ok
from_network-render s (ignored c) rest h ok =
    after_iac_lem s (c ∷ rest) h ∙ read_ignored s c rest ok ∙ rw (set_mode_self s h)
from_network-render s (subnegotiation payload) rest h ok =
    rw (append_assoc (from_serial payload) (iac ∷ se ∷ []) rest)
      (after_iac_lem s _ h ∙ read_subnegotiation s payload rest ∙ rw (set_mode_self s h))

pub render_all : List Token → List ℕ
render_all [] = []
render_all (t ∷ ts) = render t ++ render_all ts

pub data_all : List Token → List ℕ
data_all [] = []
data_all (t ∷ ts) = data_of t ++ data_all ts

pub after_all : Session → List Token → Session
after_all s [] = s
after_all s (t ∷ ts) = after_all (after s t) ts

after_text : (s : Session) (t : Token) → s.mode ≡ text → (after s t).mode ≡ text
after_text s (byte b) h = h
after_text s literal_iac h = h
after_text s (command cmd opt) h = refl
after_text s (subnegotiation payload) h = h
after_text s (ignored c) h = h

-- A session between commands reads a stream of tokens as those tokens: their data bytes in order,
-- and one negotiation step for each option command; all else is left out.
pub from_network-render_all :
    (s : Session) (ts : List Token)
    → s.mode ≡ text
    → All IsToken ts
    → from_network s (render_all ts) ≡ (after_all s ts, data_all ts)
unfolding render_all data_all after_all
from_network-render_all s [] h ok = unfold from_network in refl
from_network-render_all s (t ∷ ts) h ok =
    from_network-render s t (render_all ts) h ok.0
    ∙ rw (from_network-render_all (after s t) ts (after_text s t h) ok.1)
