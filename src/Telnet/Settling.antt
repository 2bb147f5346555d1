-- ===== src/Telnet/Settling.antt =====
-- app/engine/protocols/telnet.py, `_negotiate`: commands that are repeated.
use ser2net.Common.{ℕ, ◌≡◌, inl, inr, Bool, false, some, arith, Bool-cases}
use ser2net.Telnet.{
  Session, Options, update, is_supported, on_do, on_dont, on_will, on_wont, negotiate,
}

update_self : (options : Options) (opt : ℕ) (on : Bool) → update options opt on opt ≡ some on
update_self options opt on = ground arith

-- Where a session has an option in the state that the command asks for, it stays silent.
do_silent :
    (s : Session) (opt : ℕ) → s.local_options opt ≡ some (is_supported opt) → on_do s opt ≡ s
unfolding on_do
do_silent s opt h = elim (Bool-cases (is_supported opt)) [
  | inl e ↦ ground arith
  | inr e ↦ ground arith
]

will_silent :
    (s : Session) (opt : ℕ) → s.remote_options opt ≡ some (is_supported opt) → on_will s opt ≡ s
unfolding on_will
will_silent s opt h = elim (Bool-cases (is_supported opt)) [
  | inl e ↦ ground arith
  | inr e ↦ ground arith
]

dont_silent : (s : Session) (opt : ℕ) → s.local_options opt ≡ some false → on_dont s opt ≡ s
unfolding on_dont
dont_silent s opt h = ground arith

wont_silent : (s : Session) (opt : ℕ) → s.remote_options opt ≡ some false → on_wont s opt ≡ s
unfolding on_wont
wont_silent s opt h = ground arith

do_settles : (s : Session) (opt : ℕ) → (on_do s opt).local_options opt ≡ some (is_supported opt)
unfolding on_do
do_settles s opt = elim (Bool-cases (is_supported opt)) [
  | inl e ↦ ground arith
  | inr e ↦ ground arith
]

will_settles :
    (s : Session) (opt : ℕ) → (on_will s opt).remote_options opt ≡ some (is_supported opt)
unfolding on_will
will_settles s opt = elim (Bool-cases (is_supported opt)) [
  | inl e ↦ ground arith
  | inr e ↦ ground arith
]

dont_settles : (s : Session) (opt : ℕ) → (on_dont s opt).local_options opt ≡ some false
unfolding on_dont
dont_settles s opt = ground arith

wont_settles : (s : Session) (opt : ℕ) → (on_wont s opt).remote_options opt ≡ some false
unfolding on_wont
wont_settles s opt = ground arith

-- A command that is repeated is not answered again and changes nothing.
pub negotiate_repeated :
    (s : Session) (cmd opt : ℕ) → negotiate (negotiate s cmd opt) cmd opt ≡ negotiate s cmd opt
unfolding negotiate
negotiate_repeated s cmd opt = ground (
  arith,
  do_silent (on_do s opt) opt (do_settles s opt),
  dont_silent (on_dont s opt) opt (dont_settles s opt),
  will_silent (on_will s opt) opt (will_settles s opt),
  wont_silent (on_wont s opt) opt (wont_settles s opt),
)
