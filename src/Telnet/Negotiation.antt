-- ===== src/Telnet/Negotiation.antt =====
-- app/engine/protocols/telnet.py, option negotiation: what stays true of a session.
use ser2net.Common.{
  ℕ, ◌+◌, ◌<◌, ◌≡◌, Bool, true, false, some, List, [], ◌∷◌, arith, ltb, ◌==◌, if-elim, ltb→lt,
  length, length-append,
}
use ser2net.Telnet.{
  Session, Mode, text, after_iac, option, subneg, subneg_iac, iac, Options, update, is_supported,
  is_command, max_net_out, do_, dont, will, wont, send, set_local, set_remote, new_session, on_do,
  on_dont, on_will, on_wont, negotiate, step, from_network, take_net_out,
}

-- The reply buffer keeps its bound, and only supported options are ever switched on.
pub record IsSafe (s : Session) : Type 0 where
  pub bounded : length s.net_out < max_net_out + 3
  pub local_supported : (opt : ℕ) → s.local_options opt ≡ some true → is_supported opt ≡ true
  pub remote_supported : (opt : ℕ) → s.remote_options opt ≡ some true → is_supported opt ≡ true

update_supported :
    (options : Options) (opt j : ℕ) (on : Bool)
    → (options j ≡ some true → is_supported j ≡ true)
    → (on ≡ true → is_supported opt ≡ true)
    → update options opt on j ≡ some true
    → is_supported j ≡ true
update_supported options opt j on old fresh h = ground arith

send-IsSafe : {s : Session} (verb opt : ℕ) → IsSafe s → IsSafe (send s verb opt)
unfolding send
send-IsSafe {s} verb opt v =
    if-elim IsSafe (ltb (length s.net_out) max_net_out)
      (λ room. record {
        bounded =
            let size = length-append s.net_out (iac ∷ verb ∷ opt ∷ []) in
            omega (arith, size, ltb→lt (length s.net_out) max_net_out room);
        local_supported = v.local_supported;
        remote_supported = v.remote_supported;
      })
      (λ _. v)

set_local-IsSafe :
    {s : Session} (opt : ℕ) (on : Bool)
    → (on ≡ true → is_supported opt ≡ true)
    → IsSafe s
    → IsSafe (set_local s opt on)
unfolding set_local
set_local-IsSafe {s} opt on fresh v = record {
  bounded = v.bounded;
  local_supported = λ j. update_supported s.local_options opt j on (v.local_supported j) fresh;
  remote_supported = v.remote_supported;
}

set_remote-IsSafe :
    {s : Session} (opt : ℕ) (on : Bool)
    → (on ≡ true → is_supported opt ≡ true)
    → IsSafe s
    → IsSafe (set_remote s opt on)
unfolding set_remote
set_remote-IsSafe {s} opt on fresh v = record {
  bounded = v.bounded;
  local_supported = v.local_supported;
  remote_supported = λ j. update_supported s.remote_options opt j on (v.remote_supported j) fresh;
}

on_do-IsSafe : {s : Session} (opt : ℕ) → IsSafe s → IsSafe (on_do s opt)
unfolding on_do
on_do-IsSafe opt v =
    if-elim IsSafe (is_supported opt)
      (λ known.
        if-elim IsSafe _ (λ _. send-IsSafe will opt (set_local-IsSafe opt true (λ _. known) v))
          (λ _. v))
      (λ _.
        if-elim IsSafe _ (λ _. send-IsSafe wont opt (set_local-IsSafe opt false (λ e. cc) v))
          (λ _. v))

on_dont-IsSafe : {s : Session} (opt : ℕ) → IsSafe s → IsSafe (on_dont s opt)
unfolding on_dont
on_dont-IsSafe opt v =
    if-elim IsSafe _ (λ _. send-IsSafe wont opt (set_local-IsSafe opt false (λ e. cc) v)) (λ _. v)

on_will-IsSafe : {s : Session} (opt : ℕ) → IsSafe s → IsSafe (on_will s opt)
unfolding on_will
on_will-IsSafe opt v =
    if-elim IsSafe (is_supported opt)
      (λ known.
        if-elim IsSafe _ (λ _. send-IsSafe do_ opt (set_remote-IsSafe opt true (λ _. known) v))
          (λ _. v))
      (λ _.
        if-elim IsSafe _ (λ _. send-IsSafe dont opt (set_remote-IsSafe opt false (λ e. cc) v))
          (λ _. v))

on_wont-IsSafe : {s : Session} (opt : ℕ) → IsSafe s → IsSafe (on_wont s opt)
unfolding on_wont
on_wont-IsSafe opt v =
    if-elim IsSafe _ (λ _. send-IsSafe dont opt (set_remote-IsSafe opt false (λ e. cc) v)) (λ _. v)

negotiate-IsSafe : {s : Session} (cmd opt : ℕ) → IsSafe s → IsSafe (negotiate s cmd opt)
unfolding negotiate
negotiate-IsSafe cmd opt v =
    if-elim IsSafe (cmd == do_) (λ _. on_do-IsSafe opt v)
      λ _.
        if-elim IsSafe (cmd == dont) (λ _. on_dont-IsSafe opt v)
          λ _.
            if-elim IsSafe (cmd == will) (λ _. on_will-IsSafe opt v)
              λ _. if-elim IsSafe (cmd == wont) (λ _. on_wont-IsSafe opt v) λ _. v

keep : {s : Session} (m : Mode) (c : ℕ) → IsSafe s → IsSafe (record s { mode = m; cmd = c })
keep m c v = record {
  bounded = v.bounded;
  local_supported = v.local_supported;
  remote_supported = v.remote_supported;
}

abbrev FirstIsSafe : Session × List ℕ → Type 0
FirstIsSafe r = IsSafe r.0

step-IsSafe : (m : Mode) (s : Session) (b : ℕ) → IsSafe s → IsSafe (step m s b).0
unfolding step
step-IsSafe text s b v = if-elim FirstIsSafe (b == iac) (λ _. keep _ _ v) (λ _. v)
step-IsSafe after_iac s b v =
    if-elim FirstIsSafe (b == iac) (λ _. keep _ _ v)
      λ _.
        if-elim FirstIsSafe (is_command b) (λ _. keep _ _ v)
          λ _. if-elim FirstIsSafe (b == 250) (λ _. keep _ _ v) (λ _. keep _ _ v)
step-IsSafe option s b v = keep _ _ (negotiate-IsSafe s.cmd b v)
step-IsSafe subneg s b v = if-elim FirstIsSafe (b == iac) (λ _. keep _ _ v) (λ _. v)
step-IsSafe subneg_iac s b v = keep _ _ v

from_network-IsSafe : (s : Session) (bytes : List ℕ) → IsSafe s → IsSafe (from_network s bytes).0
unfolding from_network
from_network-IsSafe s [] v = v
from_network-IsSafe s (b ∷ rest) v =
    from_network-IsSafe (step s.mode s b).0 rest (step-IsSafe s.mode s b v)

new_session-IsSafe : IsSafe new_session
unfolding new_session
new_session-IsSafe = record {
  bounded = omega arith;
  local_supported = λ opt h. ground arith;
  remote_supported = λ opt h. ground arith;
}

-- What the bridge does with a session: it feeds received bytes, and collects the replies.
pub data Event : Type 0 where
  received : List ℕ → Event
  collected : Event

pub run : Session → List Event → Session
run s [] = s
run s (received bytes ∷ events) = run (from_network s bytes).0 events
run s (collected ∷ events) = run (take_net_out s).0 events

run_keeps : (s : Session) (events : List Event) → IsSafe s → IsSafe (run s events)
unfolding run take_net_out
run_keeps s [] v = v
run_keeps s (received bytes ∷ events) v =
    run_keeps (from_network s bytes).0 events (from_network-IsSafe s bytes v)
run_keeps s (collected ∷ events) v =
    run_keeps (record s { net_out = [] }) events
      (record {
        bounded = omega arith;
        local_supported = v.local_supported;
        remote_supported = v.remote_supported;
      })

-- Whatever a peer sends and whenever the replies are collected, from the new session on the
-- buffered replies stay below the cap plus one reply, and no option but BINARY and SGA is ever
-- switched on, on either side.
pub run-IsSafe : (events : List Event) → IsSafe (run new_session events)
run-IsSafe events = run_keeps new_session events new_session-IsSafe
