-- ===== src/Telnet/Tests.antt =====
-- Concrete telnet streams, for the theorems about app/engine/protocols/telnet.py.
use ser2net.Common.{◌≡◌, refl, List, [], ◌∷◌, arith}
use ser2net.Telnet.{text, iac, do_, new_session, from_network}
use ser2net.Telnet.Negotiation.{received, collected, run, IsSafe, run-IsSafe}
use ser2net.Telnet.Tokens.{
  Token, byte, literal_iac, command, subnegotiation, ignored, render_all, after_all, data_all,
  from_network-render_all,
}

abbrev some_tokens : List Token
some_tokens =
    byte 65 ∷ literal_iac ∷ command do_ 1 ∷ subnegotiation (255 ∷ 7 ∷ []) ∷ ignored 241 ∷ []

new_text : new_session.mode ≡ text
unfolding new_session
new_text = refl

from_network-render_all_example :
    from_network new_session (render_all some_tokens)
    ≡ (after_all new_session some_tokens, data_all some_tokens)
from_network-render_all_example =
    from_network-render_all new_session some_tokens new_text (ground arith)

run-IsSafe_example : IsSafe (run new_session (received (iac ∷ do_ ∷ 31 ∷ []) ∷ collected ∷ []))
run-IsSafe_example = run-IsSafe (received (iac ∷ do_ ∷ 31 ∷ []) ∷ collected ∷ [])
