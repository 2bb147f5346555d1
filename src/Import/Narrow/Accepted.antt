-- ===== src/Import/Narrow/Accepted.antt =====
-- app/ser2net_import.py, `_accepter`: the host that a connection listens on.
use ser2net.Common.{
  ℕ, Bool, true, false, ◌≡◌, refl, sym, ap, ◌∙◌, inl, inr, ◌⊎◌, Option, none, some, List, [], ◌∷◌,
  Bool-cases, bytes_eq, if◌then◌else◌,
}
use ser2net.Common.Result.{Result, ok, >>=-ok}
use ser2net.Common.Texts.{codes, strip, is_any_of}
use ser2net.Config.{Floats, World}
use ser2net.Import.{ValueError, Conn, note, tls_lost, certauth_lost, layer_lost}
use ser2net.Import.Text.{lower, split_gensio, nonempty, layer}
use ser2net.Import.Listen
use ser2net.Import.Listen.{
  LayerStep, listens_here, passed, stopped, strip_all, take_family, host_and_port, port_number,
  listen_on, note_more, listen_fields, listen_address, net_terminals, other_terminals, layer_step,
  after_layer, accepter_layers, accepter,
}

module _ (fl : Floats) (os : World) where
  -- The parts of a gensio string behind its network layer.
  abbrev pub behind_network : List (List ℕ) → List (List ℕ)
  behind_network [] = []
  behind_network (part ∷ layers) =
      let rest = behind_network layers in
      if is_any_of (lower (layer part).0) (net_terminals fl os) then layers else rest

  abbrev pub host_in : Option (List ℕ × List ℕ × List (List ℕ)) → List ℕ
  host_in none = []
  host_in (some (host, port, more)) = host

  -- The host that an accepter names, in front of its port; empty without one.
  unfoldable pub host_of : List ℕ → List ℕ
  unfolding layer split_gensio strip
  host_of spec =
      host_in (
        host_and_port
          (take_family [] (nonempty (strip_all (behind_network (split_gensio spec))))).1)

  -- The connection was made to listen on the host.
  abbrev pub IsListening : List ℕ → Conn fl → Type 0
  IsListening host c =
      (n : ℕ) × (port : List ℕ) × (family : List ℕ) × (c0 : Conn fl) × (c
        ≡ (listen_on fl os (some n) host port family c0).0)

  listen_on-IsListening :
      (n : Option ℕ) (host port family : List ℕ) (c c' : Conn fl)
      → listen_on fl os n host port family c ≡ (c', true)
      → IsListening host c'
  listen_on-IsListening none host port family c c' e = absurd (cc (e))
  listen_on-IsListening (some n) host port family c c' e = (n, port, family, c, cc (e))

  listen_fields-IsListening :
      (found : Option (List ℕ × List ℕ × List (List ℕ))) (family : List ℕ) (c c' : Conn fl)
      → listen_fields fl os found family c ≡ ok (c', true)
      → IsListening (host_in found) c'
  listen_fields-IsListening none family c c' e = absurd (cc (e))
  listen_fields-IsListening (some (host, port, more)) family c c' e =
      let c1 = note_more fl os host port more c in
      let (n, made, done) =
        >>=-ok (port_number fl os port) (λ n. ok (listen_on fl os n host port family c1)) e in
      listen_on-IsListening n host port family c1 c' (cc (done))

  abbrev IsNotHere : LayerStep fl os → Type 0
  IsNotHere (listens_here c) = ⊥
  IsNotHere (passed c) = Unit {0}
  IsNotHere stopped = Unit {0}

  IsNotHere-if :
      (b : Bool) (s t : LayerStep fl os)
      → IsNotHere s
      → IsNotHere t
      → IsNotHere (if b then s else t)
  IsNotHere-if true s t h h' = h
  IsNotHere-if false s t h h' = h'

  layer_step_cases :
      (c : Conn fl) (part : List ℕ)
      → ((is_any_of (lower (layer part).0) (net_terminals fl os) ≡ true)
          × ((c' : Conn fl) × (layer_step fl os c part ≡ listens_here c')))
        ⊎ ((is_any_of (lower (layer part).0) (net_terminals fl os) ≡ false)
            × IsNotHere (layer_step fl os c part))
  unfolding layer_step
  layer_step_cases c part =
      let (name, opts) = layer part in
      elim (Bool-cases (is_any_of (lower name) (net_terminals fl os))) [
        | inl e ↦ inl (e, (Listen.with_mode fl os (lower name) c, rw (e) refl))
        | inr e ↦ inr (
          e,
          rw (e) (
              IsNotHere-if (bytes_eq (lower name) (codes "telnet"))
                (passed (Listen.with_telnet fl os opts c)) _ tt
                (IsNotHere-if (bytes_eq (lower name) (codes "ssl")) (passed (note fl tls_lost c)) _
                  tt
                  (IsNotHere-if (bytes_eq (lower name) (codes "certauth"))
                    (passed (note fl certauth_lost c)) _ tt
                    (IsNotHere-if (bytes_eq (lower name) (codes "mux")) (passed c) _ tt (
                      IsNotHere-if (is_any_of (lower name) (other_terminals fl os)) stopped
                        (passed (note fl (layer_lost name) c)) tt tt))))),
        )
      ]

  -- The host of the fields behind the network layer.
  abbrev host_behind : List (List ℕ) → List ℕ
  host_behind fields = host_in (host_and_port (take_family [] (nonempty (strip_all fields))).1)

  layers-IsListening :
      (spec : List ℕ) (layers : List (List ℕ)) (c c' : Conn fl)
      → accepter_layers fl os spec c layers ≡ ok (c', true)
      → IsListening (host_behind (behind_network layers)) c'
  unfolding accepter_layers listen_address
  layers-IsListening spec [] c c' e = absurd (cc (e))
  layers-IsListening spec (part ∷ layers) c c' e = elim (layer_step_cases c part) [
    | inl (here, (c1, step)) ↦ rw (here) (
        listen_fields-IsListening (host_and_port (take_family [] (nonempty (strip_all layers))).1)
          (take_family [] (nonempty (strip_all layers))).0 c1 c' (sym (ap on_step step) ∙ e))
    | inr (later, rest) ↦
        rw (later)
          (further (layer_step fl os c part) rest e (λ d q. layers-IsListening spec layers d c' q))
  ]
    where
      on_step : LayerStep fl os → Result ValueError (Conn fl × Bool)
      on_step s = after_layer fl os spec c layers (λ d. accepter_layers fl os spec d layers) s

      further :
          (s : LayerStep fl os)
          → IsNotHere s
          → after_layer fl os spec c layers (λ d. accepter_layers fl os spec d layers) s
            ≡ ok (c', true)
          → ((d : Conn fl)
              → accepter_layers fl os spec d layers ≡ ok (c', true)
              → IsListening (host_behind (behind_network layers)) c')
          → IsListening (host_behind (behind_network layers)) c'
      further (listens_here d) h q k = absurd h
      further (passed d) h q k = k d q
      further stopped h q k = absurd (cc (q))

  -- An accepter that is accepted makes the connection listen on the host that it names.
  pub accepter-IsListening :
      (c c' : Conn fl) (spec : List ℕ)
      → accepter fl os c spec ≡ ok (c', true)
      → IsListening (host_of spec) c'
  unfolding accepter host_of
  accepter-IsListening c c' spec e = layers-IsListening spec (split_gensio spec) c c' e
