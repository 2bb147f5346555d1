-- ===== src/Import/Narrow/Connection.antt =====
-- app/ser2net_import.py, `_Yaml.connection`: a connection of a ser2net.yaml is not open to more.
use ser2net.Common.{
  ℕ, Bool, true, false, ◌||◌, ◌≡◌, refl, sym, ap, ◌∙◌, inl, inr, arith, length, length-append, List,
  [], ◌∷◌, ◌++◌, Bool-cases, is_nil,
}
use mathlib.Core.Path.{subst}
use ser2net.Common.Int.{pos}
use ser2net.Common.Result.{ok, >>=-ok, ok-injective, Ensures-ok}
use ser2net.Common.Texts.{codes, strip}
use ser2net.Config.{Floats, World, integer}
use ser2net.Import.{Conn, new_conn}
use ser2net.Import.Listen.{accepter}
use ser2net.Import.Device.{connector}
use ser2net.Import.Finish.{finish}
use ser2net.Import.Yaml
use ser2net.Import.Yaml.{
  Node, scalar, sequence, map, Entries, end, entry, get_or, text, Yaml, conn_text, settings,
  connection,
}
use ser2net.Import.Narrow.{IsNarrow, bind_ip_fits}
use ser2net.Import.Narrow.Kept.{Keeps, Keeps-trans}
use ser2net.Import.Narrow.Opened.{KeepsPair, connector-Keeps}
use ser2net.Import.Narrow.Finished.{finish_enabled}
use ser2net.Import.Narrow.Configured.{settings-Keeps}
use ser2net.Import.Narrow.Accepted.{host_of, IsListening, accepter-IsListening}

module _ (fl : Floats) (os : World) where
  -- An enabled connection that listened on the host, and was then only kept.
  kept-IsNarrow :
      (host : List ℕ) (c c' : Conn fl)
      → IsListening fl os host c
      → Keeps fl os c c'
      → (finish fl os c').enabled ≡ true
      → IsNarrow fl os host (finish fl os c').network.bind_ip
  kept-IsNarrow host c c' (n, port, family, c0, at) keeps enabled =
      let c1 = record c0 { network = record c0.network { port = integer (pos n) } } in
      let (free, same) = finish_enabled fl os c' enabled in
      elim (bind_ip_fits fl os c1 host family) [
        | inl fits ↦
            subst (IsNarrow fl os host) (sym (same ∙ keeps.1 ∙ ap (λ d. d.network.bind_ip) at)) fits
        | inr held ↦ absurd (cc (sym free ∙ keeps.0 ∙ ap (λ d. d.hold) at ∙ held))
      ]

  named-Keeps : (name : List ℕ) (c : Conn fl) → Keeps fl os c (Yaml.named fl os name c)
  named-Keeps [] c = (refl, refl)
  named-Keeps (x ∷ name) c = (refl, refl)

  abbrev NarrowAt : List ℕ → Conn fl → Type 0
  NarrowAt host c = c.enabled ≡ true → IsNarrow fl os host c.network.bind_ip

  configured_narrow :
      (y : Yaml fl) (body : Entries) (host : List ℕ) (c c' d : Conn fl) (b : Bool)
      → IsListening fl os host c
      → Keeps fl os c c'
      → Yaml.configured fl os y body (c', b) ≡ ok (d, true)
      → NarrowAt host d
  configured_narrow y body host c c' d false at keeps e enabled = absurd (cc (e))
  configured_narrow y body host c c' d true at keeps e enabled =
      let (c2, made, done) =
        >>=-ok (settings fl os y body c') (λ c2. ok (finish fl os c2, true)) e in
      let kept = Keeps-trans fl os c c' c2 keeps (
        Ensures-ok (Keeps fl os c') (settings fl os y body c') c2 made
          (settings-Keeps fl os y body c')) in
      let ends : finish fl os c2 ≡ d = cc (done) in
      subst (NarrowAt host) ends (kept-IsNarrow host c c2 at kept) enabled

  with_connector_narrow :
      (y : Yaml fl) (name spec : List ℕ) (body : Entries) (host : List ℕ) (c d : Conn fl) (b : Bool)
      → (b ≡ true → IsListening fl os host c)
      → Yaml.with_connector fl os y name spec body (c, b) ≡ ok (d, true)
      → NarrowAt host d
  with_connector_narrow y name spec body host c d false at e = absurd (cc (e))
  with_connector_narrow y name spec body host c d true at e =
      let c1 = Yaml.named fl os name c in
      let defaults = Yaml.default_words fl os y.serial_defaults in
      let (r, made, done) =
        >>=-ok (connector fl os c1 spec defaults) (Yaml.configured fl os y body) e in
      configured_narrow y body host c r.0 d r.1 (at refl)
        (Keeps-trans fl os c c1 r.0 (named-Keeps name c) (
          Ensures-ok (KeepsPair fl os c1) (connector fl os c1 spec defaults) r made
            (connector-Keeps fl os c1 spec defaults)))
        done

  with_ends_narrow :
      (y : Yaml fl) (name listen device : List ℕ) (body : Entries) (c d : Conn fl)
      → Yaml.with_ends fl os y name listen device body c ≡ ok (d, true)
      → NarrowAt (host_of fl os listen) d
  with_ends_narrow y name listen device body c d e =
      elim (Bool-cases (is_nil listen || is_nil device)) [
        | inl lacks ↦ absurd (cc (e, lacks))
        | inr both ↦
            let (r, made, done) =
              >>=-ok (accepter fl os c listen) (Yaml.with_connector fl os y name device body)
                (rw (← e, both) refl) in
            with_connector_narrow y name device body (host_of fl os listen) r.0 d r.1
              (λ b. accepter-IsListening fl os c r.0 listen (made ∙ ap (λ k. ok (r.0, k)) b)) done
      ]

  -- The accepter of a connection's body, its references replaced.
  abbrev pub accepter_of : Yaml fl → Node → List ℕ
  accepter_of y (scalar s) = []
  accepter_of y sequence = []
  accepter_of y (map body) =
      strip (text y.act y.aliases (get_or (scalar []) (codes "accepter") body) (codes "accepter")).0

  with_body_narrow :
      (y : Yaml fl) (name : List ℕ) (body : Node) (c d : Conn fl)
      → Yaml.with_body fl os y name body c ≡ ok (d, true)
      → NarrowAt (host_of fl os (accepter_of y body)) d
  with_body_narrow y name (scalar s) c d e = absurd (cc (e))
  with_body_narrow y name sequence c d e = absurd (cc (e))
  with_body_narrow y name (map body) c d e =
      let (c1, listen) =
        conn_text fl y (get_or (scalar []) (codes "accepter") body) (codes "accepter") c in
      let (c2, device) =
        conn_text fl y (get_or (scalar []) (codes "connector") body) (codes "connector") c1 in
      with_ends_narrow y name (strip listen) (strip device) body c2 d e

  not_added : (cs : List (Conn fl)) (c : Conn fl) → cs ≡ cs ++ (c ∷ []) → ⊥
  not_added cs c e = omega (arith, ap length e, length-append {0} cs (c ∷ []))

  added_last : (cs : List (Conn fl)) (c d : Conn fl) → cs ++ (c ∷ []) ≡ cs ++ (d ∷ []) → c ≡ d
  added_last [] c d e = cc (e)
  added_last (b ∷ cs) c d e = added_last cs c d (cc (e))

  ended_narrow :
      (y y' : Yaml fl) (host : List ℕ) (c d : Conn fl) (b : Bool)
      → (b ≡ true → NarrowAt host d)
      → Yaml.ended fl os y (d, b) ≡ y'
      → y'.conns ≡ y.conns ++ (c ∷ [])
      → NarrowAt host c
  ended_narrow y y' host c d false narrow done added =
      absurd (not_added y.conns c (ap (λ z. z.conns) done ∙ added))
  ended_narrow y y' host c d true narrow done added =
      subst (NarrowAt host) (added_last y.conns d c (ap (λ z. z.conns) done ∙ added)) (narrow refl)

  -- If `connection` adds a connection of a ser2net.yaml to those that are imported, and it is
  -- enabled, then it listens on an address that is no wider than the host that its accepter names.
  pub connection-IsNarrow :
      (y y' : Yaml fl) (name : List ℕ) (body : Node) (c : Conn fl)
      → connection fl os y name body ≡ ok y'
      → y'.conns ≡ y.conns ++ (c ∷ [])
      → c.enabled ≡ true
      → IsNarrow fl os
          (host_of fl os (accepter_of (Yaml.alias_name fl os name y) body))
          c.network.bind_ip
  unfolding connection
  connection-IsNarrow y y' name body c e added enabled =
      let y1 = Yaml.alias_name fl os name y in
      let c0 = new_conn fl name (Yaml.label_for fl os name) false in
      let (r, made, done) =
        >>=-ok (Yaml.with_body fl os y1 name body c0) (λ r. ok (Yaml.ended fl os y1 r)) e in
      ended_narrow y1 y' (host_of fl os (accepter_of y1 body)) c r.0 r.1
        (λ b. with_body_narrow y1 name body c0 r.0 (made ∙ ap (λ k. ok (r.0, k)) b))
        (ok-injective done) (added ∙ ap (λ l. l ++ (c ∷ [])) (sym (alias_conns name))) enabled
    where
      alias_conns : (name : List ℕ) → (Yaml.alias_name fl os name y).conns ≡ y.conns
      alias_conns [] = refl
      alias_conns (x ∷ name) = refl
