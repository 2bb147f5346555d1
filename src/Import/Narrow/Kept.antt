-- ===== src/Import/Narrow/Kept.antt =====
-- app/ser2net_import.py: options and `_finish` leave the bind address and what holds a connection.
use ser2net.Common.{
  ℕ, Bool, true, false, not, ◌&&◌, ◌≡◌, refl, ◌∙◌, Option, none, some, List, [], ◌∷◌, leb, ◌==◌,
  bytes_eq, drop, if◌then◌else◌,
}
use ser2net.Common.Result.{Result, ok, err, ◌>>=◌, Ensures, Ensures->>=, Ensures-any, Ensures-if}
use ser2net.Common.Texts.{strip, codes, same, is_any_of}
use ser2net.Config.{Floats, World}
use ser2net.Import.{ValueError, Conn, drop_option}
use ser2net.Import.Text.{lower, bool_of}
use ser2net.Import.Listen.{number, is_true}
use ser2net.Import.Settings
use ser2net.Import.Settings.{
  option, finish_protocol, finish_access, hold_access, held, note_dropped,
}

module _ (fl : Floats) (os : World) where
  abbrev pub Keeps : Conn fl → Conn fl → Type 0
  Keeps c d = (d.hold ≡ c.hold) × (d.network.bind_ip ≡ c.network.bind_ip)

  pub Keeps-refl : (c : Conn fl) → Keeps c c
  Keeps-refl c = (refl, refl)

  pub Keeps-trans : (a b c : Conn fl) → Keeps a b → Keeps b c → Keeps a c
  Keeps-trans a b c (h, n) (h', n') = (h' ∙ h, n' ∙ n)

  pub Keeps-if : (b : Bool) (c x y : Conn fl) → Keeps c x → Keeps c y → Keeps c (if b then x else y)
  Keeps-if true c x y h h' = h
  Keeps-if false c x y h h' = h'

  set_idle-Keeps :
      (n : Option ℕ) (v : List ℕ) (c : Conn fl) → Keeps c (Settings.set_idle fl os n v c)
  set_idle-Keeps none [] c = Keeps-refl c
  set_idle-Keeps none (x ∷ v) c = (refl, refl)
  set_idle-Keeps (some n) v c = Keeps-if _ c _ _ (refl, refl) (refl, refl)

  set_kick-Keeps :
      (b : Option Bool) (key value : List ℕ) (c : Conn fl)
      → Keeps c (Settings.set_kick fl os b key value c)
  set_kick-Keeps none key value c = (refl, refl)
  set_kick-Keeps (some b) key value c = (refl, refl)

  set_max_connections-Keeps :
      (n : Option ℕ) (value : List ℕ) (c : Conn fl)
      → Keeps c (Settings.set_max_connections fl os n value c)
  set_max_connections-Keeps none value c = (refl, refl)
  set_max_connections-Keeps (some n) value c = Keeps-if (leb 1 n) c _ _ (refl, refl) (refl, refl)

  set_read_only-Keeps :
      (b : Option Bool) (key value : List ℕ) (c : Conn fl)
      → Keeps c (Settings.set_read_only fl os b key value c)
  set_read_only-Keeps none key value c = (refl, refl)
  set_read_only-Keeps (some b) key value c = Keeps-if b c _ c (refl, refl) (refl, refl)

  drop_option-Keeps : (key : List ℕ) (c : Conn fl) → Keeps c (drop_option fl key c)
  drop_option-Keeps key c = Keeps-if (is_any_of key c.dropped) c c _ (refl, refl) (refl, refl)

  drop_on_sync-Keeps :
      (key value : List ℕ) (c : Conn fl) → Keeps c (Settings.drop_on_sync fl os key value c)
  drop_on_sync-Keeps key value c =
      Keeps-if (is_true fl os (bool_of value) && not (same c.network.protocol "raw")) c
        (drop_option fl key c) c (drop_option-Keeps key c) (Keeps-refl c)

  set_trace-Keeps :
      (kind value : List ℕ) (c : Conn fl) → Keeps c (Settings.set_trace fl os kind value c)
  set_trace-Keeps kind [] c = (refl, refl)
  set_trace-Keeps kind (x ∷ v) c = (refl, refl)

  other_option-Keeps :
      (m : Option (List ℕ × List ℕ)) (key value : List ℕ) (c : Conn fl)
      → Keeps c (Settings.other_option fl os m key value c)
  other_option-Keeps none key value c = drop_option-Keeps key c
  other_option-Keeps (some m) key value c = modifier (bool_of value) m
    where
      modifier :
          (b : Option Bool) (m : List ℕ × List ℕ)
          → Keeps c (Settings.set_trace_mod fl os b key value m c)
      modifier none (kind, what) = (refl, refl)
      modifier (some b) (kind, what) = (refl, refl)

  add_client-Keeps : (host : List ℕ) (c : Conn fl) → Keeps c (Settings.add_client fl os host c)
  add_client-Keeps host c =
      Keeps-if (is_any_of host c.network.allowed_client_ips) c c _ (refl, refl) (refl, refl)

  note_port-Keeps :
      (more : List (List ℕ)) (entry : List ℕ) (c : Conn fl)
      → Keeps c (Settings.note_port fl os more entry c)
  note_port-Keeps [] entry c = (refl, refl)
  note_port-Keeps (port ∷ more) entry c =
      Keeps-if (bytes_eq port (codes "0")) c c _ (refl, refl) (refl, refl)

  allow_fields-Keeps :
      (fields : List (List ℕ)) (entry : List ℕ) (c : Conn fl)
      → Keeps c (Settings.allow_fields fl os fields entry c)
  allow_fields-Keeps [] entry c =
      Keeps-if (os.is_network []) c _ _ (add_client-Keeps [] c) (refl, refl)
  allow_fields-Keeps (host ∷ more) entry c =
      let noted = Settings.note_port fl os more entry c in
      Keeps-if (os.is_network host) c (Settings.add_client fl os host noted) _
        (Keeps-trans c noted (Settings.add_client fl os host noted) (note_port-Keeps more entry c)
          (add_client-Keeps host noted))
        (refl, refl)

  allow_entry-Keeps : (entry : List ℕ) (c : Conn fl) → Keeps c (Settings.allow_entry fl os entry c)
  allow_entry-Keeps [] c = (refl, refl)
  allow_entry-Keeps (x ∷ entry) c =
      Keeps-if (x == b'!') c _ _ (refl, refl) (allow_fields-Keeps _ (x ∷ entry) c)

  allow_all-Keeps :
      (entries : List (List ℕ)) (c : Conn fl) → Keeps c (Settings.allow_all fl os entries c)
  allow_all-Keeps [] c = (refl, refl)
  allow_all-Keeps (e ∷ entries) c =
      let c' = Settings.allow_entry fl os e c in
      Keeps-trans c c' (Settings.allow_all fl os entries c') (allow_entry-Keeps e c)
        (allow_all-Keeps entries c')

  late_option-Keeps :
      (k : List ℕ) (c : Conn fl) (key value : List ℕ)
      → Keeps c (Settings.late_option fl os k c key value)
  late_option-Keeps k c key value =
      Keeps-if (bytes_eq k (codes "telnet-brk-on-sync")) c (Settings.drop_on_sync fl os key value c)
        _ (drop_on_sync-Keeps key value c)
        (Keeps-if (bytes_eq k (codes "chardelay")) c c _ (Keeps-refl c) (
          Keeps-if (is_any_of k Settings.string_keys) c
            (record c { strings = Settings.put_text k value c.strings }) _ (refl, refl)
            (Keeps-if
              (is_any_of k (codes "trace-both" ∷ codes "trace-read" ∷ codes "trace-write" ∷ [])) c
              (Settings.set_trace fl os (drop 6 k) (strip value) c)
              (Settings.other_option fl os (Settings.trace_mod k Settings.trace_mod_keys) key value
                c)
              (set_trace-Keeps (drop 6 k) (strip value) c)
              (other_option-Keeps (Settings.trace_mod k Settings.trace_mod_keys) key value c))))

  plain_option-Keeps :
      (k : List ℕ) (c : Conn fl) (key value : List ℕ)
      → Keeps c (Settings.plain_option fl os k c key value)
  unfolding Settings.plain_option Settings.remaddr
  plain_option-Keeps k c key value =
      Keeps-if (bytes_eq k (codes "kickolduser")) c
        (Settings.set_kick fl os (bool_of value) key value c) _
        (set_kick-Keeps (bool_of value) key value c)
        (Keeps-if (bytes_eq k (codes "remaddr")) c (Settings.remaddr fl os c value) _
          (allow_all-Keeps (Settings.entries_of fl os [] (strip value))
            (record c { access_given = true }))
          (Keeps-if (bytes_eq k (codes "no-acc-to-con")) c
            (Settings.set_read_only fl os (bool_of value) key value c)
            (Settings.late_option fl os k c key value)
            (set_read_only-Keeps (bool_of value) key value c) (late_option-Keeps k c key value)))

  -- Where a number is read, the rest keeps the connection.
  number-Keeps :
      (text : List ℕ) (c : Conn fl) (rest : Option ℕ → Conn fl)
      → ((n : Option ℕ) → Keeps c (rest n))
      → Ensures (Keeps c) (do n ← number fl os text; ok (rest n))
  number-Keeps text c rest h =
      Ensures->>= (λ n. Unit {0}) (Keeps c) (number fl os text) (λ n. ok (rest n))
        (Ensures-any (λ n. Unit {0}) (number fl os text) (λ n. tt)) (λ n u. h n)

  pub option-Keeps :
      (c : Conn fl) (key value : List ℕ) → Ensures (Keeps c) (option fl os c key value)
  unfolding option Settings.idle_timeout
  option-Keeps c key value =
      let k = lower (strip key) in
      Ensures-if (Keeps c) (is_any_of k (codes "timeout" ∷ codes "connection timeout" ∷ []))
        (Settings.idle_timeout fl os c value) _
        (number-Keeps (strip value) c (λ n. Settings.set_idle fl os n (strip value) c)
          (λ n. set_idle-Keeps n (strip value) c))
        (Ensures-if (Keeps c) (bytes_eq k (codes "max-connections"))
          (Settings.read_max_connections fl os c value)
          (ok (Settings.plain_option fl os k c key value))
          (number-Keeps (strip value) c (λ n. Settings.set_max_connections fl os n value c)
            (λ n. set_max_connections-Keeps n value c))
          (plain_option-Keeps k c key value))

  pub Ensures-Keeps :
      (c c' : Conn fl)
      → Keeps c c'
      → (r : Result ValueError (Conn fl)) → Ensures (Keeps c') r
      → Ensures (Keeps c) r
  Ensures-Keeps c c' k (ok d) h = Keeps-trans c c' d k h
  Ensures-Keeps c c' k (err e) h = tt
