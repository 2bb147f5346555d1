-- ===== src/Import/Document/Plain.antt =====
-- app/ser2net_import.py, `_Yaml.entry`: what an entry without connections leaves of the import so far.
use ser2net.Common.{
  ℕ, ◌+◌, ◌≤◌, ◌≡◌, refl, Bool, true, false, ◌&&◌, ◌||◌, not, List, [], ◌∷◌, ◌++◌, length,
  length-append, arith, is_nil, bytes_eq, if◌then◌else◌,
}
use ser2net.Common.Texts.{codes, strip, is_any_of}
use ser2net.Config.{Floats}
use ser2net.Import.Text.{lower}
use ser2net.Import.Settings.{put_text}
use ser2net.Import.Yaml.{
  Node, scalar, sequence, map, Entries, end, entry, labelled, YamlWarning, Yaml, text, default_lost,
  rotator_lost, include_not_read, unknown_entry, admin_lost,
}
use ser2net.Import.Document
use ser2net.Import.Document.{
  TopEntry, Document, all_entries, raised_by, or_unnamed, names_of, plain_entry, set_default,
  delete_default, top_entry, read_entries, from_yaml,
}

module _ (fl : Floats) where
  -- Of `n` connections, each is imported or warned of.
  unfoldable pub Accounts : ℕ → Yaml fl → Yaml fl → Type 0
  Accounts n y y' =
      (length y'.conns ≤ n + length y.conns)
      × (n + (length y.conns + length y.warnings) ≤ length y'.conns + length y'.warnings)

  pub Accounts-trans :
      (m n : ℕ) (y y1 y2 : Yaml fl) → Accounts m y y1 → Accounts n y1 y2 → Accounts (m + n) y y2
  unfolding Accounts
  Accounts-trans m n y y1 y2 (a, b) (c, d) = (omega (arith), omega (arith))

  pub Accounts-refl : (y : Yaml fl) → Accounts 0 y y
  unfolding Accounts
  Accounts-refl y = (omega (arith), omega (arith))

  -- What leaves the connections and the warnings.
  pub Accounts-same :
      (y y' : Yaml fl) → y'.conns ≡ y.conns → y'.warnings ≡ y.warnings → Accounts 0 y y'
  unfolding Accounts
  Accounts-same y y' e f = rw (e, f) (omega (arith), omega (arith))

  Accounts-if :
      (b : Bool) (y s t : Yaml fl)
      → Accounts 0 y s
      → Accounts 0 y t
      → Accounts 0 y (if b then s else t)
  Accounts-if true y s t h h' = h
  Accounts-if false y s t h h' = h'

  pub more_warnings :
      (y : Yaml fl) (ws : List YamlWarning)
      → Accounts 0 y (record y { warnings = y.warnings ++ ws })
  unfolding Accounts
  more_warnings y ws = let more = length-append {0} y.warnings ws in (omega (arith), omega (arith))

  gtext-Accounts :
      (y : Yaml fl) (node : Node) (what : List ℕ) → Accounts 0 y (Document.gtext fl y node what).0
  gtext-Accounts y node what = more_warnings y (labelled what (text y.act y.aliases node what).1)

  set_default-Accounts :
      (name value class : List ℕ) (y : Yaml fl) → Accounts 0 y (set_default fl name value class y)
  unfolding set_default
  set_default-Accounts name value class y =
      let n = lower (strip name) in
      let cls = lower (strip class) in
      Accounts-if
        (is_nil n
          || not (is_any_of cls ([] ∷ codes "serialdev" ∷ codes "sdev" ∷ codes "ser2net" ∷ [])))
        y y _ (Accounts-refl y)
        (Accounts-if
          (is_any_of n Document.serial_default_keys && not (bytes_eq cls (codes "ser2net"))) y
          (record y { serial_defaults = put_text n (strip value) y.serial_defaults }) _
          (Accounts-same y _ refl refl)
          (Accounts-if
            (is_any_of n Document.option_default_keys && is_any_of cls ([] ∷ codes "ser2net" ∷ []))
            y (record y { option_defaults = put_text n (strip value) y.option_defaults }) _
            (Accounts-same y _ refl refl) (more_warnings y (default_lost name value ∷ []))))

  delete_default-Accounts : (name : List ℕ) (y : Yaml fl) → Accounts 0 y (delete_default fl name y)
  unfolding delete_default
  delete_default-Accounts name y = Accounts-same y _ refl refl

  define-Accounts :
      (name : List ℕ) (value : Node) (y : Yaml fl) → Accounts 0 y (Document.define fl name value y)
  define-Accounts name value y =
      Accounts-trans 0 0 y _ _ (gtext-Accounts y value (codes "define " ++ name))
        (Accounts-same _ _ refl refl)

  defines-Accounts :
      (entries : Entries) (y : Yaml fl) → Accounts 0 y (Document.defines fl entries y)
  defines-Accounts end y = Accounts-refl y
  defines-Accounts (entry name value entries) y =
      Accounts-trans 0 0 y (Document.define fl name value y) _ (define-Accounts name value y)
        (defines-Accounts entries _)

  define_anchor-Accounts :
      (anchor : List ℕ) (value : Node) (y : Yaml fl)
      → Accounts 0 y (Document.define_anchor fl anchor value y)
  define_anchor-Accounts [] value y = Accounts-refl y
  define_anchor-Accounts (x ∷ anchor) value y = define-Accounts (x ∷ anchor) value y

  field-Accounts :
      (field what : List ℕ) (body : Entries) (y : Yaml fl)
      → Accounts 0 y (Document.field_text fl field what body y).0
  field-Accounts field what body y = gtext-Accounts y _ what

  default_entry-Accounts :
      (body : Entries) (y : Yaml fl) → Accounts 0 y (Document.default_entry fl body y)
  default_entry-Accounts body y =
      let (y1, name) = Document.field_text fl (codes "name") (codes "default") body y in
      let (y2, value) = Document.field_text fl (codes "value") (codes "default") body y1 in
      let (y3, class) = Document.field_text fl (codes "class") (codes "default") body y2 in
      Accounts-trans 0 0 y y1 _ (field-Accounts (codes "name") (codes "default") body y) (
        Accounts-trans 0 0 y1 y2 _ (field-Accounts (codes "value") (codes "default") body y1) (
          Accounts-trans 0 0 y2 y3 _ (field-Accounts (codes "class") (codes "default") body y2)
            (set_default-Accounts name value class y3)))

  default_of-Accounts :
      (name : List ℕ) (body : Node) (y : Yaml fl)
      → Accounts 0 y (Document.default_of fl name body y)
  default_of-Accounts name (scalar s) y = Accounts-refl y
  default_of-Accounts name sequence y = Accounts-refl y
  default_of-Accounts name (map body) y =
      let what = codes "default " ++ name in
      let (y1, value) = Document.field_text fl (codes "value") what body y in
      let (y2, class) = Document.field_text fl (codes "class") what body y1 in
      Accounts-trans 0 0 y y1 _ (field-Accounts (codes "value") what body y) (
        Accounts-trans 0 0 y1 y2 _ (field-Accounts (codes "class") what body y1)
          (set_default-Accounts name value class y2))

  defaults-Accounts :
      (entries : Entries) (y : Yaml fl) → Accounts 0 y (Document.defaults fl entries y)
  defaults-Accounts end y = Accounts-refl y
  defaults-Accounts (entry name body entries) y =
      let y' = Document.default_of fl name body y in
      Accounts-trans 0 0 y y' _ (default_of-Accounts name body y) (defaults-Accounts entries y')

  delete_entry-Accounts :
      (body : Entries) (y : Yaml fl) → Accounts 0 y (Document.delete_entry fl body y)
  delete_entry-Accounts body y =
      let (y', name) = Document.field_text fl (codes "name") (codes "delete_default") body y in
      Accounts-trans 0 0 y y' _ (field-Accounts (codes "name") (codes "delete_default") body y)
        (delete_default-Accounts name y')

  delete_defaults-Accounts :
      (names : List (List ℕ)) (y : Yaml fl) → Accounts 0 y (Document.delete_defaults fl names y)
  delete_defaults-Accounts [] y = Accounts-refl y
  delete_defaults-Accounts (name ∷ names) y =
      let y' = delete_default fl name y in
      Accounts-trans 0 0 y y' _ (delete_default-Accounts name y) (delete_defaults-Accounts names y')

  rotators-Accounts :
      (names : List (List ℕ)) (y : Yaml fl) → Accounts 0 y (Document.rotators fl names y)
  rotators-Accounts [] y = Accounts-refl y
  rotators-Accounts (name ∷ names) y =
      let y' = Document.warn fl (rotator_lost name) y in
      Accounts-trans 0 0 y y' _ (more_warnings y (rotator_lost name ∷ []))
        (rotators-Accounts names y')

  include-Accounts : (value : Node) (y : Yaml fl) → Accounts 0 y (Document.include fl value y)
  include-Accounts value y =
      let (y', s) = Document.gtext fl y value (codes "include") in
      Accounts-trans 0 0 y y' _ (gtext-Accounts y value (codes "include"))
        (more_warnings y' (include_not_read s ∷ []))

  with_map-Accounts :
      (use_entries : Entries → Yaml fl → Yaml fl) (value : Node) (y : Yaml fl)
      → ((entries : Entries) → Accounts 0 y (use_entries entries y))
      → Accounts 0 y (Document.with_map fl use_entries value y)
  with_map-Accounts use_entries (scalar s) y each = Accounts-refl y
  with_map-Accounts use_entries sequence y each = Accounts-refl y
  with_map-Accounts use_entries (map entries) y each = each entries

  pub plain_entry-Accounts : (e : TopEntry) (y : Yaml fl) → Accounts 0 y (plain_entry fl e y)
  unfolding plain_entry
  plain_entry-Accounts e y =
      let k = lower e.key in
      Accounts-if (bytes_eq k (codes "define")) y (Document.define_anchor fl e.anchor e.value y) _
        (define_anchor-Accounts e.anchor e.value y)
        (Accounts-if (bytes_eq k (codes "defines")) y
          (Document.with_map fl (Document.defines fl) e.value y) _
          (with_map-Accounts (Document.defines fl) e.value y (λ l. defines-Accounts l y))
          (Accounts-if (bytes_eq k (codes "default")) y
            (Document.with_map fl (Document.default_entry fl) e.value y) _
            (with_map-Accounts (Document.default_entry fl) e.value y
              (λ l. default_entry-Accounts l y))
            (Accounts-if (bytes_eq k (codes "defaults")) y
              (Document.with_map fl (Document.defaults fl) e.value y) _
              (with_map-Accounts (Document.defaults fl) e.value y (λ l. defaults-Accounts l y))
              (Accounts-if (bytes_eq k (codes "delete_default")) y
                (Document.with_map fl (Document.delete_entry fl) e.value y) _
                (with_map-Accounts (Document.delete_entry fl) e.value y
                  (λ l. delete_entry-Accounts l y))
                (Accounts-if (bytes_eq k (codes "delete_defaults")) y
                  (Document.delete_defaults fl (names_of e.value) y) _
                  (delete_defaults-Accounts (names_of e.value) y)
                  (Accounts-if (bytes_eq k (codes "rotator")) y
                    (Document.rotators fl (e.anchor ∷ []) y) _ (rotators-Accounts (e.anchor ∷ []) y)
                    (Accounts-if (bytes_eq k (codes "rotators")) y
                      (Document.rotators fl (or_unnamed (names_of e.value)) y) _
                      (rotators-Accounts (or_unnamed (names_of e.value)) y)
                      (Accounts-if (is_any_of k (codes "admin" ∷ codes "admins" ∷ [])) y
                        (Document.warn fl admin_lost y) _ (more_warnings y (admin_lost ∷ []))
                        (Accounts-if (bytes_eq k (codes "include")) y
                          (Document.include fl e.value y) _ (include-Accounts e.value y)
                          (Accounts-if (is_any_of k (codes "led" ∷ codes "leds" ∷ [])) y (y) _
                            (Accounts-refl y) (more_warnings y (unknown_entry e.key ∷ []))))))))))))
