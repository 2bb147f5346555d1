-- ===== src/Import/Device/Formats.antt =====
-- app/ser2net_import.py: what `_SPEED` finds behind a speed are serial settings.
use ser2net.Common.{
  ℕ, ◌-◌, Bool, true, false, ◌&&◌, ◌≡◌, refl, Option, none, some, List, [], ◌∷◌, arith,
  if◌then◌else◌,
}
use ser2net.Common.Int.{pos}
use ser2net.Common.Texts.{is_one_of}
use Prim.Native.String.{String}
use ser2net.Config.{Floats, World, integer}
use ser2net.Config.Serial.{parities, is_bytesize, is_stopbits}
use ser2net.Import.Device

module _ (fl : Floats) (os : World) where
  abbrev pub ParityFits : Option String → Type 0
  ParityFits none = Unit {0}
  ParityFits (some p) = is_one_of p parities ≡ true

  abbrev pub SizeFits : Option ℕ → Type 0
  SizeFits none = Unit {0}
  SizeFits (some n) = is_bytesize fl (integer (pos n)) ≡ true

  abbrev pub StopFits : Option ℕ → Type 0
  StopFits none = Unit {0}
  StopFits (some n) = is_stopbits fl (integer (pos n)) ≡ true

  abbrev pub FormatFits : Option Device.Format → Type 0
  FormatFits none = Unit {0}
  FormatFits (some f) = ParityFits f.parity × SizeFits f.bytesize × StopFits f.stopbits

  parity-if :
      (b : Bool) (x y : Option String)
      → ParityFits x
      → ParityFits y
      → ParityFits (if b then x else y)
  parity-if true x y h h' = h
  parity-if false x y h h' = h'

  parity_of-Fits : (c : ℕ) → ParityFits (Device.parity_of c)
  parity_of-Fits c = parity-if (Device.same_letter b'n' c) (some "N") _ refl (
      parity-if (Device.same_letter b'e' c) (some "E") _ refl (
        parity-if (Device.same_letter b'o' c) (some "O") _ refl (
          parity-if (Device.same_letter b'm' c) (some "M") _ refl
            (parity-if (Device.same_letter b's' c) (some "S") none refl tt))))

  size_fits : (x : ℕ) → Device.is_size x ≡ true → is_bytesize fl (integer (pos (x - 48))) ≡ true
  size_fits x h = ground (arith, h)

  stop_fits : (x : ℕ) → Device.is_stop x ≡ true → is_stopbits fl (integer (pos (x - 48))) ≡ true
  stop_fits x h = ground (arith, h)

  format-if :
      (b : Bool) (x y : Option Device.Format)
      → (b ≡ true → FormatFits x)
      → FormatFits y
      → FormatFits (if b then x else y)
  format-if true x y h h' = h refl
  format-if false x y h h' = h'

  sizes-Fits :
      (p : String) (cs : List ℕ) → is_one_of p parities ≡ true → FormatFits (Device.sizes p cs)
  sizes-Fits p [] h = (h, tt, tt)
  sizes-Fits p (x ∷ []) h =
      format-if (Device.is_size x)
        (some (record { parity = some p; bytesize = some (x - 48); stopbits = none })) _
        (λ e. (h, size_fits x e, tt))
        (format-if (Device.is_stop x)
          (some (record { parity = some p; bytesize = none; stopbits = some (x - 48) })) none
          (λ e. (h, tt, stop_fits x e)) tt)
  sizes-Fits p (x ∷ y ∷ []) h =
      format-if (Device.is_size x && Device.is_stop y)
        (some (record { parity = some p; bytesize = some (x - 48); stopbits = some (y - 48) })) none
        (λ e.
          let (size, stop) =
            both (Device.is_size x) (Device.is_stop y) (size_fits x) (stop_fits y) e in
          (h, size, stop))
        tt
    where
      both : {P Q : Type 0} (a b : Bool) → (a ≡ true → P) → (b ≡ true → Q) → (a && b) ≡ true → P × Q
      both true b f g e = (f refl, g e)
      both false b f g e = absurd (cc)
  sizes-Fits p (x ∷ y ∷ z ∷ more) h = tt

  pub format-Fits : (cs : List ℕ) → FormatFits (Device.format cs)
  format-Fits [] = (tt, tt, tt)
  format-Fits (c ∷ cs) = parity_first (Device.parity_of c) (parity_of-Fits c)
    where
      parity_first : (p : Option String) → ParityFits p → FormatFits (Device.with_parity p cs)
      parity_first none h = tt
      parity_first (some p) h = sizes-Fits p cs h
