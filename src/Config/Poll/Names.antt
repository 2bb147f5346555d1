-- ===== src/Config/Poll/Names.antt =====
-- app/config.py, `ModbusPoll.validate`: the points of a validated poll.
use ser2net.Common.{
  ℕ, Bool, true, false, not, ◌&&◌, ◌||◌, ◌≡◌, refl, sym, ◌≢◌, inl, inr, List, [], ◌∷◌, Bool-cases,
  All, All-imply, Pairwise,
}
use ser2net.Common.Result.{ok, raise_if, raise_if-ok, raise_if-pass, >>-ok}
use ser2net.Common.Texts.{same, same_iff, is_one_of, is_blank}
use Prim.Native.String.{String}
use ser2net.Config.{
  bad_poll_interval, point_unnamed, point_repeated, bad_unit, bad_function, bad_address, bad_dtype,
  wrong_dtype, not_writable, Floats, Scalar, ConfigError, type_error, is_comparable, within,
  is_equal,
}
use ser2net.Config.Poll.{
  ModbusPoint, ModbusPoll, modbus_dtypes, check_span, differ, is_bit_function, check_point,
  check_points, check_poll, validate,
}

differ_eq : (a b : Bool) → differ a b ≡ false → a ≡ b
differ_eq true true h = refl
differ_eq true false h = cc
differ_eq false true h = cc
differ_eq false false h = refl

allowed : (w x : Bool) → (w && not x) ≡ false → w ≡ true → x ≡ true
allowed true true h e = refl
allowed true false h e = cc
allowed false x h e = cc

not_repeated :
    (s t : String) (seen : List String)
    → is_one_of s (t ∷ seen) ≡ false
    → (t ≢ s) × (is_one_of s seen ≡ false)
not_repeated s t seen h = elim (Bool-cases (same s t)) [
  | inl e ↦ absurd (cc (h, e))
  | inr e ↦ (λ q. absurd (cc (e, (same_iff s t).1 (sym q))), rw (← h, e) refl)
]

module _ (fl : Floats) where
  -- The function is one of the four that read; bits are bool points, and only coils and holding
  -- registers may be written; the dtype is known, and the unit and the address fit their fields.
  abbrev pub IsWellTyped : ModbusPoint fl → Type 0
  IsWellTyped p =
      (is_bit_function fl p.fn ≡ same p.dtype "bool")
      × (p.writable ≡ true → (is_equal fl 1 p.fn || is_equal fl 3 p.fn) ≡ true)
      × ((is_bit_function fl p.fn || is_equal fl 3 p.fn || is_equal fl 4 p.fn) ≡ true)
      × (is_one_of p.dtype modbus_dtypes ≡ true)
      × (within fl 0 255 p.unit ≡ true)
      × (within fl 0 65535 p.address ≡ true)

  span_fits :
      (hi : ℕ) (v : Scalar fl) (e : ConfigError)
      → check_span fl hi v e ≡ ok tt
      → within fl 0 hi v ≡ true
  span_fits hi v e h =
      let (comparable, inside) = >>-ok (raise_if (not (is_comparable fl v)) type_error) _ h in
      raise_if-pass e (within fl 0 hi v) inside

  point_fits :
      (seen : List String) (p : ModbusPoint fl)
      → check_point fl seen p ≡ ok tt
      → IsWellTyped p × (is_one_of p.name seen ≡ false)
  unfolding check_point
  point_fits seen p h =
      let bits = is_bit_function fl p.fn in
      let functions = bits || is_equal fl 3 p.fn || is_equal fl 4 p.fn in
      let (named, h1) = >>-ok (raise_if (is_blank p.name) point_unnamed) _ h in
      let (new, h2) = >>-ok (raise_if (is_one_of p.name seen) point_repeated) _ h1 in
      let (unit, h3) = >>-ok (check_span fl 255 p.unit bad_unit) _ h2 in
      let (fn, h4) = >>-ok (raise_if (not functions) bad_function) _ h3 in
      let (address, h5) = >>-ok (check_span fl 65535 p.address bad_address) _ h4 in
      let (dtype, h6) = >>-ok (raise_if (not (is_one_of p.dtype modbus_dtypes)) bad_dtype) _ h5 in
      let (typed, writes) = >>-ok (raise_if (differ bits (same p.dtype "bool")) wrong_dtype) _ h6 in
      (
        (
          differ_eq bits (same p.dtype "bool") (raise_if-ok wrong_dtype _ typed),
          allowed p.writable (is_equal fl 1 p.fn || is_equal fl 3 p.fn)
              (raise_if-ok not_writable _ writes),
          raise_if-pass bad_function functions fn,
          raise_if-pass bad_dtype (is_one_of p.dtype modbus_dtypes) dtype,
          span_fits 255 p.unit bad_unit unit,
          span_fits 65535 p.address bad_address address,
        ),
        raise_if-ok point_repeated (is_one_of p.name seen) new,
      )

  HasNewName : List String → ModbusPoint fl → Type 0
  HasNewName seen p = is_one_of p.name seen ≡ false

  points_fit :
      (seen : List String) (ps : List (ModbusPoint fl))
      → check_points fl seen ps ≡ ok tt
      → All IsWellTyped ps × All (HasNewName seen) ps × Pairwise (λ p q. p.name ≢ q.name) ps
  unfolding check_points HasNewName
  points_fit seen [] h = (tt, tt, tt)
  points_fit seen (p ∷ ps) h =
      let (here, h1) = >>-ok (check_point fl seen p) _ h in
      let (typed, new) = point_fits seen p here in
      let (types, news, pairs) = points_fit (p.name ∷ seen) ps h1 in
      (
        (typed, types),
        (new, All-imply ps (λ q r. (not_repeated q.name p.name seen r).1) news),
        (All-imply ps (λ q r. (not_repeated q.name p.name seen r).0) news, pairs),
      )

  poll_fits :
      (interval : fl.F) (ps : List (ModbusPoint fl))
      → check_poll fl interval ps ≡ ok tt
      → All IsWellTyped ps × Pairwise (λ p q. p.name ≢ q.name) ps
  poll_fits interval [] h = (tt, tt)
  poll_fits interval (p ∷ ps) h =
      let (regular, checked) = >>-ok (raise_if (fl.at_most interval 0) bad_poll_interval) _ h in
      let (types, news, pairs) = points_fit [] (p ∷ ps) checked in (types, pairs)

  -- In a validated poll every point's type fits its function, only coils and holding registers may
  -- be written, and no two points have one name.
  pub poll-validate_fits :
      (poll : ModbusPoll fl)
      → validate fl poll ≡ ok tt
      → All IsWellTyped poll.points × Pairwise (λ p q. p.name ≢ q.name) poll.points
  unfolding validate
  poll-validate_fits poll h = poll_fits poll.interval_s poll.points h
