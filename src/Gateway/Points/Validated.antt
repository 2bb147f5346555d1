-- ===== src/Gateway/Points/Validated.antt =====
-- app/config.py, `MappingConfig.validate`, and app/engine/modbus_gateway.py, `_read_point`: the points
-- of a validated mapping can be asked for.
use ser2net.Common.{
  ℕ, ◌≤◌, ◌≡◌, refl, sym, ◌∙◌, ◌⊎◌, inl, inr, Bool, true, false, ◌||◌, List, [], ◌∷◌, ◌++◌, arith,
  Bool-cases, All, if◌then◌else◌,
}
use mathlib.Core.Path.{subst}
use ser2net.Common.Result.{ok}
use ser2net.Common.Int.{pos, negsuc}
use ser2net.Common.Texts.{same, is_one_of}
use Prim.Native.String.{String}
use ser2net.Modbus.Pdu.{read_pdu, read_bits_pdu, check_int, check_span}
use ser2net.Modbus.Value.{
  Dtype, uint16, int16, uint32, int32, float32, unknown, ValueError, dtype_registers,
}
use ser2net.Modbus.Value
use ser2net.Gateway.Points.{Point, read_request, is_bit_point}
use ser2net.Config.{Floats, World, Scalar, boolean, integer, real, other, within}
use ser2net.Config.Network.{is_port}
use ser2net.Config.Poll.{ModbusPoint, modbus_dtypes, is_bit_function}
use ser2net.Config.Poll.Names.{IsWellTyped}
use ser2net.Config.Mapping.{MappingConfig, has_points, validate}
use ser2net.Config.Mapping.Sound.{mapping-validate_fits}

-- The keys of `_DTYPE_REGS`.
abbrev pub dtype_of : String → Dtype
dtype_of s =
    if same s "uint16"
    then uint16
    else if same s "int16"
    then int16
    else if same s "uint32"
    then uint32
    else if same s "int32"
    then int32
    else if same s "float32"
    then float32
    else unknown

-- One or two registers, for each dtype that is allowed but bool.
known_registers :
    (s : String)
    → is_one_of s modbus_dtypes ≡ true
    → same s "bool" ≡ false
    → (count : ℕ) × (dtype_registers (dtype_of s) ≡ ok count) × (1 ≤ count) × (count ≤ 2)
known_registers s =
    known (same s "uint16") (same s "int16") (same s "uint32") (same s "int32") (same s "float32")
      (same s "bool")
  where
    known :
        (a b c d e f : Bool)
        → (a || (b || (c || (d || (e || (f || false)))))) ≡ true
        → f ≡ false
        → (count : ℕ) × (dtype_registers (
              if a
              then uint16
              else if b
              then int16
              else if c
              then uint32
              else if d
              then int32
              else if e
              then float32
              else unknown)
            ≡ ok count)
          × (1 ≤ count)
          × (count ≤ 2)
    known true b c d e f h k = (1, unfold dtype_registers in refl, omega arith, omega arith)
    known false true c d e f h k = (1, unfold dtype_registers in refl, omega arith, omega arith)
    known false false true d e f h k = (2, unfold dtype_registers in refl, omega arith, omega arith)
    known false false false true e f h k =
        (2, unfold dtype_registers in refl, omega arith, omega arith)
    known false false false false true f h k =
        (2, unfold dtype_registers in refl, omega arith, omega arith)
    known false false false false false f h k = absurd (cc (h, k))

module _ (fl : Floats) (gl : Value.Floats) (os : World) where
  -- What the gateway reads of a configured point whose numbers are integers.
  pub record IsPointOf (p : ModbusPoint fl) (g : Point gl) : Type 0 where
    pub unit : p.unit ≡ integer (pos g.unit)
    pub fn : p.fn ≡ integer (pos g.fn)
    pub address : p.address ≡ integer (pos g.address)
    pub dtype : dtype_of p.dtype ≡ g.dtype

  -- The request of a point: one bit, or one or two registers, of a unit and an address that fit
  -- their fields.
  abbrev pub CanBeAsked : Point gl → Type 0
  CanBeAsked g =
      (g.unit ≤ 255)
      × (g.address ≤ 65535)
      × ((count : ℕ) × (1 ≤ count)
          × (count ≤ 2)
          × (read_request gl g ≡ ok (read_pdu g.fn g.address count)))

  inside : (hi n : ℕ) (v : Scalar fl) → v ≡ integer (pos n) → within fl 0 hi v ≡ true → n ≤ hi
  inside hi n v e h =
      let at : within fl 0 hi (integer (pos n)) ≡ true = subst (λ w. within fl 0 hi w ≡ true) e h in
      ground arith

  read_request-bit :
      (g : Point gl)
      → is_bit_point gl g ≡ true
      → g.address ≤ 65535
      → read_request gl g ≡ ok (read_pdu g.fn g.address 1)
  unfolding read_request read_bits_pdu check_int check_span
  read_request-bit g bits fits = ground arith

  point-CanBeAsked :
      (p : ModbusPoint fl) (g : Point gl) → IsWellTyped fl p → IsPointOf p g → CanBeAsked g
  unfolding read_request
  point-CanBeAsked p g (typed, writes, functions, known, unit, address) of =
      let a = inside 65535 g.address p.address of.address address in
      let bits : is_bit_function fl p.fn ≡ is_bit_point gl g = rw of.fn refl in
      (
        inside 255 g.unit p.unit of.unit unit,
        a,
        elim (Bool-cases (is_bit_point gl g)) [
          | inl bit ↦ (1, omega arith, omega arith, read_request-bit g bit a)
          | inr word ↦
              let (count, found, low, high) =
                known_registers p.dtype known (sym typed ∙ bits ∙ word) in
              (count, low, high, rw (word, ← of.dtype, found) refl)
        ],
      )

  -- A port number; `True` is 1.
  abbrev pub IsPort : Scalar fl → Type 0
  IsPort v = (v ≡ boolean true) ⊎ ((n : ℕ) × (v ≡ integer (pos n)) × (1 ≤ n) × (n ≤ 65535))

  is_port-IsPort : (v : Scalar fl) → is_port fl os v ≡ true → IsPort v
  is_port-IsPort (boolean true) h = inl refl
  is_port-IsPort (boolean false) h = absurd (cc (h))
  is_port-IsPort (integer (pos n)) h = inr (n, refl, ground arith, ground arith)
  is_port-IsPort (integer (negsuc n)) h = absurd (cc (h))
  is_port-IsPort (real x) h = absurd (cc (h))
  is_port-IsPort other h = absurd (cc (h))

  All-middle :
      (P : ModbusPoint fl → Type 0) (before after : List (ModbusPoint fl)) (p : ModbusPoint fl)
      → All P (before ++ (p ∷ after))
      → P p
  All-middle P [] after p h = h.0
  All-middle P (q ∷ before) after p h = All-middle P before after p h.1

  has_points-middle :
      (before after : List (ModbusPoint fl)) (p : ModbusPoint fl)
      → has_points (before ++ (p ∷ after)) ≡ true
  has_points-middle [] after p = refl
  has_points-middle (q ∷ before) after p = refl

  -- A validated mapping with a point whose numbers are integers is a network mapping of the Modbus
  -- gateway, which listens on TCP, on a port from 1 to 65535; and the request of the point can be
  -- built: it asks one bit, or one or two registers, of a unit up to 255 and an address up to 65535.
  pub validate-CanBeAsked :
      (m : MappingConfig fl) (p : ModbusPoint fl) (g : Point gl)
      (before after : List (ModbusPoint fl))
      → validate fl os m ≡ ok tt
      → m.modbus_poll.points ≡ before ++ (p ∷ after)
      → IsPointOf p g
      → (m.kind ≡ "net")
        × (m.network.protocol ≡ "modbus")
        × (m.network.mode ≡ "server")
        × IsPort m.network.port
        × CanBeAsked g
  validate-CanBeAsked m p g before after valid listed of =
      let (bridge, settings, gateway, types, names) = mapping-validate_fits fl os m valid in
      let (net, modbus, server) =
        gateway
          (subst (λ ps. has_points ps ≡ true) (sym listed) (has_points-middle before after p)) in
      let (ip, found, free, port) = (settings net).0 (rw server refl) in
      (
        net,
        modbus,
        server,
        is_port-IsPort m.network.port port,
        point-CanBeAsked p g
            (All-middle (IsWellTyped fl) before after p (subst (All (IsWellTyped fl)) listed types))
            of,
      )
