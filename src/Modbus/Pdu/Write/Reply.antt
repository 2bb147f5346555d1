-- ===== src/Modbus/Pdu/Write/Reply.antt =====
-- app/engine/modbus.py, `check_write_response`: which replies it takes for an acknowledgement.
use ser2net.Common.{
  ℕ, ◌≤◌, bit_or, ◌≡◌, refl, ◌↔◌, ◌⊎◌, inl, inr, true, false, List, [], ◌∷◌, arith, ◌==◌, length,
  get_or, bytes_eq_refl, bytes_eq→eq,
}
use ser2net.Common.Result.{ok}
use ser2net.Modbus.Pdu.Write.{is_write_function, echo_of, check_reply, check_write_response}

-- The exception code of a write function is another function code.
exception_differs : (f : ℕ) → is_write_function f ≡ true → (f == bit_or f 0x80) ≡ false
exception_differs f h = elim (which f h) [
  | inl e ↦ rw e refl
  | inr (inl e) ↦ rw e refl
  | inr (inr (inl e)) ↦ rw e refl
  | inr (inr (inr e)) ↦ rw e refl
]
  where
    which : (f : ℕ) → is_write_function f ≡ true → (f ≡ 5) ⊎ ((f ≡ 6) ⊎ ((f ≡ 15) ⊎ (f ≡ 16)))
    which f h = ground arith

accepted→echo :
    (pdu expected : List ℕ) (f : ℕ) → check_reply pdu f expected ≡ ok tt → pdu ≡ expected
unfolding check_reply
accepted→echo [] expected f h = cc
accepted→echo (head ∷ rest) expected f h = ground (arith, bytes_eq→eq (head ∷ rest) expected)

echo→accepted :
    (expected : List ℕ) (f : ℕ)
    → 1 ≤ length expected
    → get_or expected 0 0 ≡ f
    → is_write_function f ≡ true
    → check_reply expected f expected ≡ ok tt
unfolding check_reply
echo→accepted [] f long head writes = absurd (omega arith)
echo→accepted (x ∷ xs) f long head writes =
    ground (arith, exception_differs f writes, bytes_eq_refl (x ∷ xs))

echo_head :
    (request : List ℕ)
    → 5 ≤ length request
    → (1 ≤ length (echo_of request)) × (get_or (echo_of request) 0 0 ≡ get_or request 0 0)
echo_head [] long = absurd (omega arith)
echo_head (f ∷ rest) long = ground arith

-- A write request of at least five bytes is acknowledged by its echo and by nothing else: all of
-- it for FC5 and FC6, the first five bytes for FC15 and FC16.
pub check_write_response-echo :
    (pdu request : List ℕ)
    → 5 ≤ length request
    → is_write_function (get_or request 0 0) ≡ true
    → (check_write_response pdu request ≡ ok tt) ↔ (pdu ≡ echo_of request)
unfolding check_write_response
check_write_response-echo pdu request long writes =
    let (size, head) = echo_head request long in
    let f = get_or request 0 0 in
    (
      λ h. accepted→echo pdu (echo_of request) f (ground arith),
      λ e. rw e (ground (arith, echo→accepted (echo_of request) f size head writes)),
    )
