-- ===== src/Common/Result.antt =====
-- Fallible code: a value, or the error that the source raises.
use mathlib.Core.Path.{◌≡◌, refl, subst}
use ser2net.Common.Tests.{if◌then◌else◌}
use mathlib.Core.Bool.{Bool, true, false, not}

pub data Result {ℓ} (E : Type 0) (A : Type ℓ) : Type ℓ where
  ok : A → Result E A
  err : E → Result E A

infixl 5 ◌>>=◌ ◌>>◌
abbrev pub ◌>>=◌ {ℓ κ} :
    {E : Type 0} {A : Type ℓ} {B : Type κ} → Result E A → (A → Result E B) → Result E B
err e >>= rest = err e
ok a >>= rest = rest a

abbrev pub ◌>>◌ {ℓ} : {E : Type 0} {B : Type ℓ} → Result E (Unit {0}) → Result E B → Result E B
err e >> rest = err e
ok done >> rest = rest

-- `if test: raise e`
abbrev pub raise_if : {E : Type 0} → Bool → E → Result E (Unit {0})
raise_if true e = err e
raise_if false e = ok tt

-- What a chain that succeeds went through.
pub >>=-ok {ℓ κ} :
    {E : Type 0} {A : Type ℓ} {B : Type κ} (first : Result E A) (rest : A → Result E B) {b : B}
    → ◌≡◌ {A = Result E B} (first >>= rest) (ok b)
    → (middle : A) × (first ≡ ok middle) × (rest middle ≡ ok b)
>>=-ok (err e) rest h = cc
>>=-ok (ok middle) rest h = (middle, refl, h)

pub ok-injective {ℓ} :
    {E : Type 0} {A : Type ℓ} {a b : A} → ◌≡◌ {A = Result E A} (ok a) (ok b) → a ≡ b
ok-injective h = cc

pub >>-ok {ℓ} :
    {E : Type 0} {B : Type ℓ} (first : Result E (Unit {0})) (rest : Result E B) {b : B}
    → ◌≡◌ {A = Result E B} (first >> rest) (ok b)
    → (first ≡ ok tt) × (rest ≡ ok b)
>>-ok (err e) rest h = cc
>>-ok (ok tt) rest h = (refl, h)

pub raise_if-ok : {E : Type 0} (e : E) (test : Bool) → raise_if test e ≡ ok tt → test ≡ false
raise_if-ok e true h = cc
raise_if-ok e false h = refl

-- A check that is written as the negation of what it asks.
pub raise_if-pass : {E : Type 0} (e : E) (test : Bool) → raise_if (not test) e ≡ ok tt → test ≡ true
raise_if-pass e true h = refl
raise_if-pass e false h = cc

-- What holds of a result, if there is one.
abbrev pub Ensures {ℓ κ} : {E : Type 0} {A : Type ℓ} → (A → Type κ) → Result E A → Type κ
Ensures P (ok a) = P a
Ensures P (err e) = Unit

pub Ensures->>= {ℓ κ μ ν} :
    {E : Type 0} {A : Type ℓ} {B : Type κ} (P : A → Type μ) (Q : B → Type ν) (first : Result E A)
    (rest : A → Result E B)
    → Ensures P first
    → ((a : A) → P a → Ensures Q (rest a))
    → Ensures Q (first >>= rest)
Ensures->>= P Q (ok a) rest h k = k a h
Ensures->>= P Q (err e) rest h k = tt

pub Ensures-any {ℓ κ} :
    {E : Type 0} {A : Type ℓ} (P : A → Type κ) (r : Result E A) → ((a : A) → P a) → Ensures P r
Ensures-any P (ok a) h = h a
Ensures-any P (err e) h = tt

pub Ensures-if {ℓ κ} :
    {E : Type 0} {A : Type ℓ} (P : A → Type κ) (b : Bool) (r s : Result E A)
    → Ensures P r
    → Ensures P s
    → Ensures P (if b then r else s)
Ensures-if P true r s h h' = h
Ensures-if P false r s h h' = h'

pub Ensures-ok {ℓ κ} :
    {E : Type 0} {A : Type ℓ} (P : A → Type κ) (r : Result E A) (a : A)
    → r ≡ ok a
    → Ensures P r
    → P a
Ensures-ok P (ok b) a e h = subst P (ok-injective e) h
Ensures-ok P (err e') a e h = cc
