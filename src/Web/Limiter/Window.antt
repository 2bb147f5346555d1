-- ===== src/Web/Limiter/Window.antt =====
-- app/web/auth.py, `LoginRateLimiter`: an address is blocked by its failures within the window.
use ser2net.Common.{
  ℕ, ◌-◌, ◌≤◌, false, ◌≡◌, refl, inl, inr, List, [], ◌∷◌, ◌++◌, arith, Bool-cases, ltb, bytes_eq,
  if◌then◌else◌, All,
}
use ser2net.Web.Limiter.{prune, Event, asked, failed, passed}

-- The times of a list that lie within the window before `now`.
abbrev pub recent : ℕ → ℕ → List ℕ → List ℕ
recent window now [] = []
recent window now (t ∷ q) =
    let rest = recent window now q in if ltb window (now - t) then rest else t ∷ rest

-- The failures of an address since it last signed in, in the order of events.
unfoldable pub failures_of : List ℕ → List ℕ → List Event → List ℕ
failures_of ip q [] = q
failures_of ip q (asked other now ∷ es) = failures_of ip q es
failures_of ip q (failed other now ∷ es) =
    failures_of ip (if bytes_eq ip other then q ++ (now ∷ []) else q) es
failures_of ip q (passed other ∷ es) = failures_of ip (if bytes_eq ip other then [] else q) es

abbrev pub time_of : ℕ → Event → ℕ
time_of before (asked ip now) = now
time_of before (failed ip now) = now
time_of before (passed ip) = before

-- The clock of the events never goes back, and stands at `end` or before.
abbrev pub InOrder : ℕ → List Event → ℕ → Type 0
InOrder start [] end = start ≤ end
InOrder start (e ∷ es) end = (start ≤ time_of start e) × InOrder (time_of start e) es end

abbrev pub Ordered : ℕ → List ℕ → Type 0
Ordered end [] = Unit {0}
Ordered end (t ∷ q) = (t ≤ end) × All (λ s. t ≤ s) q × Ordered end q

recent-old :
    (window now t : ℕ) (q : List ℕ)
    → ltb window (now - t) ≡ false
    → All (λ s. t ≤ s) q
    → recent window now q ≡ q
recent-old window now t [] h g = refl
recent-old window now t (s ∷ q) h g =
    let kept : ltb window (now - s) ≡ false = ground (arith, g.0) in
    rw (kept, recent-old window now t q h g.1) refl

-- On times in order, to take from the front is to take all that are too old.
pub prune-recent :
    (window now end : ℕ) (q : List ℕ) → Ordered end q → prune window now q ≡ recent window now q
unfolding prune
prune-recent window now end [] h = refl
prune-recent window now end (t ∷ q) (le, first, rest) = elim (Bool-cases (ltb window (now - t))) [
  | inl e ↦ rw (e) (prune-recent window now end q rest)
  | inr e ↦ rw (e, recent-old window now t q e first) refl
]

-- What was too old stays too old.
pub recent-recent :
    (window earlier now : ℕ) (q : List ℕ)
    → earlier ≤ now
    → recent window now (recent window earlier q) ≡ recent window now q
recent-recent window earlier now [] h = refl
recent-recent window earlier now (t ∷ q) h = ground (arith, recent-recent window earlier now q h)

pub recent-append :
    (window now : ℕ) (p q : List ℕ)
    → recent window now (p ++ q) ≡ recent window now p ++ recent window now q
recent-append window now [] q = refl
recent-append window now (t ∷ p) q = ground (arith, recent-append window now p q)
