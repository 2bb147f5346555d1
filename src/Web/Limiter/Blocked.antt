-- ===== src/Web/Limiter/Blocked.antt =====
-- app/web/auth.py, `LoginRateLimiter`: the answers of `blocked` after any events.
use ser2net.Common.{
  ℕ, ◌-◌, ◌≤◌, ◌≡◌, refl, sym, ap, ◌∙◌, inl, inr, List, [], ◌∷◌, ◌++◌, arith, Bool-cases, ltb, leb,
  bytes_eq, bytes_eq→eq, if◌then◌else◌, length, All, All-append,
}
use ser2net.Web.Limiter.{
  Limiter, new_limiter, set_fails, prune, blocked, record_failure, reset, Event, asked, failed,
  passed, after_all,
}
use ser2net.Web.Limiter.Window.{
  recent, failures_of, InOrder, Ordered, prune-recent, recent-recent, recent-append,
}

Ordered-later : (start end : ℕ) (q : List ℕ) → start ≤ end → Ordered start q → Ordered end q
Ordered-later start end [] h o = tt
Ordered-later start end (t ∷ q) h (le, first, rest) =
    (omega arith, first, Ordered-later start end q h rest)

All-recent : (P : ℕ → Type 0) (window now : ℕ) (q : List ℕ) → All P q → All P (recent window now q)
All-recent P window now [] h = tt
All-recent P window now (t ∷ q) h = elim (Bool-cases (ltb window (now - t))) [
  | inl e ↦ rw (e) (All-recent P window now q h.1)
  | inr e ↦ rw (e) (h.0, All-recent P window now q h.1)
]

Ordered-recent :
    (window now end : ℕ) (q : List ℕ) → Ordered end q → Ordered end (recent window now q)
Ordered-recent window now end [] o = tt
Ordered-recent window now end (t ∷ q) (le, first, rest) = elim (Bool-cases (ltb window (now - t))) [
  | inl e ↦ rw (e) (Ordered-recent window now end q rest)
  | inr e ↦
      rw (e) (le, All-recent (λ s. t ≤ s) window now q first, Ordered-recent window now end q rest)
]

Ordered-snoc : (start t : ℕ) (q : List ℕ) → start ≤ t → Ordered start q → Ordered t (q ++ (t ∷ []))
Ordered-snoc start t [] h o = (omega arith, tt, tt)
Ordered-snoc start t (s ∷ q) h (le, first, rest) = (
  omega arith,
  All-append (λ r. s ≤ r) q (t ∷ []) first (omega arith, tt),
  Ordered-snoc start t q h rest,
)

-- The entry of an address stands for its failures: whoever looks at it later finds the same ones
-- within the window.
abbrev Stands : ℕ → ℕ → List ℕ → List ℕ → Type 0
Stands window start q f =
    Ordered start q × ((now : ℕ) → start ≤ now → recent window now q ≡ recent window now f)

Stands-later :
    (window start end : ℕ) (q f : List ℕ)
    → start ≤ end
    → Stands window start q f
    → Stands window end q f
Stands-later window start end q f h (o, r) =
    (Ordered-later start end q h o, λ now l. r now (omega arith))

Stands-pruned :
    (window start t : ℕ) (q f : List ℕ)
    → start ≤ t
    → Stands window start q f
    → Stands window t (prune window t q) f
Stands-pruned window start t q f h (o, r) = rw (prune-recent window t start q o) (
  Ordered-later start t (recent window t q) h (Ordered-recent window t start q o),
  λ now l. recent-recent window t now q l ∙ r now (omega arith),
)

Stands-added :
    (window start t : ℕ) (q f : List ℕ)
    → start ≤ t
    → Stands window start q f
    → Stands window t (q ++ (t ∷ [])) (f ++ (t ∷ []))
Stands-added window start t q f h (o, r) = (
  Ordered-snoc start t q h o,
  λ now l.
      recent-append window now q (t ∷ [])
      ∙ ap (λ p. p ++ recent window now (t ∷ [])) (r now (omega arith))
      ∙ sym (recent-append window now f (t ∷ [])),
)

-- The entry of `ip` after that of `other` was set by a function of what it was.
entry_cases :
    (P : List ℕ → List ℕ → Type 0) (fails : List ℕ → List ℕ) (change change_f : List ℕ → List ℕ)
    (ip other f : List ℕ)
    → P (change (fails ip)) (change_f f)
    → P (fails ip) f
    → P
        (if bytes_eq ip other then change (fails other) else fails ip)
        (if bytes_eq ip other then change_f f else f)
entry_cases P fails change change_f ip other f here there = elim (Bool-cases (bytes_eq ip other)) [
  | inl e ↦ rw (e, ← bytes_eq→eq ip other e) here
  | inr e ↦ rw (e) there
]

answer :
    (l : Limiter) (ip f : List ℕ) (start now : ℕ) (es : List Event)
    → Stands l.window_s start (l.fails ip) f
    → InOrder start es now
    → (blocked (after_all l es) ip now).1
      ≡ leb l.max_attempts (length (recent l.window_s now (failures_of ip f es)))
unfolding after_all blocked record_failure reset failures_of
answer l ip f start now [] (o, r) h =
    ap (λ q. leb l.max_attempts (length q))
      (prune-recent l.window_s now start (l.fails ip) o ∙ r now h)
answer l ip f start now (asked other t ∷ es) s (le, h) =
    answer (set_fails l other (prune l.window_s t (l.fails other))) ip f t now es
      (elim (Bool-cases (bytes_eq ip other)) [
        | inl e ↦
            rw (e, ← bytes_eq→eq ip other e) (Stands-pruned l.window_s start t (l.fails ip) f le s)
        | inr e ↦ rw (e) (Stands-later l.window_s start t (l.fails ip) f le s)
      ])
      h
answer l ip f start now (failed other t ∷ es) s (le, h) =
    answer (set_fails l other (l.fails other ++ (t ∷ []))) ip _ t now es
      (entry_cases (Stands l.window_s t) l.fails (λ q. q ++ (t ∷ [])) (λ q. q ++ (t ∷ [])) ip other
        f (Stands-added l.window_s start t (l.fails ip) f le s)
        (Stands-later l.window_s start t (l.fails ip) f le s))
      h
answer l ip f start now (passed other ∷ es) s (le, h) =
    answer (set_fails l other []) ip _ start now es
      (entry_cases (Stands l.window_s start) l.fails (λ q. []) (λ q. []) ip other f
        (tt, λ n l. refl) s)
      h

-- After any events at times in order, an address is blocked exactly if it failed `max_attempts`
-- times or more within the window since it last signed in. Other addresses do not matter.
pub blocked-failures_of :
    (max_attempts window : ℕ) (ip : List ℕ) (now : ℕ) (es : List Event)
    → InOrder 0 es now
    → (blocked (after_all (new_limiter max_attempts window) es) ip now).1
      ≡ leb max_attempts (length (recent window now (failures_of ip [] es)))
blocked-failures_of max_attempts window ip now es h =
    answer (new_limiter max_attempts window) ip [] 0 now es (tt, λ n l. refl) h
