-- ===== src/Web/Session/Signed.antt =====
-- app/web/auth.py: who a session cookie signs in, and until when.
use ser2net.Common.{
  ℕ, ◌<◌, true, false, ◌≡◌, refl, ap, ◌∙◌, ◌≢◌, inl, inr, Option, none, some, List, [], ◌∷◌, ◌++◌,
  arith, Bool-cases, leb, ◌==◌, bytes_eq, bytes_eq→eq, All,
}
use ser2net.Web.Accounts.{User, get_user}
use ser2net.Web.Session.{
  Payload, Library, split_at, rsplit, unexpired, read_parts, decode_session, current, user_of,
  session_user, Access,
}

rsplit-none : (c : ℕ) (xs : List ℕ) → All (λ x. x ≢ c) xs → rsplit c xs ≡ none
unfolding rsplit
rsplit-none c [] h = refl
rsplit-none c (x ∷ xs) h =
    let differ : (x == c) ≡ false = ground (arith, h.0) in rw (rsplit-none c xs h.1, differ) refl

pub rsplit-last :
    (c : ℕ) (xs ys : List ℕ) → All (λ y. y ≢ c) ys → rsplit c (xs ++ (c ∷ ys)) ≡ some (xs, ys)
unfolding rsplit
rsplit-last c [] ys h =
    let equal : (c == c) ≡ true = ground arith in rw (rsplit-none c ys h, equal) refl
rsplit-last c (x ∷ xs) ys h = rw (rsplit-last c xs ys h) refl

parts_step :
    (c x : ℕ) (xs a b : List ℕ) (o : Option (List ℕ × List ℕ))
    → ((a b : List ℕ) → o ≡ some (a, b) → xs ≡ a ++ (c ∷ b))
    → split_at c x xs o ≡ some (a, b)
    → x ∷ xs ≡ a ++ (c ∷ b)
parts_step c x xs a b (some (a', b')) f h =
    let first : x ∷ a' ≡ a = cc in
    let second : b' ≡ b = cc in rw (← first, ← second) (ap (◌∷◌ x) (f a' b' refl))
parts_step c x xs a b none f h = elim (Bool-cases (x == c)) [
  | inl e ↦
      let split : ◌≡◌ {A = Option (List ℕ × List ℕ)} (some ([], xs)) (some (a, b)) =
        rw (← h, e) refl in
      let first : [] ≡ a = cc in
      let second : xs ≡ b = cc in
      let same : x ≡ c = ground arith in rw (← first, ← second, same) refl
  | inr e ↦
      let split : ◌≡◌ {A = Option (List ℕ × List ℕ)} none (some (a, b)) = rw (← h, e) refl in
      absurd (cc)
]

rsplit-parts : (c : ℕ) (xs a b : List ℕ) → rsplit c xs ≡ some (a, b) → xs ≡ a ++ (c ∷ b)
unfolding rsplit
rsplit-parts c [] a b h = absurd (cc)
rsplit-parts c (x ∷ xs) a b h = parts_step c x xs a b (rsplit c xs) (rsplit-parts c xs) h

module _ (lib : Library) where
  -- The parts of a token that was accepted.
  abbrev pub IsSigned : List ℕ → ℕ → List ℕ → Payload → Type 0
  IsSigned secret now token claims =
      (payload : List ℕ) × (token ≡ payload ++ (b'.' ∷ lib.sign secret payload))
      × (lib.decode payload ≡ some claims)
      × (now < claims.exp)

  unexpired-some :
      (now : ℕ) (o : Option Payload) (claims : Payload)
      → unexpired lib now o ≡ some claims
      → (o ≡ some claims) × (now < claims.exp)
  unexpired-some now none claims h = absurd (cc)
  unexpired-some now (some p) claims h = elim (Bool-cases (leb p.exp now)) [
    | inl e ↦ absurd (cc (h, e))
    | inr e ↦
        let kept : ◌≡◌ {A = Option Payload} (some p) (some claims) = rw (← h, e) refl in
        let same : p ≡ claims = cc in
        let later : now < p.exp = ground arith in (kept, rw (← same) later)
  ]

  read_parts-some :
      (secret : List ℕ) (now : ℕ) (token : List ℕ) (o : Option (List ℕ × List ℕ)) (claims : Payload)
      → rsplit b'.' token ≡ o
      → read_parts lib secret now o ≡ some claims
      → IsSigned secret now token claims
  read_parts-some secret now token none claims e h = absurd (cc)
  read_parts-some secret now token (some (payload, sig)) claims e h =
      elim (Bool-cases (bytes_eq sig (lib.sign secret payload))) [
        | inr n ↦ absurd (cc (h, n))
        | inl s ↦
            let read : unexpired lib now (lib.decode payload) ≡ some claims = rw (← h, s) refl in
            let (decoded, later) = unexpired-some now (lib.decode payload) claims read in
            (
              payload,
              rsplit-parts b'.' token payload sig e
                  ∙ ap (λ q. payload ++ (b'.' ∷ q)) (bytes_eq→eq sig (lib.sign secret payload) s),
              decoded,
              later,
            )
      ]

  decode_session-IsSigned :
      (secret : List ℕ) (now : ℕ) (token : List ℕ) (claims : Payload)
      → decode_session lib secret now token ≡ some claims
      → IsSigned secret now token claims
  unfolding decode_session
  decode_session-IsSigned secret now token claims h =
      read_parts-some secret now token (rsplit b'.' token) claims refl h

  current-some :
      (o : Option User) (v : ℕ) (u : User)
      → current lib o v ≡ some u
      → (o ≡ some u) × (u.pwd_version ≡ v)
  current-some none v u h = absurd (cc)
  current-some (some w) v u h = elim (Bool-cases (w.pwd_version == v)) [
    | inr n ↦ absurd (cc (h, n))
    | inl e ↦
        let kept : ◌≡◌ {A = Option User} (some w) (some u) = rw (← h, e) refl in
        let same : w ≡ u = cc in
        let version : w.pwd_version ≡ v = ground arith in (kept, rw (← same) version)
  ]

  user_of-some :
      (users : List User) (o : Option Payload) (u : User)
      → user_of lib users o ≡ some u
      → (claims : Payload) × (o ≡ some claims)
        × (get_user users claims.u ≡ some u)
        × (u.pwd_version ≡ claims.v)
  user_of-some users none u h = absurd (cc)
  user_of-some users (some claims) u h =
      let (found, version) = current-some (get_user users claims.u) claims.v u h in
      (claims, refl, found, version)

  -- What a session needs to act as an account.
  abbrev pub ActsBySession : Access lib → ℕ → List ℕ → User → Type 0
  ActsBySession cfg now token u =
      (claims : Payload) × IsSigned cfg.secret_key now token claims
      × (get_user cfg.users claims.u ≡ some u)
      × (u.pwd_version ≡ claims.v)

  pub session_user-ActsBySession :
      (cfg : Access lib) (now : ℕ) (token : List ℕ) (u : User)
      → session_user lib cfg.secret_key cfg.users now token ≡ some u
      → ActsBySession cfg now token u
  unfolding session_user
  session_user-ActsBySession cfg now token u h =
      let decoded = decode_session lib cfg.secret_key now token in
      let (claims, read, found, version) = user_of-some cfg.users decoded u h in
      (claims, decode_session-IsSigned cfg.secret_key now token claims read, found, version)
