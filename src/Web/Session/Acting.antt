-- ===== src/Web/Session/Acting.antt =====
-- app/web/auth.py: as whom a request acts.
use ser2net.Common.{
  ℕ, ◌+◌, ◌<◌, Bool, true, false, ◌||◌, ◌≡◌, refl, ◌≢◌, ◌⊎◌, inl, inr, Option, none, some, List,
  arith, Bool-cases, leb, ◌==◌, bytes_eq_refl, is_nil, All,
}
use Prim.Native.String.{String}
use ser2net.Web.Accounts.{User, get_user, upsert_external_user}
use ser2net.Web.Accounts.External.{upsert_external_user-IsRefreshed}
use ser2net.Web.Session.{
  Payload, Library, issue_session, unexpired, decode_session, session_user, Headers, Access,
  claimed_hosts, all_own, anonymous, anonymous_user, or_else, request_user,
}
use ser2net.Web.Session.Signed.{rsplit-last, ActsBySession, session_user-ActsBySession}

both_false : (a b : Bool) → (a || b) ≡ false → (a ≡ false) × (b ≡ false)
both_false true b h = absurd (cc)
both_false false b h = (refl, h)

module _ (lib : Library) where
  -- What it takes to act without a session.
  abbrev pub ActsOpenly : Access lib → Headers lib → User → Type 0
  ActsOpenly cfg headers u =
      (cfg.require_login ≡ false)
      × (is_nil cfg.users ≡ false)
      × (all_own lib (claimed_hosts lib headers) ≡ true)
      × (u.role ≡ cfg.anonymous_role)

  anonymous_user-ActsOpenly :
      (cfg : Access lib) (headers : Headers lib) (u : User)
      → anonymous_user lib cfg headers ≡ some u
      → ActsOpenly cfg headers u
  unfolding anonymous_user
  anonymous_user-ActsOpenly cfg headers u h =
      elim (Bool-cases (cfg.require_login || is_nil cfg.users)) [
        | inl e ↦ absurd (cc (h, e))
        | inr e ↦ elim (Bool-cases (all_own lib (claimed_hosts lib headers))) [
          | inr n ↦ absurd (cc (h, e, n))
          | inl o ↦
              let neither = both_false cfg.require_login (is_nil cfg.users) e in
              let kept : ◌≡◌ {A = Option User} (some (anonymous lib cfg)) (some u) =
                rw (← h, e, o) refl in
              let same : anonymous lib cfg ≡ u = cc in (neither.0, neither.1, o, rw (← same) refl)
        ]
      ]

  or_else-cases :
      (first second : Option User) (u : User)
      → or_else lib first second ≡ some u
      → (first ≡ some u) ⊎ (second ≡ some u)
  or_else-cases (some w) second u h = inl h
  or_else-cases none second u h = inr h

  -- A request acts as an account only if its cookie is signed with the secret key, has not run out,
  -- and names the account and the version of its password; or, where no login is required and there
  -- are accounts, if every host that it claims is this machine, and then in the role for visitors.
  pub request_user-Acts :
      (cfg : Access lib) (now : ℕ) (token : List ℕ) (headers : Headers lib) (u : User)
      → request_user lib cfg now token headers ≡ some u
      → ActsBySession lib cfg now token u ⊎ ActsOpenly cfg headers u
  unfolding request_user
  request_user-Acts cfg now token headers u h =
      elim (or_else-cases (session_user lib cfg.secret_key cfg.users now token)
        (anonymous_user lib cfg headers) u h) [
          | inl s ↦ inl (session_user-ActsBySession lib cfg now token u s)
          | inr a ↦ inr (anonymous_user-ActsOpenly cfg headers u a)
        ]

module _ (lib : Library) (decode-encode : (p : Payload) → lib.decode (lib.encode p) ≡ some p)
    (no_dot : (secret payload : List ℕ) → All (λ c. c ≢ b'.') (lib.sign secret payload)) where
  decode_session-issued :
      (secret : List ℕ) (issued ttl now : ℕ) (name : List ℕ) (v : ℕ)
      → decode_session lib secret now (issue_session lib secret issued ttl name v)
        ≡ unexpired lib now (some (record { exp = issued + ttl; u = name; v = v }))
  unfolding decode_session issue_session
  decode_session-issued secret issued ttl now name v =
      let claims : Payload = record { exp = issued + ttl; u = name; v = v } in
      let payload = lib.encode claims in
      rw
        (
          rsplit-last b'.' payload (lib.sign secret payload) (no_dot secret payload),
          bytes_eq_refl (lib.sign secret payload),
          decode-encode claims,
        )
        refl

  -- If the encoding can be undone and a signature has no dot, a session that was issued for an
  -- account acts as it until it runs out.
  pub session_user-issued :
      (secret : List ℕ) (users : List User) (issued ttl now : ℕ) (name : List ℕ) (u : User)
      → get_user users name ≡ some u
      → now < issued + ttl
      → session_user lib secret users now (issue_session lib secret issued ttl name u.pwd_version)
        ≡ some u
  unfolding session_user
  session_user-issued secret users issued ttl now name u found early =
      let fresh : leb (issued + ttl) now ≡ false = ground arith in
      let version : (u.pwd_version == u.pwd_version) ≡ true = ground arith in
      rw (decode_session-issued secret issued ttl now name u.pwd_version, fresh, found, version)
        refl

  -- Under the same hypotheses, once a sign-in through a directory has changed the role or the source
  -- of an account, its earlier sessions act as nobody, at any time.
  pub session_user-revoked :
      (secret : List ℕ) (users : List User) (issued ttl now : ℕ) (name : List ℕ) (u : User)
      (role source : String)
      → get_user users name ≡ some u
      → (u.role ≢ role) ⊎ (u.source ≢ source)
      → session_user lib secret
          (upsert_external_user users name role source)
          now
          (issue_session lib secret issued ttl name u.pwd_version)
        ≡ none
  unfolding session_user
  session_user-revoked secret users issued ttl now name u role source found changed =
      let (u', found', (r, s, kept, bumped)) =
        (upsert_external_user-IsRefreshed users name role source).0 u found in
      let other : (u'.pwd_version == u.pwd_version) ≡ false = ground (arith, bumped changed) in
      elim (Bool-cases (leb (issued + ttl) now)) [
        | inl e ↦ rw (decode_session-issued secret issued ttl now name u.pwd_version, e) refl
        | inr e ↦
            rw (decode_session-issued secret issued ttl now name u.pwd_version, e, found', other)
              refl
      ]
