-- ===== src/Web/Accounts/External.antt =====
-- app/config.py, `upsert_external_user`: what a sign-in through a directory changes.
use ser2net.Common.{
  ℕ, ◌+◌, false, not, ◌||◌, ◌≡◌, refl, ap, ◌∙◌, ◌≢◌, ◌⊎◌, inl, inr, Option, none, some, List, [],
  ◌∷◌, Bool-cases, bytes_eq, bytes_eq→eq, bytes_eq_refl,
}
use ser2net.Common.Texts.{same, same_iff}
use Prim.Native.String.{String}
use ser2net.Web.Accounts.{User, get_user, refreshed, upsert_external_user}

-- The account that is found afterwards, given the one found before.
abbrev pub refreshed_or_new : Option User → List ℕ → String → String → User
refreshed_or_new none name role source = record {
  username = name;
  password_hash = [];
  role = role;
  pwd_version = 1;
  source = source;
}
refreshed_or_new (some u) name role source = refreshed u role source

refreshed-username :
    (u : User) (role source : String) → (refreshed u role source).username ≡ u.username
refreshed-username u role source =
    elim (Bool-cases (not (same u.role role) || not (same u.source source))) [
      | inl e ↦ rw (e) refl
      | inr e ↦ rw (e) refl
    ]

get_user-upsert_self :
    (users : List User) (name : List ℕ) (role source : String)
    → get_user (upsert_external_user users name role source) name
      ≡ some (refreshed_or_new (get_user users name) name role source)
unfolding get_user upsert_external_user
get_user-upsert_self [] name role source = rw (bytes_eq_refl name) refl
get_user-upsert_self (u ∷ users) name role source = elim (Bool-cases (bytes_eq u.username name)) [
  | inl e ↦ rw (e, refreshed-username u role source, e) refl
  | inr e ↦ rw (e, e) (get_user-upsert_self users name role source)
]

get_user-upsert_other :
    (users : List User) (name other : List ℕ) (role source : String)
    → bytes_eq name other ≡ false
    → get_user (upsert_external_user users name role source) other ≡ get_user users other
unfolding get_user upsert_external_user
get_user-upsert_other [] name other role source n = rw (n) refl
get_user-upsert_other (u ∷ users) name other role source n =
    elim (Bool-cases (bytes_eq u.username name)) [
      | inl e ↦
          let differs : bytes_eq u.username other ≡ false =
            ap (λ s. bytes_eq s other) (bytes_eq→eq u.username name e) ∙ n in
          rw (e, refreshed-username u role source, differs) refl
      | inr e ↦ elim (Bool-cases (bytes_eq u.username other)) [
        | inl q ↦ rw (e, q) refl
        | inr q ↦ rw (e, q) (get_user-upsert_other users name other role source n)
      ]
    ]

-- The account gets the role and the source. Its version of the password stays if it had both, and
-- goes up by one if it did not.
abbrev pub IsRefreshed : User → String → String → User → Type 0
IsRefreshed u role source u' =
    (u'.role ≡ role)
    × (u'.source ≡ source)
    × ((u.role ≡ role) × (u.source ≡ source) → u'.pwd_version ≡ u.pwd_version)
    × ((u.role ≢ role) ⊎ (u.source ≢ source) → u'.pwd_version ≡ u.pwd_version + 1)

refreshed-IsRefreshed :
    (u : User) (role source : String) → IsRefreshed u role source (refreshed u role source)
refreshed-IsRefreshed u role source = elim (Bool-cases (same u.role role)) [
  | inr r ↦ rw (r) (refl, refl, λ h. absurd (cc (r, (same_iff u.role role).1 h.0)), λ h. refl)
  | inl r ↦ elim (Bool-cases (same u.source source)) [
    | inr s ↦
        rw (r, s) (refl, refl, λ h. absurd (cc (s, (same_iff u.source source).1 h.1)), λ h. refl)
    | inl s ↦
        rw (r, s)
          (
            (same_iff u.role role).0 r,
            (same_iff u.source source).0 s,
            λ h. refl,
            λ h. elim h [
              | inl n ↦ absurd (n ((same_iff u.role role).0 r))
              | inr n ↦ absurd (n ((same_iff u.source source).0 s))
            ],
          )
  ]
]

-- After a sign-in through a directory, the account of that name has the role and the source that
-- the directory gave, and the accounts of other names are as they were. If there was an account and
-- its role or source changed, its version of the password went up by one, and otherwise it stayed.
pub upsert_external_user-IsRefreshed :
    (users : List User) (name : List ℕ) (role source : String)
    → ((u : User)
        → get_user users name ≡ some u
        → (u' : User) × (get_user (upsert_external_user users name role source) name ≡ some u')
          × IsRefreshed u role source u')
      × ((other : List ℕ)
          → name ≢ other
          → get_user (upsert_external_user users name role source) other ≡ get_user users other)
upsert_external_user-IsRefreshed users name role source = (
  λ u found. (
    refreshed u role source,
    get_user-upsert_self users name role source
        ∙ ap (λ o. some (refreshed_or_new o name role source)) found,
    refreshed-IsRefreshed u role source,
  ),
  λ other n. get_user-upsert_other users name other role source (differ other n),
)
  where
    differ : (other : List ℕ) → name ≢ other → bytes_eq name other ≡ false
    differ other n = elim (Bool-cases (bytes_eq name other)) [
      | inl e ↦ absurd (n (bytes_eq→eq name other e))
      | inr e ↦ e
    ]
