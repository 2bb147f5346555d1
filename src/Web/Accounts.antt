-- ===== src/Web/Accounts.antt =====
-- app/config.py, the accounts of `AppConfig`: `User` and the operations on the list of users.
pub mod External
use ser2net.Common.{
  ℕ, suc, ◌+◌, not, ◌||◌, Option, none, some, List, [], ◌∷◌, bytes_eq, if◌then◌else◌,
}
use ser2net.Common.Texts.{same, is_one_of}
use Prim.Native.String.{String}

abbrev pub roles : List String
roles = "admin" ∷ "operator" ∷ "viewer" ∷ []

pub record User : Type 0 where
  pub username : List ℕ
  pub password_hash : List ℕ
  pub role : String
  pub pwd_version : ℕ
  pub source : String

-- What `User.from_dict` does to the values it read.
unfoldable pub checked_user : User → User
checked_user u = record u {
  role = if is_one_of u.role roles then u.role else "viewer";
  source = if is_one_of u.source ("local" ∷ "ldap" ∷ "oidc" ∷ []) then u.source else "local";
}

unfoldable pub get_user : List User → List ℕ → Option User
get_user [] name = none
get_user (u ∷ users) name = if bytes_eq u.username name then some u else get_user users name

unfoldable pub admin_count : List User → ℕ
admin_count [] = 0
admin_count (u ∷ users) =
    let rest = admin_count users in if same u.role "admin" then suc rest else rest

-- `elif u.role != role or u.source != source`
abbrev pub refreshed : User → String → String → User
refreshed u role source =
    if not (same u.role role) || not (same u.source source)
    then record u { role = role; source = source; pwd_version = u.pwd_version + 1 }
    else u

-- The list after `upsert_external_user`: the first account of the name is changed in place, or a new
-- one is appended.
unfoldable pub upsert_external_user : List User → List ℕ → String → String → List User
upsert_external_user [] name role source =
    record { username = name; password_hash = []; role = role; pwd_version = 1; source = source }
    ∷ []
upsert_external_user (u ∷ users) name role source =
    let rest = upsert_external_user users name role source in
    if bytes_eq u.username name then refreshed u role source ∷ users else u ∷ rest
