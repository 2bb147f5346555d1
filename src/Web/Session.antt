-- ===== src/Web/Session.antt =====
-- app/web/auth.py: the session cookie, and as whom a request acts. The encodings and the signature
-- of the standard library, the names of this machine and the regular expression for `Forwarded` are
-- parameters.
pub mod Signed
pub mod Acting
use ser2net.Common.{
  ℕ, ◌+◌, Bool, true, not, ◌&&◌, ◌||◌, Option, none, some, List, [], ◌∷◌, ◌++◌, leb, ◌==◌, bytes_eq,
  is_nil, if◌then◌else◌,
}
use ser2net.Common.Texts.{codes, strip, is_any_of}
use Prim.Native.String.{String}
use ser2net.Web.Accounts.{User, get_user}

-- The payload of a session: when it ends, for whom, and the version of the password.
pub record Payload : Type 0 where
  pub exp : ℕ
  pub u : List ℕ
  pub v : ℕ

-- `_b64e(json.dumps(...))`, its inverse where it does not raise, `_sign`, and `ipaddress.ip_address`.
pub record Library : Type 0 where
  pub encode : Payload → List ℕ
  pub decode : List ℕ → Option Payload
  pub sign : List ℕ → List ℕ → List ℕ
  pub lower : List ℕ → List ℕ
  pub is_ip : List ℕ → Bool
  pub own_host_names : List (List ℕ)
  pub forwarded_hosts : List ℕ → List (List ℕ)

abbrev pub split_at : ℕ → ℕ → List ℕ → Option (List ℕ × List ℕ) → Option (List ℕ × List ℕ)
split_at c x xs none = if x == c then some ([], xs) else none
split_at c x xs (some (a, b)) = some (x ∷ a, b)

-- `s.rsplit(c, 1)`, none where the character does not occur.
unfoldable pub rsplit : ℕ → List ℕ → Option (List ℕ × List ℕ)
rsplit c [] = none
rsplit c (x ∷ xs) = split_at c x xs (rsplit c xs)

unfoldable pub count : ℕ → List ℕ → ℕ
count c [] = 0
count c (x ∷ xs) = let rest = count c xs in if x == c then rest + 1 else rest

abbrev pub split_on : ℕ → List ℕ → List ℕ → List (List ℕ)
split_on c part [] = part ∷ []
split_on c part (x ∷ xs) =
    if x == c then part ∷ split_on c [] xs else split_on c (part ++ (x ∷ [])) xs

module _ (lib : Library) where
  open lib use {encode, decode, sign, lower, is_ip}

  unfoldable pub issue_session : List ℕ → ℕ → ℕ → List ℕ → ℕ → List ℕ
  issue_session secret now ttl username pwd_version =
      let payload = encode (record { exp = now + ttl; u = username; v = pwd_version }) in
      payload ++ (b'.' ∷ sign secret payload)

  abbrev pub unexpired : ℕ → Option Payload → Option Payload
  unexpired now none = none
  unexpired now (some claims) = if leb claims.exp now then none else some claims

  abbrev pub read_parts : List ℕ → ℕ → Option (List ℕ × List ℕ) → Option Payload
  read_parts secret now none = none
  read_parts secret now (some (payload, sig)) =
      if not (bytes_eq sig (sign secret payload)) then none else unexpired now (decode payload)

  unfoldable pub decode_session : List ℕ → ℕ → List ℕ → Option Payload
  unfolding rsplit
  decode_session secret now token = read_parts secret now (rsplit b'.' token)

  abbrev pub current : Option User → ℕ → Option User
  current none v = none
  current (some user) v = if not (user.pwd_version == v) then none else some user

  abbrev pub user_of : List User → Option Payload → Option User
  user_of users none = none
  user_of users (some claims) = current (get_user users claims.u) claims.v

  unfoldable pub session_user : List ℕ → List User → ℕ → List ℕ → Option User
  unfolding decode_session get_user
  session_user secret users now token = user_of users (decode_session secret now token)

  abbrev pub before : ℕ → List ℕ → List ℕ
  before c [] = []
  before c (x ∷ xs) = if x == c then [] else x ∷ before c xs

  abbrev pub first_part : List ℕ → Option (List ℕ × List ℕ) → List ℕ
  first_part h none = h
  first_part h (some (a, b)) = a

  abbrev pub without_port : List ℕ → List ℕ
  without_port [] = []
  without_port (x ∷ h) =
      if x == b'['
      then if not (count b']' h == 0) then before b']' h else []
      else if count b':' (x ∷ h) == 1
      then first_part (x ∷ h) (rsplit b':' (x ∷ h))
      else x ∷ h

  unfoldable pub host_only : List ℕ → List ℕ
  unfolding strip rsplit count
  host_only header = without_port (lower (strip header))

  unfoldable pub is_own_host : List ℕ → Bool
  unfolding host_only
  is_own_host header =
      let name = host_only header in
      not (is_nil name)
      && (is_ip name || (bytes_eq name (codes "localhost") || is_any_of name lib.own_host_names))

  pub record Headers : Type 0 where
    pub host : List ℕ
    pub x_forwarded_host : List ℕ
    pub forwarded : List ℕ

  unfoldable pub stripped : List (List ℕ) → List (List ℕ)
  unfolding strip
  stripped [] = []
  stripped (h ∷ hs) = strip h ∷ stripped hs

  -- A header that is absent is empty here.
  unfoldable pub claimed_hosts : Headers → List (List ℕ)
  unfolding stripped
  claimed_hosts headers =
      headers.host
      ∷ ((if is_nil headers.x_forwarded_host
            then []
            else stripped (split_on b',' [] headers.x_forwarded_host))
          ++ (if is_nil headers.forwarded then [] else lib.forwarded_hosts headers.forwarded))

  abbrev pub all_own : List (List ℕ) → Bool
  all_own [] = true
  all_own (h ∷ hs) = is_own_host h && all_own hs

  abbrev pub anonymous_username : List ℕ
  anonymous_username = codes "(anonymous)"

  pub record Access : Type 0 where
    pub secret_key : List ℕ
    pub require_login : Bool
    pub anonymous_role : String
    pub users : List User

  abbrev pub anonymous : Access → User
  anonymous cfg = record {
    username = anonymous_username;
    password_hash = [];
    role = cfg.anonymous_role;
    pwd_version = 0;
    source = "anonymous";
  }

  unfoldable pub anonymous_user : Access → Headers → Option User
  unfolding is_own_host claimed_hosts
  anonymous_user cfg headers =
      if cfg.require_login || is_nil cfg.users
      then none
      else if not (all_own (claimed_hosts headers))
      then none
      else some (anonymous cfg)

  abbrev pub or_else : Option User → Option User → Option User
  or_else none second = second
  or_else (some user) second = some user

  unfoldable pub request_user : Access → ℕ → List ℕ → Headers → Option User
  unfolding session_user anonymous_user
  request_user cfg now token headers =
      or_else (session_user cfg.secret_key cfg.users now token) (anonymous_user cfg headers)
