-- ===== src/Web/Tests.antt =====
-- Sign-ins at concrete accounts, and the theorems at them. The signature here is a number that
-- depends on the lengths.
use ser2net.Common.{
  ℕ, ◌+◌, false, ◌≡◌, refl, ◌≢◌, ◌⊎◌, inl, Option, none, some, List, [], ◌∷◌, arith, leb, length,
  bytes_eq, All,
}
use ser2net.Common.Texts.{codes, strip}
use ser2net.Web.Limiter.{new_limiter, blocked, record_failure, after_all, Event, asked, failed}
use ser2net.Web.Limiter.Window.{recent, failures_of}
use ser2net.Web.Limiter.Blocked.{blocked-failures_of}
use ser2net.Web.Accounts.{User, get_user, upsert_external_user}
use ser2net.Web.Session.{
  Payload, Library, issue_session, session_user, Headers, Access, request_user,
}
use ser2net.Web.Session.Signed.{ActsBySession}
use ser2net.Web.Session.Acting.{
  ActsOpenly, request_user-Acts, session_user-issued, session_user-revoked,
}

-- Two failures, a third from elsewhere, and one more.
abbrev attempts : List Event
attempts =
    failed (codes "a") 10
    ∷ failed (codes "a") 20
    ∷ failed (codes "b") 30
    ∷ asked (codes "a") 315
    ∷ failed (codes "a") 316
    ∷ []

two_left : (blocked (after_all (new_limiter 3 300) attempts) (codes "a") 317).1 ≡ false
unfolding after_all blocked record_failure
two_left = refl

blocked-failures_of_example :
    (blocked (after_all (new_limiter 2 300) attempts) (codes "a") 317).1
    ≡ leb 2 (length (recent 300 317 (failures_of (codes "a") [] attempts)))
blocked-failures_of_example =
    blocked-failures_of 2 300 (codes "a") 317 attempts
      (omega arith, (omega arith, (omega arith, (omega arith, (omega arith, omega arith)))))

abbrev read_payload : List ℕ → Option Payload
read_payload [] = none
read_payload (exp ∷ []) = none
read_payload (exp ∷ v ∷ u) = some (record { exp = exp; u = u; v = v })

abbrev small_library : Library
small_library = record {
  encode = λ p. p.exp ∷ p.v ∷ p.u;
  decode = read_payload;
  sign = λ secret payload. (100 + (length secret + length payload)) ∷ [];
  lower = λ s. s;
  is_ip = λ s. bytes_eq s (codes "127.0.0.1");
  own_host_names = [];
  forwarded_hosts = λ s. [];
}

abbrev operator : User
operator = record {
  username = codes "eve";
  password_hash = [];
  role = "operator";
  pwd_version = 3;
  source = "ldap";
}

abbrev local_access : Access small_library
local_access = record {
  secret_key = codes "key";
  require_login = false;
  anonymous_role = "viewer";
  users = operator ∷ [];
}

abbrev local_page : Headers small_library
local_page = record { host = codes "127.0.0.1:8080"; x_forwarded_host = []; forwarded = [] }

abbrev foreign_page : Headers small_library
foreign_page = record {
  host = codes "127.0.0.1:8080";
  x_forwarded_host = codes "evil.example";
  forwarded = [];
}

abbrev visitor : User
visitor = record {
  username = codes "(anonymous)";
  password_hash = [];
  role = "viewer";
  pwd_version = 0;
  source = "anonymous";
}

open_visit : request_user small_library local_access 50 [] local_page ≡ some visitor
unfolding request_user strip
open_visit = refl

rebound_visit : request_user small_library local_access 50 [] foreign_page ≡ none
unfolding request_user strip
rebound_visit = refl

request_user-Acts_example :
    ActsBySession small_library local_access 50 [] visitor
    ⊎ ActsOpenly small_library local_access local_page visitor
request_user-Acts_example =
    request_user-Acts small_library local_access 50 [] local_page visitor open_visit

undone : (p : Payload) → small_library.decode (small_library.encode p) ≡ some p
undone p = refl

dotless : (secret payload : List ℕ) → All (λ c. c ≢ b'.') (small_library.sign secret payload)
dotless secret payload = (λ e. absurd (omega arith), tt)

found_operator : get_user (operator ∷ []) (codes "eve") ≡ some operator
unfolding get_user
found_operator = refl

session_user-issued_example :
    session_user small_library
      (codes "key")
      (operator ∷ [])
      60
      (issue_session small_library (codes "key") 50 20 (codes "eve") 3)
    ≡ some operator
session_user-issued_example =
    session_user-issued small_library undone dotless (codes "key") (operator ∷ []) 50 20 60
      (codes "eve") operator found_operator (omega arith)

promoted : operator.role ≢ "admin"
promoted e = absurd (cc)

session_user-revoked_example :
    session_user small_library
      (codes "key")
      (upsert_external_user (operator ∷ []) (codes "eve") "admin" "ldap")
      60
      (issue_session small_library (codes "key") 50 20 (codes "eve") 3)
    ≡ none
session_user-revoked_example =
    session_user-revoked small_library undone dotless (codes "key") (operator ∷ []) 50 20 60
      (codes "eve") operator "admin" "ldap" found_operator (inl promoted)
