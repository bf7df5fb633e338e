-- ===== src/Security/Tests.antt =====
-- Authentication on concrete requests, with a toy cryptography, and its theorems at inputs that
-- meet their hypotheses.
use lab_gpu_server_monitor.Prelude.{
  ◌*◌, ◌≡◌, refl, ◌↔◌, ◌⊎◌, true, false, Option, none, some, [], ◌∷◌, ◌++◌, if◌then◌else◌, Text,
  codes, text_eq, text_beq, starts_with, strip, lstrip, utf8_length, non_empty, split_on, false,
}
use lab_gpu_server_monitor.Prelude.Int.{pos, negsuc}
use lab_gpu_server_monitor.RateLimit.{second}
use lab_gpu_server_monitor.Account.{ok, http}
use lab_gpu_server_monitor.Security.{
  Payload, verify_password, encrypt_text, decrypt_with, decrypt_text, first_accepted, verify_totp,
  create_access_token, token_of, user_of, get_current_user, require_admin,
}
use lab_gpu_server_monitor.Security.Fixtures.{toy, ann, users, request}
use lab_gpu_server_monitor.Security.Keyring.{decrypt_text-encrypt_text}
use lab_gpu_server_monitor.Security.Session.{Names, Carries, get_current_user_iff}
use lab_gpu_server_monitor.Security.Origin.{
  UrlParts, Headers, foreign, enforce_login_origin, IsHome, enforce_login_origin_same,
}
use lab_gpu_server_monitor.Security.Proxy.{
  Net, Peer, parse_peer, is_trusted, walk, parse_chain, chain_address, resolve_client_ip,
  invalid_forwarded, resolve_client_ip-prepend,
}

program : Unit {0}
unfolding verify_password encrypt_text decrypt_with decrypt_text first_accepted verify_totp
    create_access_token user_of get_current_user require_admin parse_peer is_trusted walk
    parse_chain chain_address resolve_client_ip foreign enforce_login_origin text_beq starts_with
    strip lstrip utf8_length split_on
program = tt

ann_enters : get_current_user toy 0 request users ≡ ok (ann, true)
unfolding program
ann_enters = refl

-- A Basic header beside a cookie is refused.
basic_refused :
    get_current_user toy 0
      (record { authorization = codes "Basic x"; bearer = []; cookie = codes "t" })
      users
    ≡ http 401
unfolding program
basic_refused = refl

revoked : get_current_user toy 0 request ((1, record ann { token_version = 4 }) ∷ []) ≡ http 401
unfolding program
revoked = refl

long_legacy : verify_password toy (codes "pw") (codes "$2b$pw") ≡ false
unfolding program
long_legacy = refl

rotated :
    decrypt_text toy (codes "k2" ∷ codes "k1" ∷ []) (codes "k1" ++ 0 ∷ codes "pw")
    ≡ some (codes "pw")
unfolding program
rotated = refl

decrypt_text-encrypt_text_example :
    decrypt_text toy ((codes "k2" ∷ []) ++ codes "k1" ∷ []) (codes "k1" ++ 0 ∷ codes "pw")
    ≡ some (codes "pw")
unfolding program
decrypt_text-encrypt_text_example =
    decrypt_text-encrypt_text toy (codes "k2" ∷ []) [] (codes "k1") (codes "pw")
      (codes "k1" ++ 0 ∷ codes "pw") refl refl refl (refl, tt)

abbrev ones : Text
ones = codes "111111"

abbrev threes : Text
threes = codes "333333"

accepts_one : verify_totp toy (60 * second) [] ones (negsuc 0) ≡ some (pos 1)
unfolding program
accepts_one = refl

accepts_three : verify_totp toy (60 * second) [] threes (pos 1) ≡ some (pos 3)
unfolding program
accepts_three = refl

get_current_user_iff_example : (get_current_user toy 0 request users ≡ ok (ann, true)) ↔ (
    Carries request
    × ((p : Payload) × (toy.decode 0 (token_of request) ≡ some p)
        × Names p users ann
        × (true ≡ p.mfa)))
get_current_user_iff_example = get_current_user_iff toy 0 request users ann true

-- Addresses as texts, networks as prefixes.
abbrev prefixes : Net
prefixes = record {
  Ip = Text;
  Network = Text;
  parse_ip = λ s. if non_empty s then some s else none;
  parse_network = λ s. some s;
  show = λ ip. ip;
  member = λ ip n. starts_with n ip;
}

abbrev proxied : Peer
proxied = record { resolved = []; client = some (codes "10.1"); forwarded = codes "8.8, 10.2" }

behind_two : resolve_client_ip prefixes true (codes "10.") proxied ≡ codes "8.8"
unfolding program
behind_two = refl

resolve_client_ip-prepend_example :
    (resolve_client_ip prefixes true
        (codes "10.")
        (record proxied { forwarded = codes "1.1" ++ b',' ∷ proxied.forwarded })
      ≡ resolve_client_ip prefixes true (codes "10.") proxied)
    ⊎ (resolve_client_ip prefixes true
          (codes "10.")
          (record proxied { forwarded = codes "1.1" ++ b',' ∷ proxied.forwarded })
        ≡ invalid_forwarded)
unfolding program
resolve_client_ip-prepend_example =
    resolve_client_ip-prepend prefixes true (codes "10.") proxied (codes "1.1") (codes "10.1")
      (codes "10." ∷ []) (codes "8.8" ∷ codes "10.2" ∷ []) refl refl refl refl

-- A server named "gpu" behind TLS, and a parser that knows its origin and its Host header.
abbrev home_url : Text → UrlParts
home_url scheme = record {
  scheme = scheme;
  username = [];
  password = [];
  hostname = codes "gpu";
  port = none;
  path = [];
  query = [];
  fragment = [];
}

abbrev toy_urlsplit : Text → Option UrlParts
toy_urlsplit t =
    if text_beq t (codes "https://gpu")
    then some (home_url (codes "https"))
    else if text_beq t (codes "//gpu")
    then some (home_url [])
    else none

abbrev own_page : Headers
own_page = record {
  sec_fetch_site = codes "same-origin";
  origin = codes "https://gpu";
  host = codes "gpu";
}

admitted : enforce_login_origin (λ t. t) toy_urlsplit false own_page ≡ true
unfolding program
admitted = refl

origin_given : non_empty (strip own_page.origin) ≡ true
unfolding program
origin_given = refl

enforce_login_origin_same_example : IsHome (λ t. t) toy_urlsplit false own_page
enforce_login_origin_same_example =
    enforce_login_origin_same (λ t. t) toy_urlsplit false own_page admitted origin_given
