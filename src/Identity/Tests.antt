-- ===== src/Identity/Tests.antt =====
-- Identity at a concrete secret, clock and request.
use model_lib.Base.{
  ℕ, ◌≡◌, refl, ◌⊎◌, true, false, Bool, Option, none, some, [], ◌∷◌, Bytes, codes, any_of, cut,
  str_eq, arith,
}
use model_lib.Base.Int.{pos}
use model_lib.Config.Tests.{default_config}
use model_lib.Encoding.Base64.{
  encode, decode, sextets, sextets_of, join_sextets, char_of, sextet_of,
}
use model_lib.Encoding.Decimal.{digits, decimal}
use model_lib.Identity.{
  Identity, CookieProvider, HttpRequest, ok, err, expired_cookie, uuid_from, is_valid_uuid, hex,
  generate_participant_id, parse_from, parse_int64, cookie_value, set_identity, resolve, csrf_token,
  check_csrf_token, verify_csrf_token, extract_client_ip, remote_host,
}
use model_lib.Identity.Cookies.{KeepsBytes, IssuedFacts, resolve-set_identity, resolve-IssuedFacts}
use model_lib.Identity.Tokens.{
  TokenFacts, verify_csrf_token-csrf_token, verify_csrf_token-TokenFacts,
}
use model_lib.Identity.Fresh.{generate_participant_id-is_valid_uuid}
use model_lib.Identity.Addresses.{ForwardedFacts, extract_client_ip-facts}

-- In place of the keyed hash: it shows the message.
abbrev pub plain_mac : Bytes → Bytes → Bytes
plain_mac secret message = message

pub plain_mac-KeepsBytes : KeepsBytes plain_mac
plain_mac-KeepsBytes secret message h = h

abbrev pub alice : Bytes
alice = codes "0a1b2c3d-4e5f-6071-8293-a4b5c6d7e8f9"

abbrev pub provider : CookieProvider
provider = record {
  hmac_secret = codes "secret";
  secure = false;
  max_age_seconds = pos 100;
  csrf_token_duration = pos 60_000_000_000;
  public_base_origin = codes "https://ctf.example";
}

abbrev pub bare : HttpRequest
bare = record {
  cookie = none;
  csrf_token = [];
  origin = codes "https://ctf.example/";
  forwarded_for = codes " 10.0.0.7, 10.0.0.8";
  real_ip = [];
  remote_addr = codes "192.0.2.1:99";
}

identity_runs : Unit {0}
unfolding uuid_from is_valid_uuid hex generate_participant_id parse_from parse_int64 cookie_value
    set_identity resolve csrf_token check_csrf_token verify_csrf_token encode decode sextets
    sextets_of join_sextets char_of sextet_of digits decimal cut str_eq any_of
identity_runs = tt

abbrev with_cookie : HttpRequest
with_cookie = record bare { cookie = some (set_identity plain_mac provider 1000 alice).value }

abbrev pub alice_id : Identity
alice_id = record { participant_id = alice; issued_at = pos 1000; expires_at = pos 1100 }

pub alice_is_a_uuid : is_valid_uuid alice ≡ true
unfolding identity_runs
alice_is_a_uuid = refl

resolve-set_identity_example : resolve plain_mac provider 1101 with_cookie ≡ err expired_cookie
resolve-set_identity_example =
    resolve-set_identity plain_mac provider 1000 100 1101 alice with_cookie plain_mac-KeepsBytes
      refl (omega arith) alice_is_a_uuid refl

known : resolve plain_mac provider 1050 with_cookie ≡ ok alice_id
known =
    resolve-set_identity plain_mac provider 1000 100 1050 alice with_cookie plain_mac-KeepsBytes
      refl (omega arith) alice_is_a_uuid refl

resolve-IssuedFacts_example : IssuedFacts plain_mac provider with_cookie alice_id × (true ≡ true)
resolve-IssuedFacts_example = resolve-IssuedFacts plain_mac provider 1050 with_cookie alice_id known

abbrev pub with_token : HttpRequest
with_token = record with_cookie { csrf_token = csrf_token plain_mac provider 1000 alice }

pub known_with_token : resolve plain_mac provider 1050 with_token ≡ ok alice_id
known_with_token =
    resolve-set_identity plain_mac provider 1000 100 1050 alice with_token plain_mac-KeepsBytes refl
      (omega arith) alice_is_a_uuid refl

verify_csrf_token-csrf_token_example :
    verify_csrf_token plain_mac provider 1050 1_050_000_000_000 with_token ≡ true
verify_csrf_token-csrf_token_example =
    verify_csrf_token-csrf_token plain_mac provider 1000 1050 1_050_000_000_000 60_000_000_000
      with_token alice_id plain_mac-KeepsBytes (omega arith) alice_is_a_uuid refl (omega arith)
      known_with_token refl

verify_csrf_token-TokenFacts_example :
    TokenFacts plain_mac provider 1050 1_050_000_000_000 with_token
verify_csrf_token-TokenFacts_example =
    verify_csrf_token-TokenFacts plain_mac provider 1050 1_050_000_000_000 with_token (
      verify_csrf_token-csrf_token plain_mac provider 1000 1050 1_050_000_000_000 60_000_000_000
        with_token alice_id plain_mac-KeepsBytes (omega arith) alice_is_a_uuid refl (omega arith)
        known_with_token refl)

abbrev pub random : Bytes
random = 10 ∷ 27 ∷ 44 ∷ 61 ∷ 78 ∷ 95 ∷ 96 ∷ 113 ∷ 130 ∷ 147 ∷ 164 ∷ 181 ∷ 198 ∷ 215 ∷ 232 ∷ 249 ∷ []

pub generates_alice : generate_participant_id (some random) ≡ some alice
unfolding identity_runs
generates_alice = refl

generate_participant_id-is_valid_uuid_example : is_valid_uuid alice ≡ true
generate_participant_id-is_valid_uuid_example =
    generate_participant_id-is_valid_uuid random alice (omega arith) refl generates_alice

-- Addresses are their texts, and the port is behind the host.
abbrev pub any_ip : Bytes → Option Bytes
any_ip s = some s

abbrev pub before_port : Bytes → Option Bytes
before_port s = none

abbrev pub never : ℕ → Bytes → Bool
never n ip = false

extract_client_ip-facts_example :
    (extract_client_ip any_ip before_port never default_config bare
      ≡ remote_host any_ip before_port bare)
    ⊎ (ForwardedFacts never any_ip before_port default_config bare
        × ((ip : Bytes) × (any_ip (extract_client_ip any_ip before_port never default_config bare)
              ≡ some ip)))
extract_client_ip-facts_example =
    extract_client_ip-facts never any_ip before_port default_config bare

an_empty_number : parse_int64 [] ≡ some 0
unfolding identity_runs
an_empty_number = refl
