-- ===== src/Identity/Provider.antt =====
-- internal/identity/identity.go: identities, errors, the provider, and what it reads of a request.
use model_lib.Base.{Bool, true, false, Option, none, some, Bytes}
use model_lib.Base.Int.{ℤ}
use model_lib.Config.{Config, is_production}

-- Identity, with Unix times
pub record Identity : Type 0 where
  pub participant_id : Bytes
  pub issued_at : ℤ
  pub expires_at : ℤ

-- ErrInvalidCookie and ErrExpiredCookie
pub data IdentityError : Type 0 where
  invalid_cookie expired_cookie : IdentityError

pub data Resolved (A : Type 0) : Type 0 where
  ok : A → Resolved A
  err : IdentityError → Resolved A

infixl 5 ◌>>=◌ ◌>>◌
abbrev pub ◌>>=◌ : {A B : Type 0} → Resolved A → (A → Resolved B) → Resolved B
ok a >>= f = f a
err e >>= f = err e

abbrev pub ◌>>◌ : {B : Type 0} → Resolved (Unit {0}) → Resolved B → Resolved B
m >> k = m >>= λ _. k

abbrev pub required : {A : Type 0} → Option A → Resolved A
required none = err invalid_cookie
required (some a) = ok a

abbrev pub guard : Bool → Resolved (Unit {0})
guard true = ok tt
guard false = err invalid_cookie

-- CookieProvider, with what it reads of its configuration
pub record CookieProvider : Type 0 where
  pub hmac_secret : Bytes
  pub secure : Bool
  pub max_age_seconds : ℤ
  pub csrf_token_duration : ℤ
  pub public_base_origin : Bytes

unfoldable pub new_cookie_provider : {Network : Type 0} → Config Network → CookieProvider
new_cookie_provider {Network} cfg = record {
  hmac_secret = cfg.cookie_hmac_secret;
  secure = is_production Network cfg;
  max_age_seconds = cfg.cookie_max_age_seconds;
  csrf_token_duration = cfg.csrf_token_duration;
  public_base_origin = cfg.public_base_origin;
}

-- What the provider reads of a request: the identity cookie, and headers, which are empty where they
-- are missing.
pub record HttpRequest : Type 0 where
  pub cookie : Option Bytes
  pub csrf_token : Bytes
  pub origin : Bytes
  pub forwarded_for : Bytes
  pub real_ip : Bytes
  pub remote_addr : Bytes

-- An http.Cookie with Path "/", HttpOnly and SameSite Lax
pub record SetCookie : Type 0 where
  pub name : Bytes
  pub value : Bytes
  pub max_age : ℤ
  pub secure : Bool
