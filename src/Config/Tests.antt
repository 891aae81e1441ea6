-- ===== src/Config/Tests.antt =====
-- Load on small environments.
use model_lib.Base.{ℕ, ◌≡◌, refl, if◌then◌else◌, Option, none, some, [], Bytes, codes, str_eq}
use model_lib.Base.Int.{ℤ, negsuc}
use model_lib.Config.{
  ok, err, Config, secret_required, decimal, parse_int, index_of, origin_of, proxies, validate,
  settle_secret, configured, dev_secret, load,
}
use model_lib.Config.Accepted.{Accepted, load-Accepted}

-- Parameters that know no duration and no network.
abbrev pub no_duration : Bytes → Option ℤ
no_duration s = none

abbrev pub no_network : Bytes → Option ℕ
no_network s = none

abbrev pub unset : Bytes → Bytes
unset key = []

abbrev pub in_production : Bytes → Bytes
in_production key = if str_eq key (codes "APP_ENV") then codes "production" else []

loading : Unit {0}
unfolding str_eq decimal parse_int index_of origin_of proxies validate settle_secret load
loading = tt

abbrev pub default_config : Config ℕ
default_config = record (configured ℕ no_duration no_network unset) {
  cookie_hmac_secret = dev_secret ℕ no_duration no_network;
}

defaults_load : load ℕ no_duration no_network unset ≡ ok default_config
unfolding loading
defaults_load = refl

production_needs_a_secret : load ℕ no_duration no_network in_production ≡ err secret_required
unfolding loading
production_needs_a_secret = refl

an_origin : origin_of (codes "https://ctf.example/app/") ≡ codes "https://ctf.example"
unfolding loading
an_origin = refl

a_number : parse_int (codes "-12") ≡ some (negsuc 11)
unfolding loading
a_number = refl

load-Accepted_example :
    Accepted ℕ no_duration no_network (unset (codes "COOKIE_HMAC_SECRET")) default_config
load-Accepted_example = load-Accepted ℕ no_duration no_network unset default_config defaults_load
