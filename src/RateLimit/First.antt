-- ===== src/RateLimit/First.antt =====
-- internal/ratelimit/ratelimit.go: a bucket that is not there yet serves at once.
use native.Mathlib.Nat.{zero-div}
use model_lib.Base.{
  ℕ, ◌-◌, ◌/◌, ◌≤◌, ◌≡◌, refl, sym, ap, ◌∙◌, arith, leb, if_cases, Option, none, some, Bytes,
}
use model_lib.Base.Int.{pos, leb_ℤ}
use model_lib.Database.{served}
use model_lib.RateLimit.{
  KeyStore, stamp, refill, charge, script, token_bucket, flush_db, interval_of,
}
use model_lib.RateLimit.Keys.{stamp_other}

-- No time passed, so nothing is refilled.
idle : (now i : ℕ) → (now - now) / i ≡ 0
idle now i =
    let none_passed : now - now ≡ 0 = omega arith in ap (λ n. n / i) none_passed ∙ zero-div i

module _ (K : KeyStore) where
  open K use {Store, get, set, pass, flush}

  -- A request whose cost the whole bucket covers is served at once after FlushDB, whatever the clocks
  -- show.
  pub token_bucket-first :
      (key : Bytes) (rate period cost now clock : ℕ) (s : Store)
      → cost ≤ rate
      → (token_bucket K key (pos rate) period cost now clock served (flush_db K served s).1).0
        ≡ some 0
  unfolding token_bucket script refill charge flush_db
  token_bucket-first key rate period cost now clock s covered =
      let gone : get key (pass clock (flush s)) ≡ none =
        K.pass_none clock key (flush s) (K.get_flush key s) in
      if_cases (λ (y : Option ℕ × Store). y.0 ≡ some 0) (leb_ℤ (pos rate) (pos 0)) (λ _. refl)
        (λ _. ap some (served_at_once (pass clock (flush s)) gone))
    where
      served_at_once :
          (z : Store)
          → get key z ≡ none
          → (script K clock key now (interval_of (pos rate) period) rate cost z).0 ≡ 0
      served_at_once z gone =
          let started : get (stamp key) (set key rate (set (stamp key) now z)) ≡ some now =
            K.get_set_other key (stamp key) rate (set (stamp key) now z)
              (λ e. stamp_other key (sym e))
            ∙ K.get_set (stamp key) now z in
          let no_time : (now - now) / interval_of (pos rate) period ≡ 0 =
            idle now (interval_of (pos rate) period) in
          rw gone (
            rw started (
              rw no_time (
                if_cases (λ (y : ℕ × Store). y.0 ≡ 0) (leb cost rate) (λ _. refl)
                  (λ e. absurd (ground arith)))))
