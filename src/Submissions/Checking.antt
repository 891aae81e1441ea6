-- ===== src/Submissions/Checking.antt =====
-- The tests that CreateSubmission makes before it reads the body.
use model_lib.Base.{Bytes, ℕ, ◌≡◌, refl, Bool, true, false, not, if_cases, Option, none, some}
use model_lib.Identity.{verify_csrf_token, verify_origin}
use model_lib.RateLimit.{KeyStore, allow_participant_submit, allow_ip_submit}
use model_lib.Submissions.{Answer, ok, limited, Service, Submit, check_request}

limited_passed :
    {Store : Type 0} (x : Option (Bool × ℕ) × Store) (k : Store → Answer (Unit {0}) × Store)
    → (limited x k).0 ≡ ok tt
    → ((n : ℕ) × (x.0 ≡ some (true, n))) × ((k x.1).0 ≡ ok tt)
limited_passed (none, s) k h = cc h
limited_passed (some (true, n), s) k h = ((n, refl), h)
limited_passed (some (false, n), s) k h = cc h

not-false : (b : Bool) → not b ≡ false → b ≡ true
not-false true h = refl
not-false false h = cc h

module _ (mac : Bytes → Bytes → Bytes) (sha : Bytes → Bytes) (S : Service) (K : KeyStore) where
  open K use {Store}

  -- The token and the origin are right, and both buckets of the participant and the one of the address
  -- have a token.
  pub record PassedFacts (q : Submit) (s : Store) : Type 0 where
    pub token : verify_csrf_token mac S.provider q.now q.now_ns q.request ≡ true
    pub origin : verify_origin S.provider q.request ≡ true
    pub participant :
        (n : ℕ) × ((allow_participant_submit K q.participant S.submit_rate_per_minute
            S.submit_rate_per_hour q.limiter_now q.redis_clock q.by_minute q.by_hour s).0
          ≡ some (true, n))
    pub address :
        (n : ℕ) × ((allow_ip_submit K q.client_ip S.ip_submit_rate_per_minute q.limiter_now
            q.redis_clock q.by_ip
            (allow_participant_submit K q.participant S.submit_rate_per_minute
              S.submit_rate_per_hour q.limiter_now q.redis_clock q.by_minute q.by_hour s).1).0
          ≡ some (true, n))

  pub check_request-PassedFacts :
      (q : Submit) (s : Store) → (check_request mac sha S K q s).0 ≡ ok tt → PassedFacts q s
  unfolding check_request
  check_request-PassedFacts q s =
      if_cases P (not (verify_csrf_token mac S.provider q.now q.now_ns q.request)) (λ _ h. cc h)
        (λ token.
          if_cases P (not (verify_origin S.provider q.request)) (λ _ h. cc h)
            (λ origin h.
              let (participant, h1) = limited_passed _ _ h in
              let (address, _) = limited_passed _ _ h1 in
              record {
                token = not-false _ token;
                origin = not-false _ origin;
                participant = participant;
                address = address;
              }))
    where
      P : Answer (Unit {0}) × Store → Type 0
      P y = y.0 ≡ ok tt → PassedFacts q s
