-- ===== src/Config/Accepted.antt =====
-- internal/config/config.go, Load: what it asks of a configuration.
use mathlib.Core.Path.{subst}
use model_lib.Base.{
  ◌≤◌, ◌<◌, ◌≡◌, refl, ap, arith, true, false, not, ◌&&◌, ltb, Option, List, Bytes, codes, length,
  is_empty, if_cases,
}
use model_lib.Base.Int.{ℤ, pos, negsuc, pos_part, leb_ℤ}
use model_lib.Config.{
  Loaded, ok, err, Config, ConfigError, is_production, limits_bad, durations_bad, ordered,
  names_bad, proxies, with_proxies, split_commas, validate, settle_secret, dev_secret, load,
  any_bad_duration, duration_keys, configured,
}

positive : (z : ℤ) → leb_ℤ z (pos 0) ≡ false → 0 < pos_part z
positive (pos n) h = ground arith
positive (negsuc n) h = absurd (ground arith)

less : (a b : ℤ) → leb_ℤ a b ≡ false → 0 < pos_part b → pos_part b < pos_part a
less (pos m) (pos n) h p = ground arith
less (negsuc m) (pos n) h p = absurd (ground arith)
less (pos m) (negsuc n) h p = absurd (omega arith)
less (negsuc m) (negsuc n) h p = absurd (omega arith)

module _ (Network : Type 0) (parse_duration : Bytes → Option ℤ)
    (parse_cidr : Bytes → Option Network) where
  pub record Checked (cfg : Config Network) : Type 0 where
    pub depth : 0 < pos_part cfg.queue_max_depth
    pub queued : 0 < pos_part cfg.max_queued_per_participant
    pub running : 0 < pos_part cfg.max_running_per_participant
    pub work : 0 < pos_part cfg.mock_work_duration
    pub in_time : pos_part cfg.mock_work_duration < pos_part cfg.worker_hard_timeout
    pub not_stale : pos_part cfg.worker_hard_timeout < pos_part cfg.worker_stale_after
    pub polls : 0 < pos_part cfg.outbox_poll_interval
    pub backs_off : 0 < pos_part cfg.outbox_max_backoff
    pub key : is_empty cfg.queue_redis_key ≡ false
    pub secret : is_production Network cfg ≡ true → 32 ≤ length cfg.cookie_hmac_secret

  -- With the secret of the environment.
  pub record Accepted (secret : Bytes) (cfg : Config Network) : Type 0 where
    pub checked : Checked cfg
    pub own : is_production Network cfg ≡ true → cfg.cookie_hmac_secret ≡ secret

  abbrev Accepts : Bytes → Loaded (Config Network) → Type 0
  Accepts secret x = (cfg : Config Network) → x ≡ ok cfg → Accepted secret cfg

  abbrev config_of : Config Network → Loaded (Config Network) → Config Network
  config_of c (ok d) = d
  config_of c (err e) = c

  here :
      (secret : Bytes) (c : Config Network)
      → Checked c
      → (is_production Network c ≡ true → c.cookie_hmac_secret ≡ secret)
      → Accepts secret (ok c)
  here secret c checked own cfg same =
      subst (Accepted secret) (ap (config_of c) same) (record { checked = checked; own = own })

  refused : (secret : Bytes) (e : ConfigError) → Accepts secret (err e)
  refused secret e cfg same = cc

  with_proxies-Accepts :
      (secret : Bytes) (c : Config Network) (p : Loaded (List Network))
      → Checked c
      → (is_production Network c ≡ true → c.cookie_hmac_secret ≡ secret)
      → Accepts secret (with_proxies Network c p)
  with_proxies-Accepts secret c (err e) checked own = refused secret e
  with_proxies-Accepts secret c (ok ns) k own =
      here secret (record c { trusted_proxies = ns })
        (record {
          depth = k.depth;
          queued = k.queued;
          running = k.running;
          work = k.work;
          in_time = k.in_time;
          not_stale = k.not_stale;
          polls = k.polls;
          backs_off = k.backs_off;
          key = k.key;
          secret = k.secret;
        })
        own

  validate-Accepts :
      (secret cidrs : Bytes) (c : Config Network)
      → (is_production Network c ≡ true → c.cookie_hmac_secret ≡ secret)
      → Accepts secret (validate Network parse_duration parse_cidr cidrs c)
  unfolding validate
  validate-Accepts secret cidrs c own =
      if_cases Q (is_production Network c && ltb (length c.cookie_hmac_secret) 32)
        (λ _. refused secret _)
        λ long.
          if_cases Q (limits_bad Network c) (λ _. refused secret _)
            λ limits.
              if_cases Q (durations_bad Network c) (λ _. refused secret _)
                λ durations.
                  if_cases Q (not (ordered Network c)) (λ _. refused secret _)
                    λ order.
                      if_cases Q (names_bad Network c) (λ _. refused secret _)
                        λ names.
                          let k = checked long limits durations order names in
                          if_cases Q (is_empty cidrs) (λ _. here secret c k own)
                            (λ _.
                              with_proxies-Accepts secret c
                                (proxies Network parse_duration parse_cidr (split_commas cidrs)) k
                                own)
    where
      Q : Loaded (Config Network) → Type 0
      Q = Accepts secret

      checked :
          (is_production Network c && ltb (length c.cookie_hmac_secret) 32) ≡ false
          → limits_bad Network c ≡ false
          → durations_bad Network c ≡ false
          → not (ordered Network c) ≡ false
          → names_bad Network c ≡ false
          → Checked c
      checked long limits durations order names =
          let w = positive c.mock_work_duration (ground arith) in
          let t = positive c.worker_hard_timeout (ground arith) in
          record {
            depth = positive c.queue_max_depth (ground arith);
            queued = positive c.max_queued_per_participant (ground arith);
            running = positive c.max_running_per_participant (ground arith);
            work = w;
            in_time = less c.worker_hard_timeout c.mock_work_duration (ground arith) w;
            not_stale = less c.worker_stale_after c.worker_hard_timeout (ground arith) t;
            polls = positive c.outbox_poll_interval (ground arith);
            backs_off = positive c.outbox_max_backoff (ground arith);
            key = ground arith;
            secret = λ production. ground arith;
          }

  load-Accepts :
      (env : Bytes → Bytes)
      → Accepts (env (codes "COOKIE_HMAC_SECRET")) (load Network parse_duration parse_cidr env)
  unfolding load settle_secret
  load-Accepts env =
      if_cases Q (any_bad_duration Network parse_duration parse_cidr env duration_keys)
        (λ _. refused secret _)
        λ _.
          if_cases Q (is_empty c.cookie_hmac_secret)
            (λ _.
              if_cases Q (is_production Network c) (λ _. refused secret _)
                (λ development.
                  validate-Accepts secret cidrs
                    (record c { cookie_hmac_secret = dev_secret Network parse_duration parse_cidr })
                    (λ production. cc (production, development))))
            (λ given. validate-Accepts secret cidrs c (λ production. own given))
    where
      c : Config Network
      c = configured Network parse_duration parse_cidr env

      secret : Bytes
      secret = env (codes "COOKIE_HMAC_SECRET")

      cidrs : Bytes
      cidrs = env (codes "TRUSTED_PROXY_CIDR")

      Q : Loaded (Config Network) → Type 0
      Q = Accepts secret

      own : is_empty c.cookie_hmac_secret ≡ false → c.cookie_hmac_secret ≡ secret
      own given =
          if_cases (λ (v : Bytes). is_empty v ≡ false → v ≡ secret) (is_empty secret) (λ a b. cc b)
            (λ a b. refl) given

  -- A configuration that Load accepts has positive limits for the queue and for the participants,
  -- positive dispatch times, a work duration below the hard timeout, which is below the time after
  -- which a run is stale, and a stream name; in production its secret is the one of the environment
  -- and has at least 32 bytes.
  pub load-Accepted :
      (env : Bytes → Bytes) (cfg : Config Network)
      → load Network parse_duration parse_cidr env ≡ ok cfg
      → Accepted (env (codes "COOKIE_HMAC_SECRET")) cfg
  load-Accepted env cfg same = load-Accepts env cfg same
