-- ===== src/RateLimit/Retry.antt =====
-- internal/ratelimit/ratelimit.go: the wait that a refused request is told.
use native.Mathlib.Nat.{le-div_iff_mul-le}
use model_lib.Base.{
  ℕ, suc, ◌+◌, ◌-◌, ◌*◌, ◌/◌, ◌≤◌, ◌<◌, ◌≡◌, inl, inr, refl, sym, ap, ◌∙◌, arith, false, ltb, leb,
  Option, none, some, List, Bytes, Bool-cases, if_cases,
}
use model_lib.Base.Int.{ℤ, pos, negsuc, pos_part, leb_ℤ}
use model_lib.Database.{Outcome, served}
use model_lib.RateLimit.{
  KeyStore, stamp, retry_after, interval_of, refill, charge, script, token_bucket,
}
use model_lib.RateLimit.Bucket.{Bucket, absent, present, pass-Bucket}
use model_lib.RateLimit.Burst.{InOrder, last_time, serve_all, serve_all-Bucket}

module _ (K : KeyStore) (key : Bytes) (interval capacity : ℕ) where
  open K use {Store, get, set, pass}

  charge-allows :
      (now : ℕ) (x : ℕ × Store) → 1 ≤ x.0 → (charge K now key interval capacity 1 x).0 ≡ 0
  unfolding charge
  charge-allows now (tokens, s) h =
      if_cases (λ (y : ℕ × Store). y.0 ≡ 0) (leb 1 tokens) (λ _. refl) (λ e. absurd (ground arith))

  charge-refuses :
      (now : ℕ) (s : Store)
      → charge K now key interval capacity 1 (0, s) ≡ (retry_after interval 1, s)
  unfolding charge
  charge-refuses now s = refl

  refill-gains :
      (now tokens last : ℕ) (s : Store)
      → 1 ≤ capacity
      → 1 ≤ tokens + (now - last) / interval
      → 1 ≤ (refill K key now interval capacity tokens last s).0
  unfolding refill
  refill-gains now tokens last s pc h =
      if_cases (λ (y : ℕ × Store). 1 ≤ y.0) (ltb 0 ((now - last) / interval)) (λ e. omega arith)
        (λ e. ground arith)

  refill-idle :
      (now tokens last : ℕ) (s : Store)
      → 1 ≤ capacity
      → (refill K key now interval capacity tokens last s).0 ≡ 0
      → refill K key now interval capacity tokens last s ≡ (tokens, s)
  unfolding refill
  refill-idle now tokens last s pc =
      if_cases (λ (y : ℕ × Store). y.0 ≡ 0 → y ≡ (tokens, s)) (ltb 0 ((now - last) / interval))
        (λ e h. absurd (ground arith)) (λ e h. refl)

  script-present :
      (now tokens last : ℕ) (s : Store)
      → get key s ≡ some tokens
      → get (stamp key) s ≡ some last
      → script K now key now interval capacity 1 s
        ≡ charge K now key interval capacity 1 (refill K key now interval capacity tokens last s)
  unfolding script
  script-present now tokens last s a b = rw (a, b) refl

  script-absent :
      (now : ℕ) (s : Store)
      → 1 ≤ capacity
      → get key s ≡ none
      → (script K now key now interval capacity 1 s).0 ≡ 0
  unfolding script
  script-absent now s pc a =
      rw a (charge-allows now _ (refill-gains now capacity _ _ pc (omega arith)))

  refused-facts :
      (now tokens last r : ℕ) (s : Store)
      → 1 ≤ capacity
      → get key s ≡ some tokens
      → get (stamp key) s ≡ some last
      → (script K now key now interval capacity 1 s).0 ≡ suc r
      → (suc r ≡ retry_after interval 1) × ((script K now key now interval capacity 1 s).1 ≡ s)
  refused-facts now tokens last r s pc a b told =
      let whole =
        at_script
        ∙ ap (charge K now key interval capacity 1) idle
        ∙ ap (λ (v : ℕ). charge K now key interval capacity 1 (v, s)) no_tokens
        ∙ charge-refuses now s in
      (sym told ∙ ap (λ y. y.0) whole, ap (λ y. y.1) whole)
    where
      at_script :
          script K now key now interval capacity 1 s
          ≡ charge K now key interval capacity 1 (refill K key now interval capacity tokens last s)
      at_script = script-present now tokens last s a b

      none_left : (refill K key now interval capacity tokens last s).0 ≡ 0
      none_left = elim (Bool-cases (leb 1 (refill K key now interval capacity tokens last s).0)) [
        | inl left ↦ cc (
          told,
          ap (λ y. y.0) at_script,
          charge-allows now (refill K key now interval capacity tokens last s) (ground arith),
        )
        | inr other ↦ ground arith
      ]

      idle : refill K key now interval capacity tokens last s ≡ (tokens, s)
      idle = refill-idle now tokens last s pc none_left

      no_tokens : tokens ≡ 0
      no_tokens = sym (ap (λ y. y.0) idle) ∙ none_left

  waited-allows :
      (begun n now later r : ℕ) (s : Store)
      → 0 < interval
      → 1 ≤ capacity
      → Bucket K key interval capacity begun n now s
      → (script K now key now interval capacity 1 s).0 ≡ suc r
      → now + suc r * 1000 ≤ later
      → (script K later key later interval capacity 1
          (pass later (script K now key now interval capacity 1 s).1)).0
        ≡ 0
  waited-allows begun n now later r s pi pc (absent a b c) told wait =
      cc (told, script-absent now s pc a)
  waited-allows begun n now later r s pi pc (present tokens last until a b c d e f g h) told wait =
      let (told_wait, same) = refused-facts now tokens last r s pc a b told in
      let long : interval ≤ suc r * 1000 = omega arith in
      rw same (elim (Bool-cases (ltb later until)) [
        | inr gone ↦
            script-absent later (pass later s) pc (K.pass_ends later until key s c (ground arith))
        | inl kept ↦
            let before : later < until = ground arith in
            let (a', _) = K.pass_keeps later until key s c before in
            let (b', _) = K.pass_keeps later until (stamp key) s d before in
            let one_more : 1 ≤ (later - last) / interval = (le-div_iff_mul-le pi).1 (omega arith) in
            ap (λ y. y.0) (script-present later tokens last (pass later s) (a' ∙ a) (b' ∙ b))
            ∙ charge-allows later _ (refill-gains later tokens last (pass later s) pc (omega arith))
      ])

module _ (K : KeyStore) (key : Bytes) (rate : ℤ) (period : ℕ) where
  limited_bucket :
      (now : ℕ) (s : K.Store)
      → leb_ℤ rate (pos 0) ≡ false
      → let y = script K now key now (interval_of rate period) (pos_part rate) 1 (K.pass now s) in
        token_bucket K key rate period 1 now now served s ≡ (some y.0, y.1)
  unfolding token_bucket
  limited_bucket now s limited =
      let y = script K now key now (interval_of rate period) (pos_part rate) 1 (K.pass now s) in
      if_cases (λ (x : Option ℕ × K.Store). x ≡ (some y.0, y.1)) (leb_ℤ rate (pos 0))
        (λ h. cc (h, limited)) (λ _. refl)

  positive : (z : ℤ) → leb_ℤ z (pos 0) ≡ false → 1 ≤ pos_part z
  positive (pos n) h = ground arith
  positive (negsuc n) h = absurd (ground arith)

  -- A bucket with a positive rate that started without keys, after any requests in the order of
  -- their times, with Redis on the same clock: a request that is told to wait some seconds is
  -- allowed when it comes again after that time, if no other request came in between.
  pub token_bucket-retry :
      (begun now later r : ℕ) (turns : List (ℕ × Outcome)) (s : K.Store)
      → leb_ℤ rate (pos 0) ≡ false
      → K.get key s ≡ none
      → K.get (stamp key) s ≡ none
      → InOrder begun turns
      → last_time begun turns ≤ now
      → now + suc r * 1000 ≤ later
      → (token_bucket K key rate period 1 now now served
          (serve_all K key rate period turns (0, s)).1).0
        ≡ some (suc r)
      → (token_bucket K key rate period 1 later later served
          (token_bucket K key rate period 1 now now served
            (serve_all K key rate period turns (0, s)).1).1).0
        ≡ some 0
  token_bucket-retry begun now later r turns s limited no_key no_stamp order after wait told =
      ap (λ w. (token_bucket K key rate period 1 later later served w.1).0) first
      ∙ ap (λ w. w.0)
          (limited_bucket later (script K now key now interval capacity 1 (K.pass now z)).1 limited)
      ∙ ap some (
          waited-allows K key interval capacity begun _ now later r (K.pass now z) (omega arith)
            (positive rate limited)
            (pass-Bucket K key interval capacity begun _ (last_time begun turns) now z after (
              serve_all-Bucket K key rate period begun turns 0 begun s limited order
                (absent no_key no_stamp (omega arith))))
            (cc (told, ap (λ w. w.0) first)) wait)
    where
      interval : ℕ
      interval = interval_of rate period

      capacity : ℕ
      capacity = pos_part rate

      z : K.Store
      z = (serve_all K key rate period turns (0, s)).1

      first : token_bucket K key rate period 1 now now served z ≡ (
        some (script K now key now interval capacity 1 (K.pass now z)).0,
        (script K now key now interval capacity 1 (K.pass now z)).1,
      )
      first = limited_bucket now z limited
