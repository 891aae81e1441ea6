-- ===== src/RateLimit/Bucket.antt =====
-- What the two keys of a token bucket say of the requests that it has allowed so far.
use Prim.Native.Nat.{min}
use native.Mathlib.Nat.{div-mul-le_self, mul-le-mul_right, add-mul, mul_comm}
use model_lib.Base.{
  ℕ, zero, suc, ◌+◌, ◌-◌, ◌*◌, ◌/◌, ◌≤◌, ◌<◌, ◌≡◌, inl, inr, refl, sym, ◌∙◌, arith, ltb, leb,
  Option, none, some, Bytes, Bool-cases, if_cases,
}
use model_lib.Database.{Outcome, served, refused, lost}
use model_lib.RateLimit.{
  KeyStore, stamp, lifetime, retry_after, or_else, filled, refill, charge, started_at, script,
  evaluated,
}
use model_lib.RateLimit.Keys.{stamp_other}

-- A request counts if it was told to wait no seconds.
abbrev pub allowed : Option ℕ → ℕ
allowed (some zero) = 1
allowed _ = 0

module _ (K : KeyStore) (key : Bytes) (interval capacity : ℕ) (begun : ℕ) where
  open K use {Store, get, set, expires, pexpire, pass}

  -- What the keys say after `n` allowed requests: both are gone, or they leave the tokens that time
  -- has earned.
  pub data Bucket (n clock : ℕ) (s : Store) : Type 0 where
    absent :
        get key s ≡ none
        → get (stamp key) s ≡ none
        → begun + n * interval ≤ clock
        → Bucket n clock s
    present :
        (tokens last until : ℕ)
        → get key s ≡ some tokens
        → get (stamp key) s ≡ some last
        → expires key s ≡ some until
        → expires (stamp key) s ≡ some until
        → tokens ≤ capacity
        → last ≤ clock
        → last + interval * capacity * 2 ≤ until
        → begun + (tokens + n) * interval ≤ capacity * interval + last
        → Bucket n clock s

  expired-earned :
      (tokens n last until clock : ℕ)
      → last + interval * capacity * 2 ≤ until
      → begun + (tokens + n) * interval ≤ capacity * interval + last
      → until ≤ clock
      → begun + n * interval ≤ clock
  expired-earned tokens n last until clock a b c =
      omega (arith, add-mul tokens n interval, mul_comm capacity interval)

  pub pass-Bucket :
      (n clock now : ℕ) (s : Store) → clock ≤ now → Bucket n clock s → Bucket n now (pass now s)
  pass-Bucket n clock now s later (absent a b c) =
      absent (K.pass_none now key s a) (K.pass_none now (stamp key) s b) (omega arith)
  pass-Bucket n clock now s later (present tokens last until a b c d e f g h) =
      elim (Bool-cases (ltb now until)) [
        | inl before ↦
            let (a', c') = K.pass_keeps now until key s c (ground arith) in
            let (b', d') = K.pass_keeps now until (stamp key) s d (ground arith) in
            present tokens last until (a' ∙ a) (b' ∙ b) c' d' e (omega arith) g h
        | inr after ↦
            let gone : until ≤ now = ground arith in
            absent (K.pass_ends now until key s c gone) (K.pass_ends now until (stamp key) s d gone)
              (expired-earned tokens n last until now g h gone)
      ]

  -- Before the charge: a token is there, or there is none and nothing was written.
  data Ready (n now : ℕ) (x : ℕ × Store) : Type 0 where
    funded :
        (last : ℕ)
        → 1 ≤ x.0
        → get key x.1 ≡ some x.0
        → get (stamp key) x.1 ≡ some last
        → x.0 ≤ capacity
        → last ≤ now
        → begun + (x.0 + n) * interval ≤ capacity * interval + last
        → Ready n now x
    empty : x.0 ≡ 0 → Bucket n now x.1 → Ready n now x

  charge-Bucket :
      (n now : ℕ) (x : ℕ × Store)
      → Ready n now x
      → let y = charge K now key interval capacity 1 x in Bucket (n + allowed (some y.0)) now y.1
  unfolding charge
  charge-Bucket n now (tokens, s) (funded last a b c d e f) =
      if_cases (λ (y : ℕ × Store). Bucket (n + allowed (some y.0)) now y.1) (leb 1 tokens)
        (λ _.
          present (tokens - 1) last (now + ttl) value_here stamp_here value_goes stamp_goes
            (omega arith) e (omega arith) (spent tokens last a f))
        (λ h. absurd (ground arith))
    where
      ttl : ℕ
      ttl = lifetime interval capacity

      left : Store
      left = set key (tokens - 1) s

      positive : 0 < lifetime interval capacity
      positive = omega arith

      kept :
          (j : Bytes) → get j (pexpire now (stamp key) ttl (pexpire now key ttl left)) ≡ get j left
      kept j =
          K.get_pexpire now (stamp key) j ttl (pexpire now key ttl left) positive
          ∙ K.get_pexpire now key j ttl left positive

      value_here :
          get key (pexpire now (stamp key) ttl (pexpire now key ttl left)) ≡ some (tokens - 1)
      value_here = kept key ∙ K.get_set key (tokens - 1) s

      stamp_left : get (stamp key) left ≡ some last
      stamp_left = K.get_set_other key (stamp key) (tokens - 1) s (λ q. stamp_other key (sym q)) ∙ c

      stamp_here :
          get (stamp key) (pexpire now (stamp key) ttl (pexpire now key ttl left)) ≡ some last
      stamp_here = kept (stamp key) ∙ stamp_left

      value_goes :
          expires key (pexpire now (stamp key) ttl (pexpire now key ttl left)) ≡ some (now + ttl)
      value_goes =
          K.expires_pexpire_other now (stamp key) key ttl (pexpire now key ttl left)
            (stamp_other key)
          ∙ K.expires_pexpire now key ttl (tokens - 1) left (K.get_set key (tokens - 1) s)

      stamp_goes :
          expires (stamp key) (pexpire now (stamp key) ttl (pexpire now key ttl left))
          ≡ some (now + ttl)
      stamp_goes =
          K.expires_pexpire now (stamp key) ttl last (pexpire now key ttl left)
            (K.get_pexpire now key (stamp key) ttl left positive ∙ stamp_left)

      spent :
          (tokens last : ℕ)
          → 1 ≤ tokens
          → begun + (tokens + n) * interval ≤ capacity * interval + last
          → begun + (tokens - 1 + (n + 1)) * interval ≤ capacity * interval + last
      spent tokens last some_left h =
          let same : tokens - 1 + (n + 1) ≡ tokens + n = omega arith in rw same h
  charge-Bucket n now (tokens, s) (empty none_left b) =
      if_cases (λ (y : ℕ × Store). Bucket (n + allowed (some y.0)) now y.1) (leb 1 tokens)
        (λ h. absurd (ground arith))
        (λ _. rw (waits (retry_after interval (1 - tokens)) (omega arith)) b)
    where
      waits : (r : ℕ) → 1 ≤ r → n + allowed (some r) ≡ n
      waits zero h = absurd (omega arith)
      waits (suc r) h = omega arith

  refill-Ready :
      (n now tokens last : ℕ) (s : Store)
      → 0 < interval
      → 1 ≤ capacity
      → get key s ≡ some tokens
      → get (stamp key) s ≡ some last
      → tokens ≤ capacity
      → last ≤ now
      → begun + (tokens + n) * interval ≤ capacity * interval + last
      → (tokens ≡ 0 → Bucket n now s)
      → Ready n now (refill K key now interval capacity tokens last s)
  unfolding refill
  refill-Ready n now tokens last s pi pc a b c d e bare =
      if_cases (Ready n now) (ltb 0 gained)
        (λ some_gained.
          funded (last + gained * interval) (ground arith) (K.get_set key _ _)
            (K.get_set_other key (stamp key) _ _ (λ q. stamp_other key (sym q))
              ∙ K.get_set (stamp key) _ _)
            (omega arith) (omega (arith, div-mul-le_self (now - last) interval)) earned)
        (λ _. unchanged tokens a c e bare)
    where
      gained : ℕ
      gained = (now - last) / interval

      earned :
          begun + (min capacity (tokens + gained) + n) * interval
          ≤ capacity * interval + (last + gained * interval)
      earned = omega (
        arith,
        mul-le-mul_right interval (at_most (min capacity (tokens + gained)) (omega arith)),
        add-mul (tokens + n) gained interval,
      )
        where
          at_most : (m : ℕ) → m ≤ tokens + gained → m + n ≤ tokens + n + gained
          at_most m h = omega arith

      unchanged :
          (v : ℕ)
          → get key s ≡ some v
          → v ≤ capacity
          → begun + (v + n) * interval ≤ capacity * interval + last
          → (v ≡ 0 → Bucket n now s)
          → Ready n now (v, s)
      unchanged zero a c e bare = empty refl (bare refl)
      unchanged (suc v) a c e bare = funded last (omega arith) a b c d e

  owed : (n now : ℕ) (s : Store) → get key s ≡ none → Bucket n now s → begun + n * interval ≤ now
  owed n now s gone (absent a b c) = c
  owed n now s gone (present tokens last until a b c d e f g h) = absurd (some≢none (sym a ∙ gone))
    where
      some≢none : some tokens ≡ none → ⊥
      some≢none q = cc

  fewer-Bucket : (n m now : ℕ) (s : Store) → m ≤ n → Bucket n now s → Bucket m now s
  fewer-Bucket n m now s le (absent a b c) =
      absent a b (omega (arith, mul-le-mul_right interval le))
  fewer-Bucket n m now s le (present tokens last until a b c d e f g h) =
      present tokens last until a b c d e f g (
        omega (
          arith,
          mul-le-mul_right interval le,
          add-mul tokens n interval,
          add-mul tokens m interval,
        ))

  -- However the state came about, no more requests were allowed than the bound says.
  pub bounded :
      (n clock : ℕ) (s : Store)
      → Bucket n clock s
      → begun + n * interval ≤ capacity * interval + clock
  bounded n clock s (absent a b c) = omega arith
  bounded n clock s (present tokens last until a b c d e f g h) =
      omega (arith, add-mul tokens n interval)

  script-Bucket :
      (n now : ℕ) (s : Store)
      → 0 < interval
      → 1 ≤ capacity
      → Bucket n now s
      → let y = script K now key now interval capacity 1 s in
        Bucket (n + allowed (some y.0)) now y.1
  unfolding script
  script-Bucket n now s pi pc bucket = charge-Bucket n now _ (found (get key s) refl bucket)
    where
      found :
          (o : Option ℕ)
          → get key s ≡ o
          → Bucket n now s
          → let there = filled K key now capacity o s in
            Ready n now (
              refill K key now interval capacity
                (or_else o capacity)
                (started_at K key now there)
                there)
      found none here b =
          let there : Store = set key capacity (set (stamp key) now s) in
          let at_now : get (stamp key) there ≡ some now =
            K.get_set_other key (stamp key) capacity _ (λ q. stamp_other key (sym q))
            ∙ K.get_set (stamp key) now s in
          rw at_now (
            refill-Ready n now capacity now there pi pc (K.get_set key capacity _) at_now
              (omega arith) (omega arith)
              (omega (arith, add-mul capacity n interval, owed n now s here b))
              (λ z. absurd (omega arith)))
      found (some v) here (absent a b c) = cc (here, a)
      found (some v) here (present tokens last until a b c d e f g h) =
          let same : tokens ≡ v = cc (a, here) in
          rw (b, ← same)
            (refill-Ready n now tokens last s pi pc a b e f h
              (λ z. present tokens last until a b c d e f g h))

  pub evaluated-Bucket :
      (o : Outcome) (n now : ℕ) (s : Store)
      → 0 < interval
      → 1 ≤ capacity
      → Bucket n now s
      → let y = evaluated K o (script K now key now interval capacity 1 s) s in
        Bucket (n + allowed y.0) now y.1
  evaluated-Bucket served n now s pi pc b = script-Bucket n now s pi pc b
  evaluated-Bucket refused n now s pi pc b = fewer-Bucket n (n + 0) now s (omega arith) b
  evaluated-Bucket lost n now s pi pc b =
      fewer-Bucket _ (n + 0) now _ (omega arith) (script-Bucket n now s pi pc b)
