-- ===== src/RateLimit/Memory.antt =====
-- Keys in memory that keep the laws of KeyStore, for the examples.
use model_lib.Base.{
  ℕ, ◌+◌, ◌≡◌, ◌≢◌, ◌≤◌, ◌<◌, refl, arith, if◌then◌else◌, leb, Option, none, some, Bytes, str_eq,
  str_eq_distinct, str_eq_refl, if_cases,
}
use model_lib.RateLimit.{KeyStore}

-- A value, and the time at which it goes.
abbrev pub Entry : Type 0
Entry = Option (ℕ × Option ℕ)

abbrev pub value_of : Entry → Option ℕ
value_of none = none
value_of (some (v, u)) = some v

abbrev pub goes_at : Entry → Option ℕ
goes_at none = none
goes_at (some (v, u)) = u

abbrev pub renewed : ℕ → Entry → Entry
renewed u none = none
renewed u (some (v, _)) = some (v, some u)

abbrev pub after : ℕ → Entry → Entry
after t none = none
after t (some (v, none)) = some (v, none)
after t (some (v, some u)) = if leb u t then none else some (v, some u)

abbrev pub at_key : Bytes → (Entry → Entry) → (Bytes → Entry) → Bytes → Entry
at_key k f s j = if str_eq k j then f (s j) else s j

pub at_key-here : (k : Bytes) (f : Entry → Entry) (s : Bytes → Entry) → at_key k f s k ≡ f (s k)
at_key-here k f s = rw (str_eq_refl k) refl

pub at_key-other :
    (k j : Bytes) (f : Entry → Entry) (s : Bytes → Entry) → k ≢ j → at_key k f s j ≡ s j
at_key-other k j f s h = rw (str_eq_distinct k j h) refl

pub value-renewed : (u : ℕ) (e : Entry) → value_of (renewed u e) ≡ value_of e
value-renewed u none = refl
value-renewed u (some (v, w)) = refl

pub goes-renewed : (u v : ℕ) (e : Entry) → value_of e ≡ some v → goes_at (renewed u e) ≡ some u
goes-renewed u v none h = cc
goes-renewed u v (some (w, x)) h = refl

pub after-none : (t : ℕ) (e : Entry) → value_of e ≡ none → value_of (after t e) ≡ none
after-none t none h = refl
after-none t (some (v, u)) h = cc

pub after_keeps :
    (t u : ℕ) (e : Entry)
    → goes_at e ≡ some u
    → t < u
    → (value_of (after t e) ≡ value_of e) × (goes_at (after t e) ≡ some u)
after_keeps t u none h l = cc
after_keeps t u (some (v, none)) h l = cc
after_keeps t u (some (v, some w)) h l = let same : w ≡ u = cc h in (ground arith, ground arith)

pub after_ends : (t u : ℕ) (e : Entry) → goes_at e ≡ some u → u ≤ t → value_of (after t e) ≡ none
after_ends t u none h l = refl
after_ends t u (some (v, none)) h l = cc
after_ends t u (some (v, some w)) h l = let same : w ≡ u = cc h in ground arith

abbrev pub key_memory : KeyStore
key_memory = record {
  Store = Bytes → Entry;
  get = λ k s. value_of (s k);
  expires = λ k s. goes_at (s k);
  set = λ k v s. at_key k (λ e. some (v, none)) s;
  pexpire = λ t k ms s. at_key k (renewed (t + ms)) s;
  pass = λ t s k. after t (s k);
  flush = λ s k. none;
  get_flush = λ k s. refl;
  get_set = λ k v s. rw (at_key-here k (λ e. some (v, none)) s) refl;
  get_set_other = λ k j v s h. rw (at_key-other k j (λ e. some (v, none)) s h) refl;
  get_pexpire = λ t k j ms s h.
      if_cases (λ (e : Entry). value_of e ≡ value_of (s j)) (str_eq k j)
        (λ _. value-renewed (t + ms) (s j)) (λ _. refl);
  expires_pexpire =
      λ t k ms v s h. rw (at_key-here k (renewed (t + ms)) s) (goes-renewed (t + ms) v (s k) h);
  expires_pexpire_other = λ t k j ms s h. rw (at_key-other k j (renewed (t + ms)) s h) refl;
  pass_none = λ t k s h. after-none t (s k) h;
  pass_keeps = λ t u k s h l. after_keeps t u (s k) h l;
  pass_ends = λ t u k s h l. after_ends t u (s k) h l;
}
