-- ===== src/Queue/Memory.antt =====
-- A stream in memory that keeps the laws of StreamServer, for the examples. Ids are numbers of one
-- digit; entries are handed out in order, and again to a claim without an idle time.
use mathlib.Core.Path.{subst}
use model_lib.Base.{
  ℕ, ◌+◌, ◌-◌, ◌≡◌, ◌≢◌, ◌⊎◌, inl, inr, refl, ap, arith, Bool, true, false, if◌then◌else◌, ◌==◌,
  ltb, Option, none, some, [], ◌∷◌, Bytes, Bool-cases, str_eq, str_eq_distinct, str_eq_refl,
  if_cases,
}
use model_lib.Queue.{StreamServer, Fields, Message}

pub record Memory : Type 0 where
  pub next : ℕ
  pub cursor : ℕ
  pub entries : Bytes → Option Fields

abbrev given : Memory → Bytes → Bool
given s (n ∷ []) = ltb n s.next
given s _ = false

abbrev there : Memory → Bytes → Option Fields
there s id = if given s id then s.entries id else none

abbrev put : Bytes → Option Fields → (Bytes → Option Fields) → Bytes → Option Fields
put id f entries k = if str_eq id k then f else entries k

abbrev append : Fields → Memory → Bytes × Memory
append f s = (
  s.next ∷ [],
  record { next = s.next + 1; cursor = s.cursor; entries = put (s.next ∷ []) (some f) s.entries },
)

abbrev message_of : Bytes → Option Fields → Option Message
message_of id none = none
message_of id (some f) = some (record { id = id; values = f })

abbrev message_at : ℕ → Memory → Option Message
message_at n s = message_of (n ∷ []) (there s (n ∷ []))

abbrev read : Memory → Option Message × Memory
read s = (message_at s.cursor s, record s { cursor = s.cursor + 1 })

abbrev reclaim : ℕ → Memory → Option Message × Memory
reclaim idle s = (if idle == 0 then message_at (s.cursor - 1) s else none, s)

abbrev remove : Bytes → Memory → Memory
remove id s = record s { entries = put id none s.entries }

message_of_lem :
    (id : Bytes) (f : Option Fields) (m : Message)
    → message_of id f ≡ some m
    → (id ≡ m.id) × (f ≡ some m.values)
message_of_lem id none m h = cc
message_of_lem id (some f) m h = (cc (ap id_of h), cc (ap values_of h))
  where
    id_of : Option Message → Bytes
    id_of none = []
    id_of (some m) = m.id

    values_of : Option Message → Option Fields
    values_of none = none
    values_of (some m) = some m.values

pub message_at_lem :
    (n : ℕ) (s : Memory) (m : Message) → message_at n s ≡ some m → there s m.id ≡ some m.values
message_at_lem n s m h =
    let (same, found) = message_of_lem (n ∷ []) (there s (n ∷ [])) m h in
    subst (λ k. there s k ≡ some m.values) same found

pub reclaim-there :
    (idle : ℕ) (s : Memory) (m : Message)
    → (reclaim idle s).0 ≡ some m
    → there s m.id ≡ some m.values
reclaim-there idle s m =
    if_cases (λ (o : Option Message). o ≡ some m → there s m.id ≡ some m.values) (idle == 0)
      (λ _. message_at_lem (s.cursor - 1) s m) (λ _ h. cc)

pub append-fresh : (s : Memory) → ltb s.next s.next ≡ false
append-fresh s = ground arith

pub append-there : (f : Fields) (s : Memory) → there (append f s).1 (append f s).0 ≡ some f
append-there f s = ground (arith, str_eq_refl (s.next ∷ []))

pub append-others :
    (f : Fields) (s : Memory) (id : Bytes) → s.next ∷ [] ≢ id → there (append f s).1 id ≡ there s id
append-others f s [] h = refl
append-others f s (n ∷ []) h = ground (arith, str_eq_distinct (s.next ∷ []) (n ∷ []) h, unequal h)
  where
    unequal : s.next ∷ [] ≢ n ∷ [] → s.next ≢ n
    unequal g e = g (ap (λ k. k ∷ []) e)
append-others f s (n ∷ m ∷ rest) h = refl

pub append-given :
    (f : Fields) (s : Memory) (id : Bytes) → given s id ≡ true → given (append f s).1 id ≡ true
append-given f s [] h = h
append-given f s (n ∷ []) h = ground arith
append-given f s (n ∷ m ∷ rest) h = h

pub there-given : (s : Memory) (id : Bytes) (f : Fields) → there s id ≡ some f → given s id ≡ true
there-given s id f h = ground arith

pub remove-others :
    (k : Bytes) (s : Memory) (id : Bytes) → k ≢ id → there (remove k s) id ≡ there s id
remove-others k s id h = rw (str_eq_distinct k id h) refl

pub remove_ends :
    (k : Bytes) (s : Memory) (id : Bytes)
    → (there (remove k s) id ≡ there s id) ⊎ (there (remove k s) id ≡ none)
remove_ends k s id = elim (Bool-cases (str_eq k id)) [
  | inl same ↦ inr (ground arith)
  | inr other ↦ inl (ground arith)
]

abbrev pub memory : StreamServer
memory = record {
  Server = Memory;
  live = there;
  issued = given;
  xadd = append;
  xreadgroup = read;
  xautoclaim = reclaim;
  xack = remove;
  xdel = remove;
  xadd_fresh = λ f s. append-fresh s;
  xadd_live = append-there;
  xadd_others = append-others;
  xadd_issued = append-given;
  live_issued = there-given;
  read_live = λ s m h. message_at_lem s.cursor s m h;
  read_keeps = λ s id. refl;
  read_issued = λ s id. refl;
  claim_live = reclaim-there;
  claim_keeps = λ idle s id. refl;
  claim_issued = λ idle s id. refl;
  ack_others = remove-others;
  ack_keeps_or_ends = remove_ends;
  ack_issued = λ k s id. refl;
  del_others = remove-others;
  del_keeps_or_ends = remove_ends;
  del_issued = λ k s id. refl;
}
