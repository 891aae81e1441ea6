-- ===== src/Database/Found.antt =====
-- Rows under an UPDATE: what a SELECT by the id finds after it.
use model_lib.Base.{
  ◌≤◌, ◌≡◌, ◌≢◌, refl, sym, ap, ◌∙◌, arith, Bool, true, false, ◌&&◌, Option, some, List, [], ◌∷◌,
  Bytes, str_eq, str_eq_distinct, str_eq_iff, Bool-cases, inl, inr, find_where, count_where,
  update_where, if◌then◌else◌,
}
use model_lib.Database.{SubmissionRow}
use model_lib.Database.Statements.{has_id}

some_same : (x y : SubmissionRow) → Option.some x ≡ some y → x ≡ y
some_same x y h = cc h

if_true : {A : Type 0} {b : Bool} (m n : A) → b ≡ true → (if b then m else n) ≡ m
if_true m n e = rw e refl

if_false : {A : Type 0} {b : Bool} (m n : A) → b ≡ false → (if b then m else n) ≡ n
if_false m n e = rw e refl

-- The first row of an id, if its owner asks.
pub find-owned :
    (id who : Bytes) (xs : List SubmissionRow) (r : SubmissionRow)
    → find_where (has_id id) xs ≡ some r
    → str_eq r.participant_id who ≡ true
    → find_where (λ q. has_id id q && str_eq q.participant_id who) xs ≡ some r
unfolding find_where
find-owned id who [] r h own = cc h
find-owned id who (x ∷ xs) r h own = elim (Bool-cases (has_id id x)) [
  | inl here ↦
      let first : x ≡ r = some_same x r (sym (if_true _ _ here) ∙ h) in
      let mine : str_eq x.participant_id who ≡ true =
        ap (λ (y : SubmissionRow). str_eq y.participant_id who) first ∙ own in
      rw (here, mine) (ap (λ (y : SubmissionRow). Option.some y) first)
  | inr elsewhere ↦ rw elsewhere (find-owned id who xs r (sym (if_false _ _ elsewhere) ∙ h) own)
]

module _ (id : Bytes) (q : SubmissionRow → Bool) (f : SubmissionRow → SubmissionRow)
    (same_id : (x : SubmissionRow) → (f x).id ≡ x.id)
    (own : (x : SubmissionRow) → q x ≡ true → has_id id x ≡ true) where
  updated_id : (x : SubmissionRow) (k : Bytes) → has_id k (f x) ≡ has_id k x
  updated_id x k = ap (λ (n : Bytes). str_eq n k) (same_id x)

  -- The row of the id, after an UPDATE that changes it.
  pub find-update :
      (xs : List SubmissionRow) (r : SubmissionRow)
      → find_where (has_id id) xs ≡ some r
      → q r ≡ true
      → find_where (has_id id) (update_where q f xs) ≡ some (f r)
  unfolding find_where update_where
  find-update [] r h hit = cc h
  find-update (x ∷ xs) r h hit = elim (Bool-cases (q x)) [
    | inl changed ↦
        let here : has_id id x ≡ true = own x changed in
        let there : has_id id (f x) ≡ true = updated_id x id ∙ here in
        let first : x ≡ r = some_same x r (sym (if_true _ _ here) ∙ h) in
        rw changed (rw there (ap (λ (y : SubmissionRow). Option.some (f y)) first))
    | inr kept ↦ rw kept (elim (Bool-cases (has_id id x)) [
      | inl here ↦
          let first : x ≡ r = some_same x r (sym (if_true _ _ here) ∙ h) in
          cc (sym kept ∙ ap q first ∙ hit)
      | inr elsewhere ↦ rw elsewhere (find-update xs r (sym (if_false _ _ elsewhere) ∙ h) hit)
    ])
  ]

  -- Another row is as it was.
  pub find-update_other :
      (k : Bytes) (xs : List SubmissionRow)
      → k ≢ id
      → find_where (has_id k) (update_where q f xs) ≡ find_where (has_id k) xs
  unfolding find_where update_where
  find-update_other k [] other = refl
  find-update_other k (x ∷ xs) other = elim (Bool-cases (q x)) [
    | inl changed ↦
        let here : x.id ≡ id = (str_eq_iff x.id id).0 (own x changed) in
        let apart : has_id k x ≡ false = str_eq_distinct x.id k (λ e. other (sym e ∙ here)) in
        let later : has_id k (f x) ≡ false = updated_id x k ∙ apart in
        rw changed (rw (later, apart) (find-update_other k xs other))
    | inr kept ↦ rw kept (
        ap (λ (o : Option SubmissionRow). if has_id k x then some x else o)
          (find-update_other k xs other))
  ]

pub found-count :
    (p q : SubmissionRow → Bool) (xs : List SubmissionRow) (r : SubmissionRow)
    → find_where p xs ≡ some r
    → q r ≡ true
    → 1 ≤ count_where q xs
unfolding find_where count_where
found-count p q [] r h hit = cc h
found-count p q (x ∷ xs) r h hit = elim (Bool-cases (p x)) [
  | inl here ↦
      let first : x ≡ r = some_same x r (sym (if_true _ _ here) ∙ h) in
      let counted : q x ≡ true = ap q first ∙ hit in ground (arith, counted)
  | inr elsewhere ↦
      let rest = found-count p q xs r (sym (if_false _ _ elsewhere) ∙ h) hit in ground (arith, rest)
]
