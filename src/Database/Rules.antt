-- ===== src/Database/Rules.antt =====
-- One rule for each call of the driver: what is to be shown of the statements that follow it.
use model_lib.Base.{Bool, true, false, if◌then◌else◌, ℕ, ◌≡◌, refl, Option, none, some}
use model_lib.Database.{
  transaction, Tables, Result, ok, err, DbError, Session, Sql, Outcome, served, refused, lost,
  ◌>>=◌, ◌>>◌, later, begin_by, commit_by, statement_by, direct_by, continue, begin, statement,
  commit, direct,
}
use model_lib.Database.Statements.{select}

abbrev pub Answer : Type 0 → Type 0
Answer A = Result A × Session

-- The session after one more call of the driver.
abbrev pub next : Session → Session
next s = record s { script = later s.script }

abbrev pub working : Session → Tables → Session
working s t = record s { work = t; script = later s.script }

-- After the COMMIT has taken effect.
abbrev pub persisted : Session → Session
persisted s = record s { committed = s.work; script = later s.script }

-- After a statement outside a transaction has taken effect.
abbrev pub landed : Session → Tables → Session
landed s t = record s { committed = t; work = t; script = later s.script }

pub outcome_cases : (P : Outcome → Type 0) (o : Outcome) → P served → P refused → P lost → P o
outcome_cases P served a b c = a
outcome_cases P refused a b c = b
outcome_cases P lost a b c = c

module _ {B : Type 0} (Q : Answer B → Type 0) (s : Session) where
  pub begin_rule :
      (k : Sql B)
      → ((e : DbError) → Q (err e, next s))
      → Q (k (working s s.committed))
      → Q ((begin >> k) s)
  unfolding begin
  begin_rule k bad good =
      outcome_cases (λ o. Q (continue (begin_by o (next s)).0 (begin_by o (next s)).1 (λ _. k))) _
        good (bad _) (bad _)

  pub commit_rule :
      (k : Sql B)
      → ((e : DbError) → Q (err e, next s))
      → ((e : DbError) → Q (err e, persisted s))
      → Q (k (persisted s))
      → Q ((commit >> k) s)
  unfolding commit
  commit_rule k bad unsure good =
      outcome_cases (λ o. Q (continue (commit_by o (next s)).0 (commit_by o (next s)).1 (λ _. k))) _
        good (bad _) (unsure _)

module _ {A B : Type 0} (Q : Answer B → Type 0) (s : Session) (f : ℕ → Tables → Option (Tables × A))
    (k : A → Sql B) where
  statement_answer :
      (x : Option (Tables × A)) (o : Outcome)
      → f s.now s.work ≡ x
      → ((e : DbError) → Q (err e, next s))
      → ((t : Tables) (a : A) → f s.now s.work ≡ some (t, a) → Q (k a (working s t)))
      → Q (continue (statement_by o x (next s)).0 (statement_by o x (next s)).1 k)
  statement_answer none served e bad good = bad _
  statement_answer none refused e bad good = bad _
  statement_answer none lost e bad good = bad _
  statement_answer (some (t, a)) served e bad good = good t a e
  statement_answer (some (t, a)) refused e bad good = bad _
  statement_answer (some (t, a)) lost e bad good = bad _

  pub statement_rule :
      ((e : DbError) → Q (err e, next s))
      → ((t : Tables) (a : A) → f s.now s.work ≡ some (t, a) → Q (k a (working s t)))
      → Q ((statement f >>= k) s)
  unfolding statement
  statement_rule = statement_answer _ _ refl

  direct_answer :
      (x : Option (Tables × A)) (o : Outcome)
      → f s.now s.committed ≡ x
      → ((e : DbError) → Q (err e, next s))
      → ((t : Tables) (a : A) (e : DbError)
          → f s.now s.committed ≡ some (t, a)
          → Q (err e, landed s t))
      → ((t : Tables) (a : A) → f s.now s.committed ≡ some (t, a) → Q (k a (landed s t)))
      → Q (continue (direct_by o x (next s)).0 (direct_by o x (next s)).1 k)
  direct_answer none served e bad unsure good = bad _
  direct_answer none refused e bad unsure good = bad _
  direct_answer none lost e bad unsure good = bad _
  direct_answer (some (t, a)) served e bad unsure good = good t a e
  direct_answer (some (t, a)) refused e bad unsure good = bad _
  direct_answer (some (t, a)) lost e bad unsure good = unsure t a _ e

  pub direct_rule :
      ((e : DbError) → Q (err e, next s))
      → ((t : Tables) (a : A) (e : DbError)
          → f s.now s.committed ≡ some (t, a)
          → Q (err e, landed s t))
      → ((t : Tables) (a : A) → f s.now s.committed ≡ some (t, a) → Q (k a (landed s t)))
      → Q ((direct f >>= k) s)
  unfolding direct
  direct_rule = direct_answer _ _ refl

-- A SELECT in a transaction: it changes nothing, and what it returns is known.
pub select_rule :
    {A B : Type 0} (Q : Answer B → Type 0) (s : Session) (q : Tables → A) (k : A → Sql B)
    → ((e : DbError) → Q (err e, next s))
    → Q (k (q s.work) (next s))
    → Q ((statement (select q) >>= k) s)
unfolding statement
select_rule Q s q k bad good =
    outcome_cases
      (λ o. Q (
        continue (statement_by o (some (s.work, q s.work)) (next s)).0
          (statement_by o (some (s.work, q s.work)) (next s)).1 k))
      _ good (bad _) (bad _)

-- A test between two ways to go on.
pub if_rule :
    {A : Type 0} (Q : Answer A → Type 0) (b : Bool) (m n : Sql A) (s : Session)
    → (b ≡ true → Q (m s))
    → (b ≡ false → Q (n s))
    → Q ((if b then m else n) s)
if_rule Q true m n s yes_case no_case = yes_case refl
if_rule Q false m n s yes_case no_case = no_case refl

-- A body under `defer tx.Rollback()` is judged by what it commits.
pub committed-transaction :
    {A : Type 0} (body : Sql A) (s : Session)
    → (transaction body s).1.committed ≡ (body s).1.committed
unfolding transaction
committed-transaction body s = refl

-- A COMMIT that ends a body.
pub commit_last :
    (Q : Answer Unit → Type 0) (s : Session)
    → ((e : DbError) → Q (err e, next s))
    → ((r : Result Unit) → Q (r, persisted s))
    → Q (commit s)
unfolding commit
commit_last Q s bad good = outcome_cases (λ o. Q (commit_by o (next s))) _ (good _) (bad _) (good _)

-- A SELECT that ends a body, and may read NOW().
pub query_last :
    {A : Type 0} (Q : Answer A → Type 0) (s : Session) (q : ℕ → Tables → A)
    → ((e : DbError) → Q (err e, next s))
    → Q (ok (q s.now s.work), next s)
    → Q (statement (λ now. select (q now) now) s)
unfolding statement
query_last Q s q bad good =
    outcome_cases (λ o. Q (statement_by o (some (s.work, q s.now s.work)) (next s))) _ good (bad _)
      (bad _)

-- One statement outside a transaction, with nothing after it.
pub direct_last :
    {A : Type 0} (Q : Answer A → Type 0) (s : Session) (f : ℕ → Tables → Option (Tables × A))
    → ((e : DbError) → Q (err e, next s))
    → ((t : Tables) (a : A) (r : Result A) → f s.now s.committed ≡ some (t, a) → Q (r, landed s t))
    → Q (direct f s)
unfolding direct
direct_last {A} Q s f bad good = go _ _ refl
  where
    go :
        (x : Option (Tables × A)) (o : Outcome)
        → f s.now s.committed ≡ x
        → Q (direct_by o x (next s))
    go none served e = bad _
    go none refused e = bad _
    go none lost e = bad _
    go (some (t, a)) served e = good t a _ e
    go (some (t, a)) refused e = bad _
    go (some (t, a)) lost e = good t a _ e
