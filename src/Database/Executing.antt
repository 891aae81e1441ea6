-- ===== src/Database/Executing.antt =====
-- internal/database/database.go, RunMigrations: one statement of the script, carried out.
use mathlib.Core.List.{append-nil, append_assoc}
use model_lib.Base.{
  ◌≡◌, refl, sym, ap, ◌∙◌, arith, Bool, true, false, not, Option, some, List, [], ◌∷◌, ◌++◌, Bytes,
  str_eq, str_eq_refl, find_where, Option-cases, inl, inr, if_cases,
}
use model_lib.Database.Connection.{
  Column, Relation, Ddl, create_table, create_index, named, is_some, table_has, references_exist,
  execute,
}

-- What is found stays found when relations are added at the end.
pub found_still :
    (p : Relation → Bool) (xs ys : List Relation) (r : Relation)
    → find_where p xs ≡ some r
    → find_where p (xs ++ ys) ≡ some r
unfolding find_where
found_still p [] ys r h = cc h
found_still p (x ∷ xs) ys r h = ground (arith, found_still p xs ys r)

found_last :
    (name : Bytes) (columns : List Column) (xs ys : List Relation)
    → is_some (named name (xs ++ record { name = name; columns = columns } ∷ ys)) ≡ true
unfolding find_where
found_last name columns [] ys = rw (str_eq_refl name) refl
found_last name columns (x ∷ xs) ys = ground (arith, found_last name columns xs ys)

pub some_still :
    (p : Relation → Bool) (xs ys : List Relation)
    → is_some (find_where p xs) ≡ true
    → is_some (find_where p (xs ++ ys)) ≡ true
unfolding find_where
some_still p [] ys h = cc h
some_still p (x ∷ xs) ys h = ground (arith, some_still p xs ys)

table_still :
    (columns : List Bytes) (table : Bytes) (xs ys : List Relation)
    → not (table_has columns (named table xs)) ≡ false
    → not (table_has columns (named table (xs ++ ys))) ≡ false
table_still columns table xs ys h = elim (Option-cases (named table xs)) [
  | inl missing ↦ cc h
  | inr (r, found) ↦
      ap (λ (o : Option Relation). not (table_has columns o))
        (found_still (λ q. str_eq q.name table) xs ys r found)
      ∙ sym (ap (λ (o : Option Relation). not (table_has columns o)) found)
      ∙ h
]

abbrev pub name_of : Ddl → Bytes
name_of (create_table name columns) = name
name_of (create_index name table columns) = name

-- A statement that was carried out has only added relations, and finds nothing to do from then on.
pub record DoneFacts (d : Ddl) (rs us : List Relation) : Type 0 where
  pub added : List Relation
  pub kept : us ≡ rs ++ added
  pub there : is_some (named (name_of d) us) ≡ true
  pub again : (more : List Relation) → execute d (us ++ more) ≡ some (us ++ more)

pub execute-DoneFacts :
    (d : Ddl) (rs us : List Relation) → execute d rs ≡ some us → DoneFacts d rs us
unfolding execute
execute-DoneFacts (create_table name columns) rs us h =
    if_cases Q (is_some (named name rs))
      (λ there e.
        let same : rs ≡ us = cc e in
        record {
          added = [];
          kept = sym same ∙ sym (append-nil rs);
          there = ap (λ (x : List Relation). is_some (named name x)) (sym same) ∙ there;
          again = λ more.
              rw
                (ap (λ (x : List Relation). is_some (named name (x ++ more))) (sym same)
                  ∙ some_still _ rs more there)
                refl;
        })
      (λ absent.
        if_cases Q (references_exist columns rs)
          (λ _ e.
            let same : rs ++ new ∷ [] ≡ us = cc e in
            record {
              added = new ∷ [];
              kept = sym same;
              there =
                  ap (λ (x : List Relation). is_some (named name x)) (sym same)
                  ∙ found_last name columns rs [];
              again = λ more.
                  rw
                    (ap (λ (x : List Relation). is_some (named name (x ++ more))) (sym same)
                      ∙ some_still _ (rs ++ new ∷ []) more (found_last name columns rs []))
                    refl;
            })
          (λ _ e. cc e))
      h
  where
    Q : Option (List Relation) → Type 0
    Q o = o ≡ some us → DoneFacts (create_table name columns) rs us

    new : Relation
    new = record { name = name; columns = columns }
execute-DoneFacts (create_index name table columns) rs us h =
    if_cases Q (not (table_has columns (named table rs))) (λ _ e. cc e)
      (λ fits.
        if_cases Q (is_some (named name rs))
          (λ there e.
            let same : rs ≡ us = cc e in
            record {
              added = [];
              kept = sym same ∙ sym (append-nil rs);
              there = ap (λ (x : List Relation). is_some (named name x)) (sym same) ∙ there;
              again = λ more.
                  settled (us ++ more) (still rs us [] more (sym same ∙ sym (append-nil rs)) fits) (
                    ap (λ (x : List Relation). is_some (named name (x ++ more))) (sym same)
                    ∙ some_still _ rs more there);
            })
          (λ _ e.
            let same : rs ++ new ∷ [] ≡ us = cc e in
            record {
              added = new ∷ [];
              kept = sym same;
              there =
                  ap (λ (x : List Relation). is_some (named name x)) (sym same)
                  ∙ found_last name [] rs [];
              again = λ more. settled (us ++ more) (still rs us (new ∷ []) more (sym same) fits) (
                  ap (λ (x : List Relation). is_some (named name (x ++ more))) (sym same)
                  ∙ some_still _ (rs ++ new ∷ []) more (found_last name [] rs []));
            }))
      h
  where
    Q : Option (List Relation) → Type 0
    Q o = o ≡ some us → DoneFacts (create_index name table columns) rs us

    new : Relation
    new = record { name = name; columns = [] }

    settled :
        (vs : List Relation)
        → not (table_has columns (named table vs)) ≡ false
        → is_some (named name vs) ≡ true
        → execute (create_index name table columns) vs ≡ some vs
    settled vs fits there = rw (fits, there) refl

    still :
        (before bs cs more : List Relation)
        → bs ≡ before ++ cs
        → not (table_has columns (named table before)) ≡ false
        → not (table_has columns (named table (bs ++ more))) ≡ false
    still before bs cs more made fits =
        rw (ap (λ (x : List Relation). table_has columns (named table (x ++ more))) made)
          (rw (append_assoc before cs more) (table_still columns table before (cs ++ more) fits))
