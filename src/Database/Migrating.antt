-- ===== src/Database/Migrating.antt =====
-- internal/database/database.go, RunMigrations: what the script does to the relations.
use model_lib.Database.Executing.{found_still, some_still, name_of, execute-DoneFacts}
use mathlib.Core.List.{append-nil, append_assoc}
use model_lib.Base.{
  ◌≡◌, refl, sym, ap, ◌∙◌, Bool, true, false, Option, none, some, List, [], ◌∷◌, ◌++◌, Bytes, codes,
  find_where, str_eq, Option-cases, inl, inr, All,
}
use model_lib.Database.{Outcome, served, refused, lost}
use model_lib.Database.Connection.{
  table_has, Relation, Ddl, named, is_some, execute, execute_all, init_script, executed,
  run_migrations,
}

record ScriptFacts (ds : List Ddl) (rs us : List Relation) : Type 0 where
  added : List Relation
  kept : us ≡ rs ++ added
  there : All (λ d. is_some (named (name_of d) us) ≡ true) ds
  again : (more : List Relation) → execute_all ds (us ++ more) ≡ some (us ++ more)

execute_all-ScriptFacts :
    (ds : List Ddl) (rs us : List Relation) → execute_all ds rs ≡ some us → ScriptFacts ds rs us
unfolding execute_all
execute_all-ScriptFacts [] rs us h =
    let same : rs ≡ us = cc h in
    record { added = []; kept = sym same ∙ sym (append-nil rs); there = tt; again = λ more. refl }
execute_all-ScriptFacts (d ∷ ds) rs us h = elim (Option-cases (execute d rs)) [
  | inl failed ↦ absurd (nothing (sym (rest failed) ∙ h))
  | inr (vs, done) ↦
      let first = execute-DoneFacts d rs vs done in
      let others = execute_all-ScriptFacts ds vs us (sym (rest done) ∙ h) in
      let behind : (more : List Relation) → us ++ more ≡ vs ++ (others.added ++ more) = λ more.
        ap (λ (x : List Relation). x ++ more) others.kept ∙ append_assoc vs others.added more in
      record {
        added = first.added ++ others.added;
        kept =
            others.kept
            ∙ ap (λ (x : List Relation). x ++ others.added) first.kept
            ∙ append_assoc rs first.added others.added;
        there = (
          ap (λ (x : List Relation). is_some (named (name_of d) x)) others.kept
              ∙ some_still _ vs others.added first.there,
          others.there,
        );
        again = λ more.
            ap next (ap (execute d) (behind more) ∙ first.again (others.added ++ more))
            ∙ ap (execute_all ds) (sym (behind more))
            ∙ others.again more;
      }
]
  where
    next : Option (List Relation) → Option (List Relation)
    next o = elim o [ none ↦ none | some vs ↦ execute_all ds vs ]

    rest : {o : Option (List Relation)} → execute d rs ≡ o → next (execute d rs) ≡ next o
    rest e = ap next e

    nothing : none ≡ some us → ⊥
    nothing e = cc e

-- The three tables and the five indexes that the service needs.
abbrev pub relation_names : List Bytes
relation_names =
    codes "participants"
    ∷ codes "submissions"
    ∷ codes "idx_submissions_participant_id"
    ∷ codes "idx_submissions_status"
    ∷ codes "idx_submissions_participant_status"
    ∷ codes "idx_submissions_stale_processing"
    ∷ codes "submission_outbox"
    ∷ codes "idx_submission_outbox_ready"
    ∷ []

-- The columns that the statements of database.go name.
abbrev participant_columns : List Bytes
participant_columns = codes "id" ∷ codes "created_at" ∷ codes "last_seen_at" ∷ []

abbrev submission_columns : List Bytes
submission_columns =
    codes "id"
    ∷ codes "participant_id"
    ∷ codes "original_filename"
    ∷ codes "source_storage_key"
    ∷ codes "source_size"
    ∷ codes "source_sha256"
    ∷ codes "status"
    ∷ codes "compile_success"
    ∷ codes "compile_stderr"
    ∷ codes "exit_code"
    ∷ codes "stdout"
    ∷ codes "stderr"
    ∷ codes "result_truncated"
    ∷ codes "created_at"
    ∷ codes "updated_at"
    ∷ codes "started_at"
    ∷ codes "finished_at"
    ∷ []

abbrev outbox_columns : List Bytes
outbox_columns =
    codes "id"
    ∷ codes "submission_id"
    ∷ codes "event_type"
    ∷ codes "available_at"
    ∷ codes "delivered_at"
    ∷ codes "attempt_count"
    ∷ codes "last_error"
    ∷ []

-- The tables have every column that the service reads or writes.
pub record IsUsable (rs : List Relation) : Type 0 where
  pub participants : table_has participant_columns (named (codes "participants") rs) ≡ true
  pub submissions : table_has submission_columns (named (codes "submissions") rs) ≡ true
  pub outbox : table_has outbox_columns (named (codes "submission_outbox") rs) ≡ true

-- What any script leaves.
record KeptFacts (rs : List Relation) (y : Bool × List Relation) : Type 0 where
  kept : (name : Bytes) (r : Relation) → named name rs ≡ some r → named name y.1 ≡ some r
  there : y.0 ≡ true → All (λ d. is_some (named (name_of d) y.1) ≡ true) init_script
  again :
      y.0 ≡ true
      → (run_migrations true served y.1 ≡ (true, y.1))
        × ((readable : Bool) (o : Outcome) → (run_migrations readable o y.1).1 ≡ y.1)

unchanged : (rs : List Relation) → KeptFacts rs (false, rs)
unchanged rs = record { kept = λ name r h. h; there = λ e. cc e; again = λ e. cc e }

module _ (rs us : List Relation) (facts : ScriptFacts init_script rs us) where
  kept_all : (name : Bytes) (r : Relation) → named name rs ≡ some r → named name us ≡ some r
  kept_all name r h =
      ap (named name) facts.kept ∙ found_still (λ q. str_eq q.name name) rs facts.added r h

  same_script : execute_all init_script us ≡ some us
  same_script =
      ap (execute_all init_script) (sym (append-nil us)) ∙ facts.again [] ∙ ap some (append-nil us)

  same_relations : (readable : Bool) (o : Outcome) → (run_migrations readable o us).1 ≡ us
  unfolding run_migrations
  same_relations false o = refl
  same_relations true served = rw same_script refl
  same_relations true refused = refl
  same_relations true lost = rw same_script refl

  migrated : KeptFacts rs (true, us)
  unfolding run_migrations
  migrated = record {
    kept = kept_all;
    there = λ _. facts.there;
    again = λ _. (rw same_script refl, same_relations);
  }

executed-KeptFacts :
    (o : Outcome) (rs : List Relation) (x : Option (List Relation))
    → execute_all init_script rs ≡ x
    → KeptFacts rs (executed o x rs)
executed-KeptFacts served rs none h = unchanged rs
executed-KeptFacts refused rs none h = unchanged rs
executed-KeptFacts lost rs none h = unchanged rs
executed-KeptFacts refused rs (some us) h = unchanged rs
executed-KeptFacts served rs (some us) h =
    migrated rs us (execute_all-ScriptFacts init_script rs us h)
executed-KeptFacts lost rs (some us) h = record {
  kept = kept_all rs us (execute_all-ScriptFacts init_script rs us h);
  there = λ e. cc e;
  again = λ e. cc e;
}

run_migrations-KeptFacts :
    (readable : Bool) (o : Outcome) (rs : List Relation)
    → KeptFacts rs (run_migrations readable o rs)
unfolding run_migrations
run_migrations-KeptFacts false o rs = unchanged rs
run_migrations-KeptFacts true o rs = executed-KeptFacts o rs _ refl

new_database :
    ((run_migrations true served []).0 ≡ true) × IsUsable (run_migrations true served []).1
unfolding run_migrations execute_all execute find_where str_eq
new_database = (refl, record { participants = refl; submissions = refl; outbox = refl })

-- What RunMigrations leaves.
pub record MigratedFacts (readable : Bool) (o : Outcome) (rs : List Relation)
    (y : Bool × List Relation) : Type 0 where
  pub kept : (name : Bytes) (r : Relation) → named name rs ≡ some r → named name y.1 ≡ some r
  pub there : y.0 ≡ true → All (λ n. is_some (named n y.1) ≡ true) relation_names
  pub again :
      y.0 ≡ true
      → (run_migrations true served y.1 ≡ (true, y.1))
        × ((again : Bool) (later : Outcome) → (run_migrations again later y.1).1 ≡ y.1)
  pub new : rs ≡ [] → readable ≡ true → o ≡ served → (y.0 ≡ true) × IsUsable y.1

-- RunMigrations leaves every relation that was there as it was, whatever the server does. If it
-- answers without an error, the three tables and the five indexes of the service are there, and the
-- next run, of a second process or after a restart, answers without an error where the server
-- serves it, and changes nothing in any case. On a database without relations, it answers without
-- an error where the file can be read and the server serves it, and then the three tables have
-- every column that the statements of the code name.
pub run_migrations-MigratedFacts :
    (readable : Bool) (o : Outcome) (rs : List Relation)
    → MigratedFacts readable o rs (run_migrations readable o rs)
run_migrations-MigratedFacts readable o rs =
    let facts = run_migrations-KeptFacts readable o rs in
    record {
      kept = facts.kept;
      there = facts.there;
      again = facts.again;
      new = λ empty read answered. rw (empty, read, answered) new_database;
    }
