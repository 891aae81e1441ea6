-- ===== src/Api/Rules.antt =====
-- cmd/api/main.go and cmd/mock-worker/main.go: one proof rule for each step that can end a process.
use model_lib.Base.{map, ◌≡◌, refl, Bool, true, false, List, [], ◌∷◌, ◌++◌, Bytes, codes}
use model_lib.Database.Connection.{open_pool, ping_pool, close_pool, connect, Relation}
use model_lib.Api.{
  said, called, Machine, Ending, exited, Answers, Process, ◌>>◌, or_exit, deeds_of, pool_of,
  connect_database,
}

-- An answer that is needed: the process goes on, or says so and ends.
pub or_exit_rule :
    {B : Type 0} (Q : Ending B × Machine → Type 0) (b : Bool) (message : Bytes) (m : Machine)
    (k : Process B)
    → (b ≡ true → Q (k m))
    → (b ≡ false → Q (exited 1, record m { deeds = m.deeds ++ said message ∷ [] }))
    → Q ((or_exit b message >> k) m)
or_exit_rule Q true message m k on off = on refl
or_exit_rule Q false message m k on off = off refl

-- Connect in a new process: it answers, or the process ends.
pub connect_rule :
    {B : Type 0} (Q : Ending B × Machine → Type 0) (url : Bytes) (a : Answers) (rs : List Relation)
    (k : Process B)
    → (a.reached ≡ true
        → Q (k (record { deeds = called (open_pool url) ∷ called ping_pool ∷ []; relations = rs })))
    → Q (
      exited 1,
      record {
        deeds = called (open_pool url) ∷ said (codes "database connect") ∷ [];
        relations = rs;
      },
    )
    → Q (
      exited 1,
      record {
        deeds =
            called (open_pool url)
            ∷ called ping_pool
            ∷ called close_pool
            ∷ said (codes "database connect")
            ∷ [];
        relations = rs;
      },
    )
    → Q ((connect_database url a >> k) (record { deeds = []; relations = rs }))
unfolding connect
connect_rule Q url a rs k connected unopened silent = by a.opened a.reached connected
  where
    by :
        (opened reached : Bool)
        → (reached ≡ true
            → Q (
                k (record {
                  deeds = called (open_pool url) ∷ called ping_pool ∷ [];
                  relations = rs;
                })))
        → Q (
            (deeds_of (map called (connect url opened reached).1)
                >> (pool_of (connect url opened reached).0 >> k))
              (record { deeds = []; relations = rs }))
    by false reached go = unopened
    by true false go = silent
    by true true go = go refl
