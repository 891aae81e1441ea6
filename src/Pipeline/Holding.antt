-- ===== src/Pipeline/Holding.antt =====
-- cmd/mock-worker/main.go, processOne: what a worker may conclude from the answers of the database.
use model_lib.Base.{◌≢◌, ◌≡◌, refl, Bool, true, false, Bytes, str_eq}
use model_lib.Database.{Result, StartResult, started, quota_busy, duplicate_or_terminal, not_found}
use model_lib.Queue.{JobItem}
use model_lib.Worker.{Pc, idle, starting, working, failing, finishing, acking, on_start, on_finish}
use model_lib.Pipeline.Starts.{settles}
use model_lib.Pipeline.System.{holds, bound}

pub bound-holds : (pc : Pc) (k : Bytes) → bound pc k ≡ true → holds pc k ≡ true
bound-holds idle k h = h
bound-holds (starting j) k h = cc
bound-holds (working j) k h = h
bound-holds (failing j) k h = h
bound-holds (finishing j) k h = h
bound-holds (acking i) k h = h

-- A worker that runs a submission, or acknowledges its delivery, was told that it may.
pub record StartFacts (j : JobItem) (r : Result StartResult) : Type 0 where
  pub inside : (k : Bytes) → holds (on_start j r) k ≡ true → str_eq j.stream_id k ≡ true
  pub other : (i : JobItem) → on_start j r ≢ starting i
  pub told : (k : Bytes) → bound (on_start j r) k ≡ true → settles r ≡ true

pub on_start-StartFacts : (j : JobItem) (r : Result StartResult) → StartFacts j r
on_start-StartFacts j (Result.ok started) = record {
  inside = λ k h. h;
  other = λ i e. cc;
  told = λ k h. refl;
}
on_start-StartFacts j (Result.ok quota_busy) = record {
  inside = λ k h. cc;
  other = λ i e. cc;
  told = λ k h. cc;
}
on_start-StartFacts j (Result.ok duplicate_or_terminal) = record {
  inside = λ k h. h;
  other = λ i e. cc;
  told = λ k h. refl;
}
on_start-StartFacts j (Result.ok not_found) = record {
  inside = λ k h. h;
  other = λ i e. cc;
  told = λ k h. refl;
}
on_start-StartFacts j (Result.err e) = record {
  inside = λ k h. cc;
  other = λ i e. cc;
  told = λ k h. cc;
}

pub finish_holds :
    (j : JobItem) (r : Result Bool) (k : Bytes)
    → holds (on_finish j r) k ≡ true
    → str_eq j.stream_id k ≡ true
finish_holds j (Result.ok true) k h = h
finish_holds j (Result.ok false) k h = cc
finish_holds j (Result.err e) k h = cc

pub finish_other : (j : JobItem) (r : Result Bool) (i : JobItem) → on_finish j r ≢ starting i
finish_other j (Result.ok true) i same = cc
finish_other j (Result.ok false) i same = cc
finish_other j (Result.err e) i same = cc
