-- ===== src/Pipeline/NoLoss.antt =====
-- Whether a queued submission can be lost: each step of the service against Sound.
use model_lib.Pipeline.Holding.{
  bound-holds, StartFacts, on_start-StartFacts, finish_holds, finish_other,
}
use model_lib.Base.{
  ◌≢◌, ℕ, ◌≡◌, ◌<◌, refl, inl, inr, ap, arith, Bool, true, false, some, List, [], ◌∷◌, Bytes,
  str_eq, str_eq_iff,
}
use model_lib.Database.{Tables, Session, Result, StartResult}
use model_lib.Database.Change.{Limits, Change, unchanged}
use model_lib.Database.Calls.{perform, upsert_participant-Changes}
use model_lib.Database.Outbox.Steps
use model_lib.Database.Outbox.Steps.{Dispatch, process_next_outbox-Dispatch}
use model_lib.Database.Refines.{
  create_submission_queued-Changes, recover_stale_submission-Changes, try_start_submission-Changes,
  finish_submission_conditional-Changes, set_internal_error-Changes,
}
use model_lib.Queue.{StreamServer, Fields, Client, JobItem, Reply, string_field, submission_key}
use model_lib.Worker
use model_lib.Worker.{
  Pc, idle, starting, working, failing, finishing, acking, Timer, work_done, deadline_passed,
  advance, deliver, on_start,
}
use model_lib.Pipeline.{queued_count}
use model_lib.Pipeline.Starts.{Settled, try_start_submission-Settled}
use model_lib.Pipeline.System
use model_lib.Pipeline.System.{
  System, Sound, Moment, Action, submit, visit, recover, dispatch, take_job, go_on, crash, holds,
  bound, set_pc, step, run_all,
}
use model_lib.Pipeline.Transport.{Handed, deliver-Handed, JobFacts, next_job-JobFacts}
use model_lib.Pipeline.Moving.{Moved, ack-Moved}
use model_lib.Pipeline.Coverage.{Change-Sound, Moved-Sound, Pc-Sound, Handed-Sound}

module _ (R : StreamServer) (lim : Limits) (x : System R) where
  open R use {Server, live, issued}

  dispatched :
      (max_backoff : ℕ) (locked : ℕ → Bool) (message : Bytes) (now : ℕ) (c d : Client R)
      (u : Tables)
      → x.server ≡ c.server
      → Dispatch (deliver R message) max_backoff locked now x.tables u c d
      → Sound R lim x
      → Sound R lim (record x { tables = u; server = d.server })
  dispatched max_backoff locked message now c d u here (Steps.idle same still) s =
      rw (same, still, ← here) s
  dispatched max_backoff locked message now c d u here (Steps.handed e found still result) s =
      elim result [
        | inl same ↦ rw (same, still) handed_over
        | inr settled ↦
            rw (settled, still)
              (Handed-Sound R lim (record x { server = (deliver R message e c).1.server })
                max_backoff now locked e c.server (deliver R message e c).0 _ found
                (deliver-Handed R message e c) refl (λ w k h. rw (← here) (s.known w k h))
                handed_over)
      ]
    where
      handed_over : Sound R lim (record x { server = (deliver R message e c).1.server })
      handed_over =
          Moved-Sound R lim x (λ k. false) _ (rw here (Handed.moved (deliver-Handed R message e c)))
            (λ k f g. cc) s

  -- A worker that was idle takes what the stream gave it.
  taken :
      (w : ℕ) (y : Reply JobItem × Client R)
      → JobFacts R x.server y
      → Sound R lim x
      → Sound R lim (System.after_claim R w y x)
  taken w (Reply.err e, c) f s =
      Pc-Sound R lim (record x { server = c.server }) w idle (λ k h. cc) (λ j g h. cc)
        (λ k id g h. cc)
        (Moved-Sound R lim x f.gone c.server f.moved (λ k g h a. inl (f.malformed k g h a)) s)
  taken w (Reply.ok j, c) f s =
      let (fields, there, names) = f.job j refl in
      Pc-Sound R lim (record x { server = c.server }) w (starting j)
        (λ k h. cc (
          R.live_issued c.server j.stream_id fields there,
          ap (issued c.server) ((str_eq_iff j.stream_id k).0 h),
        ))
        (λ i g same here.
          let at : live c.server j.stream_id ≡ some g = cc (here, same) in
          cc (at, there, names, same))
        (λ k id g h. cc)
        (Moved-Sound R lim x f.gone c.server f.moved (λ k g h a. inl (f.malformed k g h a)) s)

  -- A worker that goes on with a delivery it is bound to.
  kept_on :
      (w : ℕ) (pc : Pc) (u : Tables)
      → Change lim x.tables u
      → ((k : Bytes) → holds pc k ≡ true → bound (x.pcs w) k ≡ true)
      → ((j : JobItem) → pc ≢ starting j)
      → Sound R lim x
      → Sound R lim (record x { tables = u; pcs = set_pc w pc x.pcs })
  kept_on w pc u c inside other s =
      Pc-Sound R lim (record x { tables = u }) w pc
        (λ k h. s.known w k (bound-holds (x.pcs w) k (inside k h)))
        (λ j f same. absurd (other j same)) (λ k id f h a b q. inside k (bound-holds pc k h))
        (Change-Sound R lim x u c s)

  -- The answer of TryStartSubmission arrives.
  answered :
      (w : ℕ) (j : JobItem) (y : Result StartResult × Session)
      → x.pcs w ≡ starting j
      → Change lim x.tables y.1.committed
      → Settled j.submission_id y
      → Sound R lim x
      → Sound R lim (record x { tables = y.1.committed; pcs = set_pc w (on_start j y.0) x.pcs })
  answered w j (r, a) at c settled s =
      Pc-Sound R lim (record x { tables = a.committed }) w (on_start j r)
        (λ k h. s.known w k (rw at (facts.inside k h))) (λ i f same. absurd (facts.other i same))
        (λ k id f h there names q. absurd (no_row k id f h there names q))
        (Change-Sound R lim x a.committed c s)
    where
      facts : StartFacts j r
      facts = on_start-StartFacts j r

      no_row :
          (k id : Bytes) (f : Fields)
          → bound (on_start j r) k ≡ true
          → live x.server k ≡ some f
          → string_field f submission_key ≡ some id
          → 0 < queued_count id a.committed
          → ⊥
      no_row k id f h there names q =
          let here : j.stream_id ≡ k =
            (str_eq_iff j.stream_id k).0 (facts.inside k (bound-holds _ k h)) in
          let same : some j.submission_id ≡ some id =
            cc (s.named w j f at (rw here there), names) in
          let none_left : queued_count j.submission_id a.committed ≡ 0 =
            settled.not_queued (facts.told k h) in
          let same_id : j.submission_id ≡ id = cc same in
          let gone : queued_count id a.committed ≡ 0 = rw (← same_id) none_left in omega arith

  acknowledged :
      (w : ℕ) (id : Bytes) (t : Server)
      → x.pcs w ≡ acking id
      → Moved R (str_eq id) x.server t
      → Sound R lim x
      → Sound R lim (record x { server = t; pcs = set_pc w idle x.pcs })
  acknowledged w id t at m s =
      Pc-Sound R lim (record x { server = t }) w idle (λ k h. cc) (λ j f same. cc) (λ k i f h. cc)
        (Moved-Sound R lim x (str_eq id) t m (λ k f g h. inr (w, rw at g)) s)

  moved_on :
      (w : ℕ) (timer : Timer) (e : Moment) (pc : Pc)
      → x.pcs w ≡ pc
      → Sound R lim x
      → Sound R lim (
          System.after_advance R w
            (advance R lim.max_running timer pc
              (System.session_for R x e)
              (System.client_for R x e))
            x)
  unfolding advance
  moved_on w timer e idle at s =
      kept_on w idle x.tables (unchanged refl) (λ k h. cc) (λ i same. cc) s
  moved_on w timer e (starting j) at s =
      answered w j _ at (try_start_submission-Changes lim j.submission_id _).change
        (try_start_submission-Settled j.submission_id lim.max_running _
          (s.within.keys j.submission_id))
        s
  moved_on w work_done e (working j) at s =
      kept_on w (finishing j) x.tables (unchanged refl) (λ k h. rw at h) (λ i same. cc) s
  moved_on w deadline_passed e (working j) at s =
      kept_on w (failing j) x.tables (unchanged refl) (λ k h. rw at h) (λ i same. cc) s
  moved_on w timer e (failing j) at s =
      kept_on w (acking j.stream_id) _ (set_internal_error-Changes lim j.submission_id _).change
        (λ k h. rw at h) (λ i same. cc) s
  moved_on w timer e (finishing j) at s =
      kept_on w _ _
        (finish_submission_conditional-Changes lim j.submission_id Worker.mock_result _).change
        (λ k h. rw at (finish_holds j _ k h)) (finish_other j _) s
  moved_on w timer e (acking id) at s = acknowledged w id _ at (ack-Moved R id _) s

rests :
    (R : StreamServer) (lim : Limits) (x : System R) (w : ℕ)
    → Sound R lim x
    → Sound R lim (record x { pcs = set_pc w idle x.pcs })
rests R lim x w s = Pc-Sound R lim x w idle (λ k h. cc) (λ j f h. cc) (λ k id f h. cc) s

take_idle :
    (R : StreamServer) (lim : Limits) (pc : Pc) (x y : System R)
    → Sound R lim x
    → Sound R lim y
    → Sound R lim (System.if_idle R pc x y)
take_idle R lim idle x y a b = a
take_idle R lim (starting j) x y a b = b
take_idle R lim (working j) x y a b = b
take_idle R lim (failing j) x y a b = b
take_idle R lim (finishing j) x y a b = b
take_idle R lim (acking id) x y a b = b

step-Sound :
    (R : StreamServer) (lim : Limits) (a : Action) (m : Moment) (x : System R)
    → Sound R lim x
    → Sound R lim (step R lim a m x)
unfolding step perform
step-Sound R lim (submit id participant filename key size sha) m x s =
    Change-Sound R lim x _
      (create_submission_queued-Changes lim id participant filename key size sha _).change s
step-Sound R lim (visit participant) m x s =
    Change-Sound R lim x _ (upsert_participant-Changes lim participant _).change s
step-Sound R lim (recover id before) m x s =
    Change-Sound R lim x _ (recover_stale_submission-Changes lim id before _).change s
step-Sound R lim (dispatch max_backoff locked message) m x s =
    dispatched R lim x max_backoff locked message m.now (System.client_for R x m) _ _ refl
      (process_next_outbox-Dispatch (deliver R message) max_backoff locked
        (System.session_for R x m) _)
      s
step-Sound R lim (take_job w stale_after) m x s =
    take_idle R lim (x.pcs w) _ x
      (taken R lim x w _ (next_job-JobFacts R stale_after (System.client_for R x m)) s) s
step-Sound R lim (go_on w timer) m x s = moved_on R lim x w timer m (x.pcs w) refl s
step-Sound R lim (crash w) m x s = rests R lim x w s

-- From a sound state, every step of the API, the dispatcher, the recovery loop and the workers, in
-- any order, with crashes of workers and with any answers of the two servers, leads to a sound
-- state: above all, every queued submission has an undelivered event, or a complete stream entry
-- that the group still hands out and that no worker is about to acknowledge.
pub run_all-Sound :
    (R : StreamServer) (lim : Limits) (steps : List (Action × Moment)) (x : System R)
    → Sound R lim x
    → Sound R lim (run_all R lim steps x)
unfolding run_all
run_all-Sound R lim [] x s = s
run_all-Sound R lim ((a, m) ∷ rest) x s =
    run_all-Sound R lim rest (step R lim a m x) (step-Sound R lim a m x s)
