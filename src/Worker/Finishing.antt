-- ===== src/Worker/Finishing.antt =====
-- cmd/mock-worker/main.go, processOne: how many transitions it takes.
use model_lib.Base.{ℕ, zero, suc, ◌≤◌, ◌≡◌, refl, arith, Bool, true, false}
use model_lib.Base.Int.{ℤ}
use model_lib.Database.{
  Session, Result, StartResult, started, quota_busy, duplicate_or_terminal, not_found,
}
use model_lib.Queue.{StreamServer, JobItem, Client}
use model_lib.Worker
use model_lib.Worker.{
  Pc, idle, starting, working, failing, finishing, acking, Timer, work_done, deadline_passed,
  on_start, on_timer, on_finish, advance, advance_times, process_one,
}

-- The transitions that are left.
abbrev left : Pc → ℕ
left idle = 0
left (starting j) = 4
left (working j) = 3
left (failing j) = 2
left (finishing j) = 2
left (acking id) = 1

left-on_start : (j : JobItem) (r : Result StartResult) → left (on_start j r) ≤ 3
left-on_start j (Result.ok started) = omega arith
left-on_start j (Result.ok quota_busy) = omega arith
left-on_start j (Result.ok duplicate_or_terminal) = omega arith
left-on_start j (Result.ok not_found) = omega arith
left-on_start j (Result.err e) = omega arith

left-on_timer : (j : JobItem) (timer : Timer) → left (on_timer j timer) ≤ 2
left-on_timer j work_done = omega arith
left-on_timer j deadline_passed = omega arith

left-on_finish : (j : JobItem) (r : Result Bool) → left (on_finish j r) ≤ 1
left-on_finish j (Result.ok true) = omega arith
left-on_finish j (Result.ok false) = omega arith
left-on_finish j (Result.err e) = omega arith

idle_of : (pc : Pc) → left pc ≤ 0 → pc ≡ idle
idle_of idle h = refl
idle_of (starting j) h = absurd (omega arith)
idle_of (working j) h = absurd (omega arith)
idle_of (failing j) h = absurd (omega arith)
idle_of (finishing j) h = absurd (omega arith)
idle_of (acking id) h = absurd (omega arith)

module _ (R : StreamServer) (max_running : ℤ) (timer : Timer) where
  left-advance :
      (n : ℕ) (pc : Pc) (s : Session) (c : Client R)
      → left pc ≤ suc n
      → left (advance R max_running timer pc s c).pc ≤ n
  unfolding advance
  left-advance n idle s c h = omega arith
  left-advance n (starting j) s c h = omega (arith, left-on_start j)
  left-advance n (working j) s c h = omega (arith, left-on_timer j timer)
  left-advance n (failing j) s c h = omega arith
  left-advance n (finishing j) s c h = omega (arith, left-on_finish j)
  left-advance n (acking id) s c h = omega arith

  advance_times-idle :
      (n : ℕ) (w : Worker.Worker R)
      → left w.pc ≤ n
      → (advance_times R n max_running timer w).pc ≡ idle
  unfolding advance_times
  advance_times-idle zero w h = idle_of w.pc h
  advance_times-idle (suc n) w h =
      advance_times-idle n (advance R max_running timer w.pc w.session w.client)
        (left-advance n w.pc w.session w.client h)

  -- Whatever the two servers answer, and whether or not the work beats the deadline, processOne
  -- leaves its worker ready for the next claim.
  pub process_one-idle :
      (job : JobItem) (s : Session) (c : Client R)
      → (process_one R max_running timer job s c).pc ≡ idle
  unfolding process_one
  process_one-idle job s c =
      advance_times-idle 4 (record { pc = starting job; session = s; client = c }) (omega arith)
