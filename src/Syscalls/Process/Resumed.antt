-- ===== src/Syscalls/Process/Resumed.antt =====
-- SUSPEND followed by RESUME (kern/traps/syscalls.c).
use jrinx.Base.{ℕ, ◌≡◌, ◌≢◌, refl, ◌∙◌, ap, true, false, some, arith, update_at-some, update_at_ne}
use jrinx.Lock.{unlocked, lk_acquire, lk_release}
use jrinx.Types.{ready, waiting, suspended, no_error}
use jrinx.Kernel.{
  Proc, Kernel, gives_up, returns, on_proc, acquire_state_lock, release_state_lock,
  proc_of_cur_part,
}
use jrinx.Sched.Switch.{state_of}
use jrinx.Syscalls.Common.{proc_is_period, is_timed}
use jrinx.Syscalls.Common.Wake.{Ensures}
use jrinx.Syscalls.Process.{do_suspend, do_resume}

of_cur_part :
    (k : Kernel) (pid : ℕ) (p : Proc)
    → k.procs pid ≡ some p
    → p.pr_part_id ≡ k.cur_part
    → proc_of_cur_part pid k ≡ some p
unfolding proc_of_cur_part
of_cur_part k pid p e own = ground (arith, e, own)

acquire_state_lock_lem :
    (k : Kernel) (pid : ℕ) (p : Proc)
    → k.procs pid ≡ some p
    → p.pr_state_lock.locked ≡ false
    → acquire_state_lock pid k
      ≡ some (
          on_proc pid
            (λ q. record q { pr_state_lock = record { locked = true; hartid = k.hart } })
            k)
unfolding acquire_state_lock lk_acquire
acquire_state_lock_lem k pid p e h = rw (e, acquire_state_lock) (rw h)

release_state_lock_lem :
    (k : Kernel) (pid : ℕ) (p : Proc)
    → k.procs pid ≡ some p
    → p.pr_state_lock ≡ record { locked = true; hartid = k.hart }
    → release_state_lock pid k ≡ some (on_proc pid (λ q. record q { pr_state_lock = unlocked }) k)
unfolding release_state_lock lk_release
release_state_lock_lem k pid p e h = rw (e, release_state_lock) (rw h (ground arith))

module _ (k : Kernel) (pid : ℕ) (p : Proc) (e : k.procs pid ≡ some p)
    (own : p.pr_part_id ≡ k.cur_part) where
  abbrev suspended_kernel : Kernel
  suspended_kernel =
      on_proc pid (λ q. record q { pr_state = waiting; pr_waiting_reason = suspended }) k

  suspended_there :
      suspended_kernel.procs pid
      ≡ some (record p { pr_state = waiting; pr_waiting_reason = suspended })
  suspended_there = update_at-some pid _ k.procs e

  abbrev held_kernel : Kernel
  held_kernel =
      on_proc pid (λ q. record q { pr_state_lock = record { locked = true; hartid = k.hart } })
        suspended_kernel

  abbrev ready_kernel : Kernel
  ready_kernel = on_proc pid (λ q. record q { pr_state = ready }) held_kernel

  ready_there :
      ready_kernel.procs pid
      ≡ some (record p {
        pr_state = ready;
        pr_waiting_reason = suspended;
        pr_state_lock = record { locked = true; hartid = k.hart };
      })
  ready_there =
      update_at-some pid _ held_kernel.procs
        (update_at-some pid _ suspended_kernel.procs suspended_there)

  others_stay :
      (i : ℕ)
      → i ≢ pid
      → (on_proc pid (λ q. record q { pr_state_lock = unlocked }) ready_kernel).procs i ≡ k.procs i
  others_stay i n =
      update_at_ne pid _ ready_kernel.procs i n
      ∙ update_at_ne pid _ held_kernel.procs i n
      ∙ update_at_ne pid _ suspended_kernel.procs i n
      ∙ update_at_ne pid _ k.procs i n

  resumes :
      is_timed p.pr_period ≡ false
      → p.pr_state_lock.locked ≡ false
      → Ensures
          (λ o k'.
            (o ≡ gives_up false (returns no_error))
            × (state_of (k'.procs pid) ≡ some ready)
            × ((i : ℕ) → i ≢ pid → k'.procs i ≡ k.procs i))
          (do_resume pid suspended_kernel)
  unfolding do_resume proc_is_period
  resumes aperiodic free =
      rw (of_cur_part suspended_kernel pid _ suspended_there own, do_resume, Ensures)
        (rw aperiodic (
          rw (acquire_state_lock_lem suspended_kernel pid _ suspended_there free, Ensures)
            (rw (release_state_lock_lem ready_kernel pid _ ready_there refl, Ensures)
              (
                refl,
                ap state_of (update_at-some pid _ ready_kernel.procs ready_there),
                others_stay,
              ))))

  -- SUSPEND of a READY aperiodic process of the running partition whose lock is open makes it
  -- WAITING and gives up the processor; RESUME from the state that SUSPEND leaves makes it READY
  -- again and gives up the processor. Together they leave all other processes as they were.
  pub do_resume-do_suspend :
      p.pr_state ≡ ready
      → is_timed p.pr_period ≡ false
      → p.pr_state_lock.locked ≡ false
      → Ensures
          (λ o k₁.
            (o ≡ gives_up false (returns no_error))
            × (state_of (k₁.procs pid) ≡ some waiting)
            × Ensures
                (λ o' k₂.
                  (o' ≡ gives_up false (returns no_error))
                  × (state_of (k₂.procs pid) ≡ some ready)
                  × ((i : ℕ) → i ≢ pid → k₂.procs i ≡ k.procs i))
                (do_resume pid k₁))
          (do_suspend pid k)
  unfolding do_suspend proc_is_period
  do_resume-do_suspend is_ready aperiodic free =
      rw (of_cur_part k pid p e own, do_suspend, Ensures)
        (rw is_ready (rw aperiodic (refl, ap state_of suspended_there, resumes aperiodic free)))
