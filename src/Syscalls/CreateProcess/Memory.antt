-- ===== src/Syscalls/CreateProcess/Memory.antt =====
-- The memory that CREATE_PROCESS takes from its partition, and the process that it leaves behind.
use text.Mathlib.TextPositions.{eq_refl}
use jrinx.Base.{
  ℕ, suc, ◌+◌, ◌%◌, ◌^◌, ◌<◌, ◌≤◌, ◌≡◌, ◌≢◌, ◌⊎◌, refl, false, none, some, [], ◌∷◌, ◌++◌, ltb, ◌==◌,
  arith, update_at-some, lookup-insert_self, insert,
}
use jrinx.Types.{no_error, normal, dormant}
use jrinx.Kernel.{Proc, Part, Kernel, on_part}
use jrinx.Comm.Alloc.{put_name}
use jrinx.Syscalls.Process.{do_get_process_id}
use jrinx.Syscalls.Start.{proc_reset}
use jrinx.Syscalls.CreateProcess.{
  pgsize, kstksize, ustksizemax, align_up, ProcessAttribute, proc_ustack_setup, proc_xstack_setup,
  part_add_proc_name, new_proc, proc_alloc, is_off_period, is_too_short, do_create_process,
}

-- A size that is not within a page of 2^64 is rounded up to the next multiple of a page.
pub align_up_lem :
    (x : ℕ)
    → x + pgsize ≤ 2 ^ 64
    → (x ≤ align_up x pgsize) × (align_up x pgsize < x + pgsize) × (align_up x pgsize % pgsize ≡ 0)
unfolding align_up
align_up_lem x h = (omega arith, omega arith, omega arith)

-- The memory that is left after both stacks: the check before looks at the user stack alone, so
-- that the kernel stack can take more than there is, and the number goes up.
pub stacks_mem :
    (part : Part) (stack : ℕ)
    → part.pa_mem_rem < 2 ^ 64
    → stack ≤ part.pa_mem_rem
    → stack + kstksize < 2 ^ 64
    → let left = (proc_xstack_setup (proc_ustack_setup stack part)).pa_mem_rem in
      ((stack + kstksize ≤ part.pa_mem_rem) × (left + stack + kstksize ≡ part.pa_mem_rem))
      ⊎ ((part.pa_mem_rem < stack + kstksize)
          × (left + stack + kstksize ≡ part.pa_mem_rem + 2 ^ 64)
          × (part.pa_mem_rem < left))
unfolding proc_ustack_setup proc_xstack_setup
stacks_mem part stack word_rem enough small = omega arith

-- The new process is dormant and belongs to the partition, is found by its name, stands at the end of
-- the partition's list, and has its stack where the partition's stacks had got to; the memory for both
-- stacks is taken, and the other processes are as before.
pub record NewProcess (attr : ProcessAttribute) (part : Part) (k : Kernel) (id : ℕ) (k' : Kernel)
    : Type 0 where
  pub proc : Proc
  pub there : k'.procs id ≡ some proc
  pub sleeps : proc.pr_state ≡ dormant
  pub owner : proc.pr_part_id ≡ part.pa_id
  pub top : proc.pr_ustacktop ≡ part.pa_ustasktop
  pub size : proc.pr_ustacksize ≡ align_up attr.stack_size pgsize
  pub found : do_get_process_id attr.name k' ≡ some (no_error, some id)
  pub part' : Part
  pub its_part : k'.parts k.cur_part ≡ some part'
  pub listed : part'.pa_proc_list ≡ part.pa_proc_list ++ id ∷ []
  pub left : part'.pa_mem_rem + align_up attr.stack_size pgsize + kstksize ≡ part.pa_mem_rem
  pub others : (i : ℕ) → i ≢ id → k'.procs i ≡ k.procs i

module _ (attr : ProcessAttribute) (k : Kernel) (part : Part) (its : k.parts k.cur_part ≡ some part)
    (word_rem : part.pa_mem_rem < 2 ^ 64) (allowed : attr.stack_size ≤ ustksizemax)
    (enough : align_up attr.stack_size pgsize + kstksize ≤ part.pa_mem_rem) where
  abbrev part_after : Part
  part_after =
      let named =
        part_add_proc_name attr.name k.next_proc_id
          (proc_xstack_setup (proc_ustack_setup (align_up attr.stack_size pgsize) part)) in
      record named { pa_proc_list = named.pa_proc_list ++ k.next_proc_id ∷ [] }

  abbrev created_proc : Proc
  created_proc = proc_reset (new_proc part k.next_proc_id attr (align_up attr.stack_size pgsize))

  abbrev with_proc : Kernel
  with_proc =
      on_part k.cur_part (λ _. part_after)
        (record k {
          next_proc_id = suc k.next_proc_id;
          procs = insert k.next_proc_id created_proc k.procs;
        })

  allocates : proc_alloc k.cur_part part attr k ≡ (some k.next_proc_id, with_proc)
  unfolding proc_alloc
  allocates =
      let some_room : ltb part.pa_mem_rem (align_up attr.stack_size pgsize) ≡ false =
        ground arith in
      rw some_room refl

  part_there : with_proc.parts k.cur_part ≡ some part_after
  part_there = update_at-some k.cur_part (λ _. part_after) k.parts its

  finds : do_get_process_id attr.name with_proc ≡ some (no_error, some k.next_proc_id)
  unfolding do_get_process_id part_add_proc_name put_name
  finds = rw (part_there, do_get_process_id) (rw (eq_refl attr.name))

  takes : part_after.pa_mem_rem + align_up attr.stack_size pgsize + kstksize ≡ part.pa_mem_rem
  unfolding part_add_proc_name
  takes =
      let both =
        stacks_mem part (align_up attr.stack_size pgsize) word_rem (omega arith) (omega arith) in
      ground (arith, both)

  -- CREATE_PROCESS of a name that the running partition has not used, before normal mode, with a
  -- stack of a legal size and a period that suits the partition and the time capacity, where the
  -- partition has the memory for the user stack and the kernel stack: it returns NO_ERROR and the
  -- identifier of a new process, which is dormant, is found by the name, stands last in the
  -- partition's list and has its stack at the place of the next one; the memory of both stacks is
  -- taken from the partition, and the other processes stay as they are.
  pub do_create_process_lem :
      part.pa_proc_name_map attr.name ≡ none
      → is_off_period attr.period part.pa_period ≡ false
      → is_too_short attr.period attr.time_capacity ≡ false
      → part.pa_op_mode ≢ normal
      → (k' : Kernel) × (do_create_process attr k ≡ some (no_error, some k.next_proc_id, k'))
        × NewProcess attr part k k.next_proc_id k'
  unfolding do_create_process proc_reset new_proc insert part_add_proc_name proc_ustack_setup
      proc_xstack_setup
  do_create_process_lem unknown on_period long_enough before =
      let size_ok : ltb ustksizemax attr.stack_size ≡ false = ground arith in
      let starting : (part.pa_op_mode == normal) ≡ false = ground arith in
      (
        with_proc,
        rw (its, do_create_process)
            (rw unknown
              (rw size_ok (rw on_period (rw long_enough (rw (starting, allocates) refl))))),
        record {
          proc = created_proc;
          there = lookup-insert_self k.next_proc_id created_proc k.procs;
          sleeps = refl;
          owner = refl;
          top = refl;
          size = refl;
          found = finds;
          part' = part_after;
          its_part = part_there;
          listed = refl;
          left = takes;
          others = λ i ne. ground arith;
        },
      )
