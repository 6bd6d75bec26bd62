-- ===== src/Semaphores/Scheduling.antt =====
-- semaphores.c over the scheduler of scheduler.c.
use tp2_so_2c.Prelude.{
  ℕ, ◌≡◌, sym, ◌∙◌, inl, inr, Bool, true, false, ◌||◌, Option, none, some, List, [], ◌∷◌, ◌==◌, set,
  arith, Bool-cases,
}
use tp2_so_2c.Scheduler.{find_process, block_process, set_ready_process}
use tp2_so_2c.Scheduler.State.{Ptr, null, Process, terminated, Kernel, status_eq, load}
use tp2_so_2c.Scheduler.Wellformed.{IsWellformed, find_process-Answer}
use tp2_so_2c.Scheduler.Blocking.{Missing, Changed, readied, set_ready_process-IsWellformed}
use tp2_so_2c.Semaphores.{Processes, Semaphore, Table, sem_at, purge, sem_post, success}
use tp2_so_2c.Semaphores.Queue.{sem_post-wakes}

-- The state that a command of the scheduler leaves; a fault leaves the old one.
abbrev pub left_by : {A : Type 0} → Kernel → Option (A × Kernel) → Kernel
left_by s none = s
left_by s (some (a, s')) = s'

abbrev pub has_ended : Ptr → Option (Process × Kernel) → Bool
has_ended p none = p == null
has_ended p (some (c, s)) = (p == null) || status_eq c.status terminated

abbrev pub gone_by : Kernel → Option (Ptr × Kernel) → Bool
gone_by s none = true
gone_by s (some (p, s')) = has_ended p (load p s')

-- The scheduler's functions that semaphores.c calls; `rsp` is the stack pointer at which a process
-- that blocks is interrupted.
unfoldable pub kernel_processes : ℕ → Processes Kernel
kernel_processes rsp = record {
  current = λ s. s.current_pid;
  gone = λ s pid. gone_by s (find_process pid s);
  block = λ pid s. left_by s (block_process rsp pid s);
  wake = λ pid s. left_by s (set_ready_process pid s);
}

has_ended-null :
    (p : Ptr) (o : Option (Process × Kernel)) → (p == null) ≡ true → has_ended p o ≡ true
has_ended-null p none e = e
has_ended-null p (some (c, s)) e = rw e

module _ (rsp : ℕ) (s : Kernel) (pid : ℕ) where
  present-found : IsWellformed s → (kernel_processes rsp).gone s pid ≡ false → ¬ Missing s pid
  unfolding kernel_processes
  present-found w here missing =
      let (p, run, a) = find_process-Answer s pid w in
      elim (Bool-cases (p == null)) [
        | inl e ↦
            let ended : gone_by s (find_process pid s) ≡ true =
              rw run (has_ended-null p (load p s) e) in
            let same : false ≡ true = sym here ∙ ended in cc
        | inr e ↦
            let (m, rest) = a.found (ground arith) in
            let (c, l, named) = rest in missing p c m l named
      ]

  wake-run :
      (ok : Bool) (s' : Kernel)
      → set_ready_process pid s ≡ some (ok, s')
      → (kernel_processes rsp).wake pid s ≡ s'
  unfolding kernel_processes
  wake-run ok s' run = rw run

  -- A post at a semaphore readies the process that has waited longest, where it is still listed, the
  -- scheduler's state is well-formed and `mm_alloc` grants each list node that it asks for:
  -- the process becomes ready if it is blocked, the scheduler's lists stay well-formed, and the
  -- process leaves the queue.
  pub sem_post-readies :
      (id : ℕ) (t : Table) (m : Semaphore) (rest : List ℕ)
      → IsWellformed s
      → s.room ≡ []
      → sem_at t id ≡ some m
      → m.wait_queue ≡ some (pid ∷ rest)
      → (kernel_processes rsp).gone s pid ≡ false
      → (s' : Kernel) × (sem_post (kernel_processes rsp) id t s ≡ (
        success,
        set t id (record m { wait_queue = some (purge ((kernel_processes rsp).gone s) rest) }),
        s',
      ))
        × IsWellformed s'
        × Changed s pid readied s'
  sem_post-readies id t m rest w free at queue here =
      let (ok, s', run, w', outcome) = set_ready_process-IsWellformed s pid w free in
      let woken : (kernel_processes rsp).wake pid s ≡ s' = wake-run ok s' run in
      elim outcome [
        | inl (_, _, missing) ↦ absurd (present-found w here missing)
        | inr (_, changed) ↦ (
          s',
          sem_post-wakes (kernel_processes rsp) id t s m [] pid rest at queue tt here ∙ (rw woken),
          w',
          changed,
        )
      ]
