-- ===== src/Semaphores.antt =====
-- Kernel/utils/semaphores/semaphores.c: the table of semaphores, over an interface of the scheduler.
-- A semaphore's queue holds the pids of the waiting processes; each stands in a cell of its own, so
-- that `removeNode` takes just the cell that it is given. none stands for the queue NULL. An `int`
-- is its pattern of 32 bits, so a negative id is not below NUM_SEMS. System calls run one after the
-- other, so the spinlock is always free when it is taken.
pub mod Queue
pub mod Invariant
pub mod Balance
pub mod Scheduling
mod Tests
use tp2_so_2c.Prelude.{
  ℕ, zero, suc, ◌+◌, ◌-◌, ◌%◌, ◌^◌, Bool, true, false, not, Option, none, some, List, [], ◌∷◌, ◌++◌,
  ltb, if◌then◌else◌, get_elem?, set, replicate,
}

-- What semaphores.c asks of the scheduler: getPid, whether findProcess answers NULL or a terminated
-- process, blockProcess and setReadyProcess.
pub record Processes (S : Type 0) : Type 0 where
  pub current : S → ℕ
  pub gone : S → ℕ → Bool
  pub block : ℕ → S → S
  pub wake : ℕ → S → S

-- `semaphore_t`, without the spinlock.
pub record Semaphore : Type 0 where
  pub counter : ℕ
  pub active : Bool
  pub wait_queue : Option (List ℕ)

abbrev pub num_sems : ℕ
num_sems = 128

abbrev pub Table : Type 0
Table = List Semaphore

abbrev pub success : Bool
success = true

abbrev pub failure : Bool
failure = false

abbrev pub idle : Semaphore
idle = record { counter = 0; active = false; wait_queue = none }

-- `initSemaphoreManager`, where `granted` is whether `mm_alloc` serves it.
pub init_semaphore_manager : Bool → Option Table
init_semaphore_manager granted = if granted then some (replicate num_sems idle) else none

-- `isValidSemId`, and the semaphore of a valid id.
unfoldable pub sem_at : Table → ℕ → Option Semaphore
sem_at t id = if ltb id num_sems then get_elem? t id else none

-- `sem_create` on the semaphore of the id, where `queue` is what createDoubleLinkedListADT answers.
pub create_in : Option Semaphore → ℕ → ℕ → Bool → Table → Bool × Table
create_in none id value queue t = (failure, t)
create_in (some m) id value queue t = if m.active then (failure, t) else (
  queue,
  set t id
      (record { counter = value; active = true; wait_queue = if queue then some [] else none }),
)

-- `sem_create`
unfoldable pub sem_create : ℕ → ℕ → Bool → Table → Bool × Table
unfolding create_in sem_at
sem_create id value queue t = create_in (sem_at t id) id value queue t

-- `sem_open`
pub sem_open : ℕ → Table → Bool
unfolding sem_at
sem_open id t = elim (sem_at t id) [ none ↦ failure | some m ↦ m.active ]

-- `sem_destroy` on the semaphore of the id.
pub destroy_in : Option Semaphore → ℕ → Table → Bool × Table
destroy_in none id t = (failure, t)
destroy_in (some m) id t = if m.active then (success, set t id idle) else (failure, t)

-- `sem_destroy`
unfoldable pub sem_destroy : ℕ → Table → Bool × Table
unfolding destroy_in sem_at
sem_destroy id t = destroy_in (sem_at t id) id t

-- addNode(sem->waitQueue, pid), where `node` is whether a list node is granted.
abbrev pub enqueue : Bool → ℕ → Option (List ℕ) → Option (List ℕ)
enqueue node pid none = none
enqueue true pid (some q) = some (q ++ (pid ∷ []))
enqueue false pid (some q) = some q

-- The loop of `sem_post` that takes the processes that have ended off the queue.
pub purge : (ℕ → Bool) → List ℕ → List ℕ
purge gone [] = []
purge gone (p ∷ ps) = let rest = purge gone ps in if gone p then rest else p ∷ rest

-- counter++
abbrev pub count_up : ℕ → ℕ
count_up n = (n + 1) % 2 ^ 32

module _ {S : Type 0} (processes : Processes S) where
  open processes use {current, gone, block, wake}

  -- `sem_wait` on the semaphore of the id, where `cell` and `node` are whether `mm_alloc` grants the
  -- cell of the pid and the list node. The caller goes on when its process is dispatched again.
  pub wait_on : Option Semaphore → ℕ → Bool → Bool → Table → S → Bool × Table × S
  wait_on none id cell node t s = (failure, t, s)
  wait_on (some m) id cell node t s =
      if ltb 0 m.counter
      then (success, set t id (record m { counter = m.counter - 1 }), s)
      else if not cell
      then (failure, t, s)
      else (
        success,
        set t id (record m { wait_queue = enqueue node (current s) m.wait_queue }),
        block (current s) s,
      )

  -- `sem_wait`
  unfoldable pub sem_wait : ℕ → Bool → Bool → Table → S → Bool × Table × S
  unfolding wait_on sem_at
  sem_wait id cell node t s = wait_on (sem_at t id) id cell node t s

  -- `sem_post` behind its loop: the first process of the queue is woken, or the counter goes up.
  pub post_queue : Option (List ℕ) → Semaphore → ℕ → Table → S → Bool × Table × S
  post_queue none m id t s = (success, set t id (record m { counter = count_up m.counter }), s)
  post_queue (some []) m id t s =
      (success, set t id (record m { counter = count_up m.counter; wait_queue = some [] }), s)
  post_queue (some (p ∷ ps)) m id t s =
      (success, set t id (record m { wait_queue = some ps }), wake p s)

  -- The queue after the loop of `sem_post`.
  pub purged : Option (List ℕ) → S → Option (List ℕ)
  unfolding purge
  purged none s = none
  purged (some q) s = some (purge (gone s) q)

  -- `sem_post` on the semaphore of the id.
  pub post_on : Option Semaphore → ℕ → Table → S → Bool × Table × S
  unfolding post_queue purged
  post_on none id t s = (failure, t, s)
  post_on (some m) id t s = post_queue (purged m.wait_queue s) m id t s

  -- `sem_post`
  unfoldable pub sem_post : ℕ → Table → S → Bool × Table × S
  unfolding post_on sem_at
  sem_post id t s = post_on (sem_at t id) id t s
