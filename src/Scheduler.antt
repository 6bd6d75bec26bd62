-- ===== src/Scheduler.antt =====
-- Kernel/utils/processes/scheduler.c, and process.c as far as it works on the scheduler's state.
pub mod State
pub mod Queues
pub mod Wellformed
pub mod Turns
pub mod Fairness
pub mod Blocking
pub mod Creation
pub mod Sample
mod Tests
use tp2_so_2c.Prelude.{
  ℕ, zero, suc, ◌+◌, ◌%◌, ◌-◌, Bool, true, false, ◌&&◌, ◌||◌, not, Option, none, some, List, [],
  ◌∷◌, ◌++◌, ltb, leb, ◌==◌, if◌then◌else◌,
}
use tp2_so_2c.Scheduler.State.{
  Ptr, null, Status, ready, running, blocked, terminated, Process, Kernel, M, pure, fault, ◌>>=◌,
  ◌>>◌, get, put, load, store, add_node, update, remove_node, take_first, status_eq, no_process,
  Quantums, left, expired, count_down, has_quantums, failure, success,
}

abbrev pub max_process : ℕ
max_process = 30

abbrev pub min_priority : ℕ
min_priority = 1

abbrev pub max_priority : ℕ
max_priority = 10

abbrev pub idle_pid : ℕ
idle_pid = 0

abbrev pub shell_pid : ℕ
shell_pid = 1

-- The loop of `findProcess`.
pub find_in : ℕ → List Ptr → M Ptr
unfolding load
find_in pid [] = pure null
find_in pid (p ∷ ps) = do c ← load p; if c.pid == pid then pure p else find_in pid ps

-- `findProcess`
unfoldable pub find_process : ℕ → M Ptr
unfolding find_in
find_process pid s = find_in pid s.process_list s

-- addNode(scheduler->readyProcess, p)
abbrev pub add_ready : Ptr → M Bool
add_ready = add_node (λ s. s.ready_process) (λ s l. record s { ready_process = l })

-- addNode(scheduler->blockedProcess, p)
abbrev pub add_blocked : Ptr → M Bool
add_blocked = add_node (λ s. s.blocked_process) (λ s l. record s { blocked_process = l })

-- removeNode(scheduler->readyProcess, p): whether it was there.
abbrev pub remove_ready : Ptr → M Bool
remove_ready p = do
  s ← get
  let (found, rest) = remove_node p s.ready_process
  put (record s { ready_process = rest })
  pure found

-- removeNode(scheduler->blockedProcess, p): whether it was there.
abbrev pub remove_blocked : Ptr → M Bool
remove_blocked p = do
  s ← get
  let (found, rest) = remove_node p s.blocked_process
  put (record s { blocked_process = rest })
  pure found

-- The branch of `setReadyProcess` for a blocked process.
pub unblock : Ptr → Process → M Bool
unfolding add_node remove_node store
unblock p c = do
  found ← remove_blocked p
  if not found then pure failure else do
    added ← add_ready p
    if not added then pure failure else do store p (record c { status = ready }); pure success

-- `setReadyProcess`
pub set_ready_process : ℕ → M Bool
unfolding find_process unblock load
set_ready_process pid = do
  p ← find_process pid
  if p == null
      then pure failure
      else do c ← load p; if status_eq c.status blocked then unblock p c else pure success

-- The process that `schedule` picks, put in charge.
pub dispatch : Ptr → M ℕ
unfolding load store
dispatch p = do
  c ← load p
  store p (record c { status = running })
  s ← get
  put (record s { current_process = p; current_pid = c.pid; quantums = left c.priority })
  pure c.stack_pos

-- The terminated process that was running is freed.
pub retire : Ptr → Process → M (Unit {0})
unfolding store
retire p c = do
  store p (record c { freed = true })
  s ← get
  put (record s { current_process = null; current_pid = no_process })

-- The process that was running goes to the end of the ready list.
pub requeue : ℕ → Ptr → Process → M (Unit {0})
unfolding store add_node
requeue prev_rsp p c = do
  store p (record c { stack_pos = prev_rsp; status = ready })
  _ ← add_ready p
  pure tt

-- The part of `schedule` that deals with the process that was running.
pub preempt : ℕ → M (Unit {0})
unfolding retire requeue load store
preempt prev_rsp = do
  s ← get
  if s.current_process == null then pure tt else do
    c ← load s.current_process
    if status_eq c.status terminated
        then retire s.current_process c
        else if status_eq c.status running
        then requeue prev_rsp s.current_process c
        else store s.current_process (record c { stack_pos = prev_rsp })

-- What `schedule` does where no process is in charge.
pub start_first : ℕ → M ℕ
unfolding dispatch take_first
start_first prev_rsp = do
  p ← take_first
  s ← get
  put (record s { current_process = p })
  if p == null then pure prev_rsp else dispatch p

-- What `schedule` does where a process is in charge.
pub switch : ℕ → M ℕ
unfolding preempt dispatch take_first find_process
switch prev_rsp = do
  preempt prev_rsp
  p ← take_first
  if not (p == null)
      then dispatch p
      else do i ← find_process idle_pid; if i == null then pure prev_rsp else dispatch i

-- `schedule`, behind its tests that the scheduler exists.
pub schedule : ℕ → M ℕ
unfolding start_first switch
schedule prev_rsp = do
  s ← get
  put (record s { quantums = count_down s.quantums })
  if (s.process_qty == 0) || has_quantums (count_down s.quantums)
      then pure prev_rsp
      else if s.current_pid == no_process
      then start_first prev_rsp
      else switch prev_rsp

-- `yield`: the timer interrupt that it raises runs `schedule` at the stack pointer `rsp`.
pub yield : ℕ → M ℕ
unfolding schedule
yield rsp = do s ← get; put (record s { quantums = expired }); schedule rsp

-- The branch of `blockProcess` for a ready or a running process.
pub set_blocked : Ptr → Process → M Bool
unfolding add_node remove_node store
set_blocked p c = do
  found ← if status_eq c.status ready then remove_ready p else pure true
  if not found then pure failure else do
    added ← add_blocked p
    if not added then pure failure else do store p (record c { status = blocked }); pure success

-- `blockProcess`. The caller goes on when its process is dispatched again.
pub block_process : ℕ → ℕ → M Bool
unfolding find_process yield set_blocked load
block_process rsp pid = do
  p ← find_process pid
  if p == null then pure failure else do
    c ← load p
    ok ←
        if status_eq c.status running || status_eq c.status ready
        then set_blocked p c
        else pure success
    s ← get
    if not ok
        then pure failure
        else if s.current_pid == pid
        then yield rsp >> pure success
        else pure success

-- while (hasNext(process->waitingList)) setReadyProcess(aux->pid)
pub wake : List Ptr → M (Unit {0})
unfolding set_ready_process load
wake [] = pure tt
wake (p ∷ ps) = if p == null then wake ps else do c ← load p; _ ← set_ready_process c.pid; wake ps

-- The process leaves the list of its status.
pub dequeue : Ptr → Process → M Bool
unfolding remove_node
dequeue p c =
    if status_eq c.status ready
    then remove_ready p
    else if status_eq c.status blocked
    then remove_blocked p
    else pure true

-- The end of `kill`: the process leaves the list of processes. It is freed unless it is running.
pub terminate : Ptr → M Bool
unfolding remove_node load store
terminate p = do
  s ← get
  let (found, rest) = remove_node p s.process_list
  put (record s { process_list = rest })
  if not found then pure failure else do
    c ← load p
    s ← get
    put (record s { process_qty = (s.process_qty + 65535) % 65536 })
    store p (record c { status = terminated; freed = not (s.current_process == p) })
    pure success

-- `kill`
pub kill : Ptr → M Bool
unfolding wake dequeue terminate load
kill p = do
  c ← load p
  found ← dequeue p c
  if not found then pure failure else do wake c.waiting_list; terminate p

-- `pipedFd`: the descriptors of STDIN and STDOUT are compared with 0 and 1, and -1 is the pattern
-- of no descriptor.
pub piped_fd : Process → ℕ
piped_fd c =
    if not (c.stdin == 0) then c.stdin else if not (c.stdout == 1) then c.stdout else no_process

-- `pipedTo`
pub piped_to : ℕ → List Ptr → M Ptr
unfolding load
piped_to fd [] = pure null
piped_to fd (p ∷ ps) = do
  c ← load p
  if (c.stdin == fd) || (c.stdout == fd) then pure p else piped_to fd ps

-- `killProcess`
pub kill_process : ℕ → M Bool
unfolding find_process kill piped_fd piped_to
kill_process pid = do
  p ← find_process pid
  if p == null then pure failure else do
    c ← load p
    killed ← kill p
    s ← get
    if not killed then pure failure else if piped_fd c == no_process then pure success else (do
      q ← piped_to (piped_fd c) s.process_list
      if q == null then pure success else kill q)

-- `killCurrentProcess`
pub kill_current_process : M Bool
unfolding kill_process load
kill_current_process = do s ← get; c ← load s.current_process; kill_process c.pid

-- The loop of `killForegroundProcess` over the processes.
pub kill_foreground_in : List Ptr → M Bool
unfolding kill load
kill_foreground_in [] = pure success
kill_foreground_in (p ∷ ps) = do
  c ← load p
  if (c.ground == 0) && not (c.pid == shell_pid) then kill p else kill_foreground_in ps

-- `killForegroundProcess`, without the "^C" that it prints.
pub kill_foreground_process : M Bool
unfolding kill_foreground_in kill_current_process load
kill_foreground_process = do
  s ← get
  if s.current_process == null then pure failure else do
    c ← load s.current_process
    if (c.ground == 0) && not (c.pid == shell_pid)
        then kill_process c.pid
        else kill_foreground_in s.process_list

-- `waitProcess` of process.c. Its call of `addNode` ignores a refusal.
pub wait_process : ℕ → ℕ → M Bool
unfolding find_process block_process load add_node update
wait_process rsp pid = do
  p ← find_process pid
  s ← get
  if (p == null) || (s.current_pid == pid) then pure failure else do
    me ← find_process s.current_pid
    c ← load p
    _ ←
        add_node (λ s. c.waiting_list)
          (λ s l. record s { store_of = update s.store_of p (record c { waiting_list = l }) }) me
    _ ← block_process rsp s.current_pid
    pure success

-- `changePriority` of process.c: the answer is the priority, none for -1.
pub change_priority : ℕ → ℕ → M (Option ℕ)
unfolding find_process load store
change_priority pid priority =
    if ltb max_priority priority || ltb priority min_priority then pure none else do
      p ← find_process pid
      if p == null
          then pure none
          else do c ← load p; store p (record c { priority = priority }); pure (some priority)

-- `changeFileDescriptors` of process.c, for STDIN, STDOUT and STDERR.
pub change_file_descriptors : ℕ → ℕ → ℕ → ℕ → M Bool
unfolding find_process load store
change_file_descriptors pid stdin stdout stderr = do
  p ← find_process pid
  if p == null then pure failure else do
    c ← load p
    store p (record c { stdin = stdin; stdout = stdout; stderr = stderr })
    pure success

-- The loop of `createProcess` for the lowest pid that no process has, over `n` pids from `pid` on;
-- none stands for the end of the loop.
pub free_pid : ℕ → ℕ → M (Option ℕ)
unfolding find_process
free_pid zero pid = pure none
free_pid (suc n) pid = do
  p ← find_process pid
  if p == null then pure (some pid) else free_pid n (pid + 1)

-- The end of `createProcess`, which ignores what its calls of `addNode` answer.
pub enlist : Ptr → Process → M (Option ℕ)
unfolding add_node store
enlist p c = do
  store p c
  _ ← add_node (λ s. s.process_list) (λ s l. record s { process_list = l }) p
  _ ←
      if status_eq c.status ready
      then add_ready p
      else if status_eq c.status blocked
      then add_blocked p
      else pure true
  s ← get
  put (record s { process_qty = (s.process_qty + 1) % 65536 })
  pure (some c.pid)

-- The arguments of `createProcess`. The names and arguments of a process stand in Processes.antt.
pub record Request : Type 0 where
  pub rip : ℕ
  pub priority : ℕ
  pub ground : ℕ
  pub file_descriptors : Option (ℕ × ℕ × ℕ)

-- The file descriptors of a new process: those that are given, or 0, 1 and 2 for NULL.
abbrev pub descriptors : Option (ℕ × ℕ × ℕ) → ℕ × ℕ × ℕ
descriptors none = (0, 1, 2)
descriptors (some fds) = fds

-- What the kernel's other parts answer to `initializeProcess`: the address of a stack (0 for NULL),
-- whether there is room for the arguments, the name and the waiting list, and the stack pointer
-- that `setupStackFrame` returns.
pub record Grants : Type 0 where
  pub stack : ℕ
  pub argv : Bool
  pub name : Bool
  pub list : Bool
  pub frame : ℕ

abbrev pub stack_size : ℕ
stack_size = 4096

-- What `initializeProcess` writes into the process.
abbrev pub initial : ℕ → Request → Grants → Process
initial pid r g = record {
  pid = pid;
  priority = r.priority;
  status = ready;
  ground = r.ground;
  stack_base = g.stack + stack_size;
  stack_pos = g.frame;
  rip = r.rip;
  stdin = (descriptors r.file_descriptors).0;
  stdout = (descriptors r.file_descriptors).1;
  stderr = (descriptors r.file_descriptors).2;
  waiting_list = [];
  freed = false;
}

-- `initializeProcess` of process.c; none stands for -1.
pub initialize_process : ℕ → Request → Grants → Option Process
initialize_process pid r g =
    if (g.stack == 0) || not g.argv || not g.name || not g.list
    then none
    else some (initial pid r g)

-- What `createProcess` does with the answer of `initializeProcess`.
pub enlist_initial : Ptr → Option Process → M (Option ℕ)
unfolding enlist
enlist_initial address none = pure none
enlist_initial address (some c) = enlist address c

-- What `createProcess` does with the pid that it found.
pub create_at : Ptr → Request → Grants → Option ℕ → M (Option ℕ)
unfolding enlist_initial initialize_process
create_at address r g none = pure none
create_at address r g (some pid) = enlist_initial address (initialize_process pid r g)

-- `createProcess`, where `address` is what `mm_alloc` answers for the process: the answer is the
-- pid, none for -1.
pub create_process : Ptr → Request → Grants → M (Option ℕ)
unfolding free_pid create_at
create_process address r g = do
  s ← get
  if leb max_process s.process_qty || (address == null)
      then pure none
      else do found ← free_pid max_process 0; create_at address r g found

-- `getFd` for the descriptors 0, 1 and 2.
pub get_fd : ℕ → M ℕ
unfolding load
get_fd fd = do
  s ← get
  c ← load s.current_process
  pure (if fd == 0 then c.stdin else if fd == 1 then c.stdout else c.stderr)
