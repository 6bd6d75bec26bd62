-- ===== src/Scheduler/Creation.antt =====
-- `createProcess` of scheduler.c: the pid that it picks, and the lists that it leaves.
use mathlib.Core.Path.{subst}
use tp2_so_2c.Prelude.{
  length-append, ◌&&◌, not, ℕ, zero, suc, ◌+◌, ◌%◌, ◌≤◌, ◌<◌, ◌≡◌, ◌≢◌, refl, Bool, true, false,
  ◌||◌, ◌⊎◌, inl, inr, Option, none, some, [], ◌∷◌, ◌++◌, arith, leb, ◌==◌, Bool-cases, ℕ_discrete,
  ◌∙◌, sym,
}
use tp2_so_2c.Scheduler.{
  free_pid, enlist, create_at, enlist_initial, create_process, Request, Grants, initialize_process,
  initial, max_process,
}
use tp2_so_2c.Scheduler.State.{
  Ptr, null, ready, terminated, Process, Kernel, status_eq, store, update, add_node-served,
}
use tp2_so_2c.Scheduler.Queues.{count-append}
use tp2_so_2c.Scheduler.Wellformed.{Live, IsWellformed, listed, Live-update, find_process-Answer}
use tp2_so_2c.Scheduler.Blocking.{Missing}

-- A listed process has the pid.
abbrev pub Taken : Kernel → ℕ → Type 0
Taken s pid = (p : Ptr) × (c : Process) × (listed s p ≡ true) × Live s.store_of p c × (c.pid ≡ pid)

-- What the search for a pid answers: the lowest pid of `from`, `from + 1`, … that no process has,
-- and nothing where processes have the `n` pids tried.
abbrev pub LowestFree : Kernel → ℕ → ℕ → Option ℕ → Type 0
LowestFree s n from none = (pid : ℕ) → from ≤ pid → pid < from + n → Taken s pid
LowestFree s n from (some pid) =
    (from ≤ pid) × (pid < from + n) × Missing s pid × ((k : ℕ) → from ≤ k → k < pid → Taken s k)

lowest_later :
    (s : Kernel) (n from : ℕ) (r : Option ℕ)
    → Taken s from
    → LowestFree s n (from + 1) r
    → LowestFree s (suc n) from r
lowest_later s n from none t ih = λ pid le lt. elim (ℕ_discrete from pid) [
  | yes e ↦ subst (λ k. Taken s k) e t
  | no ne ↦ ih pid (omega arith) (omega arith)
]
lowest_later s n from (some pid) t ih =
    let (lower, upper, missing, below) = ih in
    (
      omega arith,
      omega arith,
      missing,
      λ k le lt. elim (ℕ_discrete from k) [
        | yes e ↦ subst (λ k. Taken s k) e t
        | no ne ↦ below k (omega arith) lt
      ],
    )

-- The search of `createProcess` neither faults nor changes anything, and finds the lowest free pid.
pub free_pid-LowestFree :
    (s : Kernel) (n from : ℕ)
    → IsWellformed s
    → (r : Option ℕ) × (free_pid n from s ≡ some (r, s)) × LowestFree s n from r
unfolding free_pid
free_pid-LowestFree s zero from w = (none, refl, λ pid le lt. absurd (omega arith))
free_pid-LowestFree s (suc n) from w =
    let (p, run, a) = find_process-Answer s from w in
    elim (Bool-cases (p == null)) [
      | inl gone ↦ (
        some from,
        rw (run, gone),
        (
          omega arith,
          omega arith,
          (λ q c m l. a.missing (ground arith) q c m l),
          λ k le lt. absurd (omega arith),
        ),
      )
      | inr there ↦
          let (m, rest) = a.found (ground arith) in
          let (c, l, named) = rest in
          let (r, go, ih) = free_pid-LowestFree s n (from + 1) w in
          (r, rw (run, there) go, lowest_later s n from r (p, c, m, l, named) ih)
    ]

-- The state after the new process `c` at `a` has been put on the lists.
abbrev pub enlisted : Kernel → Ptr → Process → Kernel
enlisted s a c = record s {
  store_of = update s.store_of a c;
  process_list = s.process_list ++ (a ∷ []);
  ready_process = s.ready_process ++ (a ∷ []);
  process_qty = (s.process_qty + 1) % 65536;
}

enlist-run :
    (s : Kernel) (a : Ptr) (c : Process)
    → s.room ≡ []
    → c.status ≡ ready
    → enlist a c s ≡ some (some c.pid, enlisted s a c)
unfolding enlist store
enlist-run s a c free st =
    let is_ready : status_eq c.status ready ≡ true = ground arith in
    rw (
      add_node-served (λ s. s.process_list) (λ s l. record s { process_list = l }) a
          (record s { store_of = update s.store_of a c }) free,
      is_ready,
      add_node-served (λ s. s.ready_process) (λ s l. record s { ready_process = l }) a
          (record s { store_of = update s.store_of a c; process_list = s.process_list ++ (a ∷ []) })
          free,
    )

listed-enlisted :
    (s : Kernel) (a q : Ptr) (c : Process) → listed (enlisted s a c) q ≡ (listed s q || (q == a))
listed-enlisted s a q c = ground (arith, count-append q s.process_list (a ∷ []))

no_ready_ended : (c : Process) → c.status ≡ ready → c.status ≢ terminated
no_ready_ended c st h = let e : ready ≡ terminated = sym st ∙ h in cc

enlisted-Live :
    (s : Kernel) (a : Ptr) (c : Process)
    → IsWellformed s
    → a ≢ null
    → c.freed ≡ false
    → c.status ≡ ready
    → (q : Ptr) → listed (enlisted s a c) q ≡ true
    → (d : Process) × Live (enlisted s a c).store_of q d
unfolding update
enlisted-Live s a c w ne nf st q m = elim (ℕ_discrete q a) [
  | yes e ↦
      let here : (q == a) ≡ true = ground arith in
      (
        c,
        record {
          ne_null = λ z. ne (sym e ∙ z);
          stored = rw here;
          not_freed = nf;
          not_ended = λ h. no_ready_ended c st h;
        },
      )
  | no h ↦
      Live-update s (enlisted s a c) a c refl ne nf (λ h. no_ready_ended c st h) q
        (w.live q (ground (arith, listed-enlisted s a q c)))
]

enlisted-IsWellformed :
    (s : Kernel) (a : Ptr) (c : Process)
    → IsWellformed s
    → a ≢ null
    → listed s a ≡ false
    → c.freed ≡ false
    → c.status ≡ ready
    → s.process_qty < max_process
    → IsWellformed (enlisted s a c)
unfolding update
enlisted-IsWellformed s a c w ne fresh nf st few = record {
  live = enlisted-Live s a c w ne nf st;
  once = λ q. ground (arith, count-append q s.process_list (a ∷ []), w.once q);
  ready_once = λ q. ground (
    arith,
    count-append q s.process_list (a ∷ []),
    count-append q s.ready_process (a ∷ []),
    w.ready_once q,
  );
  blocked_once = λ q. ground (arith, count-append q s.process_list (a ∷ []), w.blocked_once q);
  running_current =
      λ q h. ground (arith, count-append q s.process_list (a ∷ []), w.running_current q);
  counted = ground (arith, w.counted, length-append s.process_list (a ∷ []));
}

-- The parts of `createProcess` that may fail all succeed.
abbrev pub granted : Ptr → Grants → Bool
granted address g = not (address == null) && not (g.stack == 0) && g.argv && g.name && g.list

-- A process was created with the lowest pid that was free, and is the last of the processes and of
-- the ready ones.
abbrev pub Created : Kernel → Ptr → Request → Grants → Option ℕ → Kernel → Type 0
Created s a r g res s' =
    (pid : ℕ) × (res ≡ some pid)
    × LowestFree s max_process 0 (some pid)
    × (granted a g ≡ true)
    × (s' ≡ enlisted s a (initial pid r g))

-- Nothing was created and nothing has changed: there are 30 processes already, a request for memory
-- was refused, or every pid below 30 is taken.
abbrev pub NotCreated : Kernel → Ptr → Grants → Option ℕ → Kernel → Type 0
NotCreated s a g res s' =
    (res ≡ none)
    × (s' ≡ s)
    × ((max_process ≤ s.process_qty) ⊎ ((granted a g ≡ false) ⊎ LowestFree s max_process 0 none))

initialize_process-ok :
    (pid : ℕ) (a : Ptr) (r : Request) (g : Grants)
    → granted a g ≡ true
    → initialize_process pid r g ≡ some (initial pid r g)
unfolding initialize_process
initialize_process-ok pid a r g ok =
    let good : ((g.stack == 0) || not g.argv || not g.name || not g.list) ≡ false = ground arith in
    rw good

initialize_process-none :
    (pid : ℕ) (a : Ptr) (r : Request) (g : Grants)
    → granted a g ≡ false
    → (a == null) ≡ false
    → initialize_process pid r g ≡ none
unfolding initialize_process
initialize_process-none pid a r g bad ne =
    let e : ((g.stack == 0) || not g.argv || not g.name || not g.list) ≡ true = ground arith in rw e

stopped :
    (s : Kernel) (a : Ptr) (g : Grants)
    → (leb max_process s.process_qty || (a == null)) ≡ true
    → (max_process ≤ s.process_qty) ⊎ ((granted a g ≡ false) ⊎ LowestFree s max_process 0 none)
stopped s a g stop = elim (Bool-cases (leb max_process s.process_qty)) [
  | inl full ↦ inl (ground arith)
  | inr less ↦ inr (inl (ground arith))
]

create_with :
    (s : Kernel) (a : Ptr) (r : Request) (g : Grants)
    → IsWellformed s
    → s.room ≡ []
    → listed s a ≡ false
    → (leb max_process s.process_qty || (a == null)) ≡ false
    → (found : Option ℕ) → free_pid max_process 0 s ≡ some (found, s)
    → LowestFree s max_process 0 found
    → (res : Option ℕ) × (s' : Kernel) × (create_process a r g s ≡ some (res, s'))
      × IsWellformed s'
      × (Created s a r g res s' ⊎ NotCreated s a g res s')
unfolding create_process create_at enlist_initial
create_with s a r g w free fresh go none run lowest =
    (none, s, rw (go, run), w, inr (refl, refl, inr (inr lowest)))
create_with s a r g w free fresh go (some pid) run lowest = elim (Bool-cases (granted a g)) [
  | inl ok ↦ (
    some pid,
    enlisted s a (initial pid r g),
    rw (go, run, initialize_process-ok pid a r g ok) (enlist-run s a (initial pid r g) free refl),
    enlisted-IsWellformed s a (initial pid r g) w (ground arith) fresh refl refl (ground arith),
    inl (pid, refl, lowest, ok, refl),
  )
  | inr bad ↦ (
    none,
    s,
    rw (go, run, initialize_process-none pid a r g bad (ground arith)),
    w,
    inr (refl, refl, inr (inl bad)),
  )
]

-- `createProcess` does not fault and keeps the lists well-formed where list nodes are granted and
-- `mm_alloc` answers no listed process. Either it creates a process with the lowest free pid, or it
-- answers -1 and changes nothing.
pub create_process-IsWellformed :
    (s : Kernel) (a : Ptr) (r : Request) (g : Grants)
    → IsWellformed s
    → s.room ≡ []
    → listed s a ≡ false
    → (res : Option ℕ) × (s' : Kernel) × (create_process a r g s ≡ some (res, s'))
      × IsWellformed s'
      × (Created s a r g res s' ⊎ NotCreated s a g res s')
unfolding create_process
create_process-IsWellformed s a r g w free fresh =
    elim (Bool-cases (leb max_process s.process_qty || (a == null))) [
      | inl stop ↦ (none, s, rw stop, w, inr (refl, refl, stopped s a g stop))
      | inr go ↦
          let (found, run, lowest) = free_pid-LowestFree s max_process 0 w in
          create_with s a r g w free fresh go found run lowest
    ]
