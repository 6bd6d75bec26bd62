-- ===== src/Scheduler/Turns.antt =====
-- The turns that `schedule` of scheduler.c gives: round robin.
use tp2_so_2c.Prelude.{
  ℕ, ◌≡◌, ◌≢◌, refl, true, false, some, List, [], ◌∷◌, ◌++◌, arith, ◌==◌, ap, ◌∙◌, sym,
}
use tp2_so_2c.Scheduler.{schedule, switch, preempt, requeue, dispatch}
use tp2_so_2c.Scheduler.State.{
  Ptr, null, ready, running, terminated, Process, Kernel, status_eq, update, add_node-served,
  take_first, take_from, no_process, left, count_down, has_quantums,
}
use tp2_so_2c.Scheduler.Queues.{count, count-append, count-length}
use tp2_so_2c.Scheduler.Wellformed.{Live, IsWellformed, listed, load-Live, Live-update}

-- A listed process is in charge and runs, and its turn is over.
pub record TurnOver (s : Kernel) (c : Process) : Type 0 where
  pub not_none : s.current_pid ≢ no_process
  pub in_list : listed s s.current_process ≡ true
  pub is_live : Live s.store_of s.current_process c
  pub runs : c.status ≡ running
  pub over : has_quantums (count_down s.quantums) ≡ false

-- The state after the running process has given way to `q`, the first ready process.
abbrev pub rotated : Kernel → ℕ → Process → Ptr → Process → List Ptr → Kernel
rotated s rsp c q d rest = record s {
  ready_process = rest;
  current_process = q;
  current_pid = d.pid;
  quantums = left d.priority;
  store_of =
      update (update s.store_of s.current_process (record c { stack_pos = rsp; status = ready })) q
        (record d { status = running });
}

requeue-run :
    (s : Kernel) (rsp : ℕ) (p : Ptr) (c : Process)
    → s.room ≡ []
    → requeue rsp p c s
      ≡ some (
        tt,
        record s {
          store_of = update s.store_of p (record c { stack_pos = rsp; status = ready });
          ready_process = s.ready_process ++ (p ∷ []);
        },
      )
unfolding requeue
requeue-run s rsp p c free = rw (
    add_node-served (λ s. s.ready_process) (λ s l. record s { ready_process = l }) p
      (record s { store_of = update s.store_of p (record c { stack_pos = rsp; status = ready }) })
      free)

-- The state after the running process has been put behind the ready ones.
abbrev pub requeued : Kernel → ℕ → Process → Kernel
requeued s rsp c = record s {
  store_of = update s.store_of s.current_process (record c { stack_pos = rsp; status = ready });
  ready_process = s.ready_process ++ (s.current_process ∷ []);
}

preempt-run :
    (s : Kernel) (rsp : ℕ) (c : Process)
    → s.room ≡ []
    → Live s.store_of s.current_process c
    → c.status ≡ running
    → preempt rsp s ≡ some (tt, requeued s rsp c)
unfolding preempt
preempt-run s rsp c free l st =
    let ne : (s.current_process == null) ≡ false = ground (arith, l.ne_null) in
    let alive : status_eq c.status terminated ≡ false = ground arith in
    let on : status_eq c.status running ≡ true = ground arith in
    rw (ne, load-Live s s.current_process c l, alive, on)
      (requeue-run s rsp s.current_process c free)

dispatch-run :
    (s : Kernel) (q : Ptr) (d : Process)
    → Live s.store_of q d
    → dispatch q s
      ≡ some (
        d.stack_pos,
        record s {
          store_of = update s.store_of q (record d { status = running });
          current_process = q;
          current_pid = d.pid;
          quantums = left d.priority;
        },
      )
unfolding dispatch
dispatch-run s q d l = rw (load-Live s q d l)

-- A list of processes, one of which is ready: it is taken.
take_first-run :
    (s : Kernel) (q : Ptr) (rest : List Ptr)
    → s.ready_process ≡ q ∷ rest
    → take_first s ≡ some (q, record s { ready_process = rest })
unfolding take_first
take_first-run s q rest e = ap (λ l. take_from l s) e

switch-run :
    (s : Kernel) (rsp : ℕ) (c : Process) (q : Ptr) (d : Process) (rest : List Ptr)
    → s.room ≡ []
    → Live s.store_of s.current_process c
    → c.status ≡ running
    → s.ready_process ++ (s.current_process ∷ []) ≡ q ∷ rest
    → Live (requeued s rsp c).store_of q d
    → switch rsp s ≡ some (d.stack_pos, rotated s rsp c q d rest)
unfolding switch
switch-run s rsp c q d rest free l st order lq =
    let ne : (q == null) ≡ false = ground (arith, lq.ne_null) in
    rw (preempt-run s rsp c free l st, take_first-run (requeued s rsp c) q rest order, ne)
      (dispatch-run (record (requeued s rsp c) { ready_process = rest }) q d lq)

schedule-run :
    (s : Kernel) (rsp : ℕ) (c : Process) (q : Ptr) (d : Process) (rest : List Ptr)
    → IsWellformed s
    → s.room ≡ []
    → TurnOver s c
    → s.ready_process ++ (s.current_process ∷ []) ≡ q ∷ rest
    → Live (requeued s rsp c).store_of q d
    → schedule rsp s ≡ some (d.stack_pos, rotated s rsp c q d rest)
unfolding schedule
schedule-run s rsp c q d rest w free t order lq =
    let some_process : (s.process_qty == 0) ≡ false =
      ground (arith, w.counted, t.in_list, count-length s.current_process s.process_list) in
    let charge : (s.current_pid == no_process) ≡ false = ground (arith, t.not_none) in
    rw (some_process, t.over, charge)
      (switch-run (record s { quantums = count_down s.quantums }) rsp c q d rest free t.is_live
        t.runs order lq)

rotated-IsWellformed :
    (s : Kernel) (rsp : ℕ) (c : Process) (q : Ptr) (d : Process) (rest : List Ptr)
    → IsWellformed s
    → TurnOver s c
    → s.ready_process ++ (s.current_process ∷ []) ≡ q ∷ rest
    → Live (requeued s rsp c).store_of q d
    → IsWellformed (rotated s rsp c q d rest)
unfolding update
rotated-IsWellformed s rsp c q d rest w t order lq =
    let moved = λ (a : Ptr).
      sym (count-append a s.ready_process (s.current_process ∷ [])) ∙ ap (count a) order in
    record {
      live = λ a m.
          Live-update (requeued s rsp c) (rotated s rsp c q d rest) q
            (record d { status = running }) refl lq.ne_null lq.not_freed (λ e. cc) a
            (Live-update s (requeued s rsp c) s.current_process
              (record c { stack_pos = rsp; status = ready }) refl t.is_live.ne_null
              t.is_live.not_freed (λ e. cc) a (w.live a m));
      once = w.once;
      ready_once = λ a. ground (
        arith,
        moved a,
        moved q,
        w.ready_once a,
        w.ready_once q,
        w.ready_once s.current_process,
        t.is_live,
        lq.stored,
        t.runs,
        t.in_list,
      );
      blocked_once = λ a. ground (
        arith,
        moved q,
        w.ready_once q,
        w.blocked_once a,
        w.blocked_once s.current_process,
        t.is_live,
        lq.stored,
        t.runs,
        t.in_list,
      );
      running_current = λ a h. ground (arith, w.running_current a);
      counted = w.counted;
    }

-- The process whose turn comes is listed.
pub next_listed :
    (s : Kernel) (q : Ptr) (rest : List Ptr)
    → IsWellformed s
    → listed s s.current_process ≡ true
    → s.ready_process ++ (s.current_process ∷ []) ≡ q ∷ rest
    → listed s q ≡ true
next_listed s q rest w m order = ground (
  arith,
  sym (count-append q s.ready_process (s.current_process ∷ [])) ∙ ap (count q) order,
  w.ready_once q,
)

-- Every ready list leaves a process to run: the one that gives way, if no other.
next_turn :
    (s : Kernel) (rsp : ℕ) (c : Process) (q : Ptr) (rest : List Ptr)
    → IsWellformed s
    → TurnOver s c
    → s.ready_process ++ (s.current_process ∷ []) ≡ q ∷ rest
    → (d : Process) × Live (requeued s rsp c).store_of q d
next_turn s rsp c q rest w t order =
    Live-update s (requeued s rsp c) s.current_process
      (record c { stack_pos = rsp; status = ready }) refl t.is_live.ne_null t.is_live.not_freed
      (λ e. cc) q (w.live q (next_listed s q rest w t.in_list order))

-- On well-formed lists, where list nodes are granted: when the turn of a running process is over,
-- `schedule` puts it behind the ready processes, with its stack pointer, and gives the turn to the
-- first of them (to itself, where none is ready): it answers the stack pointer of that process. It
-- does not fault, and the lists stay well-formed.
pub schedule-rotates :
    (s : Kernel) (rsp : ℕ) (c : Process) (q : Ptr) (rest : List Ptr)
    → IsWellformed s
    → s.room ≡ []
    → TurnOver s c
    → s.ready_process ++ (s.current_process ∷ []) ≡ q ∷ rest
    → (d : Process) × Live (requeued s rsp c).store_of q d
      × (schedule rsp s ≡ some (d.stack_pos, rotated s rsp c q d rest))
      × IsWellformed (rotated s rsp c q d rest)
schedule-rotates s rsp c q rest w free t order =
    let (d, lq) = next_turn s rsp c q rest w t order in
    (
      d,
      lq,
      schedule-run s rsp c q d rest w free t order lq,
      rotated-IsWellformed s rsp c q d rest w t order lq,
    )
