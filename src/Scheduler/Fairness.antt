-- ===== src/Scheduler/Fairness.antt =====
-- Every ready process of scheduler.c gets its turn.
use tp2_so_2c.Prelude.{
  ℕ, ◌≡◌, ◌≢◌, refl, true, Option, none, some, List, [], ◌∷◌, ◌++◌, arith, length, ℕ_discrete, ap,
  ◌∙◌, sym,
}
use mathlib.Core.Option.{some-injective}
use mathlib.Core.List.{append_assoc}
use tp2_so_2c.Scheduler.{yield}
use tp2_so_2c.Scheduler.State.{
  Ptr, ready, running, Process, Kernel, update, update_self, no_process, expired,
}
use tp2_so_2c.Scheduler.Wellformed.{Live, IsWellformed, listed, Live-update}
use tp2_so_2c.Scheduler.Turns.{next_listed, requeued, TurnOver, rotated, schedule-rotates}

-- The running processes give up their turns one after the other: each calls `yield`, at the stack
-- pointers of the list.
pub give_turns : List ℕ → Kernel → Option Kernel
give_turns [] s = some s
give_turns (rsp ∷ rs) s = elim (yield rsp s) [ none ↦ none | some (_, s') ↦ give_turns rs s' ]

-- A listed process is in charge and runs, and no listed process has the pid -1.
pub record Running (s : Kernel) (c : Process) : Type 0 where
  pub in_list : listed s s.current_process ≡ true
  pub is_live : Live s.store_of s.current_process c
  pub runs : c.status ≡ running
  pub charge : s.current_pid ≡ c.pid
  pub pids : (p : Ptr) (d : Process) → listed s p ≡ true → Live s.store_of p d → d.pid ≢ no_process

-- A write that keeps the pid of the process that it changes keeps every pid.
pid-update :
    (f : Ptr → Option Process) (a p : Ptr) (c c' old new : Process)
    → f a ≡ some c
    → c'.pid ≡ c.pid
    → f p ≡ some old
    → update f a c' p ≡ some new
    → new.pid ≡ old.pid
unfolding update
pid-update f a p c c' old new at same was is = elim (ℕ_discrete p a) [
  | yes e ↦
      let one = ap f e in
      let now : some c' ≡ some new = ground (arith, is) in
      let same_old = some-injective old c (sym was ∙ one ∙ at) in
      let same_new = some-injective c' new now in
      ap (λ (x : Process). x.pid) (sym same_new) ∙ same ∙ ap (λ (x : Process). x.pid) (sym same_old)
  | no ne ↦
      let now : f p ≡ some new = ground (arith, is) in
      ap (λ (x : Process). x.pid) (some-injective new old (sym now ∙ was))
]

rotated-Running :
    (s : Kernel) (rsp : ℕ) (c : Process) (q : Ptr) (d : Process) (rest : List Ptr)
    → IsWellformed s
    → Running s c
    → s.ready_process ++ (s.current_process ∷ []) ≡ q ∷ rest
    → Live (requeued s rsp c).store_of q d
    → Running (rotated s rsp c q d rest) (record d { status = running })
rotated-Running s rsp c q d rest w r order lq = record {
  in_list = next_listed s q rest w r.in_list order;
  is_live = record {
    ne_null = lq.ne_null;
    stored = update_self (requeued s rsp c).store_of q (record d { status = running });
    not_freed = lq.not_freed;
    not_ended = λ e. cc;
  };
  runs = refl;
  charge = refl;
  pids = λ p e m l.
      let (old, l₀) = w.live p m in
      let (mid, l₁) =
        Live-update s (requeued s rsp c) s.current_process
          (record c { stack_pos = rsp; status = ready }) refl r.is_live.ne_null r.is_live.not_freed
          (λ e. cc) p (old, l₀) in
      let up =
        pid-update (requeued s rsp c).store_of q p d (record d { status = running }) mid e lq.stored
          refl l₁.stored l.stored in
      let down =
        pid-update s.store_of s.current_process p c (record c { stack_pos = rsp; status = ready })
          old mid r.is_live.stored refl l₀.stored l₁.stored in
      λ z. r.pids p old m l₀ (sym down ∙ sym up ∙ z);
}

-- A call of `yield` passes the turn to the first ready process.
yield-rotates :
    (s : Kernel) (rsp : ℕ) (c : Process) (q : Ptr) (rest : List Ptr)
    → IsWellformed s
    → s.room ≡ []
    → Running s c
    → s.ready_process ++ (s.current_process ∷ []) ≡ q ∷ rest
    → (s' : Kernel) × (d : Process) × (n : ℕ) × (yield rsp s ≡ some (n, s'))
      × IsWellformed s'
      × Running s' d
      × (s'.room ≡ [])
      × (s'.current_process ≡ q)
      × (s'.ready_process ≡ rest)
unfolding yield
yield-rotates s rsp c q rest w free r order =
    let t : TurnOver (record s { quantums = expired }) c = record {
      not_none = λ e. r.pids s.current_process c r.in_list r.is_live (sym r.charge ∙ e);
      in_list = r.in_list;
      is_live = r.is_live;
      runs = r.runs;
      over = refl;
    } in
    let w' : IsWellformed (record s { quantums = expired }) = record {
      live = w.live;
      once = w.once;
      ready_once = w.ready_once;
      blocked_once = w.blocked_once;
      running_current = w.running_current;
      counted = w.counted;
    } in
    let r' : Running (record s { quantums = expired }) c = record {
      in_list = r.in_list;
      is_live = r.is_live;
      runs = r.runs;
      charge = r.charge;
      pids = r.pids;
    } in
    let (d, lq, run, v) =
      schedule-rotates (record s { quantums = expired }) rsp c q rest w' free t order in
    (
      rotated (record s { quantums = expired }) rsp c q d rest,
      record d { status = running },
      d.stack_pos,
      run,
      v,
      rotated-Running (record s { quantums = expired }) rsp c q d rest w' r' order lq,
      free,
      refl,
      refl,
    )

-- On well-formed lists, where list nodes are granted, a listed process runs and no process has the
-- pid -1: the process behind `xs` in the ready list is in charge after as many calls of `yield` as
-- there are processes up to it, whatever the stack pointers are.
pub give_turns-reaches :
    (xs ys : List Ptr) (q : Ptr) (rsp : ℕ) (rsps : List ℕ) (s : Kernel) (c : Process)
    → IsWellformed s
    → s.room ≡ []
    → Running s c
    → s.ready_process ≡ xs ++ (q ∷ ys)
    → length rsps ≡ length xs
    → (s' : Kernel) × (give_turns (rsp ∷ rsps) s ≡ some s')
      × (s'.current_process ≡ q)
      × IsWellformed s'
unfolding give_turns
give_turns-reaches [] ys q rsp [] s c w free r order len =
    let (s', d, n, run, v, _, _, charge, _) =
      yield-rotates s rsp c q (ys ++ (s.current_process ∷ [])) w free r
        (ap (λ (l : List Ptr). l ++ (s.current_process ∷ [])) order) in
    (s', rw (run, give_turns), charge, v)
give_turns-reaches [] ys q rsp (x ∷ rsps) s c w free r order len = absurd (omega arith)
give_turns-reaches (x ∷ xs) ys q rsp [] s c w free r order len = absurd (omega arith)
give_turns-reaches (x ∷ xs) ys q rsp (rsp' ∷ rsps) s c w free r order len =
    let last = s.current_process ∷ [] in
    let (s', d, n, run, v, r', free', charge, rest) =
      yield-rotates s rsp c x ((xs ++ (q ∷ ys)) ++ last) w free r
        (ap (λ (l : List Ptr). l ++ last) order) in
    let (s'', runs, at_q, v') =
      give_turns-reaches xs (ys ++ last) q rsp' rsps s' d v free' r'
        (rest ∙ append_assoc xs (q ∷ ys) last) (omega arith) in
    (s'', rw (run, give_turns) runs, at_q, v')
