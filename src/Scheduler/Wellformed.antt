-- ===== src/Scheduler/Wellformed.antt =====
-- The invariant of scheduler.c: each list holds the processes of its status, each of them once.
use tp2_so_2c.Prelude.{
  ℕ, ◌≤◌, ◌≡◌, ◌≢◌, refl, Bool, true, false, inl, inr, Option, none, some, List, [], ◌∷◌, ◌++◌,
  arith, ltb, ◌==◌, if◌then◌else◌, length, Bool-cases, ℕ_discrete, ap, ◌∙◌, sym,
}
use mathlib.Core.Option.{some-injective}
use tp2_so_2c.Scheduler.{find_in, find_process, unblock}
use tp2_so_2c.Scheduler.State.{
  Ptr, null, Status, ready, running, blocked, terminated, Process, Kernel, status_eq, load, update,
  add_node-served, remove_node,
}
use tp2_so_2c.Scheduler.Queues.{count, count-append, count-remove_node, remove_node-found}

-- A process with its memory, which has not ended.
pub record Live (f : Ptr → Option Process) (p : Ptr) (c : Process) : Type 0 where
  pub ne_null : p ≢ null
  pub stored : f p ≡ some c
  pub not_freed : c.freed ≡ false
  pub not_ended : c.status ≢ terminated

-- How often a process stands in the list of the processes with status `st`, if it is listed at all.
abbrev pub holds : Status → Bool → Option Process → ℕ
holds st false o = 0
holds st true none = 0
holds st true (some c) = if status_eq c.status st then 1 else 0

abbrev pub listed : Kernel → Ptr → Bool
listed s p = ltb 0 (count p s.process_list)

pub record IsWellformed (s : Kernel) : Type 0 where
  pub live : (p : Ptr) → listed s p ≡ true → (c : Process) × Live s.store_of p c
  pub once : (p : Ptr) → count p s.process_list ≤ 1
  pub ready_once : (p : Ptr) → count p s.ready_process ≡ holds ready (listed s p) (s.store_of p)
  pub blocked_once :
      (p : Ptr) → count p s.blocked_process ≡ holds blocked (listed s p) (s.store_of p)
  pub running_current :
      (p : Ptr) → holds running (listed s p) (s.store_of p) ≡ 1 → p ≡ s.current_process
  pub counted : s.process_qty ≡ length s.process_list

pub load-Live : (s : Kernel) (p : Ptr) (c : Process) → Live s.store_of p c → load p s ≡ some (c, s)
unfolding load
load-Live s p c l =
    let e : (p == null) ≡ false = ground (arith, l.ne_null) in rw (e, l.stored, l.not_freed)

-- What `findProcess` answers for the processes of `ps`: NULL where none has the pid.
pub record Answer (s : Kernel) (pid : ℕ) (ps : List Ptr) (r : Ptr) : Type 0 where
  pub missing :
      r ≡ null
      → (p : Ptr) (c : Process) → ltb 0 (count p ps) ≡ true
      → Live s.store_of p c
      → c.pid ≢ pid
  pub found :
      r ≢ null → (ltb 0 (count r ps) ≡ true) × ((c : Process) × Live s.store_of r c × (c.pid ≡ pid))

pub count-front : (p : Ptr) (ps : List Ptr) → ltb 0 (count p (p ∷ ps)) ≡ true
count-front p ps = ground arith

count-behind :
    (q p : Ptr) (ps : List Ptr) → ltb 0 (count q ps) ≡ true → ltb 0 (count q (p ∷ ps)) ≡ true
count-behind q p ps m = ground arith

count-rest :
    (q p : Ptr) (ps : List Ptr)
    → ltb 0 (count q (p ∷ ps)) ≡ true
    → q ≢ p
    → ltb 0 (count q ps) ≡ true
count-rest q p ps m ne = ground arith

pub same_process :
    (s : Kernel) (p q : Ptr) (c d : Process)
    → Live s.store_of p c
    → Live s.store_of q d
    → q ≡ p
    → d ≡ c
same_process s p q c d l m e = some-injective d c (sym m.stored ∙ ap s.store_of e ∙ l.stored)

missing_step :
    (s : Kernel) (pid : ℕ) (p : Ptr) (c : Process) (ps : List Ptr)
    → Live s.store_of p c
    → (c.pid == pid) ≡ false
    → ((q : Ptr) (d : Process) → ltb 0 (count q ps) ≡ true → Live s.store_of q d → d.pid ≢ pid)
    → (q : Ptr) (d : Process) → ltb 0 (count q (p ∷ ps)) ≡ true
    → Live s.store_of q d
    → d.pid ≢ pid
missing_step s pid p c ps l miss ih q d m lq = elim (ℕ_discrete q p) [
  | yes e ↦
      let same = same_process s p q c d l lq e in
      let ne : c.pid ≢ pid = ground arith in λ h. ne (ap (λ (x : Process). x.pid) (sym same) ∙ h)
  | no ne ↦ ih q d (count-rest q p ps m ne) lq
]

find_in-Answer :
    (s : Kernel) (pid : ℕ) (ps : List Ptr)
    → ((p : Ptr) → ltb 0 (count p ps) ≡ true → (c : Process) × Live s.store_of p c)
    → (r : Ptr) × (find_in pid ps s ≡ some (r, s)) × Answer s pid ps r
unfolding find_in
find_in-Answer s pid [] live =
    (null, refl, record { missing = λ e p c m. cc; found = λ ne. absurd (ne refl) })
find_in-Answer s pid (p ∷ ps) live =
    let (c, l) = live p (count-front p ps) in
    elim (Bool-cases (c.pid == pid)) [
      | inl hit ↦ (
        p,
        rw (load-Live s p c l, hit),
        record {
          missing = λ e. absurd (l.ne_null e);
          found = λ ne. (count-front p ps, (c, l, ground arith));
        },
      )
      | inr miss ↦
          let (r, run, a) = find_in-Answer s pid ps (λ q m. live q (count-behind q p ps m)) in
          (
            r,
            rw (load-Live s p c l, miss) run,
            record {
              missing = λ e. missing_step s pid p c ps l miss (a.missing e);
              found = λ ne. let (m, rest) = a.found ne in (count-behind r p ps m, rest);
            },
          )
    ]

-- `findProcess` neither faults nor changes anything, and answers the process with the pid, if there
-- is one.
pub find_process-Answer :
    (s : Kernel) (pid : ℕ)
    → IsWellformed s
    → (r : Ptr) × (find_process pid s ≡ some (r, s)) × Answer s pid s.process_list r
unfolding find_process
find_process-Answer s pid w = find_in-Answer s pid s.process_list w.live

-- The state after a blocked process has been made ready.
abbrev pub unblocked : Kernel → Ptr → Process → Kernel
unblocked s p c = record s {
  blocked_process = (remove_node p s.blocked_process).1;
  ready_process = s.ready_process ++ (p ∷ []);
  store_of = update s.store_of p (record c { status = ready });
}

pub unblock-run :
    (s : Kernel) (p : Ptr) (c : Process)
    → s.room ≡ []
    → ltb 0 (count p s.blocked_process) ≡ true
    → unblock p c s ≡ some (true, unblocked s p c)
unfolding unblock
unblock-run s p c free m = rw (
  remove_node-found p s.blocked_process,
  m,
  add_node-served (λ s. s.ready_process) (λ s l. record s { ready_process = l }) p
      (record s { blocked_process = (remove_node p s.blocked_process).1 }) free,
)

-- After a write to one process the listed processes are still live.
pub Live-update :
    (s s' : Kernel) (p : Ptr) (c' : Process)
    → s'.store_of ≡ update s.store_of p c'
    → p ≢ null
    → c'.freed ≡ false
    → c'.status ≢ terminated
    → (q : Ptr) → (c : Process) × Live s.store_of q c
    → (c : Process) × Live s'.store_of q c
unfolding update
Live-update s s' p c' e ne nf nt q (c, l) = elim (ℕ_discrete q p) [
  | yes h ↦ (
    c',
    record {
      ne_null = λ z. ne (sym h ∙ z);
      stored = rw e (let hit : (q == p) ≡ true = ground arith in rw hit);
      not_freed = nf;
      not_ended = nt;
    },
  )
  | no h ↦ (
    c,
    record {
      ne_null = l.ne_null;
      stored = rw e (let miss : (q == p) ≡ false = ground arith in rw miss l.stored);
      not_freed = l.not_freed;
      not_ended = l.not_ended;
    },
  )
]

-- The lists keep agreeing with the statuses when a blocked process is made ready.
pub unblocked-IsWellformed :
    (s : Kernel) (p : Ptr) (c : Process)
    → IsWellformed s
    → listed s p ≡ true
    → Live s.store_of p c
    → c.status ≡ blocked
    → IsWellformed (unblocked s p c)
unfolding update
unblocked-IsWellformed s p c w m l st =
    let at_ready = w.ready_once p in
    let at_blocked = w.blocked_once p in
    record {
      live = λ q mq.
          Live-update s (unblocked s p c) p (record c { status = ready }) refl l.ne_null l.not_freed
            (λ e. cc) q (w.live q mq);
      once = w.once;
      ready_once = λ q. ground (
        arith,
        count-append q s.ready_process (p ∷ []),
        w.ready_once q,
        w.ready_once p,
        l.stored,
      );
      blocked_once = λ q. ground (
        arith,
        count-remove_node q p s.blocked_process,
        w.blocked_once q,
        w.blocked_once p,
        l.stored,
      );
      running_current = λ q h. ground (arith, w.running_current q);
      counted = w.counted;
    }
