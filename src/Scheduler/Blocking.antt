-- ===== src/Scheduler/Blocking.antt =====
-- `setReadyProcess` and `blockProcess` of scheduler.c keep the lists well-formed.
use tp2_so_2c.Prelude.{
  ℕ, ◌≡◌, ◌≢◌, refl, Bool, true, false, ◌⊎◌, inl, inr, some, [], arith, ltb, ◌==◌, Bool-cases, ap,
  ◌∙◌, sym,
}
use tp2_so_2c.Scheduler.{set_ready_process}
use tp2_so_2c.Scheduler.State.{
  Ptr, null, Status, ready, running, blocked, terminated, Process, Kernel, status_eq, update_self,
}
use tp2_so_2c.Scheduler.Queues.{count}
use tp2_so_2c.Scheduler.Wellformed.{
  Live, IsWellformed, listed, load-Live, find_process-Answer, unblocked, unblock-run,
  unblocked-IsWellformed,
}

-- No listed process has the pid.
abbrev pub Missing : Kernel → ℕ → Type 0
Missing s pid = (p : Ptr) (c : Process) → listed s p ≡ true → Live s.store_of p c → c.pid ≢ pid

-- A listed process has the pid, and stands in the store as `after` of what it was.
abbrev pub Changed : Kernel → ℕ → (Status → Status) → Kernel → Type 0
Changed s pid after s' =
    (p : Ptr) × (c : Process) × (listed s p ≡ true)
    × Live s.store_of p c
    × (c.pid ≡ pid)
    × (s'.store_of p ≡ some (record c { status = after c.status }))

-- What `setReadyProcess` does to a status.
abbrev pub readied : Status → Status
readied blocked = ready
readied st = st

Status-blocked : (st : Status) → status_eq st blocked ≡ true → st ≡ blocked
Status-blocked ready h = cc
Status-blocked running h = cc
Status-blocked blocked h = refl
Status-blocked terminated h = cc

readied-kept : (st : Status) → status_eq st blocked ≡ false → readied st ≡ st
readied-kept ready h = refl
readied-kept running h = refl
readied-kept blocked h = cc
readied-kept terminated h = refl

is_blocked :
    (s : Kernel) (p : Ptr) (c : Process)
    → IsWellformed s
    → listed s p ≡ true
    → Live s.store_of p c
    → c.status ≡ blocked
    → ltb 0 (count p s.blocked_process) ≡ true
is_blocked s p c w m l st = ground (arith, w.blocked_once p, l.stored)

ready_now :
    (s : Kernel) (p : Ptr) (c : Process)
    → c.status ≡ blocked
    → (unblocked s p c).store_of p ≡ some (record c { status = readied c.status })
ready_now s p c st =
    update_self s.store_of p (record c { status = ready })
    ∙ ap (λ (x : Status). some (record c { status = readied x })) (sym st)

kept_now :
    (c : Process) → status_eq c.status blocked ≡ false → c ≡ record c { status = readied c.status }
kept_now c awake = ap (λ (x : Status). record c { status = x }) (sym (readied-kept c.status awake))

-- On well-formed lists, where list nodes are granted, `setReadyProcess` does not fault and keeps
-- the lists well-formed. It answers -1, and changes nothing, where no process has the pid; else it
-- makes that process ready if it is blocked.
pub set_ready_process-IsWellformed :
    (s : Kernel) (pid : ℕ)
    → IsWellformed s
    → s.room ≡ []
    → (ok : Bool) × (s' : Kernel) × (set_ready_process pid s ≡ some (ok, s'))
      × IsWellformed s'
      × (((ok ≡ false) × (s' ≡ s) × Missing s pid) ⊎ ((ok ≡ true) × Changed s pid readied s'))
unfolding set_ready_process
set_ready_process-IsWellformed s pid w free =
    let (p, run, a) = find_process-Answer s pid w in
    elim (Bool-cases (p == null)) [
      | inl gone ↦ (
        false,
        s,
        rw (run, gone),
        w,
        inl (refl, refl, λ q c m l. a.missing (ground arith) q c m l),
      )
      | inr there ↦
          let (m, rest) = a.found (ground arith) in
          let (c, l, named) = rest in
          elim (Bool-cases (status_eq c.status blocked)) [
            | inl asleep ↦
                let st = Status-blocked c.status asleep in
                (
                  true,
                  unblocked s p c,
                  rw (run, there, load-Live s p c l, asleep)
                      (unblock-run s p c free (is_blocked s p c w m l st)),
                  unblocked-IsWellformed s p c w m l st,
                  inr (refl, (p, c, m, l, named, ready_now s p c st)),
                )
            | inr awake ↦ (
              true,
              s,
              rw (run, there, load-Live s p c l, awake),
              w,
              inr (refl, (p, c, m, l, named, l.stored ∙ ap some (kept_now c awake))),
            )
          ]
    ]
