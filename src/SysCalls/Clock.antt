-- ===== src/SysCalls/Clock.antt =====
-- Kernel/syscalls.c: the clock that the system calls read, and `syscall_sleep`.
use tp2_so_2c.Prelude.{
  arith, ◌≡◌, refl, ℕ, zero, suc, ◌+◌, ◌*◌, ◌/◌, ◌%◌, ◌≤◌, ◌<◌, true, false, none, some, ltb, ◌==◌,
  ap, ◌^◌, ◌-◌, ◌∙◌, lt→ltb,
}
use tp2_so_2c.SysCalls.{
  Ops, Time, local_hour, syscall_seconds, syscall_minutes, syscall_hours, asleep, sleep_loop,
  syscall_sleep,
}

-- A time that a clock can show.
abbrev pub IsTime : Time → Type 0
IsTime t = (t.h < 24) × (t.m < 60) × (t.s < 60)

-- What the clock shows, in seconds since midnight.
abbrev pub shown : Time → ℕ
shown t = t.h * 3600 + t.m * 60 + t.s

-- The same in local time, three hours behind.
abbrev pub local_seconds : Time → ℕ
local_seconds t = (shown t + 86400 - 3 * 3600) % 86400

local_seconds-lt : (t : Time) → local_seconds t < 86400
local_seconds-lt t = omega arith

-- What `syscall_seconds` answers is the local time.
seconds_lem : (t : Time) → IsTime t → t.s + t.m * 60 + local_hour t * 3600 ≡ local_seconds t
seconds_lem t h = omega arith

minutes_lem : (t : Time) → IsTime t → t.m + local_hour t * 60 ≡ local_seconds t / 60
minutes_lem t h = omega arith

hours_lem : (t : Time) → IsTime t → local_hour t ≡ local_seconds t / 3600
hours_lem t h = omega arith

module _ {S : Type 0} (ops : Ops S) where
  -- The three calls for the time of day agree on one local time, three hours behind the clock's:
  -- where the clock shows a time of day, they answer its second of the day, below 86400, its minute
  -- and its hour, and leave the state as the reading of the clock leaves it.
  pub time_of_day :
      (t : Time) (s s' : S)
      → IsTime t
      → ops.get_time s ≡ some (t, s')
      → (syscall_seconds ops s ≡ some (local_seconds t, s'))
        × (syscall_minutes ops s ≡ some (local_seconds t / 60, s'))
        × (syscall_hours ops s ≡ some (local_seconds t / 3600, s'))
        × (local_seconds t < 86400)
  unfolding syscall_seconds syscall_minutes syscall_hours
  time_of_day t s s' valid e = (
    rw e (ap (λ (n : ℕ). some (n, s')) (seconds_lem t valid)),
    rw e (ap (λ (n : ℕ). some (n, s')) (minutes_lem t valid)),
    rw e (ap (λ (n : ℕ). some (n, s')) (hours_lem t valid)),
    local_seconds-lt t,
  )

-- The clock as a process sees it that only sleeps: what it shows in a state, and the state behind a
-- call of `yield`.
pub record Sleeper {S : Type 0} (ops : Ops S) : Type 0 where
  pub time : S → Time
  pub next : S → S
  pub valid : (s : S) → IsTime (time s)
  pub reading : (s : S) → ops.get_time s ≡ some (time s, s)
  pub yielding : (s : S) → ops.yield_cpu s ≡ some (tt, next s)

module _ {S : Type 0} (ops : Ops S) (z : Sleeper ops) where
  abbrev pub now : S → ℕ
  now s = local_seconds (z.time s)

  -- The state behind `n` calls of `yield`.
  abbrev pub after : ℕ → S → S
  after zero s = s
  after (suc n) s = after n (z.next s)

  seconds-now : (s : S) → syscall_seconds ops s ≡ some (now s, s)
  seconds-now s = (time_of_day ops (z.time s) s s (z.valid s) (z.reading s)).0

  -- Of two readings within a day, the test sees the seconds between them, over midnight too.
  asleep-elapsed :
      (sec start e n : ℕ)
      → start < 86400
      → e < 86400
      → n ≡ (start + e) % 86400
      → asleep ops sec start n ≡ ltb e sec
  unfolding asleep
  asleep-elapsed sec start e n h k eq =
      let lem : (n + 86400 + 2 ^ 32 - start) % 2 ^ 32 % 86400 ≡ e = omega arith in
      ap (λ (m : ℕ). ltb m sec) lem

  -- A round of the loop that ends it, and one that goes on.
  loop-stop :
      (fuel sec start : ℕ) (s : S)
      → asleep ops sec start (now s) ≡ false
      → sleep_loop ops (suc fuel) sec start s ≡ some (tt, s)
  unfolding sleep_loop
  loop-stop fuel sec start s stop = rw (seconds-now s, stop) refl

  loop-again :
      (fuel sec start : ℕ) (s : S)
      → asleep ops sec start (now s) ≡ true
      → sleep_loop ops (suc fuel) sec start s ≡ sleep_loop ops fuel sec start (z.next s)
  unfolding sleep_loop
  loop-again fuel sec start s again = rw (seconds-now s, again, z.yielding s) refl

  loop-ends :
      (k fuel sec start : ℕ) (e : ℕ → ℕ) (s : S)
      → start < 86400
      → k < fuel
      → ((j : ℕ) → j ≤ k → now (after j s) ≡ (start + e j) % 86400)
      → ((j : ℕ) → j < k → e j < sec)
      → sec ≤ e k
      → ((j : ℕ) → j ≤ k → e j < 86400)
      → sleep_loop ops fuel sec start s ≡ some (tt, after k s)
  loop-ends k zero sec start e s h lt law early late day = absurd (omega arith)
  loop-ends zero (suc fuel) sec start e s h lt law early late day =
      let eq =
        asleep-elapsed sec start (e 0) (now s) h (day 0 (omega arith)) (law 0 (omega arith)) in
      loop-stop fuel sec start s (ground (arith, eq))
  loop-ends (suc k) (suc fuel) sec start e s h lt law early late day =
      let eq =
        asleep-elapsed sec start (e 0) (now s) h (day 0 (omega arith)) (law 0 (omega arith)) in
      let again : asleep ops sec start (now s) ≡ true = ground (arith, eq, early 0 (omega arith)) in
      loop-again fuel sec start s again
      ∙ loop-ends k fuel sec start (λ j. e (suc j)) (z.next s) h (omega arith)
          (λ j le. law (suc j) (omega arith)) (λ j le. early (suc j) (omega arith)) late
          (λ j le. day (suc j) (omega arith))

  -- A sleep of fewer seconds than a day has returns, and not too early: where the clock shows `e j`
  -- more seconds behind `j` calls of `yield`, and `k` is the first of them at which `sec` seconds have
  -- passed, less than a day in all, `syscall_sleep` returns behind `k` calls of `yield`, over midnight
  -- too. More fuel than `k` is enough.
  pub sleep-wakes :
      (fuel k sec : ℕ) (e : ℕ → ℕ) (s : S)
      → 0 < sec
      → k < fuel
      → ((j : ℕ) → j ≤ k → now (after j s) ≡ (now s + e j) % 86400)
      → ((j : ℕ) → j < k → e j < sec)
      → sec ≤ e k
      → ((j : ℕ) → j ≤ k → e j < 86400)
      → syscall_sleep ops fuel sec s ≡ some (tt, after k s)
  unfolding syscall_sleep
  sleep-wakes fuel k sec e s pos lt law early late day =
      let some_seconds : (sec == 0) ≡ false = ground arith in
      rw (some_seconds, seconds-now s)
        (loop-ends k fuel sec (now s) e s (local_seconds-lt (z.time s)) lt law early late day)

  late-asleep : (sec start : ℕ) (s : S) → 86400 ≤ sec → asleep ops sec start (now s) ≡ true
  unfolding asleep
  late-asleep sec start s h =
      lt→ltb ((now s + 86400 + 2 ^ 32 - start) % 2 ^ 32 % 86400) sec (omega arith)

  loop-never : (fuel sec start : ℕ) (s : S) → 86400 ≤ sec → sleep_loop ops fuel sec start s ≡ none
  unfolding sleep_loop
  loop-never zero sec start s h = refl
  loop-never (suc fuel) sec start s h =
      loop-again fuel sec start s (late-asleep sec start s h)
      ∙ loop-never fuel sec start (z.next s) h

  -- A sleep of a day or longer never returns, however often the process yields: the seconds that
  -- have passed are counted modulo a day.
  pub sleep-never : (fuel sec : ℕ) (s : S) → 86400 ≤ sec → syscall_sleep ops fuel sec s ≡ none
  unfolding syscall_sleep
  sleep-never fuel sec s h =
      let some_seconds : (sec == 0) ≡ false = ground arith in
      rw (some_seconds, seconds-now s) (loop-never fuel sec (now s) s h)
