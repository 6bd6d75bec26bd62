-- ===== src/Semaphores/Invariant.antt =====
-- The invariant of semaphores.c: who stands in a queue cannot pass.
use tp2_so_2c.Prelude.{
  ℕ, ◌<◌, ◌≡◌, refl, sym, inl, inr, Bool, true, false, Option, none, some, List, [], ◌∷◌, ltb,
  if◌then◌else◌, get_elem?, set, arith, length, Bool-cases, Option-cases, get_elem?-set_cases,
}
use mathlib.Core.Path.{subst}
use tp2_so_2c.Semaphores.{
  Processes, Semaphore, Table, idle, sem_at, create_in, sem_create, destroy_in, sem_destroy, purge,
  wait_on, sem_wait, post_queue, purged, post_on, sem_post, num_sems,
}

abbrev pub waiting : Option (List ℕ) → ℕ
waiting none = 0
waiting (some q) = length q

-- No process stands in the queue of a semaphore that would let it pass. A process that was blocked without
-- getting on the queue is not counted.
abbrev pub SettledAt : Semaphore → Type 0
SettledAt m = 0 < m.counter → waiting m.wait_queue ≡ 0

abbrev pub Settled : Table → Type 0
Settled t = (i : ℕ) (m : Semaphore) → get_elem? t i ≡ some m → SettledAt m

pub sem_at-get_elem? :
    (t : Table) (id : ℕ) (m : Semaphore)
    → sem_at t id ≡ some m
    → (id < num_sems) × (get_elem? t id ≡ some m)
unfolding sem_at
sem_at-get_elem? t id m h = elim (Bool-cases (ltb id num_sems)) [
  | inl e ↦ (ground arith, ground (arith, h))
  | inr e ↦ absurd (ground (arith, h))
]

Settled-set :
    (t : Table) (id : ℕ) (m' : Semaphore) → Settled t → SettledAt m' → Settled (set t id m')
Settled-set t id m' all new i m at pos = elim (get_elem?-set_cases t id i m' m at) [
  | inl e ↦ subst SettledAt (sym e) new pos
  | inr old ↦ all i m old pos
]

waiting-fresh : (queue : Bool) → waiting (if queue then some [] else none) ≡ 0
waiting-fresh true = refl
waiting-fresh false = refl

sem_create-Settled :
    (id value : ℕ) (queue : Bool) (t : Table) → Settled t → Settled (sem_create id value queue t).1
unfolding sem_create create_in
sem_create-Settled id value queue t all = elim (Option-cases (sem_at t id)) [
  | inl gone ↦ rw gone all
  | inr (m, at) ↦ elim (Bool-cases m.active) [
    | inl busy ↦ rw (at, busy) all
    | inr new ↦ rw (at, new) (Settled-set t id _ all (λ pos. waiting-fresh queue))
  ]
]

sem_destroy-Settled : (id : ℕ) (t : Table) → Settled t → Settled (sem_destroy id t).1
unfolding sem_destroy destroy_in
sem_destroy-Settled id t all = elim (Option-cases (sem_at t id)) [
  | inl gone ↦ rw gone all
  | inr (m, at) ↦ elim (Bool-cases m.active) [
    | inl busy ↦ rw (at, busy) (Settled-set t id idle all (λ pos. refl))
    | inr free ↦ rw (at, free) all
  ]
]

purge-nil : (gone : ℕ → Bool) (q : List ℕ) → length q ≡ 0 → purge gone q ≡ []
unfolding purge
purge-nil gone [] h = refl
purge-nil gone (p ∷ q) h = absurd (omega arith)

module _ {S : Type 0} (processes : Processes S) where
  open processes use {current, gone, block, wake}

  sem_wait-Settled :
      (id : ℕ) (cell node : Bool) (t : Table) (s : S)
      → Settled t
      → Settled (sem_wait processes id cell node t s).1
  unfolding sem_wait wait_on
  sem_wait-Settled id cell node t s all = elim (Option-cases (sem_at t id)) [
    | inl gone ↦ rw gone all
    | inr (m, at) ↦
        let (small, here) = sem_at-get_elem? t id m at in
        elim (Bool-cases (ltb 0 m.counter)) [
          | inl more ↦ rw (at, more) (Settled-set t id _ all (λ pos. all id m here (ground arith)))
          | inr none_left ↦ elim (Bool-cases cell) [
            | inl granted ↦
                rw (at, none_left, granted) (Settled-set t id _ all (λ pos. absurd (ground arith)))
            | inr refused ↦ rw (at, none_left, refused) all
          ]
        ]
  ]

  post_queue-Settled :
      (q : Option (List ℕ)) (m : Semaphore) (id : ℕ) (t : Table) (s : S)
      → Settled t
      → (0 < m.counter → waiting q ≡ 0)
      → (q ≡ none → waiting m.wait_queue ≡ 0)
      → Settled (post_queue processes q m id t s).1
  unfolding post_queue
  post_queue-Settled none m id t s all quiet nil = Settled-set t id _ all (λ pos. nil refl)
  post_queue-Settled (some []) m id t s all quiet nil = Settled-set t id _ all (λ pos. refl)
  post_queue-Settled (some (p ∷ ps)) m id t s all quiet nil =
      Settled-set t id _ all (λ pos. absurd (let e = quiet pos in omega arith))

  purged-waiting :
      (q : Option (List ℕ)) (s : S) → waiting q ≡ 0 → waiting (purged processes q s) ≡ 0
  unfolding purged
  purged-waiting none s h = refl
  purged-waiting (some q) s h = rw (purge-nil (gone s) q h)

  purged-none : (q : Option (List ℕ)) (s : S) → purged processes q s ≡ none → waiting q ≡ 0
  unfolding purged
  purged-none none s h = refl
  purged-none (some q) s h = cc

  sem_post-Settled :
      (id : ℕ) (t : Table) (s : S) → Settled t → Settled (sem_post processes id t s).1
  unfolding sem_post post_on
  sem_post-Settled id t s all = elim (Option-cases (sem_at t id)) [
    | inl gone ↦ rw gone all
    | inr (m, at) ↦
        let (small, here) = sem_at-get_elem? t id m at in
        rw at (
          post_queue-Settled (purged processes m.wait_queue s) m id t s all
            (λ pos. purged-waiting m.wait_queue s (all id m here pos)) (purged-none m.wait_queue s))
  ]

  -- Every operation on the semaphores keeps this, whatever `mm_alloc` answers: no process stands in
  -- the queue of a semaphore whose counter is above 0. Nothing is said of a process that `sem_wait`
  -- blocks without putting it on the queue, because no list node is left or the queue is NULL.
  pub operations-Settled :
      (id value : ℕ) (queue cell node : Bool) (t : Table) (s : S)
      → Settled t
      → Settled (sem_create id value queue t).1
        × Settled (sem_destroy id t).1
        × Settled (sem_wait processes id cell node t s).1
        × Settled (sem_post processes id t s).1
  operations-Settled id value queue cell node t s all = (
    sem_create-Settled id value queue t all,
    sem_destroy-Settled id t all,
    sem_wait-Settled id cell node t s all,
    sem_post-Settled id t s all,
  )
