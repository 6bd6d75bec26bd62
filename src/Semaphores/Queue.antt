-- ===== src/Semaphores/Queue.antt =====
-- The queue of a semaphore of semaphores.c: who is woken, and when there is somebody to wake.
use tp2_so_2c.Prelude.{ℕ, ◌≡◌, refl, Bool, true, false, some, List, [], ◌∷◌, ◌++◌, set}
use tp2_so_2c.Semaphores.{
  Processes, Semaphore, Table, sem_at, purge, count_up, post_queue, purged, post_on, sem_post,
  success,
}

-- Every process of the list has ended.
abbrev pub AllGone : (ℕ → Bool) → List ℕ → Type 0
AllGone gone [] = Unit {0}
AllGone gone (p ∷ ps) = (gone p ≡ true) × AllGone gone ps

purge-front :
    (gone : ℕ → Bool) (dead : List ℕ) (p : ℕ) (rest : List ℕ)
    → AllGone gone dead
    → gone p ≡ false
    → purge gone (dead ++ (p ∷ rest)) ≡ p ∷ purge gone rest
unfolding purge
purge-front gone [] p rest all live = rw live
purge-front gone (d ∷ dead) p rest (g, all) live = rw g (purge-front gone dead p rest all live)

purge-AllGone : (gone : ℕ → Bool) (dead : List ℕ) → AllGone gone dead → purge gone dead ≡ []
unfolding purge
purge-AllGone gone [] all = refl
purge-AllGone gone (d ∷ dead) (g, all) = rw g (purge-AllGone gone dead all)

module _ {S : Type 0} (processes : Processes S) where
  open processes use {current, gone, block, wake}

  -- `sem_post` wakes the process that has waited longest among those that have not ended. It takes
  -- that process and all that have ended off the queue, and leaves the counter.
  pub sem_post-wakes :
      (id : ℕ) (t : Table) (s : S) (m : Semaphore) (dead : List ℕ) (p : ℕ) (rest : List ℕ)
      → sem_at t id ≡ some m
      → m.wait_queue ≡ some (dead ++ (p ∷ rest))
      → AllGone (gone s) dead
      → gone s p ≡ false
      → sem_post processes id t s
        ≡ (success, set t id (record m { wait_queue = some (purge (gone s) rest) }), wake p s)
  unfolding sem_post post_on purged post_queue
  sem_post-wakes id t s m dead p rest at queue all live =
      rw (at, queue, purge-front (gone s) dead p rest all live)

  -- Where every waiting process has ended, `sem_post` empties the queue and counts up.
  pub sem_post-counts :
      (id : ℕ) (t : Table) (s : S) (m : Semaphore) (dead : List ℕ)
      → sem_at t id ≡ some m
      → m.wait_queue ≡ some dead
      → AllGone (gone s) dead
      → sem_post processes id t s
        ≡ (success, set t id (record m { counter = count_up m.counter; wait_queue = some [] }), s)
  unfolding sem_post post_on purged post_queue
  sem_post-counts id t s m dead at queue all = rw (at, queue, purge-AllGone (gone s) dead all)
