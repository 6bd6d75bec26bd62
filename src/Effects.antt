-- ===== src/Effects.antt =====
-- Code that changes a state and may not come back: a process that never goes on, or a fault.
-- The answer is none there. The system calls, the shell and the programs are written with it.
use tp2_so_2c.Prelude.{Bool, Option, none, some, if◌then◌else◌}

abbrev pub M : Type 0 → Type 0 → Type 0
M S A = S → Option (A × S)

module _ {S : Type 0} where
  abbrev pub pure : {A : Type 0} → A → M S A
  pure a s = some (a, s)

  abbrev pub fault : {A : Type 0} → M S A
  fault s = none

  abbrev pub and_then : {A B : Type 0} → Option (A × S) → (A → M S B) → Option (B × S)
  and_then none k = none
  and_then (some (a, s)) k = k a s

  infixl 5 ◌>>=◌ ◌>>◌
  abbrev pub ◌>>=◌ : {A B : Type 0} → M S A → (A → M S B) → M S B
  m >>= k = λ s. and_then (m s) k

  abbrev pub ◌>>◌ : {A B : Type 0} → M S A → M S B → M S B
  m >> k = m >>= λ _. k

  -- The answer of a function that answers nothing.
  abbrev pub done : M S (Unit {0})
  done = pure tt

  -- A block that runs only under a test.
  abbrev pub when : Bool → M S (Unit {0}) → M S (Unit {0})
  when b m = if b then m else done
