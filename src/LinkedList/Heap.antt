-- ===== src/LinkedList/Heap.antt =====
-- Nodes of doubleLinkedList.c at addresses, and commands that read and write them.
use tp2_so_2c.Prelude.{ℕ, Option, none, some, ◌≡◌, ◌≢◌, arith, ◌==◌, if◌then◌else◌}

abbrev pub Ptr : Type 0
Ptr = ℕ

abbrev pub null : Ptr
null = 0

-- `Node`, with the pointer `data` named `item`.
pub record Node : Type 0 where
  pub item : Ptr
  pub prev : Ptr
  pub next : Ptr

abbrev pub Heap : Type 0
Heap = Ptr → Option Node

unfoldable pub write : Heap → Ptr → Option Node → Heap
write h p c a = if a == p then c else h a

-- none is a fault.
abbrev pub Cmd : Type 0 → Type 0
Cmd A = Heap → Option (A × Heap)

abbrev pub pure : {A : Type 0} → A → Cmd A
pure a h = some (a, h)

abbrev pub and_then : {A B : Type 0} → Option (A × Heap) → (A → Cmd B) → Option (B × Heap)
and_then none k = none
and_then (some (a, h)) k = k a h

infixl 5 ◌>>=◌ ◌>>◌
abbrev pub ◌>>=◌ : {A B : Type 0} → Cmd A → (A → Cmd B) → Cmd B
m >>= k = λ h. and_then (m h) k

abbrev pub ◌>>◌ : {A B : Type 0} → Cmd A → Cmd B → Cmd B
m >> k = m >>= λ _. k

-- A fault at NULL and at an address that holds no node.
unfoldable pub load : Ptr → Cmd Node
load p h = if p == null then none else elim (h p) [ none ↦ none | some n ↦ some (n, h) ]

unfoldable pub store : Ptr → Node → Cmd (Unit {0})
store p n h = some (tt, write h p (some n))

unfoldable pub set_next : Ptr → Ptr → Cmd (Unit {0})
unfolding load store
set_next p q = do n ← load p; store p (record n { next = q })

unfoldable pub set_prev : Ptr → Ptr → Cmd (Unit {0})
unfolding load store
set_prev p q = do n ← load p; store p (record n { prev = q })

-- `mm_free` of a node. It is a fault to free what is no node, also a node that has been freed.
unfoldable pub release : Ptr → Cmd (Unit {0})
unfolding load
release p = do n ← load p; λ h. some (tt, write h p none)

-- A node stands at `p`.
abbrev pub At : Heap → Ptr → Node → Type 0
At h p n = (p ≢ null) × (h p ≡ some n)

pub load-At : (h : Heap) (p : Ptr) (n : Node) → At h p n → load p h ≡ some (n, h)
unfolding load
load-At h p n at = ground (arith, at.1)

pub release-At :
    (h : Heap) (p : Ptr) (n : Node) → At h p n → release p h ≡ some (tt, write h p none)
unfolding release
release-At h p n at = rw (load-At h p n at)

pub set_next-At :
    (h : Heap) (p q : Ptr) (n : Node)
    → At h p n
    → set_next p q h ≡ some (tt, write h p (some (record n { next = q })))
unfolding set_next
set_next-At h p q n at = ground (arith, at.1)

pub set_prev-At :
    (h : Heap) (p q : Ptr) (n : Node)
    → At h p n
    → set_prev p q h ≡ some (tt, write h p (some (record n { prev = q })))
unfolding set_prev
set_prev-At h p q n at = ground (arith, at.1)

pub write_self : (h : Heap) (p : Ptr) (c : Option Node) → write h p c p ≡ c
unfolding write
write_self h p c = ground arith

pub write-ne : (h : Heap) (p a : Ptr) (c : Option Node) → a ≢ p → write h p c a ≡ h a
unfolding write
write-ne h p a c ne = ground arith
