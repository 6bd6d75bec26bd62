-- ===== src/Scheduler/State.antt =====
-- The scheduler's state, and the commands that read and write it.
-- A process is an address of a store; the three lists hold addresses, in the order of the nodes of
-- doubleLinkedList.c. A freed process keeps its last values with the mark `freed`: a read or a write
-- through its address is a fault, the result none, as is one through NULL.
-- `int16_t` values are the patterns 0 to 65535, so -1 is 65535; the code only compares them.
-- `room` lists the answers that `mm_alloc` will give to the next requests for a list node; behind
-- its end every request is served.
use tp2_so_2c.Prelude.{
  ◌≡◌, arith, ap, ℕ, zero, suc, Bool, true, false, Option, none, some, List, [], ◌∷◌, ◌++◌, ◌==◌,
  if◌then◌else◌,
}

abbrev pub Ptr : Type 0
Ptr = ℕ

abbrev pub null : Ptr
null = 0

-- `ProcessState`
pub data Status : Type 0 where
  ready running blocked terminated : Status

-- `ProcessContext`, but for `name`, `argv`, `argc` and `parentPid`.
pub record Process : Type 0 where
  pub pid : ℕ
  pub priority : ℕ
  pub status : Status
  pub ground : ℕ
  pub stack_base : ℕ
  pub stack_pos : ℕ
  pub rip : ℕ
  pub stdin : ℕ
  pub stdout : ℕ
  pub stderr : ℕ
  pub waiting_list : List Ptr
  pub freed : Bool

-- The field `quantums`, an `int`: a positive count, or one that is zero or below.
pub data Quantums : Type 0 where
  left : ℕ → Quantums
  below : ℕ → Quantums

abbrev pub expired : Quantums
expired = left 0

-- quantums--
abbrev pub count_down : Quantums → Quantums
count_down (left zero) = below 1
count_down (left (suc n)) = left n
count_down (below n) = below (suc n)

-- quantums > 0
abbrev pub has_quantums : Quantums → Bool
has_quantums (left zero) = false
has_quantums (left (suc n)) = true
has_quantums (below n) = false

-- NO_PROCESS
abbrev pub no_process : ℕ
no_process = 65535

-- `schedulerCDT`, with the processes.
pub record Kernel : Type 0 where
  pub store_of : Ptr → Option Process
  pub process_list : List Ptr
  pub ready_process : List Ptr
  pub blocked_process : List Ptr
  pub current_pid : ℕ
  pub current_process : Ptr
  pub process_qty : ℕ
  pub quantums : Quantums
  pub room : List Bool

-- The answers 0 and -1.
abbrev pub success : Bool
success = true

abbrev pub failure : Bool
failure = false

abbrev pub M : Type 0 → Type 0
M A = Kernel → Option (A × Kernel)

abbrev pub pure : {A : Type 0} → A → M A
pure a s = some (a, s)

abbrev pub fault : {A : Type 0} → M A
fault s = none

abbrev pub and_then : {A B : Type 0} → Option (A × Kernel) → (A → M B) → Option (B × Kernel)
and_then none k = none
and_then (some (a, s)) k = k a s

infixl 5 ◌>>=◌ ◌>>◌
abbrev pub ◌>>=◌ : {A B : Type 0} → M A → (A → M B) → M B
m >>= k = λ s. and_then (m s) k

abbrev pub ◌>>◌ : {A B : Type 0} → M A → M B → M B
m >> k = m >>= λ _. k

abbrev pub get : M Kernel
get s = some (s, s)

abbrev pub put : Kernel → M (Unit {0})
put s _ = some (tt, s)

abbrev pub status_eq : Status → Status → Bool
status_eq ready ready = true
status_eq running running = true
status_eq blocked blocked = true
status_eq terminated terminated = true
status_eq _ _ = false

abbrev pub usable : Option Process → Option Process
usable none = none
usable (some c) = if c.freed then none else some c

unfoldable pub load : Ptr → M Process
load p s =
    if p == null then none else elim (usable (s.store_of p)) [ none ↦ none | some c ↦ some (c, s) ]

unfoldable pub update : (Ptr → Option Process) → Ptr → Process → Ptr → Option Process
update f p c a = if a == p then some c else f a

pub update_self : (f : Ptr → Option Process) (p : Ptr) (c : Process) → update f p c p ≡ some c
unfolding update
update_self f p c = ground arith

unfoldable pub store : Ptr → Process → M (Unit {0})
unfolding update
store p c s = some (tt, record s { store_of = update s.store_of p c })

-- `addNode` on a list of the state, by the next answers of `mm_alloc`: its data goes to the end,
-- unless a node is refused.
unfoldable pub add_granted :
    List Bool → (Kernel → List Ptr) → (Kernel → List Ptr → Kernel) → Ptr → M Bool
add_granted [] list with_list p s = some (true, with_list s (list s ++ (p ∷ [])))
add_granted (true ∷ rest) list with_list p s =
    let s' = record s { room = rest } in some (true, with_list s' (list s' ++ (p ∷ [])))
add_granted (false ∷ rest) list with_list p s = some (false, record s { room = rest })

unfoldable pub add_node : (Kernel → List Ptr) → (Kernel → List Ptr → Kernel) → Ptr → M Bool
unfolding add_granted
add_node list with_list p s = add_granted s.room list with_list p s

-- `removeNode`: whether a node held the data, and the list without the first that did.
unfoldable pub remove_node : Ptr → List Ptr → Bool × List Ptr
remove_node p [] = (false, [])
remove_node p (q ∷ qs) =
    let (found, rest) = remove_node p qs in if q == p then (true, qs) else (found, q ∷ rest)

-- `getFirstData` on the list of ready processes: NULL where it is empty.
unfoldable pub take_from : List Ptr → M Ptr
take_from [] s = some (null, s)
take_from (p ∷ ps) s = some (p, record s { ready_process = ps })

unfoldable pub take_first : M Ptr
unfolding take_from
take_first s = take_from s.ready_process s

-- Where `mm_alloc` serves every request, `addNode` puts the data at the end of the list.
pub add_node-served :
    (list : Kernel → List Ptr) (with_list : Kernel → List Ptr → Kernel) (p : Ptr) (s : Kernel)
    → s.room ≡ []
    → add_node list with_list p s ≡ some (true, with_list s (list s ++ (p ∷ [])))
unfolding add_node
add_node-served list with_list p s free =
    ap (λ (r : List Bool). add_granted r list with_list p s) free
