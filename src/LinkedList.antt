-- ===== src/LinkedList.antt =====
-- Kernel/utils/doubleLinkedList.c over an explicit heap of nodes.
-- A `doubleLinkedListADT` is an optional handle, none for NULL. An operation that updates the struct
-- returns the new handle. `mm_alloc` is the argument `fresh`, the address that it answers (0 for
-- NULL); `mm_free` of a node empties its address. none as a result is a fault: the program reads, writes or
-- frees through a pointer that leads to no node.
pub mod Heap
pub mod Shape
pub mod Append
pub mod Remove
pub mod Walk
mod Tests
use tp2_so_2c.Prelude.{
  ℕ, zero, suc, ◌+◌, ◌-◌, List, [], ◌∷◌, ◌++◌, Bool, true, false, ◌||◌, Option, none, some, ltb,
  ◌==◌, if◌then◌else◌,
}
use tp2_so_2c.LinkedList.Heap.{
  Ptr, null, Node, Cmd, pure, ◌>>=◌, ◌>>◌, load, store, set_next, set_prev, release,
}

-- `doubleLinkedListCDT`. `size` counts allocated nodes, so the `int` does not overflow.
pub record Handle : Type 0 where
  pub head : Ptr
  pub tail : Ptr
  pub current : Ptr
  pub size : ℕ

-- `createDoubleLinkedListADT`, where `fresh` is what `mm_alloc` answers for the struct.
pub create : Ptr → Option Handle
create fresh =
    if fresh == null
    then none
    else some (record { head = null; tail = null; current = null; size = 0 })

-- `addNode`
pub add_node : (fresh : Ptr) → Option Handle → Ptr → Cmd (Ptr × Option Handle)
unfolding load store set_next set_prev
add_node fresh none item = pure (null, none)
add_node fresh (some l) item = if fresh == null then pure (null, some l) else do
  store fresh (record { item = item; prev = null; next = null })
  if ltb 0 l.size then set_next l.tail fresh else pure tt
  set_prev fresh l.tail
  pure (
    fresh,
    some (record l {
      head = if ltb 0 l.size then l.head else fresh;
      tail = fresh;
      size = l.size + 1;
    }),
  )

-- `addNodeInFirst`, which links a node that the caller has allocated.
pub add_node_in_first : Option Handle → Ptr → Cmd (Ptr × Option Handle)
unfolding load store set_next set_prev
add_node_in_first none node = pure (null, none)
add_node_in_first (some l) node = if node == null then pure (null, some l) else do
  set_prev node null
  if ltb 0 l.size then set_prev l.head node else pure tt
  set_next node l.head
  pure (
    node,
    some
        (record l { head = node; tail = if ltb 0 l.size then l.tail else node; size = l.size + 1 }),
  )

-- The branch of `removeNode` for the node that holds the data.
pub unlink : Handle → Ptr → Node → Cmd (Ptr × Handle)
unfolding load store set_next set_prev release
unlink l cur n = do
  if n.prev == null then pure tt else set_next n.prev n.next
  if n.next == null then pure tt else set_prev n.next n.prev
  release cur
  pure (
    n.item,
    record l {
      head = if n.prev == null then n.next else l.head;
      tail = if n.next == null then n.prev else l.tail;
      size = l.size - 1;
    },
  )

-- The loop of `removeNode`, on fuel.
pub remove_loop : ℕ → Handle → Ptr → Ptr → Cmd (Ptr × Handle)
remove_loop zero l cur item = λ _. none
remove_loop (suc k) l cur item =
    if cur == null
    then pure (null, l)
    else do n ← load cur; if n.item == item then unlink l cur n else remove_loop k l n.next item

-- `removeNode`
pub remove_node : Option Handle → Ptr → Cmd (Ptr × Option Handle)
unfolding remove_loop
remove_node none item = pure (null, none)
remove_node (some l) item =
    if item == null
    then pure (null, some l)
    else do (r, l') ← remove_loop (l.size + 1) l l.head item; pure (r, some l')

-- `getFirstData`, which takes the first node off the list.
pub get_first_data : Option Handle → Cmd (Ptr × Option Handle)
unfolding load
get_first_data none = pure (null, none)
get_first_data (some l) =
    if l.size == 0 then pure (null, some l) else do n ← load l.head; remove_node (some l) n.item

-- `mm_free` of a node, with the pointer that it was called for.
unfoldable pub give_back : Ptr → Cmd (List Ptr)
unfolding release
give_back p = release p >> pure (p ∷ [])

-- The loop of `freeLinkedListADT`, on fuel, with the pointers that `mm_free` was called for, in order.
pub free_loop : ℕ → Ptr → Cmd (List Ptr)
unfolding load give_back
free_loop zero cur = λ _. none
free_loop (suc k) cur =
    if cur == null
    then pure []
    else do n ← load cur; freed ← give_back cur; more ← free_loop k n.next; pure (freed ++ more)

-- `freeLinkedListADT` of the list whose struct stands at `list`, with the pointers that `mm_free` was
-- called for, in order: the nodes, and then the struct, which is no part of the heap of nodes.
pub free_list : Ptr → Handle → Cmd (List Ptr)
unfolding free_loop
free_list list l = do nodes ← free_loop (l.size + 1) l.head; pure (nodes ++ (list ∷ []))

-- `isEmpty`: none stands for -1.
pub is_empty : Option Handle → Option Bool
is_empty none = none
is_empty (some l) = some (l.size == 0)

-- `getSize`: none stands for -1.
pub get_size : Option Handle → Option ℕ
get_size none = none
get_size (some l) = some l.size

-- `toBegin`
pub to_begin : Option Handle → Option Handle
to_begin none = none
to_begin (some l) = some (record l { current = l.head })

-- `hasNext`
pub has_next : Option Handle → Bool
has_next none = false
has_next (some l) = if l.current == null then false else true

-- `nextInList`
pub next_in_list : Option Handle → Cmd (Ptr × Option Handle)
unfolding load
next_in_list none = pure (null, none)
next_in_list (some l) =
    if l.current == null
    then pure (null, some l)
    else do n ← load l.current; pure (n.item, some (record l { current = n.next }))
