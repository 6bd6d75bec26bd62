-- ===== src/LinkedList/Shape.antt =====
-- What a well-formed list of doubleLinkedList.c looks like in memory.
use tp2_so_2c.Prelude.{
  ◌≡◌, ◌≢◌, refl, Bool, true, false, ◌||◌, Option, List, [], ◌∷◌, ◌++◌, ap, ◌∙◌, arith, ◌==◌,
  length,
}
use tp2_so_2c.LinkedList.{Handle}
use tp2_so_2c.LinkedList.Heap.{Ptr, null, Node, Heap, write, At, write-ne}

-- A list's nodes in order, the address and the data of each.
abbrev pub Cells : Type 0
Cells = List (Ptr × Ptr)

-- The address of the first node, or what stands behind the list.
abbrev pub first : Cells → Ptr → Ptr
first [] stop = stop
first ((p, d) ∷ xs) stop = p

-- The address of the last node, or what stands before the list.
abbrev pub last : Ptr → Cells → Ptr
last prev [] = prev
last prev ((p, d) ∷ xs) = last p xs

abbrev pub has : Ptr → Cells → Bool
has a [] = false
has a ((p, d) ∷ xs) = (a == p) || has a xs

-- The data in order: what the list stands for.
abbrev pub items : Cells → List Ptr
items [] = []
items ((p, d) ∷ xs) = d ∷ items xs

-- Distinct nodes, each with the right neighbours, from behind `prev` up to `stop`.
abbrev pub Linked : Heap → Ptr → Cells → Ptr → Type 0
Linked h prev [] stop = Unit {0}
Linked h prev ((p, d) ∷ xs) stop =
    At h p (record { item = d; prev = prev; next = first xs stop })
    × (has p xs ≡ false)
    × Linked h p xs stop

-- The handle `l` holds the list `xs` of the heap.
pub record IsList (h : Heap) (l : Handle) (xs : Cells) : Type 0 where
  pub chain : Linked h null xs null
  pub head_first : l.head ≡ first xs null
  pub tail_last : l.tail ≡ last null xs
  pub sized : l.size ≡ length xs

-- Only the addresses in `xs` and `p` may differ.
abbrev pub SameBut : Heap → Heap → Ptr → Cells → Type 0
SameBut h g p xs = (a : Ptr) → a ≢ p → has a xs ≡ false → g a ≡ h a

-- A list survives every change that spares its nodes.
pub Linked-frame :
    (h g : Heap) (prev : Ptr) (xs : Cells) (stop : Ptr)
    → ((a : Ptr) → has a xs ≡ true → g a ≡ h a)
    → Linked h prev xs stop
    → Linked g prev xs stop
Linked-frame h g prev [] stop same c = tt
Linked-frame h g prev ((p, d) ∷ xs) stop same ((ne, at), out, c) = (
  (ne, same p (ground arith) ∙ at),
  out,
  Linked-frame h g p xs stop (λ a m. same a (ground arith)) c,
)

-- A node of the list and an address off it differ.
pub has-ne : (a b : Ptr) (xs : Cells) → has a xs ≡ true → has b xs ≡ false → a ≢ b
has-ne a b xs m o e = cc (ap (λ x. has x xs) e)

pub has-front : (p d : Ptr) (xs : Cells) → has p ((p, d) ∷ xs) ≡ true
has-front p d xs = ground arith

pub not-has-tail : (a p d : Ptr) (xs : Cells) → has a ((p, d) ∷ xs) ≡ false → has a xs ≡ false
not-has-tail a p d xs o = ground arith

pub not-has-front : (a p d : Ptr) (xs : Cells) → has a ((p, d) ∷ xs) ≡ false → a ≢ p
not-has-front a p d xs o = ground arith

pub Linked-write :
    (h : Heap) (q : Ptr) (n : Option Node) (prev : Ptr) (xs : Cells) (stop : Ptr)
    → has q xs ≡ false
    → Linked h prev xs stop
    → Linked (write h q n) prev xs stop
Linked-write h q n prev xs stop out c =
    Linked-frame h (write h q n) prev xs stop (λ a m. write-ne h q a n (has-ne a q xs m out)) c

pub has-append : (a : Ptr) (xs ys : Cells) → has a (xs ++ ys) ≡ (has a xs || has a ys)
has-append a [] ys = refl
has-append a ((p, d) ∷ xs) ys = ground (arith, has-append a xs ys)

-- NULL is no node of a list.
pub null-out :
    (h : Heap) (prev : Ptr) (xs : Cells) (stop : Ptr) → Linked h prev xs stop → has null xs ≡ false
null-out h prev [] stop c = refl
null-out h prev ((p, d) ∷ xs) stop ((ne, at), out, c) = ground (arith, null-out h p xs stop c)

pub last-append : (prev : Ptr) (xs ys : Cells) → last prev (xs ++ ys) ≡ last (last prev xs) ys
last-append prev [] ys = refl
last-append prev ((p, d) ∷ xs) ys = last-append p xs ys
