-- ===== src/LinkedList/Append.antt =====
-- `addNode` and `addNodeInFirst` of doubleLinkedList.c on a well-formed list.
use tp2_so_2c.Prelude.{
  ◌+◌, ◌≡◌, ◌≢◌, refl, true, false, some, [], ◌∷◌, ◌++◌, ap, ◌∙◌, sym, arith, ◌==◌, length-append,
  ltb,
}
use tp2_so_2c.LinkedList.{Handle, add_node}
use tp2_so_2c.LinkedList.Heap.{
  Ptr, null, Node, Heap, write, At, write_self, write-ne, set_next-At, set_prev-At,
}
use tp2_so_2c.LinkedList.Shape.{
  Cells, first, last, has, Linked, IsList, Linked-write, has-append, SameBut, has-ne, last-append,
}

-- Two lists end to end.
pub Linked-append :
    (h : Heap) (prev : Ptr) (xs ys : Cells) (stop : Ptr)
    → Linked h prev xs (first ys stop)
    → Linked h (last prev xs) ys stop
    → ((a : Ptr) → has a xs ≡ true → has a ys ≡ false)
    → Linked h prev (xs ++ ys) stop
Linked-append h prev [] ys stop c d apart = d
Linked-append h prev ((p, x) ∷ xs) ys stop (at, out, c) d apart = (
  rw (first-append xs ys stop) at,
  rw (has-append p xs ys, out) (apart p (ground arith)),
  Linked-append h p xs ys stop c d (λ a m. apart a (ground arith)),
)
  where
    first-append : (us vs : Cells) (e : Ptr) → first (us ++ vs) e ≡ first us (first vs e)
    first-append [] vs e = refl
    first-append (u ∷ us) vs e = refl

-- The last node of a list, which is not empty, is a node of it.
last-At :
    (h : Heap) (prev p d : Ptr) (xs : Cells) (stop : Ptr)
    → Linked h prev ((p, d) ∷ xs) stop
    → (n : Node) × At h (last prev ((p, d) ∷ xs)) n
      × (n.next ≡ stop)
      × ((q : Ptr)
          → Linked (write h (last p xs) (some (record n { next = q }))) prev ((p, d) ∷ xs) q)
      × (has (last p xs) ((p, d) ∷ xs) ≡ true)
last-At h prev p d [] stop (at, out, c) = (
  record { item = d; prev = prev; next = stop },
  at,
  refl,
  λ q. ((at.0, write_self h p _), out, tt),
  ground arith,
)
last-At h prev p d ((p', d') ∷ xs) stop (at, out, c) =
    let (n, found, e, relink, m) = last-At h p p' d' xs stop c in
    (
      n,
      found,
      e,
      λ q. (
        (at.0, write-ne h (last p' xs) p _ (λ s. cc (ap (λ x. has x ((p', d') ∷ xs)) s)) ∙ at.1),
        out,
        relink q,
      ),
      ground (arith, m),
    )

-- What `addNode` leaves: the list with one more node behind, and everything else as it was.
pub record Appended (h : Heap) (l : Handle) (xs : Cells) (fresh item : Ptr) (l' : Handle) (g : Heap)
    : Type 0 where
  pub list : IsList g l' (xs ++ ((fresh, item) ∷ []))
  pub cursor : l'.current ≡ l.current
  pub same : SameBut h g fresh xs

-- `addNode` with an address that no node has: the list ends in the new data, whatever it was.
pub add_node-append :
    (h : Heap) (l : Handle) (xs : Cells) (fresh item : Ptr)
    → IsList h l xs
    → fresh ≢ null
    → has fresh xs ≡ false
    → (l' : Handle) × (g : Heap) × (add_node fresh (some l) item h ≡ some ((fresh, some l'), g))
      × Appended h l xs fresh item l' g
unfolding add_node
add_node-append h l [] fresh item is ne out =
    let n : Node = record { item = item; prev = null; next = null } in
    let h₁ = write h fresh (some n) in
    let g = write h₁ fresh (some (record n { prev = l.tail })) in
    let not_null : (fresh == null) ≡ false = ground arith in
    let empty : ltb 0 l.size ≡ false = ground (arith, is.sized) in
    let linked = set_prev-At h₁ fresh l.tail n (ne, write_self h fresh (some n)) in
    (
      record l { head = fresh; tail = fresh; size = l.size + 1 },
      g,
      rw (not_null, empty, linked),
      record {
        list = record {
          chain = ((ne, rw is.tail_last (write_self h₁ fresh _)), refl, tt);
          head_first = refl;
          tail_last = refl;
          sized = omega (arith, is.sized);
        };
        cursor = refl;
        same = λ a m s. write-ne h₁ fresh a _ m ∙ write-ne h fresh a _ m;
      },
    )
add_node-append h l ((p, d) ∷ xs) fresh item is ne out =
    let n : Node = record { item = item; prev = null; next = null } in
    let h₁ = write h fresh (some n) in
    let c₁ = Linked-write h fresh (some n) null ((p, d) ∷ xs) null out is.chain in
    let (m, found, end, relink, inside) = last-At h₁ null p d xs null c₁ in
    let h₂ = write h₁ (last p xs) (some (record m { next = fresh })) in
    let g = write h₂ fresh (some (record n { prev = last p xs })) in
    let not_null : (fresh == null) ≡ false = ground arith in
    let full : ltb 0 l.size ≡ true = ground (arith, is.sized) in
    let other : fresh ≢ last p xs = λ e. cc (ap (λ x. has x ((p, d) ∷ xs)) e) in
    let linked = set_next-At h₁ (last p xs) fresh m found in
    let there : h₂ fresh ≡ some n = write-ne h₁ (last p xs) fresh _ other ∙ write_self h fresh _ in
    let back = set_prev-At h₂ fresh (last p xs) n (ne, there) in
    let at_end : At g fresh (record n { prev = last p xs }) = (ne, write_self h₂ fresh _) in
    (
      record l { tail = fresh; size = l.size + 1 },
      g,
      rw (not_null, full, is.tail_last, linked, back),
      record {
        list = record {
          chain =
              Linked-append g null ((p, d) ∷ xs) ((fresh, item) ∷ []) null
                (Linked-write h₂ fresh _ null ((p, d) ∷ xs) fresh out (relink fresh))
                (at_end, refl, tt) (λ a i. (ground (arith, has-ne a fresh ((p, d) ∷ xs) i out)));
          head_first = is.head_first;
          tail_last = sym (last-append null ((p, d) ∷ xs) ((fresh, item) ∷ []));
          sized = omega (arith, is.sized, length-append {0} xs ((fresh, item) ∷ []));
        };
        cursor = refl;
        same = λ a ne' o.
            write-ne h₂ fresh a _ ne'
            ∙ write-ne h₁ (last p xs) a _ (λ e. has-ne (last p xs) a ((p, d) ∷ xs) inside o (sym e))
            ∙ write-ne h fresh a _ ne';
      },
    )
