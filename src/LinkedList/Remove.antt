-- ===== src/LinkedList/Remove.antt =====
-- `removeNode` and `getFirstData` of doubleLinkedList.c on a well-formed list.
use mathlib.Core.Path.{subst}
use tp2_so_2c.Prelude.{
  ℕ, zero, suc, ◌+◌, ◌-◌, ◌<◌, ◌≡◌, ◌≢◌, refl, Bool, true, false, ◌||◌, ◌⊎◌, inl, inr, none, some,
  [], ◌∷◌, ap, ◌∙◌, sym, arith, ◌==◌, length, if◌then◌else◌, Bool-cases,
}
use tp2_so_2c.LinkedList.{Handle, unlink, remove_loop, remove_node, get_first_data}
use tp2_so_2c.LinkedList.Heap.{
  Ptr, null, Node, Heap, pure, write, At, write_self, write-ne, set_next-At, set_prev-At, load-At,
  set_next, set_prev, load, release-At,
}
use tp2_so_2c.LinkedList.Shape.{
  Cells, first, last, has, Linked, IsList, Linked-write, SameBut, null-out, not-has-front,
  not-has-tail,
}

-- The list without the first node that holds `item`.
abbrev pub erase : Ptr → Cells → Cells
erase item [] = []
erase item ((p, d) ∷ xs) = if d == item then xs else (p, d) ∷ erase item xs

abbrev pub contains : Ptr → Cells → Bool
contains item [] = false
contains item ((p, d) ∷ xs) = (d == item) || contains item xs

-- What stands before a part of a list: nothing, or a node `n` that is not in the part.
abbrev Before : Heap → Ptr → Node → Cells → Type 0
Before h prev n xs = (prev ≡ null) ⊎ ((At h prev n) × (has prev xs ≡ false))

-- The heap after `current->prev->next = current->next`.
abbrev relink_before : Heap → Ptr → Node → Ptr → Heap
relink_before h prev n next =
    if prev == null then h else write h prev (some (record n { next = next }))

-- The heap after `current->next->prev = current->prev`.
abbrev relink_after : Heap → Ptr → Cells → Heap
relink_after h prev [] = h
relink_after h prev ((q, e) ∷ ys) =
    write h q (some (record { item = e; prev = prev; next = first ys null }))

module _ (h : Heap) (prev : Ptr) (n : Node) (next : Ptr) where
  relink_before-run :
      (xs : Cells)
      → Before h prev n xs
      → (if prev == null then pure tt else set_next prev next) h
        ≡ some (tt, relink_before h prev n next)
  relink_before-run xs (inl e) = rw e
  relink_before-run xs (inr (at, out)) =
      let ne : (prev == null) ≡ false = ground (arith, at.0) in
      rw (ne, set_next-At h prev next n at)

  relink_before-out : (a : Ptr) → a ≢ prev → relink_before h prev n next a ≡ h a
  relink_before-out a ne = elim (Bool-cases (prev == null)) [
    | inl e ↦ rw e
    | inr e ↦ rw e (write-ne h prev a _ ne)
  ]

  relink_before_self :
      prev ≢ null → relink_before h prev n next prev ≡ some (record n { next = next })
  relink_before_self ne =
      let e : (prev == null) ≡ false = ground arith in rw e (write_self h prev _)

  relink_before-Linked :
      (p : Ptr) (xs : Cells) (stop : Ptr)
      → has prev xs ≡ false
      → Linked h p xs stop
      → Linked (relink_before h prev n next) p xs stop
  relink_before-Linked p xs stop out c = elim (Bool-cases (prev == null)) [
    | inl e ↦ rw e c
    | inr e ↦ rw e (Linked-write h prev _ p xs stop out c)
  ]

relink_after-run :
    (h : Heap) (prev p : Ptr) (xs : Cells)
    → Linked h p xs null
    → (if first xs null == null then pure tt else set_prev (first xs null) prev) h
      ≡ some (tt, relink_after h prev xs)
relink_after-run h prev p [] c = refl
relink_after-run h prev p ((q, e) ∷ ys) c =
    let ne : (q == null) ≡ false = ground (arith, c.0.0) in rw (ne, set_prev-At h q prev _ c.0)

relink_after-Linked :
    (h : Heap) (prev p : Ptr) (xs : Cells)
    → Linked h p xs null
    → Linked (relink_after h prev xs) prev xs null
relink_after-Linked h prev p [] c = tt
relink_after-Linked h prev p ((q, e) ∷ ys) c =
    ((c.0.0, write_self h q _), c.1, Linked-write h q _ q ys null c.1 c.2)

relink_after-out :
    (h : Heap) (prev a : Ptr) (xs : Cells) → has a xs ≡ false → relink_after h prev xs a ≡ h a
relink_after-out h prev a [] o = refl
relink_after-out h prev a ((q, e) ∷ ys) o = write-ne h q a _ (ground arith)

pub has-erase : (a item : Ptr) (xs : Cells) → has a xs ≡ false → has a (erase item xs) ≡ false
has-erase a item [] o = refl
has-erase a item ((p, d) ∷ xs) o = ground (arith, has-erase a item xs)

-- What `removeNode` has done when it has searched `xs`, the part of the list behind `prev`.
record Removed (h : Heap) (prev : Ptr) (n : Node) (xs : Cells) (item : Ptr) (l : Handle) (r : Ptr)
    (l' : Handle) (g : Heap) : Type 0 where
  chain : Linked g prev (erase item xs) null
  result : r ≡ (if contains item xs then item else null)
  before : prev ≢ null → g prev ≡ some (record n { next = first (erase item xs) null })
  same : SameBut h g prev xs
  head : l'.head ≡ (if prev == null then first (erase item xs) null else l.head)
  tail : l'.tail ≡ last prev (erase item xs)
  size : l'.size ≡ (if contains item xs then l.size - 1 else l.size)
  cursor : l'.current ≡ l.current

-- The handle agrees with the part of the list that is left.
abbrev Fits : Handle → Ptr → Node → Cells → Type 0
Fits l prev n xs =
    (l.tail ≡ last prev xs)
    × (prev ≡ null → l.head ≡ first xs null)
    × (prev ≢ null → n.next ≡ first xs null)

prev-out :
    (h : Heap) (prev : Ptr) (n : Node) (p : Ptr) (xs : Cells)
    → Before h prev n xs
    → Linked h p xs null
    → has prev xs ≡ false
prev-out h prev n p xs (inl e) c = rw e (null-out h p xs null c)
prev-out h prev n p xs (inr (at, out)) c = out

tail-front :
    (h : Heap) (prev p tail : Ptr) (xs : Cells)
    → Linked h p xs null
    → tail ≡ last p xs
    → (if first xs null == null then prev else tail) ≡ last prev xs
tail-front h prev p tail [] c e = refl
tail-front h prev p tail ((q, x) ∷ ys) c e =
    let ne : (q == null) ≡ false = ground (arith, c.0.0) in rw ne e

-- The node at the front of the part is unlinked and freed.
unlink-front :
    (h : Heap) (prev : Ptr) (n : Node) (p d : Ptr) (xs : Cells) (l : Handle)
    → Before h prev n ((p, d) ∷ xs)
    → Linked h prev ((p, d) ∷ xs) null
    → Fits l prev n ((p, d) ∷ xs)
    → (l' : Handle) × (g : Heap) × (unlink l p
          (record { item = d; prev = prev; next = first xs null })
          h
        ≡ some ((d, l'), g))
      × Linked g prev xs null
      × (prev ≢ null → g prev ≡ some (record n { next = first xs null }))
      × SameBut h g prev ((p, d) ∷ xs)
      × (l'.head ≡ (if prev == null then first xs null else l.head))
      × (l'.tail ≡ last prev xs)
      × (l'.size ≡ l.size - 1)
      × (l'.current ≡ l.current)
unfolding unlink
unlink-front h prev n p d xs l b c fits =
    let out' = prev-out h prev n prev ((p, d) ∷ xs) b c in
    let out = not-has-tail prev p d xs out' in
    let ne : prev ≢ p = not-has-front prev p d xs out' in
    let h₁ = relink_before h prev n (first xs null) in
    let c₁ = relink_before-Linked h prev n (first xs null) p xs null out c.2 in
    let h₂ = relink_after h₁ prev xs in
    let c₂ = relink_after-Linked h₁ prev p xs c₁ in
    let g = write h₂ p none in
    let stands =
      relink_after-out h₁ prev p xs c.1
      ∙ relink_before-out h prev n (first xs null) p (λ e. ne (sym e))
      ∙ c.0.1 in
    (
      record l {
        head = if prev == null then first xs null else l.head;
        tail = if first xs null == null then prev else l.tail;
        size = l.size - 1;
      },
      g,
      rw
          (
            relink_before-run h prev n (first xs null) ((p, d) ∷ xs) b,
            relink_after-run h₁ prev p xs c₁,
            release-At h₂ p (record { item = d; prev = prev; next = first xs null })
                (c.0.0, stands),
          )
          refl,
      Linked-write h₂ p none prev xs null c.1 c₂,
      λ e.
          write-ne h₂ p prev none ne
          ∙ relink_after-out h₁ prev prev xs out
          ∙ relink_before_self h prev n (first xs null) e,
      λ a e o.
          write-ne h₂ p a none (not-has-front a p d xs o)
          ∙ relink_after-out h₁ prev a xs (not-has-tail a p d xs o)
          ∙ relink_before-out h prev n (first xs null) a e,
      refl,
      tail-front h prev p l.tail xs c.2 fits.0,
      refl,
      refl,
    )

-- A node whose successor is `q` already.
same_next : (n : Node) (q : Ptr) → n.next ≡ q → n ≡ record n { next = q }
same_next n q e = ap (λ x. record n { next = x }) e

head-kept : (prev a b : Ptr) → (prev ≡ null → a ≡ b) → a ≡ (if prev == null then b else a)
head-kept prev a b f = elim (Bool-cases (prev == null)) [
  | inl e ↦ rw e (f (ground arith))
  | inr e ↦ rw e
]

-- The node before the part still leads to its first node.
Before-kept :
    (h : Heap) (prev : Ptr) (n : Node) (xs : Cells) (l : Handle)
    → Before h prev n xs
    → Fits l prev n xs
    → prev ≢ null
    → h prev ≡ some (record n { next = first xs null })
Before-kept h prev n xs l (inl e) fits ne = absurd (ne e)
Before-kept h prev n xs l (inr (at, out)) fits ne =
    at.1 ∙ ap (λ x. some x) (same_next n (first xs null) (fits.2 ne))

remove_loop-Removed :
    (k : ℕ) (h : Heap) (prev : Ptr) (n : Node) (xs : Cells) (item : Ptr) (l : Handle)
    → length xs < k
    → Before h prev n xs
    → Linked h prev xs null
    → Fits l prev n xs
    → (r : Ptr) × (l' : Handle) × (g : Heap) × (remove_loop k l (first xs null) item h
        ≡ some ((r, l'), g))
      × Removed h prev n xs item l r l' g
unfolding remove_loop
remove_loop-Removed zero h prev n xs item l fuel b c fits = absurd (omega arith)
remove_loop-Removed (suc k) h prev n [] item l fuel b c fits = (
  null,
  l,
  h,
  refl,
  record {
    chain = tt;
    result = refl;
    before = Before-kept h prev n [] l b fits;
    same = λ a e o. refl;
    head = head-kept prev l.head null fits.1;
    tail = fits.0;
    size = refl;
    cursor = refl;
  },
)
remove_loop-Removed (suc k) h prev n ((p, d) ∷ xs) item l fuel b c fits =
    elim (Bool-cases (d == item)) [
      | inl hit ↦
          let (l', g, run, chain, before, same, head, tail, size, cursor) =
            unlink-front h prev n p d xs l b c fits in
          let ne : (p == null) ≡ false = ground (arith, c.0.0) in
          (
            d,
            l',
            g,
            rw (ne, load-At h p _ c.0, hit) run,
            record {
              chain = rw hit chain;
              result = rw hit (ground arith);
              before = rw hit before;
              same = same;
              head = rw hit head;
              tail = rw hit tail;
              size = rw hit size;
              cursor = cursor;
            },
          )
      | inr miss ↦
          let (r, l', g, run, done) =
            remove_loop-Removed k h p (record { item = d; prev = prev; next = first xs null }) xs
              item l (omega arith) (inr (c.0, c.1)) c.2
              (fits.0, λ e. absurd (c.0.0 e), λ e. refl) in
          let ne : (p == null) ≡ false = ground (arith, c.0.0) in
          let out' = prev-out h prev n prev ((p, d) ∷ xs) b c in
          (
            r,
            l',
            g,
            rw (ne, load-At h p _ c.0, miss) run,
            record {
              chain = rw miss ((c.0.0, done.before c.0.0), has-erase p item xs c.1, done.chain);
              result = rw miss done.result;
              before = rw miss (λ e.
                  done.same prev (not-has-front prev p d xs out') (not-has-tail prev p d xs out')
                  ∙ Before-kept h prev n ((p, d) ∷ xs) l b fits e);
              same = λ a e o. done.same a (not-has-front a p d xs o) (not-has-tail a p d xs o);
              head = rw miss ((rw ne at done.head) ∙ head-kept prev l.head p fits.1);
              tail = rw miss done.tail;
              size = rw miss done.size;
              cursor = done.cursor;
            },
          )
    ]

-- What `removeNode` leaves: the list without the first node that holds the data.
pub record Erased (h : Heap) (l : Handle) (xs : Cells) (item : Ptr) (l' : Handle) (g : Heap)
    : Type 0 where
  pub list : IsList g l' (erase item xs)
  pub cursor : l'.current ≡ l.current
  pub same : SameBut h g null xs

contains-length : (item : Ptr) (xs : Cells) → contains item xs ≡ true → 0 < length xs
contains-length item [] h = cc
contains-length item (x ∷ xs) h = omega arith

length-erase :
    (item : Ptr) (xs : Cells)
    → length (erase item xs) ≡ (if contains item xs then length xs - 1 else length xs)
length-erase item [] = refl
length-erase item ((p, d) ∷ xs) = elim (Bool-cases (d == item)) [
  | inl hit ↦ rw hit (omega arith)
  | inr miss ↦ rw miss (ground (arith, length-erase item xs, contains-length item xs))
]

-- `removeNode` of data that is not NULL: it answers the data, or NULL where no node holds it, and
-- unlinks the first node that holds it. It neither faults nor runs on.
pub remove_node-erase :
    (h : Heap) (l : Handle) (xs : Cells) (item : Ptr)
    → IsList h l xs
    → item ≢ null
    → (l' : Handle) × (g : Heap) × (remove_node (some l) item h
        ≡ some ((if contains item xs then item else null, some l'), g))
      × Erased h l xs item l' g
unfolding remove_node
remove_node-erase h l xs item is ne =
    let n : Node = record { item = null; prev = null; next = first xs null } in
    let (r, l', g, run, done) =
      remove_loop-Removed (l.size + 1) h null n xs item l (omega (arith, is.sized)) (inl refl)
        is.chain (is.tail_last, λ e. is.head_first, λ e. refl) in
    let not_null : (item == null) ≡ false = ground arith in
    let run' : remove_loop (l.size + 1) l l.head item h ≡ some ((r, l'), g) =
      subst (λ x. remove_loop (l.size + 1) l x item h ≡ some ((r, l'), g)) (sym is.head_first)
        run in
    (
      l',
      g,
      rw (not_null, run') (ap (λ x. some ((x, some l'), g)) done.result),
      record {
        list = record {
          chain = done.chain;
          head_first = done.head;
          tail_last = done.tail;
          sized = ground (arith, done.size, is.sized, length-erase item xs);
        };
        cursor = done.cursor;
        same = done.same;
      },
    )

-- `getFirstData` on an empty list answers NULL and changes nothing.
pub get_first_data-nil :
    (h : Heap) (l : Handle) → IsList h l [] → get_first_data (some l) h ≡ some ((null, some l), h)
unfolding get_first_data
get_first_data-nil h l is = rw is.sized

-- `getFirstData` takes the first node off the list and answers its data.
pub get_first_data-cons :
    (h : Heap) (l : Handle) (p d : Ptr) (xs : Cells)
    → IsList h l ((p, d) ∷ xs)
    → d ≢ null
    → (l' : Handle) × (g : Heap) × (get_first_data (some l) h ≡ some ((d, some l'), g))
      × IsList g l' xs
      × (l'.current ≡ l.current)
      × SameBut h g null ((p, d) ∷ xs)
unfolding get_first_data
get_first_data-cons h l p d xs is ne =
    let (l', g, run, done) = remove_node-erase h l ((p, d) ∷ xs) d is ne in
    let hit : (d == d) ≡ true = ground arith in
    let full : (l.size == 0) ≡ false = ground (arith, is.sized) in
    let n : Node = record { item = d; prev = null; next = first xs null } in
    let read : load l.head h ≡ some (n, h) =
      subst (λ x. load x h ≡ some (n, h)) (sym is.head_first) (load-At h p n is.chain.0) in
    (l', g, rw (full, read) (rw hit at run), rw hit at done.list, done.cursor, done.same)
