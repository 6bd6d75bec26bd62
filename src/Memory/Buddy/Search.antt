-- ===== src/Memory/Buddy/Search.antt =====
-- The search of buddy.c for a free node of a level.
use tp2_so_2c.Prelude.{
  ℕ, zero, suc, ◌+◌, ◌*◌, ◌≤◌, ◌<◌, ◌≡◌, ◌≢◌, refl, ap, sym, ◌∙◌, ◌⊎◌, inl, inr, Bool-cases, true,
  false, Option, none, some, List, get_elem?, arith, length, get_elem?-in,
}
use mathlib.Core.Option.{some-injective}
use tp2_so_2c.Memory.Buddy.{State, free, used, split, is_free, is_used, find_free_node, first_found}

-- The node `n` is free and stands `levels` levels below `node`, with no used node on the way.
abbrev pub Reaches : List State → ℕ → ℕ → ℕ → Type 0
Reaches tree zero node n = (n ≡ node) × (get_elem? tree node ≡ some free)
Reaches tree (suc levels) node n =
    ((st : State) × (get_elem? tree node ≡ some st) × (is_used st ≡ false))
    × (Reaches tree levels (node * 2 + 1) n ⊎ Reaches tree levels (node * 2 + 2) n)

-- What the search answers: a free node that can be reached, or none where there is no such node.
abbrev pub Searched : List State → ℕ → ℕ → Option ℕ → Type 0
Searched tree levels node none = (n : ℕ) → ¬ Reaches tree levels node n
Searched tree levels node (some n) = Reaches tree levels node n

-- The last node that stands `levels` levels below a node.
abbrev pub last_node : ℕ → ℕ → ℕ
last_node zero node = node
last_node (suc levels) node = last_node levels (node * 2 + 2)

last_node-le : (levels a b : ℕ) → a ≤ b → last_node levels a ≤ last_node levels b
last_node-le zero a b le = le
last_node-le (suc levels) a b le = last_node-le levels (a * 2 + 2) (b * 2 + 2) (omega arith)

last_node-above : (levels node : ℕ) → node ≤ last_node levels node
last_node-above zero node = omega arith
last_node-above (suc levels) node =
    let ih = last_node-above levels (node * 2 + 2) in omega (arith, ih)

not_free :
    (tree : List State) (node : ℕ) (st : State)
    → get_elem? tree node ≡ some st
    → is_free st ≡ false
    → get_elem? tree node ≢ some free
not_free tree node st at busy h =
    let e : st ≡ free = some-injective st free (sym at ∙ h) in
    let same : true ≡ false = ap is_free (sym e) ∙ busy in cc

free_state : (st : State) → is_free st ≡ true → st ≡ free
free_state free h = refl
free_state used h = cc
free_state split h = cc

used_above :
    (tree : List State) (node : ℕ) (st : State)
    → get_elem? tree node ≡ some st
    → is_used st ≡ true
    → ¬ ((other : State) × (get_elem? tree node ≡ some other) × (is_used other ≡ false))
used_above tree node st at busy (other, at', live) =
    let e : st ≡ other = some-injective st other (sym at ∙ at') in
    let same : true ≡ false = sym busy ∙ ap is_used e ∙ live in cc

both-Searched :
    (tree : List State) (levels node : ℕ) (st : State) (l r : Option ℕ)
    → get_elem? tree node ≡ some st
    → is_used st ≡ false
    → Searched tree levels (node * 2 + 1) l
    → Searched tree levels (node * 2 + 2) r
    → (found : Option ℕ) × (first_found (some l) (some r) ≡ some found)
      × Searched tree (suc levels) node found
both-Searched tree levels node st (some n) r at live left right =
    (some n, refl, ((st, at, live), inl left))
both-Searched tree levels node st none (some n) at live left right =
    (some n, refl, ((st, at, live), inr right))
both-Searched tree levels node st none none at live left right =
    (none, refl, λ n (way, below). elim below [ inl h ↦ left n h | inr h ↦ right n h ])

-- Where the nodes of the level are in the tree, `findFreeNode` does not fault. It answers a free node
-- of the level with no used node above it, and none only where there is no such node.
pub find_free_node-Searched :
    (levels : ℕ) (tree : List State) (node : ℕ)
    → last_node levels node < length tree
    → (found : Option ℕ) × (find_free_node levels tree node ≡ some found)
      × Searched tree levels node found
unfolding find_free_node
find_free_node-Searched zero tree node fits =
    let (st, at) = get_elem?-in tree node fits in
    elim (Bool-cases (is_free st)) [
      | inl good ↦ (some node, rw (at, good), (refl, at ∙ ap some (free_state st good)))
      | inr bad ↦ (none, rw (at, bad), λ n (e, h). not_free tree node st at bad h)
    ]
find_free_node-Searched (suc levels) tree node fits =
    let above = last_node-above levels (node * 2 + 2) in
    let (st, at) = get_elem?-in tree node (omega (arith, above)) in
    let lower = last_node-le levels (node * 2 + 1) (node * 2 + 2) (omega arith) in
    elim (Bool-cases (is_used st)) [
      | inl busy ↦ (none, rw (at, busy), λ n (way, below). used_above tree node st at busy way)
      | inr live ↦
          let (l, run_left, left) =
            find_free_node-Searched levels tree (node * 2 + 1) (omega (arith, lower)) in
          let (r, run_right, right) = find_free_node-Searched levels tree (node * 2 + 2) fits in
          let (found, first, searched) = both-Searched tree levels node st l r at live left right in
          (found, rw (at, live, run_left, run_right) first, searched)
    ]
