-- ===== src/Text/Listing.antt =====
-- `str_in_list` of string.c: where a string stands in a list.
use tp2_so_2c.Prelude.{
  arith, ◌≡◌, ◌≢◌, refl, sym, ap, ◌∙◌, ℕ, zero, suc, ◌+◌, true, false, Option, some, none, List, [],
  ◌∷◌, ◌++◌, ◌==◌, Bool-cases, inl, inr, length, map, ==_iff, replicate,
}
use native.Mathlib.Nat.{zero-add, add-zero}
use tp2_so_2c.Text.{Chars, strcmp, search_list, str_in_list}
use tp2_so_2c.Text.Copying.{IsText, strcmp-equal}

-- Every string is one, and is not the one that is looked for.
abbrev pub Others : Chars → List Chars → Type 0
Others w [] = Unit {0}
Others w (v ∷ vs) = IsText v × (w ≢ v) × Others w vs

strcmp-same : (w : Chars) → IsText w → (strcmp w w == 0) ≡ true
strcmp-same w h = (==_iff (strcmp w w) 0).1 ((strcmp-equal w w h h).1 refl)

strcmp-other : (w v : Chars) → IsText w → IsText v → w ≢ v → (strcmp w v == 0) ≡ false
strcmp-other w v h k ne = elim (Bool-cases (strcmp w v == 0)) [
  | inl e ↦ absurd (ne ((strcmp-equal w v h k).0 ((==_iff (strcmp w v) 0).0 e)))
  | inr e ↦ e
]

search_list-first :
    (w : Chars) (vs : List Chars) (rest : List (Option Chars)) (i : ℕ)
    → IsText w
    → Others w vs
    → search_list w (map some vs ++ (some w ∷ rest)) i ≡ some (i + length vs)
unfolding search_list
search_list-first w [] rest i h others = rw (strcmp-same w h) (ap (λ (n : ℕ). some n) (omega arith))
search_list-first w (v ∷ vs) rest i h (text, ne, others) =
    rw (strcmp-other w v h text ne)
      (search_list-first w vs rest (i + 1) h others ∙ ap (λ (n : ℕ). some n) (omega arith))

str_in_list-search :
    (w : Chars) (s : Option Chars) (ss : List (Option Chars))
    → str_in_list (some w) (s ∷ ss) ≡ search_list w (s ∷ ss) 0
unfolding str_in_list
str_in_list-search w s ss = refl

-- The answer is the index of the first string that is the one looked for.
pub str_in_list-first :
    (w : Chars) (vs : List Chars) (rest : List (Option Chars))
    → IsText w
    → Others w vs
    → str_in_list (some w) (map some vs ++ (some w ∷ rest)) ≡ some (length vs)
str_in_list-first w [] rest h others =
    str_in_list-search w (some w) rest ∙ search_list-first w [] rest 0 h tt
str_in_list-first w (v ∷ vs) rest h others =
    str_in_list-search w (some v) (map some vs ++ (some w ∷ rest))
    ∙ search_list-first w (v ∷ vs) rest 0 h others
    ∙ ap (λ (n : ℕ). some n) (zero-add (suc (length vs)))

-- Strings that are not the one looked for are passed over.
search_list-skip :
    (w : Chars) (vs : List Chars) (rest : List (Option Chars)) (i : ℕ)
    → IsText w
    → Others w vs
    → search_list w (map some vs ++ rest) i ≡ search_list w rest (i + length vs)
unfolding search_list
search_list-skip w [] rest i h others = ap (λ n. search_list w rest n) (sym (add-zero i))
search_list-skip w (v ∷ vs) rest i h (text, ne, others) =
    let shift : i + 1 + length vs ≡ i + suc (length vs) = omega arith in
    rw (strcmp-other w v h text ne)
      (search_list-skip w vs rest (i + 1) h others ∙ ap (λ n. search_list w rest n) shift)

search_list-nulls : (w : Chars) (n i : ℕ) → search_list w (replicate n none) i ≡ none
unfolding search_list
search_list-nulls w zero i = refl
search_list-nulls w (suc n) i = search_list-nulls w n (i + 1)

-- Where no string of an array is the one looked for, the answer is -1; NULLs are passed over.
pub str_in_list-absent :
    (w v : Chars) (vs : List Chars) (n : ℕ)
    → IsText w
    → Others w (v ∷ vs)
    → str_in_list (some w) (some v ∷ (map some vs ++ replicate n none)) ≡ none
str_in_list-absent w v vs n h others =
    str_in_list-search w (some v) (map some vs ++ replicate n none)
    ∙ search_list-skip w (v ∷ vs) (replicate n none) 0 h others
    ∙ search_list-nulls w n (0 + suc (length vs))
