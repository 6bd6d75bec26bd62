-- ===== src/Text/Copying.antt =====
-- The string functions of Kernel/lib.c and string.c, on strings.
use tp2_so_2c.Prelude.{
  ℕ, suc, ◌+◌, ◌-◌, ◌%◌, ◌^◌, ◌<◌, ◌≡◌, ◌≢◌, refl, ap, ap₂, sym, ◌∙◌, ◌&&◌, ◌||◌, not, true, false,
  [], ◌∷◌, ◌++◌, ◌==◌, set, arith, length, length-append, ℕ_discrete,
}
use mathlib.Core.Logic.{◌↔◌}
use mathlib.Core.List.{append_assoc}
use tp2_so_2c.Text.{Chars, to_int, strcmp, copy_loop, strcpychar, my_strcpy, my_strlen}

-- The bytes of a string, without the NUL that ends it.
abbrev pub IsText : Chars → Type 0
IsText [] = Unit {0}
IsText (c ∷ cs) = (0 < c) × (c < 256) × IsText cs

ints-differ : (c d : ℕ) → c < 256 → d < 256 → c ≢ d → (to_int c + (2 ^ 32 - to_int d)) % 2 ^ 32 ≢ 0
ints-differ c d small small' ne h = ground arith

-- `strcmp` answers 0 for equal strings, and only for them.
pub strcmp-equal : (s t : Chars) → IsText s → IsText t → (strcmp s t ≡ 0) ↔ (s ≡ t)
unfolding strcmp
strcmp-equal [] [] a b = ((λ h. refl), λ h. refl)
strcmp-equal [] (d ∷ ds) a (pos, small, b) = ((λ h. absurd (ground arith)), λ h. cc)
strcmp-equal (c ∷ cs) [] (pos, small, a) b = ((λ h. absurd (ground arith)), λ h. cc)
strcmp-equal (c ∷ cs) (d ∷ ds) (pos, small, a) (pos', small', b) = elim (ℕ_discrete c d) [
  | yes e ↦
      let go : (not (c == 0) && (c == d)) ≡ true = ground arith in
      let ih = strcmp-equal cs ds a b in
      ((λ h. ap₂ ◌∷◌ e (ih.0 (rw go at h))), λ h. rw go (ih.1 (cc)))
  | no ne ↦
      let stop : (not (c == 0) && (c == d)) ≡ false = ground arith in
      ((λ h. absurd (ints-differ c d small small' ne (rw stop at h))), λ h. absurd (ne (cc)))
]

-- `my_strlen` of a string is its length, whatever stands behind its NUL.
pub my_strlen-text : (s after : Chars) → IsText s → my_strlen (s ++ (0 ∷ after)) ≡ length s
unfolding my_strlen
my_strlen-text [] after a = refl
my_strlen-text (c ∷ cs) after (pos, small, a) =
    let e : (c == 0) ≡ false = ground arith in
    rw e (let ih = my_strlen-text cs after a in omega (arith, ih))

abbrev pair : ℕ → Chars → ℕ × Chars
pair n l = (n, l)

set-append : (front t : Chars) (v : ℕ) → set (front ++ t) (length front) v ≡ front ++ set t 0 v
set-append [] t v = refl
set-append (x ∷ front) t v = ap (λ l. x ∷ l) (set-append front t v)

copy_loop-text :
    (s front ys after rest : Chars) (z idx : ℕ)
    → IsText s
    → length ys ≡ length s
    → idx ≡ length front
    → copy_loop (front ++ (ys ++ (z ∷ rest))) (s ++ (0 ∷ after)) 0 idx
      ≡ (length front + length s, front ++ (s ++ (0 ∷ rest)))
unfolding copy_loop
copy_loop-text [] front [] after rest z idx a sized e =
    let none_more : length front ≡ length front + 0 = omega arith in
    rw (e, set-append front (z ∷ rest) 0) (ap (λ (n : ℕ). pair n (front ++ (0 ∷ rest))) none_more)
copy_loop-text [] front (y ∷ ys) after rest z idx a sized e = absurd (omega arith)
copy_loop-text (c ∷ s) front [] after rest z idx a sized e = absurd (omega arith)
copy_loop-text (c ∷ s) front (y ∷ ys) after rest z idx (pos, small, a) sized e =
    let go : ((c == 0) || (c == 0)) ≡ false = ground arith in
    let one = c ∷ [] in
    let at_end : idx + 1 ≡ length (front ++ one) = omega (arith, length-append front one) in
    let total : length (front ++ one) + length s ≡ length front + suc (length s) =
      omega (arith, length-append front one) in
    let written : set (front ++ (y ∷ (ys ++ (z ∷ rest)))) idx c
        ≡ (front ++ one) ++ (ys ++ (z ∷ rest)) =
      ap (λ k. set (front ++ (y ∷ (ys ++ (z ∷ rest)))) k c) e
      ∙ set-append front (y ∷ (ys ++ (z ∷ rest))) c
      ∙ sym (append_assoc front one (ys ++ (z ∷ rest))) in
    rw (go, written)
      (copy_loop-text s (front ++ one) ys after rest z (idx + 1) a (omega arith) at_end
        ∙ ap₂ pair total (append_assoc front one (s ++ (0 ∷ rest))))

-- `my_strcpy` of a string into a buffer that has room for it: the answer is the length, and the
-- buffer holds the string and its NUL; what was behind them stays.
pub my_strcpy-text :
    (s ys after rest : Chars) (z : ℕ)
    → IsText s
    → length ys ≡ length s
    → my_strcpy (ys ++ (z ∷ rest)) (s ++ (0 ∷ after)) ≡ (length s, s ++ (0 ∷ rest))
unfolding my_strcpy strcpychar
my_strcpy-text s ys after rest z a sized =
    let count : 0 + length s ≡ length s = omega arith in
    copy_loop-text s [] ys after rest z 0 a sized refl
    ∙ ap (λ (n : ℕ). pair n (s ++ (0 ∷ rest))) count
