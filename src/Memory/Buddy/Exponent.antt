-- ===== src/Memory/Buddy/Exponent.antt =====
-- The size of a block that buddy.c picks for a request.
use tp2_so_2c.Prelude.{
  ℕ, zero, suc, ◌+◌, ◌-◌, ◌*◌, ◌^◌, ◌≤◌, ◌<◌, ◌≡◌, refl, ap, sym, ◌∙◌, ◌⊎◌, inl, inr, Bool-cases,
  arith, ltb,
}
use native.Mathlib.Nat.{two-pow-succ}
use tp2_so_2c.Memory.Buddy.{exponent_loop, get_exponent, min_exp}

-- A block of 2 ^ e bytes holds the request, and half of it would not, unless it is the smallest.
abbrev pub Fits : ℕ → ℕ → ℕ → Type 0
Fits size start e = (start ≤ e) × (size ≤ 2 ^ e) × ((e ≡ start) ⊎ (2 ^ (e - 1) < size))

half_less : (r e pot size : ℕ) → pot ≡ 2 ^ e → pot < size → r ≡ e + 1 → 2 ^ (r - 1) < size
half_less r e pot size p less same =
    let before : r - 1 ≡ e = omega arith in
    let power : 2 ^ (r - 1) ≡ pot = ap (λ k. 2 ^ k) before ∙ sym p in rw power less

exponent_loop-Fits :
    (f size pot e : ℕ) → pot ≡ 2 ^ e → size ≤ 2 ^ (e + f) → Fits size e (exponent_loop f size pot e)
unfolding exponent_loop
exponent_loop-Fits zero size pot e p enough =
    let same : e + 0 ≡ e = omega arith in (omega arith, (rw same at enough), inl refl)
exponent_loop-Fits (suc f) size pot e p enough = elim (Bool-cases (ltb pot size)) [
  | inr fits ↦ rw fits (omega arith, ground arith, inl refl)
  | inl more ↦
      let e_up : e + 1 ≡ suc e = omega arith in
      let power : 2 ^ (e + 1) ≡ 2 ^ suc e = ap (λ k. 2 ^ k) e_up in
      let twice : 2 ^ suc e ≡ 2 ^ e + 2 ^ e = two-pow-succ e in
      let double : pot * 2 ≡ 2 ^ (e + 1) = omega (arith, p) in
      let shift : e + suc f ≡ e + 1 + f = omega arith in
      let (low, holds, tight) =
        exponent_loop-Fits f size (pot * 2) (e + 1) double (rw shift at enough) in
      rw more (
        omega arith,
        holds,
        inr (elim tight [
          | inl same ↦
              half_less (exponent_loop f size (pot * 2) (e + 1)) e pot size p (ground arith) same
          | inr half ↦ half
        ]),
      )
]

-- For a request of at most 2 ^ 17 bytes `getExponent` answers the smallest block that holds it, of
-- at least 2 ^ 4 bytes.
pub get_exponent-Fits : (size : ℕ) → size ≤ 2 ^ 17 → Fits size min_exp (get_exponent size)
unfolding get_exponent
get_exponent-Fits size small = exponent_loop-Fits 64 size (2 ^ min_exp) min_exp refl (omega arith)
