-- ===== src/Text/Digits.antt =====
-- What `itoa` of Kernel/lib.c and stdlib.c writes.
use tp2_so_2c.Prelude.{
  ℕ, zero, suc, ◌+◌, ◌-◌, ◌*◌, ◌/◌, ◌%◌, ◌^◌, ◌≤◌, ◌<◌, ◌≡◌, refl, ap, sym, ◌∙◌, Bool-cases, inl,
  inr, true, false, [], ◌∷◌, ◌++◌, ◌==◌, if◌then◌else◌, set, arith, length,
}
use native.Mathlib.Nat.{mul-div-le, mul-le-mul_right, two-pow-succ}
use tp2_so_2c.Text.{Chars, digit, log_loop, itoa, itoa_on, itoa_loop}

-- The digits of a number in front of other characters, the first digit first.
unfoldable pub numeral : ℕ → ℕ → ℕ → Chars → Chars
numeral zero n base tail = tail
numeral (suc f) n base tail =
    let rest = numeral f (n / base) base (digit (n % base) ∷ tail) in if n == 0 then tail else rest

-- How many digits a number has.
unfoldable pub size : ℕ → ℕ → ℕ → ℕ
size zero n base = 0
size (suc f) n base = let rest = size f (n / base) base in if n == 0 then 0 else rest + 1

log_loop-size : (f n base count : ℕ) → log_loop f n base count ≡ count + size f (n / base) base
unfolding log_loop size
log_loop-size zero n base count = omega arith
log_loop-size (suc f) n base count = elim (Bool-cases (n / base == 0)) [
  | inl e ↦ rw e (omega arith)
  | inr e ↦ rw e (omega (arith, log_loop-size f (n / base) base (count + 1)))
]

set-last :
    (ys rest : Chars) (k d : ℕ)
    → length ys ≡ k + 1
    → (front : Chars) × (set (ys ++ rest) k d ≡ front ++ (d ∷ rest)) × (length front ≡ k)
set-last [] rest k d h = absurd (omega arith)
set-last (y ∷ []) rest zero d h = ([], refl, refl)
set-last (y ∷ []) rest (suc k) d h = absurd (omega arith)
set-last (y ∷ z ∷ ys) rest zero d h = absurd (omega arith)
set-last (y ∷ z ∷ ys) rest (suc k) d h =
    let (front, e, sized) = set-last (z ∷ ys) rest k d (omega arith) in
    (y ∷ front, ap (λ l. y ∷ l) e, ap suc sized)

pair_eq : {a b : ℕ} {x y : Chars} → a ≡ b → x ≡ y → Path (ℕ × Chars) (a, x) (b, y)
pair_eq p q i = (p i, q i)

append-empty : (ys rest : Chars) → length ys ≡ 0 → ys ++ rest ≡ rest
append-empty [] rest h = refl
append-empty (y ∷ ys) rest h = absurd (omega arith)

itoa_loop-numeral :
    (f n base len i : ℕ) (ys rest : Chars)
    → length ys ≡ size f n base
    → len ≡ i + size f n base
    → itoa_loop f n base len i (ys ++ rest) ≡ (len, numeral f n base rest)
unfolding itoa_loop numeral size
itoa_loop-numeral zero n base len i ys rest sized e =
    pair_eq (omega arith) (append-empty ys rest sized)
itoa_loop-numeral (suc f) n base len i ys rest sized e = elim (Bool-cases (n == 0)) [
  | inl z ↦
      let last : len ≡ i + 0 = rw z at e in
      rw z (pair_eq (omega arith) (append-empty ys rest (rw z at sized)))
  | inr nz ↦
      let long : length ys ≡ size f (n / base) base + 1 = rw nz at sized in
      let ends : len ≡ i + (size f (n / base) base + 1) = rw nz at e in
      let index : len - i - 1 ≡ size f (n / base) base = omega arith in
      let (front, written, fits) =
        set-last ys rest (size f (n / base) base) (digit (n % base)) long in
      rw (nz, index, written)
        (itoa_loop-numeral f (n / base) base len (i + 1) front (digit (n % base) ∷ rest) fits
          (omega arith))
]

-- A write behind the digits of a number is a write of what follows them.
set-numeral :
    (f n base j v : ℕ) (t : Chars)
    → set (numeral f n base t) (size f n base + j) v ≡ numeral f n base (set t j v)
unfolding numeral size
set-numeral zero n base j v t = let e : 0 + j ≡ j = omega arith in rw e
set-numeral (suc f) n base j v t = elim (Bool-cases (n == 0)) [
  | inl z ↦ let e : 0 + j ≡ j = omega arith in rw (z, e)
  | inr nz ↦
      let e : size f (n / base) base + 1 + j ≡ size f (n / base) base + suc j = omega arith in
      rw (nz, e) (set-numeral f (n / base) base (suc j) v (digit (n % base) ∷ t))
]

pub half : (f n base : ℕ) → 2 ≤ base → n < 2 ^ suc f → n / base < 2 ^ f
half f n base two small =
    let q : ℕ = n / base in
    let lower : base * q ≤ n = mul-div-le n base in
    let twice : 2 * q ≤ base * q = mul-le-mul_right q two in
    let double : 2 ^ suc f ≡ 2 ^ f + 2 ^ f = two-pow-succ f in omega arith

-- Fuel for a number below the power of two is enough for its digits.
pub size-fuel : (f n base : ℕ) → 2 ≤ base → n < 2 ^ f → size (suc f) n base ≡ size f n base
unfolding size
size-fuel zero n base two small = let e : (n == 0) ≡ true = ground arith in rw e
size-fuel (suc f) n base two small = elim (Bool-cases (n == 0)) [
  | inl z ↦ rw z
  | inr nz ↦ rw nz (ap (λ k. k + 1) (size-fuel f (n / base) base two (half f n base two small)))
]

size-step :
    (f n base : ℕ)
    → 2 ≤ base
    → 0 < n
    → n < 2 ^ suc f
    → size (suc f) n base ≡ 1 + size (suc f) (n / base) base
unfolding size
size-step f n base two pos small =
    let nz : (n == 0) ≡ false = ground arith in
    let same = size-fuel f (n / base) base two (half f n base two small) in
    rw nz (omega (arith, same))

itoa_on-numeral :
    (f n base z : ℕ) (ys rest : Chars)
    → 0 < n
    → size f n base ≡ 1 + size f (n / base) base
    → length ys ≡ size f n base
    → itoa_on f n (ys ++ (z ∷ rest)) base ≡ (size f n base, numeral f n base (0 ∷ rest))
unfolding itoa_on
itoa_on-numeral f n base z ys rest pos step sized =
    let nz : (n == 0) ≡ false = ground arith in
    let len : log_loop f n base 1 ≡ size f n base = log_loop-size f n base 1 ∙ sym step in
    let zero_end : size f n base ≡ size f n base + 0 = omega arith in
    rw (nz, len, itoa_loop-numeral f n base (size f n base) 0 ys (z ∷ rest) sized (omega arith))
      (pair_eq refl (
        ap (λ k. set (numeral f n base (z ∷ rest)) k 0) zero_end
        ∙ set-numeral f n base 0 0 (z ∷ rest)))

-- `itoa` of a positive 64-bit number in a base of at least 2, where the buffer has room: the
-- answer is the number of digits, and the buffer holds the digits and then NUL; what was behind
-- them stays.
pub itoa-numeral :
    (n base z : ℕ) (ys rest : Chars)
    → 2 ≤ base
    → 0 < n
    → n < 2 ^ 64
    → length ys ≡ size 64 n base
    → itoa n (ys ++ (z ∷ rest)) base ≡ (size 64 n base, numeral 64 n base (0 ∷ rest))
unfolding itoa
itoa-numeral n base z ys rest two pos small sized =
    itoa_on-numeral 64 n base z ys rest pos (size-step 63 n base two pos small) sized

pub itoa-zero : (buffer : Chars) (base : ℕ) → itoa 0 buffer base ≡ (1, set (set buffer 0 48) 1 0)
unfolding itoa itoa_on
itoa-zero buffer base = refl
