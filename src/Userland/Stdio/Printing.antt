-- ===== src/Userland/Stdio/Printing.antt =====
-- Userland/SampleCodeModule/stdio.c: what `printf` prints for numbers and texts.
use tp2_so_2c.Prelude.{
  arith, ◌≡◌, refl, sym, ap, ◌∙◌, ℕ, zero, suc, ◌+◌, ◌-◌, ◌/◌, ◌%◌, ◌^◌, ◌<◌, ◌≤◌, false, List, [],
  ◌∷◌, ◌++◌, ◌==◌, if◌then◌else◌, Bool-cases, inl, inr, length, replicate, length-replicate,
}
use mathlib.Core.List.{append-nil}
use native.Mathlib.Nat.{zero-add}
use tp2_so_2c.Effects.{pure}
use tp2_so_2c.Text.{Chars, digit}
use tp2_so_2c.Text.Digits.{numeral, size, itoa-numeral, itoa-zero}
use tp2_so_2c.Text.Userland.{itoa, strtoi}
use tp2_so_2c.Text.Decimal.{strtoi-stop}
use tp2_so_2c.Userland.{System}
use tp2_so_2c.Userland.Stdio.{
  Value, number, text, putchar, puts, print_n_chars, print_number, print_digits, print_in_base,
  print_text, directive, behind_number, format_loop, printf, max_chars,
}
use tp2_so_2c.Userland.Console.{
  Streams, Runs, Runs-pure, Runs-bind, OnStreams, IsText, Runs-puts, Runs-puts_upto,
}

-- The digits of a number in base 10, the highest first.
abbrev pub decimal : ℕ → Chars
decimal n = if n == 0 then 48 ∷ [] else numeral 64 n 10 []

numeral-append : (f n base : ℕ) (t r : Chars) → numeral f n base (t ++ r) ≡ numeral f n base t ++ r
unfolding numeral
numeral-append zero n base t r = refl
numeral-append (suc f) n base t r = elim (Bool-cases (n == 0)) [
  | inl h ↦ rw h refl
  | inr h ↦ rw h (numeral-append f (n / base) base (digit (n % base) ∷ t) r)
]

numeral-IsText : (f n : ℕ) (t : Chars) → IsText t → IsText (numeral f n 10 t)
unfolding numeral digit
numeral-IsText zero n t h = h
numeral-IsText (suc f) n t h = elim (Bool-cases (n == 0)) [
  | inl e ↦ rw e h
  | inr e ↦ rw e (numeral-IsText f (n / 10) (digit (n % 10) ∷ t) (ground arith, h))
]

size-le : (f n base : ℕ) → size f n base ≤ f
unfolding size
size-le zero n base = omega arith
size-le (suc f) n base = ground (arith, size-le f (n / base) base)

replicate-split :
    {A : Type 0} (k m : ℕ) (a : A) → replicate (k + suc m) a ≡ replicate k a ++ (a ∷ replicate m a)
replicate-split zero m a = ap (λ n. replicate n a) (zero-add (suc m))
replicate-split (suc k) m a =
    let step : suc k + suc m ≡ suc (k + suc m) = omega arith in
    rw step (ap (λ l. a ∷ l) (replicate-split k m a))

-- The buffer of `vprintf`, taken apart where the digits of a number end.
buffer_split :
    (k : ℕ) (a : ℕ) → k ≤ 64 → replicate max_chars a ≡ replicate k a ++ (a ∷ replicate (255 - k) a)
buffer_split k a h =
    let total : 256 ≡ k + suc (255 - k) = omega arith in
    ap (λ (n : ℕ). replicate n a) total ∙ replicate-split k (255 - k) a

-- `itoa` into the buffer of `vprintf`.
itoa-buffer :
    (n : ℕ)
    → n < 2 ^ 64
    → (r : Chars) × ((itoa n (replicate max_chars 0) 10).1 ≡ decimal n ++ (0 ∷ r))
itoa-buffer n h = elim (Bool-cases (n == 0)) [
  | inl e ↦
      let zero_n : n ≡ 0 = ground arith in
      (replicate 254 0, rw zero_n (ap (λ p. p.1) (itoa-zero (replicate max_chars 0) 10)))
  | inr e ↦
      let k = size 64 n 10 in
      let sized : length (replicate k 0) ≡ k = length-replicate k 0 in
      let run =
        itoa-numeral n 10 0 (replicate k 0) (replicate (255 - k) 0) (omega arith) (ground arith) h
          sized in
      (
        replicate (255 - k) 0,
        rw (e, buffer_split k 0 (size-le 64 n 10))
            (ap (λ p. p.1) run ∙ numeral-append 64 n 10 [] (0 ∷ replicate (255 - k) 0)),
      )
]

decimal-IsText : (n : ℕ) → IsText (decimal n)
decimal-IsText n = elim (Bool-cases (n == 0)) [
  | inl e ↦ rw e (refl, tt)
  | inr e ↦ rw e (numeral-IsText 64 n [] tt)
]

-- A format and what it prints, piece by piece: a character as it is, %d and %s.
pub data Piece : Type 0 where
  char : ℕ → Piece
  num : ℕ → Piece
  str : Chars → Piece

-- The character is neither NUL nor '%', the number fits 64 bits, the string has no NUL.
abbrev pub IsPiece : Piece → Type 0
IsPiece (char c) = ((c == 0) ≡ false) × ((c == 37) ≡ false)
IsPiece (num n) = n < 2 ^ 64
IsPiece (str t) = IsText t

abbrev pub ArePieces : List Piece → Type 0
ArePieces [] = Unit
ArePieces (p ∷ ps) = IsPiece p × ArePieces ps

-- The format, the arguments and the output of pieces.
abbrev pub format_of : List Piece → Chars
format_of [] = []
format_of (char c ∷ ps) = c ∷ format_of ps
format_of (num n ∷ ps) = 37 ∷ 100 ∷ format_of ps
format_of (str t ∷ ps) = 37 ∷ 115 ∷ format_of ps

abbrev pub values_of : List Piece → List Value
values_of [] = []
values_of (char c ∷ ps) = values_of ps
values_of (num n ∷ ps) = number n ∷ values_of ps
values_of (str t ∷ ps) = text t ∷ values_of ps

abbrev pub output_of : List Piece → Chars
output_of [] = []
output_of (char c ∷ ps) = c ∷ output_of ps
output_of (num n ∷ ps) = decimal n ++ output_of ps
output_of (str t ∷ ps) = t ++ output_of ps

zero-sub : (n : ℕ) → 0 - n ≡ 0
zero-sub n = omega arith

module _ {S : Type 0} (sys : System S) (streams : Streams S) (laws : OnStreams sys streams) where
  Runs-print_digits :
      (p : ℕ × Chars) (d r i : Chars)
      → p.1 ≡ d ++ (0 ∷ r)
      → IsText d
      → Runs streams (print_digits sys 0 p) tt i i d
  unfolding print_digits print_n_chars
  Runs-print_digits (len, buffer) d r i e h =
      rw (zero-sub len, e)
        (Runs-bind streams (pure tt) (λ _. puts sys (d ++ (0 ∷ r))) tt tt i i i [] d
          (Runs-pure streams tt i) (Runs-puts_upto sys streams laws d r i h))

  Runs-print_number :
      (n : ℕ) (i : Chars) → n < 2 ^ 64 → Runs streams (print_number sys 0 10 n) tt i i (decimal n)
  unfolding print_number
  Runs-print_number n i small =
      let (r, buffer) = itoa-buffer n small in
      Runs-print_digits (itoa n (replicate max_chars 0) 10) (decimal n) r i buffer
        (decimal-IsText n)

  directive-num :
      (n : ℕ) (vs : List Value) (i : Chars)
      → n < 2 ^ 64
      → Runs streams (directive sys 100 0 (number n ∷ vs)) vs i i (decimal n ++ [])
  unfolding directive print_in_base
  directive-num n vs i small =
      Runs-bind streams (print_number sys 0 10 n) (λ _. pure vs) tt vs i i i (decimal n) []
        (Runs-print_number n i small) (Runs-pure streams vs i)

  directive-str :
      (t : Chars) (vs : List Value) (i : Chars)
      → IsText t
      → Runs streams (directive sys 115 0 (text t ∷ vs)) vs i i (t ++ [])
  unfolding directive print_text print_n_chars
  directive-str t vs i h =
      Runs-bind streams (puts sys t) (λ _. pure vs) tt vs i i i t []
        (Runs-puts sys streams laws t i h) (Runs-pure streams vs i)

  -- A round of `vprintf` at "%d" or "%s".
  round :
      (c fuel : ℕ) (v : Value) (vs : List Value) (cs i o u : Chars)
      → strtoi (c ∷ cs) ≡ (0, c ∷ cs)
      → (c == 0) ≡ false
      → Runs streams (directive sys c 0 (v ∷ vs)) vs i i (o ++ [])
      → Runs streams (format_loop sys fuel cs vs) tt i i u
      → Runs streams (format_loop sys (suc fuel) (37 ∷ c ∷ cs) (v ∷ vs)) tt i i (o ++ u)
  unfolding format_loop behind_number
  round c fuel v vs cs i o u stop ne first next =
      rw (stop, ne, sym (append-nil o))
        (Runs-bind streams (directive sys c 0 (v ∷ vs)) (format_loop sys fuel cs) vs tt i i i
          (o ++ []) u first next)

  format_loop-Runs :
      (ps : List Piece) (fuel : ℕ) (i : Chars)
      → ArePieces ps
      → length (format_of ps) < fuel
      → Runs streams (format_loop sys fuel (format_of ps) (values_of ps)) tt i i (output_of ps)
  unfolding format_loop
  format_loop-Runs ps zero i h lt = absurd (omega arith)
  format_loop-Runs [] (suc fuel) i h lt = Runs-pure streams tt i
  format_loop-Runs (char c ∷ ps) (suc fuel) i h lt =
      rw (h.0.0, h.0.1)
        (Runs-bind streams (putchar sys c) (λ _. format_loop sys fuel (format_of ps) (values_of ps))
          tt tt i i i (c ∷ []) (output_of ps) (laws.write_law c i)
          (format_loop-Runs ps fuel i h.1 (omega arith)))
  format_loop-Runs (num n ∷ ps) (suc fuel) i h lt =
      round 100 fuel (number n) (values_of ps) (format_of ps) i (decimal n) (output_of ps)
        (strtoi-stop 100 (format_of ps) refl) refl (directive-num n (values_of ps) i h.0)
        (format_loop-Runs ps fuel i h.1 (omega arith))
  format_loop-Runs (str t ∷ ps) (suc fuel) i h lt =
      round 115 fuel (text t) (values_of ps) (format_of ps) i t (output_of ps)
        (strtoi-stop 115 (format_of ps) refl) refl (directive-str t (values_of ps) i h.0)
        (format_loop-Runs ps fuel i h.1 (omega arith))

  -- `printf` prints a format of plain characters, of %d with a number of at most 64 bits and of %s
  -- with a string: the characters as they are, the numbers in base 10 without leading zeros, and
  -- the strings, in the order of the format. It reads no input, and stops within its fuel.
  pub printf-prints :
      (ps : List Piece) (i : Chars)
      → ArePieces ps
      → Runs streams (printf sys (format_of ps) (values_of ps)) tt i i (output_of ps)
  unfolding printf
  printf-prints ps i h = format_loop-Runs ps (length (format_of ps) + 1) i h (omega arith)
