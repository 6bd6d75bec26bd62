-- ===== src/Userland/Programs/Streams.antt =====
-- Userland/SampleCodeModule/processFunctions.c: `cat`, `wc` and `filter` on a stream of bytes.
use tp2_so_2c.Prelude.{
  arith, ◌≡◌, refl, sym, ap, ◌||◌, ℕ, zero, suc, ◌+◌, ◌-◌, ◌^◌, ◌<◌, ◌≤◌, Bool, true, false, not,
  ◌&&◌, Option, some, none, List, [], ◌∷◌, ◌++◌, ◌==◌, if◌then◌else◌, Bool-cases, inl, inr, length,
  codes,
}
use mathlib.Core.Path.{subst}
use mathlib.Core.List.{append-nil}
use native.Mathlib.Nat.{add-zero}
use tp2_so_2c.Effects.{M, ◌>>=◌, ◌>>◌}
use tp2_so_2c.Text.{Chars}
use tp2_so_2c.Userland.{System}
use tp2_so_2c.Userland.Stdio.{putchar, getchar, as_int, newline, printf, number}
use tp2_so_2c.Userland.Stdio.Printing.{
  Piece, char, num, ArePieces, format_of, values_of, output_of, decimal, printf-prints,
}
use tp2_so_2c.Userland.Console.{Streams, Runs, Runs-pure, Runs-bind, OnStreams, Runs-getchar}
use tp2_so_2c.Userland.Programs.{
  is_vowel, cat_round, cat_loop, run_cat, wc_round, wc_loop, run_wc, yields, filter_round,
  filter_loop, run_filter,
}

-- The bytes that pass a test, in their order.
abbrev pub keep : (ℕ → Bool) → Chars → Chars
keep p [] = []
keep p (c ∷ cs) = if p c then c ∷ keep p cs else keep p cs

-- The byte is one of those in the text.
abbrev pub one_of : ℕ → Chars → Bool
one_of c [] = false
one_of c (d ∷ ds) = (c == d) || one_of c ds

vowel_lem : (c : ℕ) → is_vowel c ≡ one_of c (codes "aeiouAEIOU")
unfolding is_vowel
vowel_lem c = ground arith

keep-same : (p q : ℕ → Bool) (bs : Chars) → ((c : ℕ) → p c ≡ q c) → keep p bs ≡ keep q bs
keep-same p q [] same = refl
keep-same p q (c ∷ cs) same = rw (same c, keep-same p q cs same)

vowels-dropped :
    (bs : Chars)
    → keep (λ c. not (is_vowel c)) bs ≡ keep (λ c. not (one_of c (codes "aeiouAEIOU"))) bs
vowels-dropped bs =
    keep-same (λ c. not (is_vowel c)) (λ c. not (one_of c (codes "aeiouAEIOU"))) bs
      (λ c. ap not (vowel_lem c))

-- No byte is that of EOF.
abbrev pub NoEof : Chars → Type 0
NoEof [] = Unit
NoEof (c ∷ cs) = ((c == 255) ≡ false) × NoEof cs

abbrev pub not_nul : ℕ → Bool
not_nul c = not (c == 0)

abbrev pub count_newlines : Chars → ℕ
count_newlines [] = 0
count_newlines (c ∷ cs) = if c == newline then count_newlines cs + 1 else count_newlines cs

-- The pieces of the last line of `wc`.
abbrev plain : Chars → Bool
plain [] = true
plain (c ∷ cs) = not (c == 0) && not (c == 37) && plain cs

plain-step :
    (c : ℕ) (b : Bool)
    → (not (c == 0) && not (c == 37) && b) ≡ true
    → ((c == 0) ≡ false) × ((c == 37) ≡ false) × (b ≡ true)
plain-step c b h = ground arith

abbrev chars : Chars → List Piece
chars [] = []
chars (c ∷ cs) = char c ∷ chars cs

abbrev append : List Piece → List Piece → List Piece
append [] qs = qs
append (p ∷ ps) qs = p ∷ append ps qs

abbrev closing : ℕ → List Piece
closing lines = append (chars (codes "La cantidad de lineas es: ")) (num lines ∷ char 10 ∷ [])

chars-ArePieces :
    (t : Chars) (ps : List Piece) → plain t ≡ true → ArePieces ps → ArePieces (append (chars t) ps)
chars-ArePieces [] ps h k = k
chars-ArePieces (c ∷ cs) ps h k =
    let (nul, percent, rest) = plain-step c (plain cs) h in
    ((nul, percent), chars-ArePieces cs ps rest k)

closing-ArePieces : (lines : ℕ) → lines < 2 ^ 64 → ArePieces (closing lines)
closing-ArePieces lines small =
    chars-ArePieces (codes "La cantidad de lineas es: ") (num lines ∷ char 10 ∷ []) refl
      (small, ((refl, refl), tt))

count_newlines-le : (bs : Chars) → count_newlines bs ≤ length bs
count_newlines-le [] = omega arith
count_newlines-le (c ∷ cs) = ground (arith, count_newlines-le cs)

module _ {S : Type 0} (sys : System S) (streams : Streams S) (laws : OnStreams sys streams) where
  -- A loop that ends with EOF at the next byte, and one that goes on.
  at_eof :
      {A : Type 0} (k : Option ℕ → M S A) (a : A) (rest : Chars)
      → Runs streams (k none) a rest rest []
      → Runs streams (getchar sys >>= k) a (255 ∷ rest) rest []
  at_eof k a rest last =
      Runs-bind streams (getchar sys) k none a (255 ∷ rest) rest rest [] []
        (Runs-getchar sys streams laws 255 rest) last

  at_byte :
      {A : Type 0} (k : Option ℕ → M S A) (a : A) (c : ℕ) (cs j o : Chars)
      → (c == 255) ≡ false
      → Runs streams (k (some c)) a cs j o
      → Runs streams (getchar sys >>= k) a (c ∷ cs) j o
  at_byte k a c cs j o byte next =
      let got : as_int c ≡ some c = rw byte refl in
      Runs-bind streams (getchar sys) k (some c) a (c ∷ cs) cs j [] o
        (rw (sym got) (Runs-getchar sys streams laws c cs)) next

  echo :
      {A : Type 0} (c : ℕ) (m : M S A) (a : A) (i j o : Chars)
      → Runs streams m a i j o
      → Runs streams (putchar sys c >> m) a i j (c ∷ o)
  echo c m a i j o next =
      Runs-bind streams (putchar sys c) (λ _. m) tt a i i j (c ∷ []) o (laws.write_law c i) next

  -- A program ends behind its loop.
  ending :
      (m : M S (Unit {0})) (bs rest o : Chars)
      → Runs streams m tt (bs ++ (255 ∷ rest)) rest o
      → Runs streams (m >> sys.exit) tt (bs ++ (255 ∷ rest)) rest o
  ending m bs rest o loop =
      subst (λ u. Runs streams (m >> sys.exit) tt (bs ++ (255 ∷ rest)) rest u) (append-nil o)
        (Runs-bind streams m (λ _. sys.exit) tt tt (bs ++ (255 ∷ rest)) rest rest o [] loop
          (laws.exit_law rest))

  cat_loop-Runs :
      (fuel : ℕ) (bs rest : Chars)
      → NoEof bs
      → length bs < fuel
      → Runs streams (cat_loop sys fuel) tt (bs ++ (255 ∷ rest)) rest (keep not_nul bs)
  unfolding cat_loop cat_round
  cat_loop-Runs zero bs rest bytes lt = absurd (omega arith)
  cat_loop-Runs (suc fuel) [] rest bytes lt =
      at_eof (cat_round sys (cat_loop sys fuel)) tt rest (Runs-pure streams tt rest)
  cat_loop-Runs (suc fuel) (c ∷ cs) rest bytes lt =
      let next = cat_loop-Runs fuel cs rest bytes.1 (omega arith) in
      let round = cat_round sys (cat_loop sys fuel) in
      at_byte round tt c (cs ++ (255 ∷ rest)) rest (keep not_nul (c ∷ cs)) bytes.0
        (elim (Bool-cases (c == 0)) [
          | inl h ↦ rw h next
          | inr h ↦
              rw h (echo c (cat_loop sys fuel) tt (cs ++ (255 ∷ rest)) rest (keep not_nul cs) next)
        ])

  filter_loop-Runs :
      (fuel : ℕ) (bs rest : Chars)
      → NoEof bs
      → length bs < fuel
      → Runs streams
          (filter_loop sys fuel)
          tt
          (bs ++ (255 ∷ rest))
          rest
          (keep (λ c. not (is_vowel c)) bs)
  unfolding filter_loop filter_round
  filter_loop-Runs zero bs rest bytes lt = absurd (omega arith)
  filter_loop-Runs (suc fuel) [] rest bytes lt =
      at_eof (filter_round sys (filter_loop sys fuel)) tt rest (Runs-pure streams tt rest)
  filter_loop-Runs (suc fuel) (c ∷ cs) rest bytes lt =
      let next = filter_loop-Runs fuel cs rest bytes.1 (omega arith) in
      let round = filter_round sys (filter_loop sys fuel) in
      let others = keep (λ d. not (is_vowel d)) cs in
      at_byte round tt c (cs ++ (255 ∷ rest)) rest (keep (λ d. not (is_vowel d)) (c ∷ cs)) bytes.0
        (elim (Bool-cases (is_vowel c)) [
          | inl h ↦ rw h next
          | inr h ↦ rw h (echo c (filter_loop sys fuel) tt (cs ++ (255 ∷ rest)) rest others next)
        ])

  wc_loop-Runs :
      (fuel lines : ℕ) (bs rest : Chars)
      → NoEof bs
      → length bs < fuel
      → Runs streams
          (wc_loop sys fuel lines)
          (lines + count_newlines bs)
          (bs ++ (255 ∷ rest))
          rest
          (keep not_nul bs)
  unfolding wc_loop wc_round
  wc_loop-Runs zero lines bs rest bytes lt = absurd (omega arith)
  wc_loop-Runs (suc fuel) lines [] rest bytes lt =
      at_eof (wc_round sys (wc_loop sys fuel) lines) (lines + 0) rest
        (rw (add-zero lines) (Runs-pure streams lines rest))
  wc_loop-Runs (suc fuel) lines (c ∷ cs) rest bytes lt =
      let more = if c == newline then lines + 1 else lines in
      let total : more + count_newlines cs ≡ lines + count_newlines (c ∷ cs) = ground arith in
      let next = wc_loop-Runs fuel more cs rest bytes.1 (omega arith) in
      let round = wc_round sys (wc_loop sys fuel) lines in
      at_byte round (lines + count_newlines (c ∷ cs)) c (cs ++ (255 ∷ rest)) rest
        (keep not_nul (c ∷ cs)) bytes.0
        (elim (Bool-cases (c == 0)) [
          | inl h ↦
              let same : lines + count_newlines (c ∷ cs) ≡ lines + count_newlines cs =
                ground arith in
              rw (h, same) (wc_loop-Runs fuel lines cs rest bytes.1 (omega arith))
          | inr h ↦
              rw (h, sym total)
                (echo c (wc_loop sys fuel more) (more + count_newlines cs) (cs ++ (255 ∷ rest)) rest
                  (keep not_nul cs) next)
        ])

  -- `cat` prints what it reads up to EOF but for the NULs, and then ends: it reads no more than the
  -- EOF, and a round for each byte and one more are enough.
  pub run_cat-copies :
      (fuel : ℕ) (bs rest : Chars)
      → NoEof bs
      → length bs < fuel
      → Runs streams (run_cat sys fuel) tt (bs ++ (255 ∷ rest)) rest (keep not_nul bs)
  unfolding run_cat
  run_cat-copies fuel bs rest bytes lt =
      ending (cat_loop sys fuel) bs rest (keep not_nul bs) (cat_loop-Runs fuel bs rest bytes lt)

  -- `filter` prints what it reads up to EOF but for the letters a, e, i, o and u and their capitals, and
  -- then ends: it reads no more than the EOF, and a round for each byte and one more are enough. It
  -- keeps a NUL.
  pub run_filter-consonants :
      (fuel : ℕ) (bs rest : Chars)
      → NoEof bs
      → length bs < fuel
      → Runs streams
          (run_filter sys fuel)
          tt
          (bs ++ (255 ∷ rest))
          rest
          (keep (λ c. not (one_of c (codes "aeiouAEIOU"))) bs)
  unfolding run_filter
  run_filter-consonants fuel bs rest bytes lt =
      subst (Runs streams (run_filter sys fuel) tt (bs ++ (255 ∷ rest)) rest) (vowels-dropped bs) (
        ending (filter_loop sys fuel) bs rest (keep (λ c. not (is_vowel c)) bs)
          (filter_loop-Runs fuel bs rest bytes lt))

  yields-Runs : (n : ℕ) (i : Chars) → Runs streams (yields sys n) tt i i []
  unfolding yields
  yields-Runs zero i = Runs-pure streams tt i
  yields-Runs (suc n) i =
      Runs-bind streams sys.yield_cpu (λ _. yields sys n) tt tt i i i [] [] (laws.yield_law i)
        (yields-Runs n i)

  closing-Runs :
      (lines : ℕ) (i : Chars)
      → lines < 2 ^ 64
      → Runs streams
          (printf sys (codes "La cantidad de lineas es: %d\n") (number lines ∷ [])
            >> (yields sys 100 >> sys.exit))
          tt
          i
          i
          (output_of (closing lines))
  closing-Runs lines i small =
      let pieces : ArePieces (closing lines) = closing-ArePieces lines small in
      let wait =
        Runs-bind streams (yields sys 100) (λ _. sys.exit) tt tt i i i [] [] (yields-Runs 100 i)
          (laws.exit_law i) in
      subst
        (λ u.
          Runs streams
            (printf sys (codes "La cantidad de lineas es: %d\n") (number lines ∷ [])
              >> (yields sys 100 >> sys.exit))
            tt i i u)
        (append-nil (output_of (closing lines)))
        (Runs-bind streams (printf sys (format_of (closing lines)) (values_of (closing lines)))
          (λ _. yields sys 100 >> sys.exit) tt tt i i i (output_of (closing lines)) []
          (printf-prints sys streams laws (closing lines) i pieces) wait)

  -- `wc` prints what it reads up to EOF but for the NULs, then the number of the newlines in it and one
  -- more, in base 10, and then ends, for an input that does not overflow its `int`. It reads no more
  -- than the EOF, and a round for each byte and one more are enough.
  pub run_wc-counts :
      (fuel : ℕ) (bs rest : Chars)
      → NoEof bs
      → length bs < fuel
      → length bs < 2 ^ 31 - 1
      → Runs streams (run_wc sys fuel) tt (bs ++ (255 ∷ rest)) rest (
          keep not_nul bs
          ++ (codes "La cantidad de lineas es: " ++ (decimal (1 + count_newlines bs) ++ (10 ∷ []))))
  unfolding run_wc
  run_wc-counts fuel bs rest bytes lt small =
      let lines = 1 + count_newlines bs in
      let fits : lines < 2 ^ 64 = omega (arith, count_newlines-le bs) in
      Runs-bind streams (wc_loop sys fuel 1)
        (λ n.
          printf sys (codes "La cantidad de lineas es: %d\n") (number n ∷ [])
          >> (yields sys 100 >> sys.exit))
        lines tt (bs ++ (255 ∷ rest)) rest rest (keep not_nul bs) (output_of (closing lines))
        (wc_loop-Runs fuel 1 bs rest bytes lt) (closing-Runs lines rest fits)
