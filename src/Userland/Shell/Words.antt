-- ===== src/Userland/Shell/Words.antt =====
-- Userland/SampleCodeModule/shell.c: the words of a line.
use tp2_so_2c.Prelude.{
  arith, ◌≡◌, refl, ap, ◌∙◌, ℕ, zero, suc, ◌+◌, ◌-◌, ◌<◌, ◌≤◌, false, Option, some, none, List, [],
  ◌∷◌, ◌++◌, ◌==◌, length, map, length-append,
}
use mathlib.Core.List.{append-nil}
use native.Mathlib.Nat.{zero-add, suc-add}
use tp2_so_2c.Text.{Chars}
use tp2_so_2c.Text.Listing.{Others, str_in_list-first}
use tp2_so_2c.Userland.{Argv}
use tp2_so_2c.Userland.Shell.{
  blank, bar, max_args, skip_blanks, take_word, split_loop, split_args, pad, first, from,
  separate_at, separate_cmds,
}

abbrev pub blanks : ℕ → Chars
blanks zero = []
blanks (suc n) = blank ∷ blanks n

-- No character is a blank.
abbrev pub NoBlank : Chars → Type 0
NoBlank [] = Unit
NoBlank (c ∷ cs) = ((c == blank) ≡ false) × NoBlank cs

-- A word has a character, and no blank.
abbrev pub IsWord : Chars → Type 0
IsWord [] = ⊥
IsWord (c ∷ cs) = NoBlank (c ∷ cs)

abbrev pub AreWords : List (Chars × ℕ) → Type 0
AreWords [] = Unit
AreWords ((w, g) ∷ ps) = IsWord w × AreWords ps

-- A line of words: behind each, `g` blanks and one more, but behind the last only `g`.
abbrev pub lay : List (Chars × ℕ) → Chars
lay [] = []
lay ((w, g) ∷ []) = w ++ blanks g
lay ((w, g) ∷ p ∷ ps) = w ++ (blank ∷ (blanks g ++ lay (p ∷ ps)))

abbrev pub words : List (Chars × ℕ) → List Chars
words [] = []
words ((w, g) ∷ ps) = w ∷ words ps

-- The first `n` of a list.
abbrev pub take : ℕ → List Chars → List Chars
take zero ws = []
take (suc n) [] = []
take (suc n) (w ∷ ws) = w ∷ take n ws

take_word-stop : (w r : Chars) → NoBlank w → take_word (w ++ (blank ∷ r)) ≡ (w, blank ∷ r)
unfolding take_word
take_word-stop [] r h = refl
take_word-stop (c ∷ cs) r h = rw (take_word-stop cs r h.1, h.0) refl

take_word-all : (w : Chars) → NoBlank w → take_word (w ++ []) ≡ (w, [])
unfolding take_word
take_word-all [] h = refl
take_word-all (c ∷ cs) h = rw (take_word-all cs h.1, h.0) refl

skip_blanks-all : (n : ℕ) → skip_blanks (blanks n) ≡ []
unfolding skip_blanks
skip_blanks-all zero = refl
skip_blanks-all (suc n) = skip_blanks-all n

skip_blanks-char :
    (n c : ℕ) (cs : Chars) → (c == blank) ≡ false → skip_blanks (blanks n ++ (c ∷ cs)) ≡ c ∷ cs
unfolding skip_blanks
skip_blanks-char zero c cs h = rw h refl
skip_blanks-char (suc n) c cs h = skip_blanks-char n c cs h

skip_blanks-lay :
    (n : ℕ) (ps : List (Chars × ℕ)) → AreWords ps → skip_blanks (blanks n ++ lay ps) ≡ lay ps
skip_blanks-lay n [] h = rw (append-nil (blanks n)) (skip_blanks-all n)
skip_blanks-lay n (([], g) ∷ ps) h = absurd (h.0)
skip_blanks-lay n ((c ∷ cs, g) ∷ []) h = skip_blanks-char n c (cs ++ blanks g) (h.0.0)
skip_blanks-lay n ((c ∷ cs, g) ∷ p ∷ ps) h =
    skip_blanks-char n c (cs ++ (blank ∷ (blanks g ++ lay (p ∷ ps)))) (h.0.0)

word_step :
    (room : ℕ) (w r rest : Chars)
    → IsWord w
    → take_word (w ++ r) ≡ (w, rest)
    → split_loop (suc room) (w ++ r) ≡ w ∷ split_loop room (skip_blanks rest)
unfolding split_loop
word_step room [] r rest h e = absurd h
word_step room (c ∷ cs) r rest h e = rw e refl

last_word :
    (g : ℕ) (w : Chars)
    → IsWord w
    → (rest : Chars) × (take_word (w ++ blanks g) ≡ (w, rest)) × (skip_blanks rest ≡ [])
last_word g [] h = absurd h
last_word zero (c ∷ cs) h = ([], take_word-all (c ∷ cs) h, skip_blanks-all 0)
last_word (suc g) (c ∷ cs) h =
    (blanks (suc g), take_word-stop (c ∷ cs) (blanks g) h, skip_blanks-all (suc g))

IsWord-NoBlank : (w : Chars) → IsWord w → NoBlank w
IsWord-NoBlank [] h = tt
IsWord-NoBlank (c ∷ cs) h = h

split_loop-lay :
    (room : ℕ) (ps : List (Chars × ℕ))
    → AreWords ps
    → split_loop room (lay ps) ≡ take room (words ps)
unfolding split_loop
split_loop-lay zero ps h = refl
split_loop-lay (suc room) [] h = refl
split_loop-lay (suc room) ((w, g) ∷ []) h =
    let (rest, taken, skipped) = last_word g w h.0 in
    word_step room w (blanks g) rest h.0 taken
    ∙ ap (λ s. w ∷ split_loop room s) skipped
    ∙ ap (λ l. w ∷ l) (split_loop-lay room [] tt)
split_loop-lay (suc room) ((w, g) ∷ p ∷ ps) h =
    let tail = blanks g ++ lay (p ∷ ps) in
    word_step room w (blank ∷ tail) (blank ∷ tail) h.0
      (take_word-stop w tail (IsWord-NoBlank w h.0))
    ∙ ap (λ s. w ∷ split_loop room s) (skip_blanks-lay (suc g) (p ∷ ps) h.1)
    ∙ ap (λ l. w ∷ l) (split_loop-lay room (p ∷ ps) h.1)

-- `split_args` finds the words of a line, whatever the blanks before, between and behind them: the
-- array holds them in their order and NULL behind them, and the answer is their number. Of more
-- than MAX_ARGS words, only the first ones are seen.
pub split_args-words :
    (n : ℕ) (ps : List (Chars × ℕ))
    → AreWords ps
    → split_args (blanks n ++ lay ps)
      ≡ (length (take max_args (words ps)), pad max_args (take max_args (words ps)))
unfolding split_args
split_args-words n ps h =
    ap (λ ws. (length ws, pad max_args ws))
      (ap (λ s. split_loop max_args s) (skip_blanks-lay n ps h) ∙ split_loop-lay max_args ps h)

first-map : (ls : List Chars) (r : Argv) → first (length ls) (map some ls ++ r) ≡ map some ls
first-map [] r = refl
first-map (w ∷ ls) r = ap (λ l. some w ∷ l) (first-map ls r)

from-map :
    (ls : List Chars) (p : Option Chars) (r : Argv)
    → from (length ls + 1) (map some ls ++ (p ∷ r)) ≡ from 0 r
from-map [] p r = refl
from-map (w ∷ ls) p r =
    ap (λ n. from n (some w ∷ (map some ls ++ (p ∷ r)))) (suc-add (length ls) 1) ∙ from-map ls p r

from-pad : (n : ℕ) (rs : List Chars) → length rs ≤ n → from 0 (pad n rs) ≡ map some rs
from-pad zero [] h = refl
from-pad (suc n) [] h = refl
from-pad zero (w ∷ rs) h = absurd (omega arith)
from-pad (suc n) (w ∷ rs) h = ap (λ l. some w ∷ l) (from-pad n rs (omega arith))

pub pad-append :
    (ls ws : List Chars) (n : ℕ) → pad (length ls + n) (ls ++ ws) ≡ map some ls ++ pad n ws
pad-append [] ws n = ap (λ k. pad k ws) (zero-add n)
pad-append (w ∷ ls) ws n =
    ap (λ k. pad k (w ∷ (ls ++ ws))) (suc-add (length ls) n)
    ∙ ap (λ l. some w ∷ l) (pad-append ls ws n)

take-nil : (n : ℕ) → take n [] ≡ []
take-nil zero = refl
take-nil (suc n) = refl

pub take-all : (n : ℕ) (ws : List Chars) → length ws ≤ n → take n ws ≡ ws
take-all n [] h = take-nil n
take-all zero (w ∷ ws) h = absurd (omega arith)
take-all (suc n) (w ∷ ws) h = ap (λ l. w ∷ l) (take-all n ws (omega arith))

-- The array of the words before the bar, the bar, and those behind it.
bar_array :
    (ls rs : List Chars)
    → length ls + length rs < max_args
    → pad max_args (ls ++ ((124 ∷ []) ∷ rs))
      ≡ map some ls ++ (bar ∷ pad (max_args - length ls - 1) rs)
bar_array ls rs h =
    let size : max_args ≡ length ls + suc (max_args - length ls - 1) = omega arith in
    ap (λ n. pad n (ls ++ ((124 ∷ []) ∷ rs))) size
    ∙ pad-append ls ((124 ∷ []) ∷ rs) (suc (max_args - length ls - 1))

separate-bar :
    (ls rs : List Chars)
    → Others (124 ∷ []) ls
    → length ls + length rs < max_args
    → separate_cmds (pad max_args (ls ++ ((124 ∷ []) ∷ rs)))
      ≡ (map some ls ++ (none ∷ []), map some rs ++ (none ∷ []))
unfolding separate_cmds separate_at
separate-bar ls rs others h =
    let behind = pad (max_args - length ls - 1) rs in
    rw
      (
        bar_array ls rs h,
        str_in_list-first (124 ∷ []) ls behind (omega arith) others,
        first-map ls (bar ∷ behind),
        from-map ls bar behind,
        from-pad (max_args - length ls - 1) rs (omega arith),
      )
      refl

-- A line of at most MAX_ARGS words, one of them a bar, is taken apart into two commands: the words
-- before the first bar and those behind it, each with NULL behind the last, whatever the blanks.
-- The strings are those of C, without NUL and of bytes.
pub separate-split :
    (n : ℕ) (ps : List (Chars × ℕ)) (ls rs : List Chars)
    → AreWords ps
    → words ps ≡ ls ++ ((124 ∷ []) ∷ rs)
    → Others (124 ∷ []) ls
    → length ls + length rs < max_args
    → separate_cmds ((split_args (blanks n ++ lay ps)).1)
      ≡ (map some ls ++ (none ∷ []), map some rs ++ (none ∷ []))
separate-split n ps ls rs h e others fits =
    let all : length (ls ++ ((124 ∷ []) ∷ rs)) ≤ max_args =
      omega (arith, length-append ls ((124 ∷ []) ∷ rs)) in
    ap (λ r. separate_cmds (r.1)) (split_args-words n ps h)
    ∙ ap (λ ws. separate_cmds (pad max_args (take max_args ws))) e
    ∙ ap (λ ws. separate_cmds (pad max_args ws)) (take-all max_args (ls ++ ((124 ∷ []) ∷ rs)) all)
    ∙ separate-bar ls rs others fits
