-- ===== src/Video/Printf.antt =====
-- Kernel/utils/drivers/video.c: `printf` of the kernel.
-- An argument that is not there, or of another type, and a read behind the format are a fault.
use tp2_so_2c.Prelude.{
  ℕ, zero, suc, ◌+◌, ◌-◌, ◌%◌, ◌^◌, List, [], ◌∷◌, leb, ◌==◌, if◌then◌else◌, replicate, length,
  some,
}
use tp2_so_2c.Effects.{M, pure, fault, ◌>>=◌, ◌>>◌, done}
use tp2_so_2c.Text.{Chars, itoa, strtoi}
use tp2_so_2c.Video.{Video, print_char, print, print_n_chars}

-- An argument that is printed.
pub data Value : Type 0 where
  number : ℕ → Value
  text : Chars → Value

-- The `int` that `printNChars` gets for the number in a format.
abbrev pub rounds : ℕ → ℕ
rounds n = if leb (2 ^ 31) n then 0 else n

module _ (fonts : ℕ → ℕ → ℕ) where
  abbrev act : (Video → Video) → M Video (Unit {0})
  act f v = some (tt, f v)

  -- The padding and the digits that `itoa` gave.
  unfoldable print_digits : ℕ → ℕ × Chars → Video → Video
  unfolding print print_n_chars
  print_digits dx (len, buffer) v = print fonts buffer (print_n_chars fonts 48 (rounds dx - len) v)

  unfoldable pub print_in_base : ℕ → ℕ → List Value → M Video (List Value)
  unfolding print_digits
  print_in_base dx base (number n ∷ vs) =
      act (print_digits dx (itoa n (replicate 256 0) base)) >> pure vs
  print_in_base dx base _ = fault

  unfoldable pub print_text : ℕ → List Value → M Video (List Value)
  unfolding print print_n_chars
  print_text dx (text s ∷ vs) =
      act (λ v. print fonts s (print_n_chars fonts 32 (rounds dx) v)) >> pure vs
  print_text dx _ = fault

  unfoldable pub print_value : List Value → M Video (List Value)
  unfolding print_char
  print_value (number n ∷ vs) = act (print_char fonts (n % 256)) >> pure vs
  print_value _ = fault

  -- The switch of `printf`: 'c', 'd', 'x' and 's'; any other character prints nothing.
  unfoldable pub directive : ℕ → ℕ → List Value → M Video (List Value)
  unfolding print_value print_in_base print_text
  directive c dx vs =
      if c == 99
      then print_value vs
      else if c == 100
      then print_in_base dx 10 vs
      else if c == 120
      then print_in_base dx 16 vs
      else if c == 115
      then print_text dx vs
      else pure vs

  -- Behind a '%' and its number, with the round for the rest of the format.
  unfoldable pub behind_number :
      ℕ × Chars → (Chars → List Value → M Video (Unit {0})) → List Value → M Video (Unit {0})
  unfolding directive
  behind_number (dx, []) loop vs = fault
  behind_number (dx, c ∷ cs) loop vs = if c == 0 then fault else (directive c dx vs >>= loop cs)

  -- The loop of `printf`, on fuel.
  unfoldable pub format_loop : ℕ → Chars → List Value → M Video (Unit {0})
  unfolding behind_number print_char
  format_loop zero fmt vs = fault
  format_loop (suc fuel) [] vs = done
  format_loop (suc fuel) (c ∷ cs) vs =
      if c == 0
      then done
      else if c == 37
      then behind_number (strtoi cs) (format_loop fuel) vs
      else (act (print_char fonts c) >> format_loop fuel cs vs)

  -- `printf`: no format has more rounds than characters.
  unfoldable pub printf : Chars → List Value → M Video (Unit {0})
  unfolding format_loop
  printf fmt vs = format_loop (length fmt + 1) fmt vs
