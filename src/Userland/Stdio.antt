-- ===== src/Userland/Stdio.antt =====
-- Userland/SampleCodeModule/stdio.c: characters, strings, `printf` and `read_line`.
pub mod Lines
pub mod Printing
use tp2_so_2c.Prelude.{
  ℕ, zero, suc, ◌+◌, ◌-◌, ◌%◌, ◌^◌, Bool, true, false, ◌&&◌, ◌||◌, not, Option, none, some, List,
  [], ◌∷◌, ltb, leb, ◌==◌, if◌then◌else◌, replicate, length,
}
use mathlib.Core.List.{reverse}
use tp2_so_2c.Effects.{M, pure, fault, ◌>>=◌, ◌>>◌, done, when}
use tp2_so_2c.Text.{Chars}
use tp2_so_2c.Text.Userland.{itoa, strtoi}
use tp2_so_2c.Userland.{System, stdin, stdout, stderr, Color}

abbrev pub max_chars : ℕ
max_chars = 256

-- '\b' and '\n'
abbrev pub backspace : ℕ
backspace = 8

abbrev pub newline : ℕ
newline = 10

-- A value that `printf` prints.
pub data Value : Type 0 where
  number : ℕ → Value
  text : Chars → Value

-- What `getchar` makes of a byte: none is EOF, that is -1.
abbrev pub as_int : ℕ → Option ℕ
as_int c = if c == 255 then none else some c

-- dx - len as a count: none below 0.
abbrev pub padding : ℕ → ℕ → ℕ
padding dx len = if leb (2 ^ 31) dx then 0 else dx - len

-- The character that `read_line` stores for what `getchar` gave: EOF becomes the byte 255.
abbrev pub stored : Option ℕ → ℕ
stored none = 255
stored (some c) = c

module _ {S : Type 0} (sys : System S) where
  open sys use {read, write, yield_cpu, get_font_color, set_font_color}

  -- `putchar`
  abbrev pub putchar : ℕ → M S (Unit {0})
  putchar c = write stdout c

  -- `putcharErr`
  abbrev pub putchar_err : ℕ → M S (Unit {0})
  putchar_err c = write stderr c

  -- `puts`
  unfoldable pub puts : Chars → M S (Unit {0})
  puts [] = done
  puts (c ∷ cs) = let rest = putchar c >> puts cs in if c == 0 then done else rest

  -- `printErr`
  unfoldable pub print_err : Chars → M S (Unit {0})
  print_err [] = done
  print_err (c ∷ cs) = let rest = putchar_err c >> print_err cs in if c == 0 then done else rest

  -- `getchar`
  unfoldable pub getchar : M S (Option ℕ)
  getchar = do c ← read stdin; pure (as_int c)

  -- `printNChars`
  unfoldable pub print_n_chars : ℕ → ℕ → M S (Unit {0})
  print_n_chars c zero = done
  print_n_chars c (suc n) = putchar c >> print_n_chars c n

  -- The padding and the digits that `itoa` gave.
  unfoldable pub print_digits : ℕ → ℕ × Chars → M S (Unit {0})
  unfolding puts print_n_chars
  print_digits dx (len, buffer) = print_n_chars 48 (padding dx len) >> puts buffer

  -- The number, for 'd', 'u' and 'x'. The buffer was cleared before.
  unfoldable pub print_number : ℕ → ℕ → ℕ → M S (Unit {0})
  unfolding print_digits
  print_number dx base n = print_digits dx (itoa n (replicate max_chars 0) base)

  -- The directives of `vprintf`, each with what is left of the arguments. An argument that is not
  -- there, or of another type, is a fault.
  unfoldable pub print_char : List Value → M S (List Value)
  print_char (number n ∷ vs) = putchar (n % 256) >> pure vs
  print_char _ = fault

  unfoldable pub print_in_base : ℕ → ℕ → List Value → M S (List Value)
  unfolding print_number
  print_in_base dx base (number n ∷ vs) = print_number dx base n >> pure vs
  print_in_base dx base _ = fault

  unfoldable pub print_text : ℕ → List Value → M S (List Value)
  unfolding puts print_n_chars
  print_text dx (text s ∷ vs) = print_n_chars 32 dx >> puts s >> pure vs
  print_text dx _ = fault

  -- The switch of `vprintf`: 'c', 'd' and 'u', 'x', 's', and any other character as it is.
  unfoldable pub directive : ℕ → ℕ → List Value → M S (List Value)
  unfolding print_char print_in_base print_text
  directive c dx vs =
      if c == 99
      then print_char vs
      else if (c == 100) || (c == 117)
      then print_in_base dx 10 vs
      else if c == 120
      then print_in_base dx 16 vs
      else if c == 115
      then print_text dx vs
      else (putchar c >> pure vs)

  -- What `vprintf` does behind a '%' and its number, with the round for the rest of the format.
  unfoldable pub behind_number :
      ℕ × Chars → (Chars → List Value → M S (Unit {0})) → List Value → M S (Unit {0})
  unfolding directive
  behind_number (dx, []) loop vs = fault
  behind_number (dx, c ∷ cs) loop vs = if c == 0 then fault else (directive c dx vs >>= loop cs)

  -- The loop of `vprintf`, on fuel. A '%' at the end of the format makes the code read behind it: a
  -- fault.
  unfoldable pub format_loop : ℕ → Chars → List Value → M S (Unit {0})
  unfolding behind_number
  format_loop zero fmt vs = fault
  format_loop (suc fuel) [] vs = done
  format_loop (suc fuel) (c ∷ cs) vs =
      if c == 0
      then done
      else if c == 37
      then behind_number (strtoi cs) (format_loop fuel) vs
      else (putchar c >> format_loop fuel cs vs)

  -- `printf`: no format has more rounds than characters.
  unfoldable pub printf : Chars → List Value → M S (Unit {0})
  unfolding format_loop
  printf fmt vs = format_loop (length fmt + 1) fmt vs

  -- `printfc`
  pub printfc : Color → Chars → List Value → M S (Unit {0})
  unfolding printf
  printfc color fmt vs = do
    prev ← get_font_color
    set_font_color color.r color.g color.b >> printf fmt vs >> set_font_color prev.r prev.g prev.b

  -- The line behind a backspace, and what is shown for it.
  unfoldable pub erase : Chars → M S Chars
  erase [] = pure []
  erase (c ∷ line) = putchar backspace >> (putchar 32 >> (putchar backspace >> pure line))

  -- The line behind another character.
  unfoldable pub type_char : ℕ → ℕ → Chars → M S Chars
  type_char room c line =
      if ltb (length line) room then (putchar c >> pure (c ∷ line)) else pure line

  -- The loop of `read_line`, on fuel: `line` holds dst[len - 1] to dst[0], and `room` is maxlen - 1.
  unfoldable pub line_loop : ℕ → ℕ → Chars → M S Chars
  unfolding getchar erase type_char
  line_loop zero room line = fault
  line_loop (suc fuel) room line = do
    got ← getchar
    let c = stored got
    if c == 0
        then (yield_cpu >> line_loop fuel room line)
        else if c == newline
        then (putchar newline >> pure line)
        else if c == backspace
        then (erase line >>= line_loop fuel room)
        else (type_char room c line >>= line_loop fuel room)

  -- `read_line` into a buffer of `maxlen` bytes: the line, whose length the code answers.
  unfoldable pub read_line : ℕ → ℕ → M S Chars
  unfolding line_loop
  read_line fuel maxlen =
      if leb maxlen 1
      then pure []
      else (line_loop fuel (maxlen - 1) [] >>= λ line. pure (reverse line))
