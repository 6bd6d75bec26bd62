-- ===== src/Userland/Stdio/Lines.antt =====
-- Userland/SampleCodeModule/stdio.c: `read_line` on a stream of keys.
use tp2_so_2c.Prelude.{◌≡◌, ℕ, false, Option, [], ◌∷◌, ◌++◌, ltb, ◌==◌, if◌then◌else◌, length}
use tp2_so_2c.Effects.{M, pure, ◌>>=◌, ◌>>◌}
use tp2_so_2c.Text.{Chars}
use tp2_so_2c.Userland.{System}
use tp2_so_2c.Userland.Stdio.{putchar, stored, newline, backspace, erase, type_char, line_loop}
use tp2_so_2c.Userland.Console.{Streams, OnTerminal, glyph}

-- The line behind a key other than Enter: a NUL does nothing, a backspace takes the last character
-- away, another byte goes behind the line where there is room. The last character stands first.
abbrev pub edit : ℕ → ℕ → Chars → Chars
edit room c [] =
    if c == 0 then [] else if c == backspace then [] else if ltb 0 room then c ∷ [] else []
edit room c (d ∷ line) =
    if c == 0
    then d ∷ line
    else if c == backspace
    then line
    else if ltb (length (d ∷ line)) room
    then c ∷ d ∷ line
    else d ∷ line

-- What is shown for it.
abbrev pub shown : ℕ → ℕ → Chars → Chars
shown room c [] =
    if c == 0 then [] else if c == backspace then [] else if ltb 0 room then glyph c else []
shown room c (d ∷ line) =
    if c == 0
    then []
    else if c == backspace
    then backspace ∷ 32 ∷ backspace ∷ []
    else if ltb (length (d ∷ line)) room
    then glyph c
    else []

-- The line behind several keys, and what is shown for them.
abbrev pub edits : ℕ → Chars → Chars → Chars
edits room [] line = line
edits room (c ∷ cs) line = edits room cs (edit room c line)

abbrev pub echoes : ℕ → Chars → Chars → Chars
echoes room [] line = []
echoes room (c ∷ cs) line = shown room c line ++ echoes room cs (edit room c line)

-- No key is Enter.
abbrev pub NoEnter : Chars → Type 0
NoEnter [] = Unit
NoEnter (c ∷ cs) = ((c == newline) ≡ false) × NoEnter cs

module _ {S : Type 0} (sys : System S) (streams : Streams S) (laws : OnTerminal sys streams) where
  -- What a round does with a byte other than NUL and Enter.
  abbrev act : ℕ → ℕ → Chars → M S Chars
  act room c line = if c == backspace then erase sys line else type_char sys room c line

  -- A round of the loop for the byte `c`.
  abbrev round : ℕ → ℕ → Chars → Option ℕ → M S Chars
  round fuel room line got =
      let c = stored got in
      if c == 0
      then (sys.yield_cpu >> line_loop sys fuel room line)
      else if c == newline
      then (putchar sys newline >> pure line)
      else if c == backspace
      then (erase sys line >>= line_loop sys fuel room)
      else (type_char sys room c line >>= line_loop sys fuel room)
