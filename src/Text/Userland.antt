-- ===== src/Text/Userland.antt =====
-- string.c and stdlib.c of Userland/SampleCodeModule: their own copies of functions of Kernel/lib.c,
-- which read the same, and `strtoh`.
use tp2_so_2c.Prelude.{ℕ, ◌+◌, ◌-◌, ◌*◌, ◌%◌, ◌^◌, ◌&&◌, ◌||◌, Bool, [], ◌∷◌, leb, if◌then◌else◌}
use tp2_so_2c.Text
use tp2_so_2c.Text.{Chars, is_digit}

-- `strcmp` of string.c
abbrev pub strcmp : Chars → Chars → ℕ
strcmp = Text.strcmp

-- `strcpychar` of string.c
abbrev pub strcpychar : Chars → Chars → ℕ → ℕ × Chars
strcpychar = Text.strcpychar

-- `strcpy` of string.c
abbrev pub strcpy : Chars → Chars → ℕ × Chars
strcpy dest origin = strcpychar dest origin 0

-- `itoa` of stdlib.c: its test `n < 0` of an unsigned number never holds.
abbrev pub itoa : ℕ → Chars → ℕ → ℕ × Chars
itoa = Text.itoa

-- `strtoi` of stdlib.c
abbrev pub strtoi : Chars → ℕ × Chars
strtoi = Text.strtoi

-- `isHex`, 'a' to 'f'
abbrev pub is_hex : ℕ → Bool
is_hex c = leb 97 c && leb c 102

-- `toLower`
abbrev pub to_lower : ℕ → ℕ
to_lower c = if leb 65 c && leb c 90 then c + 32 else c

-- What the loop of `strtoh` adds for a character.
abbrev pub hex_value : ℕ → ℕ
hex_value c = (if is_digit c then c - 48 else 0) + (if is_hex c then c - 97 + 10 else 0)

-- The loop of `strtoh`: the number, modulo 2 ^ 32, and the rest of the string.
pub hex_loop : ℕ → Chars → ℕ × Chars
hex_loop num [] = (num, [])
hex_loop num (c ∷ cs) =
    let rest = hex_loop ((num * 16 + hex_value (to_lower c)) % 2 ^ 32) cs in
    if is_digit c || is_hex c then rest else (num, c ∷ cs)

-- `strtoh`: the number and `*end`.
pub strtoh : Chars → ℕ × Chars
unfolding hex_loop
strtoh s = hex_loop 0 s
