-- ===== src/Text.antt =====
-- Kernel/lib.c, and string.c and stdlib.c of Userland/SampleCodeModule: bytes, strings and numbers.
-- The memory behind a `char *` is the list of its bytes; behind its end there is the NUL that ends a
-- string. A `char` is its pattern of 8 bits, an `int` its pattern of 32 bits.
pub mod Memory
pub mod Copying
pub mod Listing
pub mod Digits
pub mod Decimal
pub mod Userland
mod Tests
use tp2_so_2c.Prelude.{
  ℕ, zero, suc, ◌+◌, ◌-◌, ◌*◌, ◌/◌, ◌%◌, ◌^◌, Bool, true, false, ◌&&◌, ◌||◌, not, Option, none,
  some, List, [], ◌∷◌, ltb, leb, ◌==◌, if◌then◌else◌, set,
}

abbrev pub Chars : Type 0
Chars = List ℕ

-- The first byte behind a pointer, NUL at the end.
abbrev pub first : Chars → ℕ
first [] = 0
first (c ∷ cs) = c

-- A `char` taken as an `int`: the sign bit is extended.
abbrev pub to_int : ℕ → ℕ
to_int c = if ltb c 128 then c else c + (2 ^ 32 - 256)

-- `strcmp`: *s1 - *s2 at the first place where the strings differ or the first one ends.
unfoldable pub strcmp : Chars → Chars → ℕ
strcmp [] t = (2 ^ 32 - to_int (first t)) % 2 ^ 32
strcmp (c ∷ cs) [] = to_int c
strcmp (c ∷ cs) (d ∷ ds) =
    let rest = strcmp cs ds in
    if not (c == 0) && (c == d) then rest else (to_int c + (2 ^ 32 - to_int d)) % 2 ^ 32

-- The loop of `strcpychar` from the index `idx` on.
pub copy_loop : Chars → Chars → ℕ → ℕ → ℕ × Chars
copy_loop dest [] limit idx = (idx, set dest idx 0)
copy_loop dest (c ∷ cs) limit idx =
    let rest = copy_loop (set dest idx c) cs limit (idx + 1) in
    if (c == limit) || (c == 0) then (idx, set dest idx 0) else rest

-- `strcpychar`: the number of characters copied, and the destination.
pub strcpychar : Chars → Chars → ℕ → ℕ × Chars
unfolding copy_loop
strcpychar dest origin limit = copy_loop dest origin limit 0

-- `my_strcpy`
pub my_strcpy : Chars → Chars → ℕ × Chars
unfolding strcpychar
my_strcpy dest origin = strcpychar dest origin 0

-- `my_strlen`
pub my_strlen : Chars → ℕ
my_strlen [] = 0
my_strlen (c ∷ cs) = let rest = my_strlen cs in if c == 0 then 0 else rest + 1

-- `strlen` of string.c, none for NULL.
pub strlen : Option Chars → ℕ
unfolding my_strlen
strlen none = 0
strlen (some s) = my_strlen s

-- `find_char` of string.c: the rest of the string from the character on, none for NULL.
pub find_char : Option Chars → ℕ → Option Chars
find_char none c = none
find_char (some []) c = none
find_char (some (d ∷ ds)) c =
    let rest = find_char (some ds) c in
    if d == 0 then none else if d == c then some (d ∷ ds) else rest

-- The loop of `str_in_list` from the index `i` on; a string of the list may be NULL. none stands
-- for -1.
unfoldable pub search_list : Chars → List (Option Chars) → ℕ → Option ℕ
unfolding strcmp
search_list needle [] i = none
search_list needle (none ∷ ss) i = search_list needle ss (i + 1)
search_list needle (some s ∷ ss) i =
    let rest = search_list needle ss (i + 1) in if strcmp needle s == 0 then some i else rest

-- `str_in_list` of string.c, where none is a string NULL, and an empty list also stands for NULL.
unfoldable pub str_in_list : Option Chars → List (Option Chars) → Option ℕ
unfolding search_list
str_in_list none list = some 0
str_in_list (some needle) [] = some 0
str_in_list (some needle) (s ∷ ss) = search_list needle (s ∷ ss) 0

-- `my_isdigit`, '0' to '9'
abbrev pub is_digit : ℕ → Bool
is_digit c = leb 48 c && leb c 57

-- The loop of `strtoi`: the number, modulo 2 ^ 32, and the rest of the string.
pub digits_loop : ℕ → Chars → ℕ × Chars
digits_loop num [] = (num, [])
digits_loop num (c ∷ cs) =
    let rest = digits_loop ((num * 10 + c + (2 ^ 32 - 48)) % 2 ^ 32) cs in
    if is_digit c then rest else (num, c ∷ cs)

-- `strtoi`: the number and `*end`.
pub strtoi : Chars → ℕ × Chars
unfolding digits_loop
strtoi s = digits_loop 0 s

-- `atoi` of stdlib.c
pub atoi : Chars → ℕ
unfolding digits_loop
atoi s = (digits_loop 0 s).0

-- while (str[i] == ' ' || str[i] == '\t') i++;
pub skip_blanks : Chars → Chars
skip_blanks [] = []
skip_blanks (c ∷ cs) = let rest = skip_blanks cs in if (c == 32) || (c == 9) then rest else c ∷ cs

-- `str_to_uint32` of string.c
pub str_to_uint32 : Chars → ℕ
unfolding skip_blanks digits_loop
str_to_uint32 str =
    let s = skip_blanks str in
    let (result, rest) = digits_loop 0 s in
    if not (is_digit (first s)) || not (first (skip_blanks rest) == 0) then 2 ^ 32 - 1 else result

-- `log`: while (n /= base) count++, on fuel.
pub log_loop : ℕ → ℕ → ℕ → ℕ → ℕ
log_loop zero n base count = count
log_loop (suc fuel) n base count =
    let rest = log_loop fuel (n / base) base (count + 1) in if n / base == 0 then count else rest

-- The character of a digit: '0' to '9', then 'A' and on.
abbrev pub digit : ℕ → ℕ
digit r = if ltb 9 r then r - 10 + 65 else r + 48

-- The loop of `itoa`, on fuel: the digits from the last one on, at the indices below `len`.
pub itoa_loop : ℕ → ℕ → ℕ → ℕ → ℕ → Chars → ℕ × Chars
itoa_loop zero n base len i buffer = (i, buffer)
itoa_loop (suc fuel) n base len i buffer =
    let rest =
      itoa_loop fuel (n / base) base len (i + 1) (set buffer (len - i - 1) (digit (n % base))) in
    if n == 0 then (i, buffer) else rest

-- `itoa` on fuel for its two loops: the number of characters, and the buffer.
pub itoa_on : ℕ → ℕ → Chars → ℕ → ℕ × Chars
itoa_on fuel n buffer base =
    if n == 0
    then (1, set (set buffer 0 48) 1 0)
    else (let len = log_loop fuel n base 1 in
        let (i, written) = itoa_loop fuel n base len 0 buffer in (len, set written i 0))

-- `itoa`. A 64-bit number has at most 64 digits.
pub itoa : ℕ → Chars → ℕ → ℕ × Chars
itoa n buffer base = itoa_on 64 n buffer base
