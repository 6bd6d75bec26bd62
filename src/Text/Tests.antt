-- ===== src/Text/Tests.antt =====
-- The functions on bytes, strings and numbers: tests, and the theorems at small inputs.
use tp2_so_2c.Prelude.{◌≡◌, refl, none, some, [], ◌∷◌, arith}
use tp2_so_2c.Text.{
  Chars, strcmp, my_strlen, str_in_list, strtoi, str_to_uint32, itoa, itoa_on, log_loop, itoa_loop,
}
use tp2_so_2c.Text.Memory.{Bytes}
use tp2_so_2c.Text.Copying.{IsText, my_strlen-text}
use tp2_so_2c.Text.Digits.{size}
use tp2_so_2c.Text.Decimal.{strtoi-itoa}

-- "ls" and "lt"
abbrev ls : Chars
ls = 108 ∷ 115 ∷ []

abbrev lt : Chars
lt = 108 ∷ 116 ∷ []

ls-IsText : IsText ls
ls-IsText = (ground arith, ground arith, (ground arith, ground arith, tt))

lt-IsText : IsText lt
lt-IsText = (ground arith, ground arith, (ground arith, ground arith, tt))

compare_smaller : strcmp ls lt ≡ 4294967295
unfolding strcmp
compare_smaller = refl

list_index : str_in_list (some lt) (some ls ∷ none ∷ some lt ∷ []) ≡ some 2
unfolding str_in_list
list_index = refl

-- A needle NULL gets the answer of the first index.
list_null : str_in_list none (some ls ∷ []) ≡ some 0
unfolding str_in_list
list_null = refl

blanks_and_digits : str_to_uint32 (32 ∷ 52 ∷ 50 ∷ 9 ∷ []) ≡ 42
unfolding str_to_uint32
blanks_and_digits = refl

not_a_number : str_to_uint32 (52 ∷ 120 ∷ []) ≡ 4294967295
unfolding str_to_uint32
not_a_number = refl

hexadecimal : itoa 255 (0 ∷ 0 ∷ 0 ∷ []) 16 ≡ (2, 70 ∷ 70 ∷ 0 ∷ [])
unfolding itoa itoa_on log_loop itoa_loop
hexadecimal = refl

size_42 : 2 ≡ size 64 42 10
unfolding size
size_42 = refl

my_strlen-text_example : my_strlen (108 ∷ 115 ∷ 0 ∷ 9 ∷ []) ≡ 2
my_strlen-text_example = my_strlen-text ls (9 ∷ []) ls-IsText

strtoi-itoa_example : strtoi (itoa 42 (7 ∷ 7 ∷ 7 ∷ []) 10).1 ≡ (42, 0 ∷ [])
strtoi-itoa_example = strtoi-itoa 42 7 (7 ∷ 7 ∷ []) [] (omega arith) (omega arith) size_42

abbrev addresses : Bytes
addresses a = a
