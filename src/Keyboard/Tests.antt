-- ===== src/Keyboard/Tests.antt =====
-- keyboard.c on a few keys: tests, and the theorems at them.
use tp2_so_2c.Prelude.{false, ℕ, ◌+◌, ◌≡◌, refl, List, [], ◌∷◌, arith}
use tp2_so_2c.Keyboard.{
  Keyboard, initial, Others, keyboard_handler, get_ascii, writable, push_key, write_key,
  key_pressed, key_released, other_key, ctrl_key,
}
use tp2_so_2c.Keyboard.Queue.{IsKeyboard, Handled, keyboard_handler-Handled}

-- Who counts the posts and the kills.
abbrev Count : Type 0
Count = ℕ × ℕ

abbrev counts : Others Count
counts = record { post = λ s. (s.0 + 1, s.1); kill_foreground = λ s. (s.0, s.1 + 1) }

abbrev handle : List ℕ → Keyboard × Count → Keyboard × Count
handle [] r = r
handle (c ∷ cs) (k, s) = handle cs (keyboard_handler counts c k s)

abbrev typed : List ℕ → ℕ
typed codes = (get_ascii (handle codes (initial, (0, 0))).0).0

-- 'a', and 'A' by Shift.
types_a : typed (30 ∷ 158 ∷ []) ≡ 97
unfolding keyboard_handler get_ascii initial key_released key_pressed other_key ctrl_key write_key
    writable push_key
types_a = refl

types_shifted : typed (42 ∷ 30 ∷ 158 ∷ 170 ∷ []) ≡ 65
unfolding keyboard_handler get_ascii initial key_released key_pressed other_key ctrl_key write_key
    writable push_key
types_shifted = refl

-- After Ctrl and C the queue is empty, but the post of the key before it stays: a later
-- `getAscii` that the semaphore lets pass finds no key and answers 0.
cleared_but_posted : (handle (30 ∷ 29 ∷ 46 ∷ []) (initial, (0, 0))).1 ≡ (1, 1)
unfolding keyboard_handler initial key_pressed other_key ctrl_key write_key writable
cleared_but_posted = refl

cleared_answers_nul : typed (30 ∷ 29 ∷ 46 ∷ []) ≡ 0
unfolding keyboard_handler get_ascii initial key_released key_pressed other_key ctrl_key write_key
    writable push_key
cleared_answers_nul = refl

-- The keys 'a' and 'b' wait.
abbrev two_keys : Keyboard
two_keys = record {
  buffer_start = 9;
  buffer_size = 2;
  buffer = 48 ∷ 0 ∷ 0 ∷ 0 ∷ 0 ∷ 0 ∷ 0 ∷ 0 ∷ 0 ∷ 30 ∷ [];
  ctrl = false;
  shift = false;
}

two_keys-IsKeyboard : IsKeyboard two_keys
two_keys-IsKeyboard = record { sized = refl; starts_inside = omega arith; bounded = omega arith }

keyboard_handler-Handled_example :
    Handled counts two_keys (2, 0) (keyboard_handler counts 31 two_keys (2, 0))
keyboard_handler-Handled_example =
    keyboard_handler-Handled counts 31 two_keys (2, 0) two_keys-IsKeyboard
