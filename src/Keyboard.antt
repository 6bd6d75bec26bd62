-- ===== src/Keyboard.antt =====
-- Kernel/utils/drivers/keyboard.c: the queue of keys, and the keys that are held.
-- A key is a byte, its scan code; `char` values are patterns of 8 bits, so EOF is 255. What the
-- screen shows of a key is not modelled.
pub mod Queue
mod Tests
use tp2_so_2c.Prelude.{
  ℕ, zero, suc, ◌+◌, ◌-◌, ◌%◌, Bool, true, false, ◌&&◌, ◌||◌, not, Option, none, some, List, [],
  ◌∷◌, ltb, leb, ◌==◌, if◌then◌else◌, get_elem?, set, replicate,
}

abbrev pub buffer_capacity : ℕ
buffer_capacity = 10

abbrev pub lctrl : ℕ
lctrl = 29

abbrev pub lshift : ℕ
lshift = 42

abbrev pub c_key : ℕ
c_key = 46

abbrev pub d_key : ℕ
d_key = 32

abbrev pub eof : ℕ
eof = 255

-- The mask RELEASED, which is also SHIFTED.
abbrev pub mask : ℕ
mask = 128

-- The static variables of keyboard.c.
pub record Keyboard : Type 0 where
  pub buffer_start : ℕ
  pub buffer_size : ℕ
  pub buffer : List ℕ
  pub ctrl : Bool
  pub shift : Bool

pub initial : Keyboard
initial = record {
  buffer_start = 0;
  buffer_size = 0;
  buffer = replicate buffer_capacity 0;
  ctrl = false;
  shift = false;
}

-- `charHexMap`, 0 behind what is listed.
pub char_hex_map : List ℕ
char_hex_map =
    0 ∷ 0 ∷ 49 ∷ 50 ∷ 51 ∷ 52 ∷ 53 ∷ 54 ∷ 55 ∷ 56 ∷ 57 ∷ 48 ∷ 45 ∷ 61 ∷ 8 ∷ 32 ∷ 113 ∷ 119 ∷ 101
    ∷ 114 ∷ 116 ∷ 121 ∷ 117 ∷ 105 ∷ 111 ∷ 112 ∷ 91 ∷ 93 ∷ 10 ∷ 0 ∷ 97 ∷ 115 ∷ 100 ∷ 102 ∷ 103 ∷ 104
    ∷ 106 ∷ 107 ∷ 108 ∷ 59 ∷ 39 ∷ 0 ∷ 0 ∷ 92 ∷ 122 ∷ 120 ∷ 99 ∷ 118 ∷ 98 ∷ 110 ∷ 109 ∷ 44 ∷ 46 ∷ 47
    ∷ 0 ∷ 42 ∷ 0 ∷ 32 ∷ 0 ∷ 0 ∷ 0 ∷ 0 ∷ 0 ∷ 0 ∷ []

-- `charHexMapShift`
pub char_hex_map_shift : List ℕ
char_hex_map_shift =
    0 ∷ 0 ∷ 33 ∷ 64 ∷ 35 ∷ 36 ∷ 37 ∷ 94 ∷ 38 ∷ 42 ∷ 40 ∷ 41 ∷ 95 ∷ 43 ∷ 8 ∷ 32 ∷ 81 ∷ 87 ∷ 69 ∷ 82
    ∷ 84 ∷ 89 ∷ 85 ∷ 73 ∷ 79 ∷ 80 ∷ 123 ∷ 125 ∷ 10 ∷ 0 ∷ 65 ∷ 83 ∷ 68 ∷ 70 ∷ 71 ∷ 72 ∷ 74 ∷ 75 ∷ 76
    ∷ 58 ∷ 34 ∷ 0 ∷ 0 ∷ 124 ∷ 90 ∷ 88 ∷ 67 ∷ 86 ∷ 66 ∷ 78 ∷ 77 ∷ 60 ∷ 62 ∷ 63 ∷ 0 ∷ 42 ∷ 0 ∷ 32 ∷ 0
    ∷ 0 ∷ 0 ∷ 0 ∷ 0 ∷ 0 ∷ []

abbrev pub char_of : Option ℕ → ℕ
char_of none = 0
char_of (some c) = c

-- `getBufferIndex`
abbrev pub get_buffer_index : Keyboard → ℕ → ℕ
get_buffer_index k offset = (k.buffer_start + offset) % buffer_capacity

-- The test of `writeKey`: the key has a character, or is EOF.
pub writable : ℕ → Bool
unfolding char_hex_map
writable key = not (char_of (get_elem? char_hex_map (key % mask)) == 0) || (key == eof)

-- `getScancode`: the oldest key, 0 where there is none.
pub get_scancode : Keyboard → ℕ × Keyboard
get_scancode k =
    if ltb 0 k.buffer_size
    then (
      char_of (get_elem? k.buffer (get_buffer_index k 0)),
      record k { buffer_start = get_buffer_index k 1; buffer_size = k.buffer_size - 1 },
    )
    else (0, k)

-- The character of a scan code, as `getAscii` answers it: with the mask, that of the shifted key. A
-- code behind the end of `charHexMapShift` is not read, see `writable`.
pub ascii_of : ℕ → ℕ
unfolding char_hex_map char_hex_map_shift
ascii_of code =
    if code == eof
    then eof
    else if leb mask code
    then char_of (get_elem? char_hex_map_shift (code - mask))
    else char_of (get_elem? char_hex_map code)

-- `getAscii` behind its wait at the semaphore.
pub get_ascii : Keyboard → ℕ × Keyboard
unfolding get_scancode ascii_of
get_ascii k = let (code, k') = get_scancode k in (ascii_of code, k')

-- The key is put into the queue.
pub push_key : ℕ → Keyboard → Keyboard
push_key key k = record k {
  buffer = set k.buffer (get_buffer_index k k.buffer_size) key;
  buffer_size = k.buffer_size + 1;
}

-- What the driver asks of the others: sem_post(KEYBOARD_SEM_ID) and killForegroundProcess.
pub record Others (S : Type 0) : Type 0 where
  pub post : S → S
  pub kill_foreground : S → S

module _ {S : Type 0} (others : Others S) where
  open others use {post, kill_foreground}

  -- `writeKey`
  pub write_key : ℕ → Keyboard → S → Keyboard × S
  write_key key k s = if writable key then (push_key key k, post s) else (k, s)

  -- The branch of `keyboardHandler` for a key pressed with Ctrl.
  pub ctrl_key : ℕ → Keyboard → S → Keyboard × S
  ctrl_key key k s =
      if key == c_key
      then (record k { buffer_start = 0; buffer_size = 0 }, kill_foreground s)
      else if (key == d_key) && ltb k.buffer_size (buffer_capacity - 1)
      then write_key eof k s
      else (k, s)

  -- The branch of `keyboardHandler` for a key other than Ctrl and Shift, by whether Ctrl is held.
  pub other_key : Bool → ℕ → Keyboard → S → Keyboard × S
  other_key true key k s = ctrl_key key k s
  other_key false key k s =
      if ltb k.buffer_size (buffer_capacity - 1)
      then write_key (if k.shift then key + mask else key) k s
      else (k, s)

  -- The branch of `keyboardHandler` for a key that is pressed.
  pub key_pressed : ℕ → Keyboard → S → Keyboard × S
  key_pressed key k s =
      if key == lctrl
      then (record k { ctrl = true }, s)
      else if key == lshift
      then (record k { shift = true }, s)
      else other_key k.ctrl key k s

  -- The branch of `keyboardHandler` for a key that is let go.
  pub key_released : ℕ → Keyboard → S → Keyboard × S
  key_released key k s =
      if key == lctrl + mask
      then (record k { ctrl = false }, s)
      else if key == lshift + mask
      then (record k { shift = false }, s)
      else (k, s)

  -- `keyboardHandler`, for the byte that the keyboard controller answers.
  pub keyboard_handler : ℕ → Keyboard → S → Keyboard × S
  keyboard_handler key k s = if ltb key mask then key_pressed key k s else key_released key k s
