-- ===== src/Keyboard/Queue.antt =====
-- The keys that keyboard.c holds are a queue.
use tp2_so_2c.Prelude.{
  ℕ, ◌+◌, ◌-◌, ◌<◌, ◌%◌, ◌≡◌, refl, ◌∙◌, ◌⊎◌, inl, inr, ◌&&◌, Bool-cases, Bool, true, false, List,
  [], ◌∷◌, ◌++◌, ltb, ◌==◌, if◌then◌else◌, arith, length, length-set,
}
use tp2_so_2c.Ring.{ring, IsCapacity, ring-put, ring-take}
use tp2_so_2c.Keyboard.{
  Keyboard, buffer_capacity, c_key, d_key, lctrl, lshift, mask, eof, get_scancode, push_key,
  writable, Others, write_key, ctrl_key, other_key, key_pressed, key_released, keyboard_handler,
}

capacity : IsCapacity buffer_capacity
capacity = record {
  apart = λ i k n lt room e. omega arith;
  step = λ i j e. omega arith;
  small = λ i lt. omega arith;
  inside = λ i. omega arith;
  again = λ i. omega arith;
}

-- The keys that wait, the oldest first.
abbrev pub keys : Keyboard → List ℕ
keys k = ring buffer_capacity k.buffer_size k.buffer_start k.buffer

pub record IsKeyboard (k : Keyboard) : Type 0 where
  pub sized : length k.buffer ≡ buffer_capacity
  pub starts_inside : k.buffer_start < buffer_capacity
  pub bounded : k.buffer_size < buffer_capacity

push_key-keys :
    (key : ℕ) (k : Keyboard)
    → IsKeyboard k
    → k.buffer_size < buffer_capacity - 1
    → IsKeyboard (push_key key k) × (keys (push_key key k) ≡ keys k ++ (key ∷ []))
unfolding push_key
push_key-keys key k v room = (
  record {
    sized = length-set k.buffer ((k.buffer_start + k.buffer_size) % buffer_capacity) key ∙ v.sized;
    starts_inside = v.starts_inside;
    bounded = omega arith;
  },
  ring-put buffer_capacity capacity k.buffer_size k.buffer_start
      ((k.buffer_start + k.buffer_size) % buffer_capacity) key k.buffer refl (omega arith) v.sized,
)

-- `getScancode` answers the oldest key and takes it off the queue, where a key waits.
pub get_scancode-keys :
    (k : Keyboard) (c : ℕ) (cs : List ℕ)
    → IsKeyboard k
    → keys k ≡ c ∷ cs
    → (k' : Keyboard) × (get_scancode k ≡ (c, k')) × IsKeyboard k' × (keys k' ≡ cs)
unfolding get_scancode
get_scancode-keys k c cs v order =
    let (some_left, at, rest) =
      ring-take buffer_capacity capacity k.buffer_size k.buffer_start c k.buffer cs v.starts_inside
        v.sized order in
    let more : ltb 0 k.buffer_size ≡ true = ground arith in
    let bound = v.bounded in
    let inside = v.starts_inside in
    let index : (k.buffer_start + 0) % buffer_capacity ≡ k.buffer_start = omega (arith, inside) in
    (
      record k {
        buffer_start = (k.buffer_start + 1) % buffer_capacity;
        buffer_size = k.buffer_size - 1;
      },
      rw (more, index, at),
      record { sized = v.sized; starts_inside = omega arith; bounded = omega (arith, bound) },
      rest,
    )

module _ {S : Type 0} (others : Others S) where
  -- A key of the keyboard leaves the queue as it is, or puts a key behind the others and posts the
  -- semaphore of the keyboard, or empties the queue and kills the process in the foreground.
  abbrev pub Outcome : Keyboard → S → Keyboard × S → Type 0
  Outcome k s (k', s') =
      ((keys k' ≡ keys k) × (s' ≡ s))
      ⊎ (((code : ℕ) × (writable code ≡ true)
            × (keys k' ≡ keys k ++ (code ∷ []))
            × (s' ≡ others.post s))
          ⊎ ((keys k' ≡ []) × (s' ≡ others.kill_foreground s)))

  abbrev pub Handled : Keyboard → S → Keyboard × S → Type 0
  Handled k s r = IsKeyboard r.0 × Outcome k s r

  write_key-Handled :
      (key : ℕ) (k : Keyboard) (s : S)
      → IsKeyboard k
      → k.buffer_size < buffer_capacity - 1
      → Handled k s (write_key others key k s)
  unfolding write_key
  write_key-Handled key k s v room = elim (Bool-cases (writable key)) [
    | inl good ↦
        let (v', order) = push_key-keys key k v room in
        rw good (v', inr (inl (key, good, order, refl)))
    | inr bad ↦ rw bad (v, inl (refl, refl))
  ]

  ctrl_key-Handled :
      (key : ℕ) (k : Keyboard) (s : S) → IsKeyboard k → Handled k s (ctrl_key others key k s)
  unfolding ctrl_key
  ctrl_key-Handled key k s v = elim (Bool-cases (key == c_key)) [
    | inl c ↦ rw c (
      record { sized = v.sized; starts_inside = omega arith; bounded = omega arith },
      inr (inr (refl, refl)),
    )
    | inr not_c ↦ elim (Bool-cases ((key == d_key) && ltb k.buffer_size (buffer_capacity - 1))) [
      | inl d ↦ rw (not_c, d) (write_key-Handled eof k s v (ground arith))
      | inr not_d ↦ rw (not_c, not_d) (v, inl (refl, refl))
    ]
  ]

  other_key-Handled :
      (held : Bool) (key : ℕ) (k : Keyboard) (s : S)
      → IsKeyboard k
      → Handled k s (other_key others held key k s)
  unfolding other_key
  other_key-Handled true key k s v = ctrl_key-Handled key k s v
  other_key-Handled false key k s v = elim (Bool-cases (ltb k.buffer_size (buffer_capacity - 1))) [
    | inl room ↦
        rw room (write_key-Handled (if k.shift then key + mask else key) k s v (ground arith))
    | inr full ↦ rw full (v, inl (refl, refl))
  ]

  key_pressed-Handled :
      (key : ℕ) (k : Keyboard) (s : S) → IsKeyboard k → Handled k s (key_pressed others key k s)
  unfolding key_pressed
  key_pressed-Handled key k s v = elim (Bool-cases (key == lctrl)) [
    | inl c ↦ rw c (
      record { sized = v.sized; starts_inside = v.starts_inside; bounded = v.bounded },
      inl (refl, refl),
    )
    | inr not_c ↦ elim (Bool-cases (key == lshift)) [
      | inl h ↦
          rw (not_c, h)
            (
              record { sized = v.sized; starts_inside = v.starts_inside; bounded = v.bounded },
              inl (refl, refl),
            )
      | inr not_h ↦ rw (not_c, not_h) (other_key-Handled k.ctrl key k s v)
    ]
  ]

  -- `keyboardHandler` keeps the queue in its bounds, with a free place in the array. It leaves the
  -- queue and the others as they are, or puts a key behind the others and posts the semaphore, or
  -- empties the queue and kills the process in the foreground.
  pub keyboard_handler-Handled :
      (key : ℕ) (k : Keyboard) (s : S)
      → IsKeyboard k
      → Handled k s (keyboard_handler others key k s)
  unfolding keyboard_handler key_released
  keyboard_handler-Handled key k s v = elim (Bool-cases (ltb key mask)) [
    | inl pressed ↦ rw pressed (key_pressed-Handled key k s v)
    | inr released ↦ elim (Bool-cases (key == lctrl + mask)) [
      | inl c ↦
          rw (released, c)
            (
              record { sized = v.sized; starts_inside = v.starts_inside; bounded = v.bounded },
              inl (refl, refl),
            )
      | inr not_c ↦ elim (Bool-cases (key == lshift + mask)) [
        | inl h ↦
            rw (released, not_c, h)
              (
                record { sized = v.sized; starts_inside = v.starts_inside; bounded = v.bounded },
                inl (refl, refl),
              )
        | inr other ↦ rw (released, not_c, other) (v, inl (refl, refl))
      ]
    ]
  ]
