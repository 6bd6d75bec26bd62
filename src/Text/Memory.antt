-- ===== src/Text/Memory.antt =====
-- `memset` and `memcpy` of Kernel/lib.c, on a memory of bytes.
use mathlib.Core.Path.{fun_ext}
use tp2_so_2c.Prelude.{
  ℕ, zero, suc, ◌+◌, ◌-◌, ◌*◌, ◌/◌, ◌%◌, ◌≤◌, ◌≡◌, ◌≢◌, ap, ◌∙◌, ◌&&◌, ◌⊎◌, Bool, Bool-cases, inl,
  inr, true, false, ltb, leb, ◌==◌, if◌then◌else◌, arith,
}

-- The byte at each address.
abbrev pub Bytes : Type 0
Bytes = ℕ → ℕ

pub poke : Bytes → ℕ → ℕ → Bytes
poke m a v x = if x == a then v else m x

-- while (length--) dst[length] = chr
pub memset_loop : Bytes → ℕ → ℕ → ℕ → Bytes
unfolding poke
memset_loop m dst chr zero = m
memset_loop m dst chr (suc length) = memset_loop (poke m (dst + length) chr) dst chr length

-- `memset`
pub memset : Bytes → ℕ → ℕ → ℕ → Bytes
unfolding memset_loop
memset m destination c length = memset_loop m destination (c % 256) length

-- A word of four bytes moved: d[i] = s[i] on `uint32_t`, with the bytes read before they are written.
pub move_word : Bytes → ℕ → ℕ → Bytes
unfolding poke
move_word m d s =
    poke (poke (poke (poke m d (m s)) (d + 1) (m (s + 1))) (d + 2) (m (s + 2))) (d + 3) (m (s + 3))

-- The loop of `memcpy` by words, `n` rounds from the offset `i` on.
pub copy_words : Bytes → ℕ → ℕ → ℕ → ℕ → Bytes
unfolding move_word
copy_words m d s i zero = m
copy_words m d s i (suc n) = copy_words (move_word m (d + i) (s + i)) d s (i + 4) n

-- The loop of `memcpy` by bytes, `n` rounds from the offset `i` on.
pub copy_bytes : Bytes → ℕ → ℕ → ℕ → ℕ → Bytes
unfolding poke
copy_bytes m d s i zero = m
copy_bytes m d s i (suc n) = copy_bytes (poke m (d + i) (m (s + i))) d s (i + 1) n

-- `memcpy`: by words, where both addresses and the length are multiples of 4.
pub memcpy : Bytes → ℕ → ℕ → ℕ → Bytes
unfolding copy_words copy_bytes
memcpy m destination source length =
    if (destination % 4 == 0) && (source % 4 == 0) && (length % 4 == 0)
    then copy_words m destination source 0 (length / 4)
    else copy_bytes m destination source 0 length

-- The bytes from the address `low` on, `n` of them.
abbrev pub inside : ℕ → ℕ → ℕ → Bool
inside low n a = leb low a && ltb a (low + n)

memset_loop-area :
    (m : Bytes) (dst chr n a : ℕ)
    → memset_loop m dst chr n a ≡ (if inside dst n a then chr else m a)
unfolding memset_loop poke
memset_loop-area m dst chr zero a = ground arith
memset_loop-area m dst chr (suc n) a =
    ground (arith, memset_loop-area (poke m (dst + n) chr) dst chr n a)

-- `memset` writes the byte to each address of the area, and nothing else.
pub memset-area :
    (m : Bytes) (dst c length a : ℕ)
    → memset m dst c length a ≡ (if inside dst length a then c % 256 else m a)
unfolding memset
memset-area m dst c length a = memset_loop-area m dst (c % 256) length a

-- Two areas of `n` bytes have no address in common.
abbrev pub Apart : ℕ → ℕ → ℕ → Type 0
Apart d s n = (d + n ≤ s) ⊎ (s + n ≤ d)

poke-at : (m : Bytes) (a v x : ℕ) → x ≡ a → poke m a v x ≡ v
unfolding poke
poke-at m a v x e = let hit : (x == a) ≡ true = ground arith in rw hit

poke_ne : (m : Bytes) (a v x : ℕ) → x ≢ a → poke m a v x ≡ m x
unfolding poke
poke_ne m a v x ne = let miss : (x == a) ≡ false = ground arith in rw miss

-- What `memcpy` is meant to leave: the bytes of the source in the area, all else as before.
abbrev pub moved : Bytes → ℕ → ℕ → ℕ → ℕ → Bytes
moved m d s i n a = if inside (d + i) n a then m (s + (a - d)) else m a

-- One byte moved, and then the others.
moved-first :
    (m : Bytes) (d s i n a : ℕ)
    → Apart d s (i + suc n)
    → moved (poke m (d + i) (m (s + i))) d s (i + 1) n a ≡ moved m d s i (suc n) a
moved-first m d s i n a apart = elim (Bool-cases (a == d + i)) [
  | inl here ↦
      let e : a ≡ d + i = ground arith in
      let later : inside (d + (i + 1)) n a ≡ false = ground arith in
      let now : inside (d + i) (suc n) a ≡ true = ground arith in
      let from : s + i ≡ s + (a - d) = omega arith in
      rw (later, now) (poke-at m (d + i) (m (s + i)) a e ∙ ap m from)
  | inr else_where ↦
      let ne : a ≢ d + i = ground arith in
      elim (Bool-cases (inside (d + (i + 1)) n a)) [
        | inl later ↦
            let now : inside (d + i) (suc n) a ≡ true = ground arith in
            let not_there : s + (a - d) ≢ d + i = λ e. ground arith in
            rw (later, now) (poke_ne m (d + i) (m (s + i)) (s + (a - d)) not_there)
        | inr out ↦
            let now : inside (d + i) (suc n) a ≡ false = ground arith in
            rw (out, now) (poke_ne m (d + i) (m (s + i)) a ne)
      ]
]

copy_bytes-moved :
    (n i d s : ℕ) (m : Bytes) (a : ℕ)
    → Apart d s (i + n)
    → copy_bytes m d s i n a ≡ moved m d s i n a
unfolding copy_bytes
copy_bytes-moved zero i d s m a apart = ground arith
copy_bytes-moved (suc n) i d s m a apart =
    copy_bytes-moved n (i + 1) d s (poke m (d + i) (m (s + i))) a (ground arith)
    ∙ moved-first m d s i n a apart

-- A word is moved as its four bytes are.
move_word-moved : (m : Bytes) (d s i a : ℕ) → move_word m (d + i) (s + i) a ≡ moved m d s i 4 a
unfolding move_word poke
move_word-moved m d s i a = ground arith

-- Bytes moved after others that stand before them.
moved-moved :
    (m : Bytes) (d s i k n a : ℕ)
    → Apart d s (i + (k + n))
    → moved (moved m d s i k) d s (i + k) n a ≡ moved m d s i (k + n) a
moved-moved m d s i k n a apart = elim (Bool-cases (inside (d + (i + k)) n a)) [
  | inl later ↦
      let now : inside (d + i) (k + n) a ≡ true = ground arith in
      let not_there : inside (d + i) k (s + (a - d)) ≡ false = ground arith in
      rw (later, now, not_there)
  | inr out ↦
      let same : inside (d + i) (k + n) a ≡ inside (d + i) k a = ground arith in rw (out, same)
]

copy_words-moved :
    (n i d s : ℕ) (m : Bytes) (a : ℕ)
    → Apart d s (i + 4 * n)
    → copy_words m d s i n a ≡ moved m d s i (4 * n) a
unfolding copy_words
copy_words-moved zero i d s m a apart = ground arith
copy_words-moved (suc n) i d s m a apart =
    let word : move_word m (d + i) (s + i) ≡ moved m d s i 4 = fun_ext (move_word-moved m d s i) in
    let all : 4 * suc n ≡ 4 + 4 * n = omega arith in
    rw (word, all)
      (copy_words-moved n (i + 4) d s (moved m d s i 4) a (ground arith)
        ∙ moved-moved m d s i 4 (4 * n) a (ground arith))

-- `memcpy` between areas that do not overlap leaves the bytes of the source in the destination, and
-- changes nothing else, whether it copies by words or by bytes.
pub memcpy-moved :
    (m : Bytes) (d s n a : ℕ)
    → Apart d s n
    → memcpy m d s n a ≡ (if inside d n a then m (s + (a - d)) else m a)
unfolding memcpy
memcpy-moved m d s n a apart = elim (Bool-cases ((d % 4 == 0) && (s % 4 == 0) && (n % 4 == 0))) [
  | inl aligned ↦
      let words : 4 * (n / 4) ≡ n = ground arith in
      let area : inside (d + 0) (4 * (n / 4)) a ≡ inside d n a = ground arith in
      rw aligned (copy_words-moved (n / 4) 0 d s m a (ground arith) ∙ (rw area))
  | inr odd ↦
      let area : inside (d + 0) n a ≡ inside d n a = ground arith in
      rw odd (copy_bytes-moved n 0 d s m a (ground arith) ∙ (rw area))
]
