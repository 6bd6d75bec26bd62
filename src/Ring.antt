-- ===== src/Ring.antt =====
-- Cyclic buffers: bytes from an index on, around the end of an array of `cap` bytes. pipes.c and
-- keyboard.c keep their bytes so.
use tp2_so_2c.Prelude.{
  ℕ, zero, suc, ◌+◌, ◌-◌, ◌<◌, ◌%◌, ◌≡◌, ◌≢◌, refl, ap, ap₂, sym, ◌∙◌, Option, none, some, List, [],
  ◌∷◌, ◌++◌, get_elem?, set, arith, length, get_elem?-set_self, get_elem?-set_ne, get_elem?-in,
}

abbrev byte_of : Option ℕ → ℕ
byte_of none = 0
byte_of (some b) = b

-- The `n` bytes from the index `i` on, around the end of the buffer.
abbrev pub ring : (cap : ℕ) → ℕ → ℕ → List ℕ → List ℕ
ring cap zero i buf = []
ring cap (suc n) i buf = byte_of (get_elem? buf (i % cap)) ∷ ring cap n (i + 1) buf

pub length-ring : (cap n i : ℕ) (buf : List ℕ) → length (ring cap n i buf) ≡ n
length-ring cap zero i buf = refl
length-ring cap (suc n) i buf = ap suc (length-ring cap n (i + 1) buf)

-- What the arithmetic of the indices needs of a capacity.
pub record IsCapacity (cap : ℕ) : Type 0 where
  pub apart : (i k n : ℕ) → k < n → n < cap → (i + k) % cap ≢ (i + n) % cap
  pub step : (i j : ℕ) → i % cap ≡ j % cap → (i + 1) % cap ≡ (j + 1) % cap
  pub small : (i : ℕ) → i < cap → i % cap ≡ i
  pub inside : (i : ℕ) → i % cap < cap
  pub again : (i : ℕ) → i % cap % cap ≡ i % cap

module _ (cap : ℕ) (is_cap : IsCapacity cap) where
  ring-set :
      (n i w b : ℕ) (buf : List ℕ)
      → ((k : ℕ) → k < n → (i + k) % cap ≢ w)
      → ring cap n i (set buf w b) ≡ ring cap n i buf
  ring-set zero i w b buf apart = refl
  ring-set (suc n) i w b buf apart =
      let at_first : i + 0 ≡ i = omega arith in
      let ne : w ≢ i % cap = λ e. apart 0 (omega arith) (ap (λ x. x % cap) at_first ∙ sym e) in
      let shift : (k : ℕ) → i + (k + 1) ≡ i + 1 + k = λ k. omega arith in
      let later : (k : ℕ) → k < n → (i + 1 + k) % cap ≢ w =
        λ k lt e. apart (k + 1) (omega arith) (ap (λ x. x % cap) (shift k) ∙ e) in
      ap₂ (λ x xs. byte_of x ∷ xs) (get_elem?-set_ne buf w (i % cap) b ne)
        (ring-set n (i + 1) w b buf later)

  ring-last :
      (n i : ℕ) (buf : List ℕ)
      → ring cap (suc n) i buf ≡ ring cap n i buf ++ (byte_of (get_elem? buf ((i + n) % cap)) ∷ [])
  ring-last zero i buf = ap (λ x. byte_of (get_elem? buf (x % cap)) ∷ []) (omega arith)
  ring-last (suc n) i buf =
      ap (λ xs. byte_of (get_elem? buf (i % cap)) ∷ xs)
        (ring-last n (i + 1) buf
          ∙ ap (λ x. ring cap n (i + 1) buf ++ (byte_of (get_elem? buf (x % cap)) ∷ []))
              (omega arith))

  ring-mod : (n i j : ℕ) (buf : List ℕ) → i % cap ≡ j % cap → ring cap n i buf ≡ ring cap n j buf
  ring-mod zero i j buf e = refl
  ring-mod (suc n) i j buf e =
      ap₂ (λ x xs. byte_of (get_elem? buf x) ∷ xs) e
        (ring-mod n (i + 1) (j + 1) buf (is_cap.step i j e))

  pub ring-put :
      (n i w b : ℕ) (buf : List ℕ)
      → w ≡ (i + n) % cap
      → n < cap
      → length buf ≡ cap
      → ring cap (n + 1) i (set buf w b) ≡ ring cap n i buf ++ (b ∷ [])
  ring-put n i w b buf e room sized =
      let one_more : n + 1 ≡ suc n = omega arith in
      let below = is_cap.inside (i + n) in
      let inside : w < length buf = omega (arith, e) in
      let apart : (k : ℕ) → k < n → (i + k) % cap ≢ w =
        λ k lt h. is_cap.apart i k n lt room (h ∙ e) in
      let here : get_elem? (set buf w b) ((i + n) % cap) ≡ some b =
        ap (get_elem? (set buf w b)) (sym e) ∙ get_elem?-set_self buf w b inside in
      ap (λ k. ring cap k i (set buf w b)) one_more
      ∙ ring-last n i (set buf w b)
      ∙ ap₂ (λ xs x. xs ++ (byte_of x ∷ [])) (ring-set n i w b buf apart) here

  pub ring-take :
      (n i b : ℕ) (buf bs : List ℕ)
      → i < cap
      → length buf ≡ cap
      → ring cap n i buf ≡ b ∷ bs
      → (0 < n) × (get_elem? buf i ≡ some b) × (ring cap (n - 1) ((i + 1) % cap) buf ≡ bs)
  ring-take zero i b buf bs inside sized order = absurd (cc)
  ring-take (suc n) i b buf bs inside sized order =
      let (x, at) = get_elem?-in buf i (omega (arith, sized)) in
      let one_less : suc n - 1 ≡ n = omega arith in
      let first : byte_of (get_elem? buf (i % cap)) ≡ b = cc in
      let rest : ring cap n (i + 1) buf ≡ bs = cc in
      let small : i % cap ≡ i = is_cap.small i inside in
      let same : x ≡ b =
        ap byte_of (sym at) ∙ ap (λ k. byte_of (get_elem? buf k)) (sym small) ∙ first in
      (
        omega arith,
        at ∙ ap some same,
        ap (λ k. ring cap k ((i + 1) % cap) buf) one_less
            ∙ ring-mod n ((i + 1) % cap) (i + 1) buf (is_cap.again (i + 1))
            ∙ rest,
      )
