-- ===== src/Modules/Area.antt =====
-- Bytes in memory, for Kernel/moduleLoader.c: where they are, how they are read and moved.
use mathlib.Core.Path.{subst}
use native.Mathlib.Nat.{add-zero}
use tp2_so_2c.Prelude.{
  ℕ, suc, ◌+◌, ◌≤◌, ◌<◌, ◌-◌, ◌^◌, [], ◌∷◌, ◌++◌, if◌then◌else◌, length, ◌≡◌, sym, ap, ◌∙◌, arith,
  inl, inr, true, false, ◌⊎◌,
}
use tp2_so_2c.Text.Memory.{Bytes, memcpy, memcpy-moved, inside, Apart}
use tp2_so_2c.Modules.{File, bytes32, read_uint32}

-- The memory holds the bytes, from the address on.
unfoldable pub HoldsAt : Bytes → ℕ → File → Type 0
HoldsAt m p [] = Unit {0}
HoldsAt m p (b ∷ bs) = (m p ≡ b) × HoldsAt m (p + 1) bs

-- The two memories agree on `n` bytes from `p` on.
abbrev pub Agree : Bytes → Bytes → ℕ → ℕ → Type 0
Agree m m' p n = (i : ℕ) → i < n → m' (p + i) ≡ m (p + i)

pub HoldsAt-moved :
    (m m' : Bytes) (p q : ℕ) (bs : File)
    → ((i : ℕ) → i < length bs → m' (q + i) ≡ m (p + i))
    → HoldsAt m p bs
    → HoldsAt m' q bs
unfolding HoldsAt
HoldsAt-moved m m' p q [] same h = tt
HoldsAt-moved m m' p q (b ∷ bs) same (here, behind) = (
  ap m' (sym (add-zero q)) ∙ same 0 (omega arith) ∙ ap m (add-zero p) ∙ here,
  HoldsAt-moved m m' (p + 1) (q + 1) bs
      (λ i below.
        let to : q + 1 + i ≡ q + suc i = omega arith in
        let from : p + suc i ≡ p + 1 + i = omega arith in
        ap m' to ∙ same (suc i) (omega arith) ∙ ap m from)
      behind,
)

pub HoldsAt-prefix :
    (m : Bytes) (p : ℕ) (xs ys : File)
    → HoldsAt m p (xs ++ ys)
    → HoldsAt m p xs × HoldsAt m (p + length xs) ys
unfolding HoldsAt
HoldsAt-prefix m p [] ys h = (tt, subst (λ a. HoldsAt m a ys) (sym (add-zero p)) h)
HoldsAt-prefix m p (x ∷ xs) ys (here, behind) =
    let rest = HoldsAt-prefix m (p + 1) xs ys behind in
    let far : p + 1 + length xs ≡ p + suc (length xs) = omega arith in
    ((here, rest.0), subst (λ a. HoldsAt m a ys) far rest.1)

pub read_uint32-bytes32 :
    (m : Bytes) (a n : ℕ) → n < 2 ^ 32 → HoldsAt m a (bytes32 n) → read_uint32 m a ≡ (n, a + 4)
unfolding HoldsAt bytes32 read_uint32
read_uint32-bytes32 m a n small (h0, (h1, (h2, (h3, u)))) =
    let two : a + 2 ≡ a + 1 + 1 = omega arith in
    let three : a + 3 ≡ a + 1 + 1 + 1 = omega arith in
    let at2 = ap m two ∙ h2 in let at3 = ap m three ∙ h3 in ap (λ x. (x, a + 4)) (omega arith)

pub memcpy-copied :
    (m : Bytes) (t s n i : ℕ) → Apart t s n → i < n → memcpy m t s n (t + i) ≡ m (s + i)
memcpy-copied m t s n i apart below =
    let hit : inside t n (t + i) ≡ true = ground arith in
    let back : s + (t + i - t) ≡ s + i = omega arith in
    memcpy-moved m t s n (t + i) apart
    ∙ ap (λ b. if b then m (s + (t + i - t)) else m (t + i)) hit
    ∙ ap m back

inside-miss : (t k lo n i : ℕ) → (t + k ≤ lo) ⊎ (lo + n ≤ t) → i < n → inside t k (lo + i) ≡ false
inside-miss t k lo n i (inl below) h = ground arith
inside-miss t k lo n i (inr above) h = ground arith

pub memcpy-kept :
    (m : Bytes) (t s k lo n i : ℕ)
    → Apart t s k
    → (t + k ≤ lo) ⊎ (lo + n ≤ t)
    → i < n
    → memcpy m t s k (lo + i) ≡ m (lo + i)
memcpy-kept m t s k lo n i apart clear below =
    let miss : inside t k (lo + i) ≡ false = inside-miss t k lo n i clear below in
    memcpy-moved m t s k (lo + i) apart
    ∙ ap (λ b. if b then m (s + (lo + i - t)) else m (lo + i)) miss
