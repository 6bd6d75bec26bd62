-- ===== src/Modules/Loading.antt =====
-- What Kernel/moduleLoader.c loads from an image that Toolchain/ModulePacker/main.c has written.
use mathlib.Core.Path.{subst}
use tp2_so_2c.Prelude.{
  ℕ, ◌+◌, ◌≤◌, ◌<◌, ◌^◌, Option, some, List, [], ◌∷◌, ◌++◌, length, ◌≡◌, refl, sym, ap, ◌∙◌, arith,
  length-append, inl, inr, ◌⊎◌,
}
use tp2_so_2c.Text.Memory.{Bytes, memcpy, Apart}
use tp2_so_2c.Modules.{File, bytes32, load_sized, load_module, load_loop, load_modules, build_image}
use tp2_so_2c.Modules.Area.{
  HoldsAt, Agree, HoldsAt-moved, HoldsAt-prefix, read_uint32-bytes32, memcpy-copied, memcpy-kept,
}
use tp2_so_2c.Modules.Packing.{packed, build_image-packed}

-- A module, with the address at which it is to be loaded.
abbrev pub Module : Type 0
Module = ℕ × File

-- The `n` bytes from `lo` on are apart from where the modules are loaded.
unfoldable pub Clear : ℕ → ℕ → List Module → Type 0
Clear lo n [] = Unit {0}
Clear lo n ((t, f) ∷ ms) = ((t + length f ≤ lo) ⊎ (lo + n ≤ t)) × Clear lo n ms

Clear-within :
    (lo n lo' n' : ℕ) (ms : List Module)
    → lo ≤ lo'
    → lo' + n' ≤ lo + n
    → Clear lo n ms
    → Clear lo' n' ms
unfolding Clear
Clear-within lo n lo' n' [] h k c = tt
Clear-within lo n lo' n' ((t, f) ∷ ms) h k (inl below, c) =
    (inl (omega arith), Clear-within lo n lo' n' ms h k c)
Clear-within lo n lo' n' ((t, f) ∷ ms) h k (inr above, c) =
    (inr (omega arith), Clear-within lo n lo' n' ms h k c)

-- No module is too long, and none is loaded over one that was loaded before.
unfoldable pub Layout : List Module → Type 0
unfolding Clear
Layout [] = Unit {0}
Layout ((t, f) ∷ ms) = (length f < 2 ^ 32) × (Clear t (length f) ms × Layout ms)

-- Each module is at its address.
unfoldable pub Loaded : Bytes → List Module → Type 0
unfolding HoldsAt
Loaded m [] = Unit {0}
Loaded m ((t, f) ∷ ms) = HoldsAt m t f × Loaded m ms

abbrev pub targets : List Module → List ℕ
targets [] = []
targets ((t, f) ∷ ms) = t ∷ targets ms

abbrev pub files : List Module → List File
files [] = []
files ((t, f) ∷ ms) = f ∷ files ms

-- What the loop does from a memory: it ends, each module is loaded, and what is clear of the modules
-- stays.
abbrev Outcome : Bytes → ℕ → List Module → Option (Bytes × ℕ) → Type 0
Outcome m a ms r =
    (m' : Bytes) × (q : ℕ) × (r ≡ some (m', q))
    × Loaded m' ms
    × ((lo n : ℕ) → Clear lo n ms → Agree m m' lo n)

load_module-copies :
    (m : Bytes) (a t : ℕ) (f : File)
    → length f < 2 ^ 32
    → HoldsAt m a (bytes32 (length f))
    → load_module t (m, a) ≡ (memcpy m t (a + 4) (length f), a + 4 + length f)
unfolding load_module load_sized
load_module-copies m a t f small h =
    ap (load_sized t m) (read_uint32-bytes32 m a (length f) small h)

-- The first module is loaded: `m1` is the memory behind its copy.
load_loop-first :
    (m : Bytes) (a t : ℕ) (f : File) (ms : List Module) (r : Option (Bytes × ℕ))
    → let m1 = memcpy m t (a + 4) (length f) in
      Apart t (a + 4) (length f)
      → Clear t (length f) ms
      → HoldsAt m (a + 4) f
      → Outcome m1 (a + 4 + length f) ms r
      → Outcome m a ((t, f) ∷ ms) r
unfolding Loaded Clear
load_loop-first m a t f ms r apart clear h (m2, q, e, loaded, kept) =
    let m1 = memcpy m t (a + 4) (length f) in
    let copied : (i : ℕ) → i < length f → m2 (t + i) ≡ m (a + 4 + i) = λ i below.
      kept t (length f) clear i below ∙ memcpy-copied m t (a + 4) (length f) i apart below in
    let stays : (lo n : ℕ) → Clear lo n ((t, f) ∷ ms) → Agree m m2 lo n = λ lo n c i below.
      kept lo n c.1 i below ∙ memcpy-kept m t (a + 4) (length f) lo n i apart c.0 below in
    (m2, q, e, (HoldsAt-moved m m2 (a + 4) t f copied h, loaded), stays)

length-packed :
    (f : File) (fs : List File) → length (packed (f ∷ fs)) ≡ 4 + (length f + length (packed fs))
unfolding packed bytes32
length-packed f fs = let rest = length-append f (packed fs) in omega arith

source_away : (t a k n : ℕ) → 4 + k ≤ n → (t + k ≤ a) ⊎ (a + n ≤ t) → Apart t (a + 4) k
source_away t a k n fits (inl below) = inl (omega arith)
source_away t a k n fits (inr above) = inr (omega arith)

behind_away :
    (t a k n j : ℕ)
    → 4 + (k + j) ≤ n
    → (t + k ≤ a) ⊎ (a + n ≤ t)
    → (t + k ≤ a + 4 + k) ⊎ (a + 4 + k + j ≤ t)
behind_away t a k n j fits (inl below) = inl (omega arith)
behind_away t a k n j fits (inr above) = inr (omega arith)

-- The size, the bytes of the first module, and the other modules.
first_module :
    (m : Bytes) (a : ℕ) (f : File) (fs : List File)
    → HoldsAt m a (packed (f ∷ fs))
    → HoldsAt m a (bytes32 (length f))
      × (HoldsAt m (a + 4) f × HoldsAt m (a + 4 + length f) (packed fs))
unfolding packed bytes32
first_module m a f fs h =
    let sized = HoldsAt-prefix m a (bytes32 (length f)) (f ++ packed fs) h in
    (sized.0, HoldsAt-prefix m (a + 4) f (packed fs) sized.1)

load_loop-loads :
    (ms : List Module) (m : Bytes) (a : ℕ)
    → Layout ms
    → Clear a (length (packed (files ms))) ms
    → HoldsAt m a (packed (files ms))
    → Outcome m a ms (load_loop (length ms) (targets ms) (m, a))
unfolding load_loop Layout Clear Loaded
load_loop-loads [] m a layout clear h = (m, a, refl, tt, λ lo n c i below. refl)
load_loop-loads ((t, f) ∷ ms) m a (small, (apart, layout)) (here, clear) h =
    let k = length f in
    let size = length-packed f (files ms) in
    let n = length (packed (f ∷ files ms)) in
    let j = length (packed (files ms)) in
    let b = a + 4 + k in
    let m1 = memcpy m t (a + 4) k in
    let parts = first_module m a f (files ms) h in
    let away = source_away t a k n (omega arith) here in
    let rest_away = behind_away t a k n j (omega arith) here in
    let rest_held =
      HoldsAt-moved m m1 b b (packed (files ms))
        (λ i below. memcpy-kept m t (a + 4) k b j i away rest_away below) parts.1.1 in
    let rest =
      load_loop-loads ms m1 b layout (Clear-within a n b j ms (omega arith) (omega arith) clear)
        rest_held in
    subst (λ s. Outcome m a ((t, f) ∷ ms) (load_loop (length ms) (targets ms) s))
      (sym (load_module-copies m a t f small parts.0))
      (load_loop-first m a t f ms (load_loop (length ms) (targets ms) (m1, b)) away apart parts.1.0
        rest)

length-files : (ms : List Module) → length (files ms) ≡ length ms
length-files [] = refl
length-files ((t, f) ∷ ms) = let rest = length-files ms in omega arith

-- The loader, behind the kernel.
load_modules-Outcome :
    (ms : List Module) (m : Bytes) (a : ℕ)
    → length ms < 2 ^ 32
    → Layout ms
    → Clear a (4 + length (packed (files ms))) ms
    → HoldsAt m a (bytes32 (length (files ms)) ++ packed (files ms))
    → Outcome m (a + 4) ms (load_modules m a (targets ms))
unfolding load_modules bytes32
load_modules-Outcome ms m a few layout clear h =
    let parts = HoldsAt-prefix m a (bytes32 (length (files ms))) (packed (files ms)) h in
    let number =
      read_uint32-bytes32 m a (length (files ms)) (omega (arith, length-files ms)) parts.0
      ∙ ap (λ n. (n, a + 4)) (length-files ms) in
    subst (λ s. Outcome m (a + 4) ms (load_loop s.0 (targets ms) (m, s.1))) (sym number)
      (load_loop-loads ms m (a + 4) layout
        (Clear-within a (4 + length (packed (files ms))) (a + 4) (length (packed (files ms))) ms
          (omega arith) (omega arith) clear)
        parts.1)

length-image :
    (kernel : File) (fs : List File)
    → length (kernel ++ (bytes32 (length fs) ++ packed fs))
      ≡ length kernel + (4 + length (packed fs))
unfolding bytes32
length-image kernel fs =
    let whole = length-append kernel (bytes32 (length fs) ++ packed fs) in omega arith

-- The loader takes out what the packer has put in: where the memory holds the image of a kernel and of
-- modules from the address `p` on, the modules are shorter than 2 ^ 32 bytes and fewer than 2 ^ 32,
-- and the areas at which they are to be loaded overlap neither the image nor each other, loadModules
-- ends with every module at its address, and the kernel is where it was.
pub load-build_image :
    (kernel : File) (ms : List Module) (m : Bytes) (p : ℕ)
    → length ms < 2 ^ 32
    → Layout ms
    → Clear p (length (build_image kernel (files ms))) ms
    → HoldsAt m p (build_image kernel (files ms))
    → (m' : Bytes) × (q : ℕ) × (load_modules m (p + length kernel) (targets ms) ≡ some (m', q))
      × Loaded m' ms
      × HoldsAt m' p kernel
load-build_image kernel ms m p few layout clear h =
    let image = kernel ++ (bytes32 (length (files ms)) ++ packed (files ms)) in
    let packs = build_image-packed kernel (files ms) in
    let size = length-image kernel (files ms) in
    let n = length (packed (files ms)) in
    let behind = p + length kernel in
    let whole = subst (λ f. Clear p (length f) ms) packs clear in
    let parts =
      HoldsAt-prefix m p kernel (bytes32 (length (files ms)) ++ packed (files ms))
        (subst (λ f. HoldsAt m p f) packs h) in
    let (m', q, e, loaded, kept) =
      load_modules-Outcome ms m behind few layout
        (Clear-within p (length image) behind (4 + n) ms (omega arith) (omega arith) whole)
        parts.1 in
    let stays =
      kept p (length kernel)
        (Clear-within p (length image) p (length kernel) ms (omega arith) (omega arith) whole) in
    (m', q, e, loaded, HoldsAt-moved m m' p p kernel stays parts.0)
