-- ===== src/Modules/Tests.antt =====
-- A kernel of two bytes with two modules.
use tp2_so_2c.Prelude.{
  ℕ, ◌-◌, Option, none, some, List, [], ◌∷◌, ◌≡◌, refl, arith, ltb, if◌then◌else◌, get_elem?, inr,
}
use tp2_so_2c.Text.Memory.{Bytes}
use tp2_so_2c.Modules.{File, build_image, load_modules}
use tp2_so_2c.Modules.Area.{HoldsAt}
use tp2_so_2c.Modules.Loading.{Module, Clear, Layout, Loaded, load-build_image, files}

abbrev kernel : File
kernel = 7 ∷ 8 ∷ []

abbrev modules : List Module
modules = (100, 1 ∷ 2 ∷ 3 ∷ []) ∷ (200, 4 ∷ []) ∷ []

abbrev image : File
image = 7 ∷ 8 ∷ 2 ∷ 0 ∷ 0 ∷ 0 ∷ 3 ∷ 0 ∷ 0 ∷ 0 ∷ 1 ∷ 2 ∷ 3 ∷ 1 ∷ 0 ∷ 0 ∷ 0 ∷ 4 ∷ []

image_bytes : build_image kernel (files modules) ≡ image
unfolding build_image
image_bytes = refl

abbrev byte_of : Option ℕ → ℕ
byte_of none = 0
byte_of (some b) = b

-- The image from the address 10 on.
abbrev memory : Bytes
memory a = if ltb a 10 then 0 else byte_of (get_elem? image (a - 10))

image_held : HoldsAt memory 10 image
unfolding HoldsAt
image_held = (
  refl,
  (
    refl,
    (
      refl,
      (
        refl,
        (
          refl,
          (
            refl,
            (
              refl,
              (
                refl,
                (refl, (refl, (refl, (refl, (refl, (refl, (refl, (refl, (refl, (refl, tt)))))))))),
              ),
            ),
          ),
        ),
      ),
    ),
  ),
)

load-build_image_example :
    (m' : Bytes) × (q : ℕ) × (load_modules memory 12 (100 ∷ 200 ∷ []) ≡ some (m', q))
    × Loaded m' modules
    × HoldsAt m' 10 kernel
unfolding build_image Layout Clear
load-build_image_example =
    load-build_image kernel modules memory 10 (omega arith)
      (omega arith, ((inr (omega arith), tt), (omega arith, (tt, tt))))
      (inr (omega arith), (inr (omega arith), tt)) image_held
