-- ===== src/Modules/Packing.antt =====
-- What Toolchain/ModulePacker/main.c writes.
use tp2_so_2c.Prelude.{
  ℕ, zero, suc, ◌+◌, ◌≤◌, ◌<◌, List, [], ◌∷◌, ◌++◌, ltb, if◌then◌else◌, length, ◌≡◌, refl, sym, ap,
  ◌∙◌, arith, length-append, Bool-cases, inl, inr,
}
use mathlib.Core.List.{append_assoc, append-nil}
use tp2_so_2c.Modules.{
  File, buffer_size, read_some, bytes32, write_loop, write_file, write_size, write_modules,
  build_image,
}

-- What the image holds of the modules.
unfoldable pub packed : List File → File
packed [] = []
packed (f ∷ fs) = bytes32 (length f) ++ (f ++ packed fs)

read_some-append : (n : ℕ) (f : File) → (read_some n f).0 ++ (read_some n f).1 ≡ f
unfolding read_some
read_some-append zero f = refl
read_some-append (suc n) [] = refl
read_some-append (suc n) (b ∷ f) = ap (λ x. b ∷ x) (read_some-append n f)

read_some-short : (n : ℕ) (f : File) → length (read_some n f).0 < n → (read_some n f).1 ≡ []
unfolding read_some
read_some-short zero f h = absurd (omega arith)
read_some-short (suc n) [] h = refl
read_some-short (suc n) (b ∷ f) h = read_some-short n f (omega arith)

-- A round that has got `got` and leaves `left`, with the target of the rest of the loop.
round-append :
    (target source got left rest : File)
    → got ++ left ≡ source
    → (length got < buffer_size → left ≡ [])
    → (buffer_size ≤ length got → rest ≡ (target ++ got) ++ left)
    → (if ltb (length got) buffer_size then target ++ got else rest) ≡ target ++ source
round-append target source got left rest whole short went =
    elim (Bool-cases (ltb (length got) buffer_size)) [
      | inl e ↦
          let nothing : left ≡ [] = short (ground arith) in
          rw e (
            ap (λ x. target ++ x) (sym (append-nil got) ∙ ap (λ x. got ++ x) (sym nothing) ∙ whole))
      | inr e ↦
          rw e (went (ground arith) ∙ append_assoc target got left ∙ ap (λ x. target ++ x) whole)
    ]

left_shorter :
    (source got left : File) (fuel : ℕ)
    → got ++ left ≡ source
    → length source < suc fuel
    → 128 ≤ length got
    → length left < fuel
left_shorter source got left fuel whole h full =
    let both = sym (length-append got left) ∙ ap length whole in omega arith

write_loop-append :
    (fuel : ℕ) (target source : File)
    → length source < fuel
    → write_loop fuel target source ≡ target ++ source
unfolding write_loop
write_loop-append zero target source h = absurd (omega arith)
write_loop-append (suc fuel) target source h =
    let r = read_some buffer_size source in
    round-append target source r.0 r.1 (write_loop fuel (target ++ r.0) r.1)
      (read_some-append buffer_size source) (read_some-short buffer_size source)
      (λ full.
        write_loop-append fuel (target ++ r.0) r.1
          (left_shorter source r.0 r.1 fuel (read_some-append buffer_size source) h full))

write_file-append : (target source : File) → write_file target source ≡ target ++ source
unfolding write_file
write_file-append target source = write_loop-append (length source + 1) target source (omega arith)

write_modules-packed :
    (fs : List File) (target : File) → write_modules fs target ≡ target ++ packed fs
unfolding write_modules packed write_size
write_modules-packed [] target = sym (append-nil target)
write_modules-packed (f ∷ fs) target =
    let sized = target ++ bytes32 (length f) in
    write_modules-packed fs (write_file sized f)
    ∙ ap (λ x. x ++ packed fs) (write_file-append sized f)
    ∙ append_assoc sized f (packed fs)
    ∙ append_assoc target (bytes32 (length f)) (f ++ packed fs)

-- The image is the kernel, the number of the modules, and each module behind its size.
pub build_image-packed :
    (kernel : File) (fs : List File)
    → build_image kernel fs ≡ kernel ++ (bytes32 (length fs) ++ packed fs)
unfolding build_image
build_image-packed kernel fs =
    write_modules-packed fs (write_file [] kernel ++ bytes32 (length fs))
    ∙ ap (λ x. (x ++ bytes32 (length fs)) ++ packed fs) (write_file-append [] kernel)
    ∙ append_assoc kernel (bytes32 (length fs)) (packed fs)
