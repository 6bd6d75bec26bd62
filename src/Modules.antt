-- ===== src/Modules.antt =====
-- Toolchain/ModulePacker/main.c, which packs the kernel and its modules into one image, and
-- Kernel/moduleLoader.c, which takes the modules out of it when the kernel starts.
-- A file is its bytes; that it can be opened and read was tested before (`checkFiles`).
pub mod Packing
pub mod Area
pub mod Loading
mod Tests
use tp2_so_2c.Prelude.{
  ℕ, zero, suc, ◌+◌, ◌*◌, ◌/◌, ◌%◌, Option, none, some, List, [], ◌∷◌, ◌++◌, ltb, if◌then◌else◌,
  length,
}
use tp2_so_2c.Text.Memory.{Bytes, memcpy}

abbrev pub File : Type 0
File = List ℕ

-- BUFFER_SIZE
abbrev pub buffer_size : ℕ
buffer_size = 128

-- What `fread` gets of a file, and what it leaves of it.
unfoldable pub read_some : ℕ → File → File × File
read_some zero bs = ([], bs)
read_some (suc n) [] = ([], [])
read_some (suc n) (b ∷ bs) = let (got, left) = read_some n bs in (b ∷ got, left)

-- The bytes of an `int` or a `uint32_t`, the lowest first.
unfoldable pub bytes32 : ℕ → File
bytes32 n = n % 256 ∷ n / 256 % 256 ∷ n / 65536 % 256 ∷ n / 16777216 % 256 ∷ []

-- The loop of `write_file`, on fuel: a read of less than the buffer ends it.
unfoldable pub write_loop : ℕ → File → File → File
unfolding read_some
write_loop zero target source = target
write_loop (suc fuel) target source =
    let (got, left) = read_some buffer_size source in
    let rest = write_loop fuel (target ++ got) left in
    if ltb (length got) buffer_size then target ++ got else rest

-- `write_file`
unfoldable pub write_file : File → File → File
unfolding write_loop
write_file target source = write_loop (length source + 1) target source

-- `write_size`
unfoldable pub write_size : File → File → File
unfolding bytes32
write_size target file = target ++ bytes32 (length file)

-- The loop of `buildImage`.
unfoldable pub write_modules : List File → File → File
unfolding write_file write_size
write_modules [] target = target
write_modules (f ∷ fs) target = write_modules fs (write_file (write_size target f) f)

-- `buildImage` of the kernel and the modules.
unfoldable pub build_image : File → List File → File
unfolding write_file write_modules bytes32
build_image kernel fs = write_modules fs (write_file [] kernel ++ bytes32 (length fs))

-- `readUint32`, with the address behind it.
unfoldable pub read_uint32 : Bytes → ℕ → ℕ × ℕ
read_uint32 m a = (m a + 256 * m (a + 1) + 65536 * m (a + 2) + 16777216 * m (a + 3), a + 4)

unfoldable pub load_sized : ℕ → Bytes → ℕ × ℕ → Bytes × ℕ
load_sized target m (size, a) = (memcpy m target a size, a + size)

-- `loadModule`
unfoldable pub load_module : ℕ → Bytes × ℕ → Bytes × ℕ
unfolding read_uint32 load_sized
load_module target (m, a) = load_sized target m (read_uint32 m a)

-- The loop of `loadModules`: a read behind the addresses is none.
unfoldable pub load_loop : ℕ → List ℕ → Bytes × ℕ → Option (Bytes × ℕ)
unfolding load_module
load_loop zero targets s = some s
load_loop (suc n) [] s = none
load_loop (suc n) (t ∷ ts) s = load_loop n ts (load_module t s)

-- `loadModules`
unfoldable pub load_modules : Bytes → ℕ → List ℕ → Option (Bytes × ℕ)
unfolding read_uint32 load_loop
load_modules m start targets =
    let (count, a) = read_uint32 m start in load_loop count targets (m, a)
