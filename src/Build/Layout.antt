-- ===== src/Build/Layout.antt =====
-- The disk image byte by byte, and the sizes that the boot sector reads from it.
use so2_project.Common.{
  ℕ, ◌+◌, ◌-◌, ◌*◌, ◌^◌, ◌≡◌, List, length, get_or, ltb, leb, ◌&&◌, if◌then◌else◌,
}
use so2_project.Build.{Host, Output, done, size_bytes, build}
use so2_project.Build.Image.{written}
use so2_project.Build.Whole.{boot_bytes, im_bytes, sized}

-- Bytes that lie over others from `p` on.
abbrev pub overlay : (p : ℕ) → List ℕ → (ℕ → ℕ) → ℕ → ℕ
overlay p bs under a = if leb p a && ltb a (p + length bs) then get_or bs (a - p) 0 else under a

-- The boot sector, the kernel and the user's program, and the sizes over them.
abbrev pub files : (sector sys usr : List ℕ) → (ℕ → ℕ) → ℕ → ℕ
files sector sys usr old =
    overlay (512 + length sys) usr (overlay 512 sys (overlay 0 (boot_bytes sector) old))

abbrev pub image : (sector sys usr : List ℕ) → (ℕ → ℕ) → ℕ → ℕ
image sector sys usr old = overlay 520 (size_bytes 0x7E1A) (
    overlay 516 (size_bytes (length usr)) (
      overlay 512 (size_bytes (length sys))
        (overlay 500 (im_bytes (length sys) (length usr)) (files sector sys usr old))))

module _ (sys usr sector : List ℕ) (size : length sector ≡ 512) (o : Output)
    (start : o.position ≡ 0) where
  abbrev whole : Output
  whole =
      sized (length sys) (length usr) (written (written (written o (boot_bytes sector)) sys) usr)

-- Three bytes, from the lowest on.
abbrev pub low_bytes : (ℕ → ℕ) → ℕ → ℕ
low_bytes m a = m a + 2 ^ 8 * m (a + 1) + 2 ^ 16 * m (a + 2)

-- What build leaves on its output.
abbrev pub Imaged : Host → Output → (sector sys usr : List ℕ) → Type 0
Imaged h o sector sys usr =
    (o' : Output) × (build h o ≡ done o')
    × ((a : ℕ) → o'.bytes a ≡ image sector sys usr o.bytes a)
    × (low_bytes o'.bytes 512 ≡ length sys)
    × (low_bytes o'.bytes 516 ≡ length usr)
