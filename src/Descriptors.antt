-- ===== src/Descriptors.antt =====
-- The parts of an address in the tables of the processor, and the selectors: include/types.h and
-- include/segment.h.
pub mod Gates
pub mod Segments
pub mod Targets
use so2_project.Common.{ℕ, ◌+◌, ◌*◌, ◌/◌, ◌%◌, ◌^◌, bit_and}

abbrev pub high_word : ℕ → ℕ
high_word address = bit_and (address / 2 ^ 16) 0xFFFF

abbrev pub low_word : ℕ → ℕ
low_word address = bit_and address 0xFFFF

abbrev pub mid_byte : ℕ → ℕ
mid_byte address = bit_and (address / 2 ^ 16) 0xFF

abbrev pub high_byte : ℕ → ℕ
high_byte address = bit_and (address / 2 ^ 24) 0xFF

-- `Gate`
pub record Gate : Type 0 where
  pub low_offset : ℕ
  pub segment_selector : ℕ
  pub flags : ℕ
  pub high_offset : ℕ

-- `Descriptor`, a segment
pub record Descriptor : Type 0 where
  pub limit : ℕ
  pub low_base : ℕ
  pub mid_base : ℕ
  pub flags1 : ℕ
  pub flags2 : ℕ
  pub high_base : ℕ

-- `Register`, where a table is and how long
pub record Register : Type 0 where
  pub limit : ℕ
  pub base : ℕ

abbrev pub kernel_cs : ℕ
kernel_cs = 0x10

abbrev pub kernel_ds : ℕ
kernel_ds = 0x18

abbrev pub user_cs : ℕ
user_cs = 0x23

abbrev pub user_ds : ℕ
user_ds = 0x2B

abbrev pub kernel_tss : ℕ
kernel_tss = 0x30

abbrev pub gdt_start : ℕ
gdt_start = 0x901b3
