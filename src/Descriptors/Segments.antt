-- ===== src/Descriptors/Segments.antt =====
-- setGdt and setTSS of mm.c.
use so2_project.Common.{ℕ, ◌+◌, ◌-◌, ◌*◌, ◌/◌, update}
use so2_project.Address.{l_user_start, num_pag_code, num_pag_data}
use so2_project.Kernel.{null}
use so2_project.Descriptors.{
  Descriptor, Register, kernel_ds, user_cs, user_ds, kernel_tss, gdt_start, low_word, mid_byte,
  high_byte,
}
use so2_project.Descriptors.Gates.{initial_esp}

abbrev pub Gdt : Type 0
Gdt = ℕ → Descriptor

-- The table, and what set_gdt_reg loads.
unfoldable pub set_gdt : (tss_address : ℕ) → Gdt → Gdt × Register
set_gdt tss_address gdt =
    let i = kernel_tss / 8 in
    let gdt₁ = update gdt i (record (gdt i) { low_base = low_word tss_address }) in
    let gdt₂ = update gdt₁ i (record (gdt₁ i) { mid_base = mid_byte tss_address }) in
    let gdt₃ = update gdt₂ i (record (gdt₂ i) { high_base = high_byte tss_address }) in
    (gdt₃, record { base = gdt_start; limit = 256 * 8 })

-- `TSS`, less the words that nothing names
pub record Tss : Type 0 where
  pub previous_task_link : ℕ
  pub esp0 : ℕ
  pub ss0 : ℕ
  pub esp1 : ℕ
  pub ss1 : ℕ
  pub esp2 : ℕ
  pub ss2 : ℕ
  pub cr3 : ℕ
  pub eip : ℕ
  pub e_flags : ℕ
  pub eax : ℕ
  pub ecx : ℕ
  pub edx : ℕ
  pub ebx : ℕ
  pub esp : ℕ
  pub ebp : ℕ
  pub esi : ℕ
  pub edi : ℕ
  pub es : ℕ
  pub cs : ℕ
  pub ss : ℕ
  pub ds : ℕ
  pub fs : ℕ
  pub gs : ℕ
  pub ldt_segment_selector : ℕ
  pub debug_trap : ℕ
  pub io_map_base_address : ℕ

abbrev pub initial_eflags : ℕ
initial_eflags = 0x200

-- `USER_ESP`, which is L_USER_START+(NUM_PAG_CODE+NUM_PAG_DATA)*0x1000-16
abbrev pub user_esp : ℕ
user_esp = l_user_start + (num_pag_code + num_pag_data) * 0x1000 - 16

-- The segment, and the selector that set_task_reg loads. Every named word is written.
unfoldable pub set_tss : Tss × ℕ
set_tss = (
  record {
    previous_task_link = null;
    esp0 = initial_esp;
    ss0 = kernel_ds;
    esp1 = null;
    ss1 = null;
    esp2 = null;
    ss2 = null;
    cr3 = null;
    eip = 0;
    e_flags = initial_eflags;
    eax = null;
    ecx = null;
    edx = null;
    ebx = null;
    esp = user_esp;
    ebp = user_esp;
    esi = null;
    edi = null;
    es = user_ds;
    cs = user_cs;
    ss = user_ds;
    ds = user_ds;
    fs = null;
    gs = null;
    ldt_segment_selector = kernel_tss;
    debug_trap = 0;
    io_map_base_address = null;
  },
  kernel_tss,
)
