-- ===== src/Descriptors/Gates.antt =====
-- The gates of the interrupt table and the registers of sysenter, in interrupt.c.
use so2_project.Common.{ℕ, ◌+◌, ◌-◌, ◌*◌, ◌%◌, ◌^◌, bit_or, update}
use so2_project.Address.{page_size}
use so2_project.Kernel.{task_address}
use so2_project.Descriptors.{Gate, Register, kernel_cs, low_word, high_word}

-- `KERNEL_ESP(&task[1])`
abbrev pub initial_esp : ℕ
initial_esp = task_address 1 + page_size

abbrev pub idt_entries : ℕ
idt_entries = 256

abbrev pub Idt : Type 0
Idt = ℕ → Gate

-- `flags = (Word)(maxAccessibleFromPL << 13); flags |= 0x8E00;`
abbrev pub gate_flags : ℕ → ℕ
gate_flags pl = bit_or (pl * 2 ^ 13 % 2 ^ 16) 0x8E00

unfoldable pub set_interrupt_handler : Idt → (vector handler max_accessible_from_pl : ℕ) → Idt
set_interrupt_handler idt vector handler max_accessible_from_pl = update idt vector (record {
  low_offset = low_word handler;
  segment_selector = kernel_cs;
  flags = gate_flags max_accessible_from_pl;
  high_offset = high_word handler;
})

unfoldable pub set_trap_handler : Idt → (vector handler max_accessible_from_pl : ℕ) → Idt
set_trap_handler idt vector handler max_accessible_from_pl = update idt vector (record {
  low_offset = low_word handler;
  segment_selector = kernel_cs;
  flags = gate_flags max_accessible_from_pl;
  high_offset = high_word handler;
})

-- A model specific register, which setMSR writes in two halves.
abbrev pub Msr : Type 0
Msr = ℕ → ℕ × ℕ

abbrev pub set_msr : Msr → (msr_number high low : ℕ) → Msr
set_msr msr msr_number high low = update msr msr_number (high, low)

-- The addresses of the routines of entry.ss, and of the table.
pub record Entries : Type 0 where
  pub idt_address : ℕ
  pub page_fault_ext_handler : ℕ
  pub clock_handler : ℕ
  pub keyboard_handler : ℕ
  pub system_call_handler : ℕ

unfoldable pub set_sysenter : Entries → Msr → Msr
set_sysenter e msr =
    let msr₁ = set_msr msr 0x174 0 kernel_cs in
    let msr₂ = set_msr msr₁ 0x175 0 initial_esp in set_msr msr₂ 0x176 0 e.system_call_handler

-- `set_handlers` comes with a precompiled library. What set_idt_reg loads is the last part.
unfoldable pub set_idt : (set_handlers : Idt → Idt) → Entries → Idt × Msr → Idt × Msr × Register
unfolding set_interrupt_handler set_sysenter
set_idt set_handlers e (idt, msr) =
    let idt₁ = set_handlers idt in
    let idt₂ = set_interrupt_handler idt₁ 14 e.page_fault_ext_handler 0 in
    let idt₃ = set_interrupt_handler idt₂ 32 e.clock_handler 0 in
    let idt₄ = set_interrupt_handler idt₃ 33 e.keyboard_handler 0 in
    (idt₄, set_sysenter e msr, record { limit = idt_entries * 8 - 1; base = e.idt_address })
