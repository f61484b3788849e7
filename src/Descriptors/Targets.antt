-- ===== src/Descriptors/Targets.antt =====
-- Where the processor goes by the tables.
use so2_project.Common.{
  ℕ, zero, suc, ◌+◌, ◌*◌, ◌/◌, ◌%◌, ◌^◌, ◌<◌, ◌≡◌, refl, sym, ◌∙◌, ◌≢◌, ◌⊎◌, ==-self, arith,
}
use mathlib.Core.Path.{subst}
use so2_project.Common.Bits.{bit_and_ff, bit_and_ffff}
use so2_project.Descriptors.{Gate, Descriptor, kernel_cs}
use so2_project.Descriptors.Segments.{Gdt, set_gdt}
use so2_project.Descriptors.Gates.{
  Idt, Msr, Entries, set_interrupt_handler, set_trap_handler, set_sysenter, set_idt, initial_esp,
  gate_flags,
}

-- The address that a gate leads to, the privilege that may use it, its kind and whether it is present.
abbrev pub target : Gate → ℕ
target g = g.low_offset + 2 ^ 16 * g.high_offset

abbrev pub privilege : Gate → ℕ
privilege g = g.flags / 2 ^ 13 % 4

abbrev pub kind : Gate → ℕ
kind g = g.flags / 2 ^ 8 % 2 ^ 5

abbrev pub present : Gate → ℕ
present g = g.flags / 2 ^ 15

-- An interrupt gate of the kernel.
pub record Leads (g : Gate) (handler pl : ℕ) : Type 0 where
  pub to : target g ≡ handler
  pub selector : g.segment_selector ≡ kernel_cs
  pub from : privilege g ≡ pl
  pub interrupt : kind g ≡ 14
  pub there : present g ≡ 1

gate_flags_lem :
    (pl : ℕ)
    → pl < 4
    → (gate_flags pl / 2 ^ 13 % 4 ≡ pl)
      × (gate_flags pl / 2 ^ 8 % 2 ^ 5 ≡ 14)
      × (gate_flags pl / 2 ^ 15 ≡ 1)
gate_flags_lem zero l = (refl, refl, refl)
gate_flags_lem (suc zero) l = (refl, refl, refl)
gate_flags_lem (suc (suc zero)) l = (refl, refl, refl)
gate_flags_lem (suc (suc (suc zero))) l = (refl, refl, refl)
gate_flags_lem (suc (suc (suc (suc n)))) l = absurd (omega arith)

-- For a handler below 4 GB and a privilege level from 0 to 3, setInterruptHandler makes the gate of the vector
-- an interrupt gate of the kernel that is present, leads to the handler and may be used from that level,
-- and leaves the other gates alone; setTrapHandler does the very same.
pub set_interrupt_handler-Leads :
    (idt : Idt) (vector handler pl : ℕ)
    → handler < 2 ^ 32
    → pl < 4
    → Leads (set_interrupt_handler idt vector handler pl vector) handler pl
      × ((v : ℕ) → v ≢ vector → set_interrupt_handler idt vector handler pl v ≡ idt v)
      × (set_trap_handler idt vector handler pl ≡ set_interrupt_handler idt vector handler pl)
unfolding set_interrupt_handler set_trap_handler
set_interrupt_handler-Leads idt vector handler pl h l =
    let (from, kind, there) = gate_flags_lem pl l in
    let low = bit_and_ffff handler in
    let high = bit_and_ffff (handler / 2 ^ 16) in
    (
      rw (==-self vector) (record {
        to = rw (low, high) (omega arith);
        selector = refl;
        from = from;
        interrupt = kind;
        there = there;
      }),
      (λ v ne. ground arith),
      refl,
    )

-- The registers of sysenter.
abbrev pub Enters : Entries → Msr → Msr → Type 0
Enters e msr msr' =
    (msr' 0x174 ≡ (0, kernel_cs))
    × (msr' 0x175 ≡ (0, initial_esp))
    × (msr' 0x176 ≡ (0, e.system_call_handler))
    × ((n : ℕ) → (n < 0x174) ⊎ (0x176 < n) → msr' n ≡ msr n)

-- If the handlers' addresses are below 4 GB, then whatever set_handlers does to the table, after setIdt the gates
-- 14, 32 and 33 are interrupt gates of the kernel that only the kernel may use and that lead to the routines
-- of the page fault, of the clock and of the keyboard; the other gates are as set_handlers left them, the
-- table register covers the 256 gates to the last byte, and sysenter goes to the routine of the
-- system calls, on the stack of the first process.
pub set_idt-Leads :
    (set_handlers : Idt → Idt) (e : Entries) (idt : Idt) (msr : Msr)
    → e.page_fault_ext_handler < 2 ^ 32
    → e.clock_handler < 2 ^ 32
    → e.keyboard_handler < 2 ^ 32
    → let (idt', msr', r) = set_idt set_handlers e (idt, msr) in
      Leads (idt' 14) e.page_fault_ext_handler 0
      × Leads (idt' 32) e.clock_handler 0
      × Leads (idt' 33) e.keyboard_handler 0
      × ((v : ℕ) → v ≢ 14 → v ≢ 32 → v ≢ 33 → idt' v ≡ set_handlers idt v)
      × Enters e msr msr'
      × (r ≡ record { limit = 2047; base = e.idt_address })
unfolding set_idt set_sysenter
set_idt-Leads set_handlers e idt msr a b c =
    let idt₁ = set_handlers idt in
    let idt₂ = set_interrupt_handler idt₁ 14 e.page_fault_ext_handler 0 in
    let idt₃ = set_interrupt_handler idt₂ 32 e.clock_handler 0 in
    let first = set_interrupt_handler-Leads idt₁ 14 e.page_fault_ext_handler 0 a (omega arith) in
    let second = set_interrupt_handler-Leads idt₂ 32 e.clock_handler 0 b (omega arith) in
    let third = set_interrupt_handler-Leads idt₃ 33 e.keyboard_handler 0 c (omega arith) in
    (
      subst (λ g. Leads g e.page_fault_ext_handler 0)
          (sym (third.1 14 (omega arith) ∙ second.1 14 (omega arith))) first.0,
      subst (λ g. Leads g e.clock_handler 0) (sym (third.1 32 (omega arith))) second.0,
      third.0,
      (λ v p q r. third.1 v r ∙ second.1 v q ∙ first.1 v p),
      (refl, refl, refl, λ n out. ground (arith, out)),
      refl,
    )

-- The base address in a descriptor.
abbrev pub segment_base : Descriptor → ℕ
segment_base d = d.low_base + 2 ^ 16 * d.mid_base + 2 ^ 24 * d.high_base

-- setGdt puts an address below 4 GB into descriptor 6 as its base, and leaves the limit and the flags of that
-- descriptor and all other descriptors as they were.
pub set_gdt-base :
    (tss_address : ℕ) (gdt : Gdt)
    → tss_address < 2 ^ 32
    → let gdt' = (set_gdt tss_address gdt).0 in
      (segment_base (gdt' 6) ≡ tss_address)
      × ((gdt' 6).limit ≡ (gdt 6).limit)
      × ((gdt' 6).flags1 ≡ (gdt 6).flags1)
      × ((gdt' 6).flags2 ≡ (gdt 6).flags2)
      × ((i : ℕ) → i ≢ 6 → gdt' i ≡ gdt i)
unfolding set_gdt
set_gdt-base tss_address gdt h =
    let low = bit_and_ffff tss_address in
    let mid = bit_and_ff (tss_address / 2 ^ 16) in
    let high = bit_and_ff (tss_address / 2 ^ 24) in
    (rw (low, mid, high) (omega arith), refl, refl, refl, λ i ne. ground arith)
