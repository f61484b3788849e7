-- ===== src/Boot/Main.antt =====
-- main of system.c as a whole: the tables of the processor, the kernel, the image of the user's program and the
-- way to the first process.
use so2_project.Common.{ℕ, ◌+◌, ◌*◌, ◌<◌, ◌^◌, ◌≡◌, refl, ap, pos, for_range, update}
use so2_project.Address.{page_size, l_user_start}
use so2_project.Utils.{Memory, copy_data}
use so2_project.Kernel.{Kernel, task_address}
use so2_project.Boot.{boot, get_pt}
use so2_project.Boot.Start.{boot_family, boot-IsSched}
use so2_project.Sched.Inv.{IsSched}
use so2_project.Paging.{PageTable}
use so2_project.Regions.Dynamic.{get_int}
use so2_project.Processes.{translate}
use so2_project.Descriptors.{Register, user_cs, user_ds}
use so2_project.Descriptors.Gates.{Idt, Msr, Entries, set_msr, set_idt}
use so2_project.Descriptors.Segments.{Gdt, Tss, set_gdt, set_tss, user_esp}
use so2_project.Descriptors.Targets.{Leads, segment_base, set_idt-Leads, set_gdt-base}

-- What the kernel is linked with: where the linker puts the task state segment and the routines, and the
-- gates that set_handlers writes.
pub record Linked : Type 0 where
  pub tss_address : ℕ
  pub set_handlers : Idt → Idt
  pub entries : Entries

-- The variables of the kernel, the tables and registers of the processor, and the memory.
pub record Machine : Type 0 where
  pub kernel : Kernel
  pub gdt : Gdt
  pub gdt_register : Register
  pub idt : Idt
  pub idt_register : Register
  pub msr : Msr
  pub tss : Tss
  pub task_register : ℕ
  pub ram : Memory

-- The arguments of return_gate, which is assembly: the processor takes them as its registers in user mode.
pub record Gateway : Type 0 where
  pub ds : ℕ
  pub ss : ℕ
  pub esp : ℕ
  pub cs : ℕ
  pub eip : ℕ

abbrev pub kernel_start : ℕ
kernel_start = 0x10000

abbrev pub ph_user_start : ℕ
ph_user_start = 0x100000

-- `copy_data((void *) KERNEL_START + *p_sys_size, usr_main, *p_usr_size)`, through the table of the first
-- process: the bytes that the copy leaves go to the frames of their pages.
unfoldable pub copy_image : PageTable → Memory → Memory
copy_image pt ram =
    let size = get_int ram (kernel_start + 4) in
    let view =
      copy_data (λ a. ram (translate pt a)) (kernel_start + get_int ram kernel_start) ph_user_start
        (pos size) in
    for_range size 0 (λ i m. update m (translate pt (ph_user_start + i)) (view (ph_user_start + i)))
      ram

abbrev pub user_table : Kernel → PageTable
user_table k = k.pagusr_table (get_pt k k.current)

-- The stack that the processor takes when the first process enters the kernel, which init_task1 sets.
abbrev pub entry_stack : Kernel → ℕ
entry_stack k = k.esp0 + page_size

unfoldable pub main : Linked → Machine → Machine × Gateway
main o m =
    let (gdt₁, gdt_register₁) = set_gdt o.tss_address m.gdt in
    let (idt₁, msr₁, idt_register₁) = set_idt o.set_handlers o.entries (m.idt, m.msr) in
    let (tss₁, task_register₁) = set_tss in
    let k = boot m.kernel in
    (
      record {
        kernel = k;
        gdt = gdt₁;
        gdt_register = gdt_register₁;
        idt = idt₁;
        idt_register = idt_register₁;
        msr = set_msr msr₁ 0x175 0 (entry_stack k);
        tss = record tss₁ { esp0 = entry_stack k };
        task_register = task_register₁;
        ram = copy_image (user_table k) m.ram;
      },
      record { ds = user_ds; ss = user_ds; esp = user_esp; cs = user_cs; eip = l_user_start },
    )

boot-esp0 : (k : Kernel) → (boot k).esp0 ≡ (boot k).current
unfolding boot
boot-esp0 k = refl

-- What main leaves for the processor.
pub record IsReady (o : Linked) (m : Machine) : Type 0 where
  pub segment : segment_base (m.gdt 6) ≡ o.tss_address
  pub task : m.task_register ≡ 8 * 6
  pub fault : Leads (m.idt 14) o.entries.page_fault_ext_handler 0
  pub clock : Leads (m.idt 32) o.entries.clock_handler 0
  pub keyboard : Leads (m.idt 33) o.entries.keyboard_handler 0
  pub call : m.msr 0x176 ≡ (0, o.entries.system_call_handler)
  pub call_stack : m.msr 0x175 ≡ (0, m.kernel.current + page_size)
  pub interrupt_stack : m.tss.esp0 ≡ m.kernel.current + page_size

processor-IsReady :
    (o : Linked) (m : Machine)
    → o.tss_address < 2 ^ 32
    → o.entries.page_fault_ext_handler < 2 ^ 32
    → o.entries.clock_handler < 2 ^ 32
    → o.entries.keyboard_handler < 2 ^ 32
    → IsReady o (main o m).0
unfolding main set_tss
processor-IsReady o m t a b c =
    let (fault, clock, keyboard, others, enters, register) =
      set_idt-Leads o.set_handlers o.entries m.idt m.msr a b c in
    let stack = ap (λ (x : ℕ). x + page_size) (boot-esp0 m.kernel) in
    record {
      segment = (set_gdt-base o.tss_address m.gdt t).0;
      task = refl;
      fault = fault;
      clock = clock;
      keyboard = keyboard;
      call = enters.2;
      call_stack = ap (λ (x : ℕ). (0, x)) stack;
      interrupt_stack = stack;
    }

-- If the task state segment and the routines of the page fault, the clock and the keyboard are below 4 GB, then
-- whatever the memory and the tables hold at the start, main leaves the invariant of the scheduler with the
-- first process as the one that runs, and a processor that is ready for it. The task register names the
-- segment that holds the task state, the three gates lead to their routines, sysenter goes to the routine of
-- the system calls, and both ways into the kernel begin at the top of the stack of the process that runs.
pub main-IsReady :
    (o : Linked) (m : Machine)
    → o.tss_address < 2 ^ 32
    → o.entries.page_fault_ext_handler < 2 ^ 32
    → o.entries.clock_handler < 2 ^ 32
    → o.entries.keyboard_handler < 2 ^ 32
    → let m' = (main o m).0 in
      IsSched m'.kernel boot_family × (m'.kernel.current ≡ task_address 1) × IsReady o m'
unfolding main
main-IsReady o m t a b c =
    let (sched, current, idle, ready, free) = boot-IsSched m.kernel in
    (sched, current, processor-IsReady o m t a b c)
