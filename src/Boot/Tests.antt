-- ===== src/Boot/Tests.antt =====
-- main with a kernel of 300 bytes and a program of 5 bytes in memory.
use so2_project.Common.{◌+◌, ◌≡◌, arith, ◌==◌, if◌then◌else◌}
use so2_project.Kernel.{task_address}
use so2_project.Utils.{Memory}
use so2_project.Sched.Inv.{IsSched}
use so2_project.Descriptors.Segments.{set_tss}
use so2_project.Boot.Start.{boot_family}
use so2_project.Boot.Main.{Linked, Machine, IsReady, main, main-IsReady}
use so2_project.Samples.{zeros}

abbrev linked : Linked
linked = record {
  tss_address = 0x12345678;
  set_handlers = λ idt. idt;
  entries = record {
    idt_address = 0x20000;
    page_fault_ext_handler = 0x10010;
    clock_handler = 0x10020;
    keyboard_handler = 0x10030;
    system_call_handler = 0x10040;
  };
}

-- The size 300 is 1 * 256 + 44.
abbrev memory : Memory
memory a =
    if a == 0x10000
    then 44
    else if a == 0x10001
    then 1
    else if a == 0x10004
    then 5
    else if a == 0x10000 + 300 + 2
    then 77
    else 0

abbrev machine : Machine
machine = record {
  kernel = zeros;
  gdt = λ i. record {
    limit = 0x67;
    low_base = 0;
    mid_base = 0;
    flags1 = 0x89;
    flags2 = 0;
    high_base = 0;
  };
  gdt_register = record { limit = 0; base = 0 };
  idt = λ v. record { low_offset = 0; segment_selector = 0; flags = 0; high_offset = 0 };
  idt_register = record { limit = 0; base = 0 };
  msr = λ n. (0, 0);
  tss = set_tss.0;
  task_register = 0;
  ram = memory;
}

main-IsReady_example :
    let m' = (main linked machine).0 in
    IsSched m'.kernel boot_family × (m'.kernel.current ≡ task_address 1) × IsReady linked m'
main-IsReady_example =
    main-IsReady linked machine (omega arith) (omega arith) (omega arith) (omega arith)
