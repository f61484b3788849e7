-- ===== src/Interrupts.antt =====
-- The routines of interrupt.c that the clock and the keyboard call.
pub mod Wakeup
pub mod Timeout
pub mod Routines
mod Tests
use so2_project.Common.{
  ℕ, zero, suc, ◌+◌, ◌-◌, ◌%◌, ◌^◌, ℤ, pos, negsuc, ◌+ℤ◌, ◌-ℤ◌, ltb_ℤ, ◌==ℤ◌, Option, none, some,
  Option-cases, Bool, true, false, not, List, [], ◌∷◌, get_or, bit_and, ◌==◌, ltb, if◌then◌else◌,
  update,
}
use so2_project.Links.{list_empty, list_first}
use so2_project.Buffer.{CircularBuffer, circular_buffer_full, circular_buffer_push}
use so2_project.Kernel.{
  Kernel, Task, readyqueue, get_key_blocked, set_task, list_head_to_task_struct, print,
}
use so2_project.Messages.{page_fault}
use so2_project.Text.{hex_digits}
use so2_project.Sched.{update_process_state_rr, schedule}

-- The entries of char_map. The four characters outside ASCII are one byte each here, the last of the
-- three of their encoding in the source, as the compiler takes them.
abbrev pub char_map : List ℤ
char_map =
    pos 0
    ∷ pos 0
    ∷ pos 49
    ∷ pos 50
    ∷ pos 51
    ∷ pos 52
    ∷ pos 53
    ∷ pos 54
    ∷ pos 55
    ∷ pos 56
    ∷ pos 57
    ∷ pos 48
    ∷ pos 39
    ∷ negsuc 66
    ∷ pos 0
    ∷ pos 0
    ∷ pos 113
    ∷ pos 119
    ∷ pos 101
    ∷ pos 114
    ∷ pos 116
    ∷ pos 121
    ∷ pos 117
    ∷ pos 105
    ∷ pos 111
    ∷ pos 112
    ∷ pos 96
    ∷ pos 43
    ∷ pos 0
    ∷ pos 0
    ∷ pos 97
    ∷ pos 115
    ∷ pos 100
    ∷ pos 102
    ∷ pos 103
    ∷ pos 104
    ∷ pos 106
    ∷ pos 107
    ∷ pos 108
    ∷ negsuc 66
    ∷ pos 0
    ∷ negsuc 66
    ∷ pos 0
    ∷ negsuc 66
    ∷ pos 122
    ∷ pos 120
    ∷ pos 99
    ∷ pos 118
    ∷ pos 98
    ∷ pos 110
    ∷ pos 109
    ∷ pos 44
    ∷ pos 46
    ∷ pos 45
    ∷ pos 0
    ∷ pos 42
    ∷ pos 0
    ∷ pos 0
    ∷ pos 0
    ∷ pos 0
    ∷ pos 0
    ∷ pos 0
    ∷ pos 0
    ∷ pos 0
    ∷ pos 0
    ∷ pos 0
    ∷ pos 0
    ∷ pos 0
    ∷ pos 0
    ∷ pos 0
    ∷ pos 0
    ∷ pos 55
    ∷ pos 56
    ∷ pos 57
    ∷ pos 45
    ∷ pos 52
    ∷ pos 53
    ∷ pos 54
    ∷ pos 43
    ∷ pos 49
    ∷ pos 50
    ∷ pos 51
    ∷ pos 48
    ∷ pos 0
    ∷ pos 0
    ∷ pos 0
    ∷ pos 60
    ∷ pos 0
    ∷ pos 0
    ∷ pos 0
    ∷ pos 0
    ∷ pos 0
    ∷ pos 0
    ∷ pos 0
    ∷ pos 0
    ∷ pos 0
    ∷ pos 0
    ∷ pos 0
    ∷ []

-- What follows the array in memory, from its 98 entries on, is `beyond`.
abbrev pub char_at : (ℕ → ℤ) → ℕ → ℤ
char_at beyond i = get_or char_map i (beyond i)

-- The body of the loop of key_timout_system
unfoldable pub key_round : Kernel → ℕ → Kernel
key_round k cursor =
    let t = list_head_to_task_struct cursor in
    let left = (k.tasks t).key_timeout in
    if ltb_ℤ (pos 0) left
    then (let k₁ = set_task k t (record (k.tasks t) { key_timeout = left -ℤ pos 1 }) in
        if left -ℤ pos 1 ==ℤ pos 0 then update_process_state_rr k₁ t readyqueue else k₁)
    else k

-- `list_for_each_safe`: `next` is read before the body runs. `none` means that the fuel ran out.
key_rounds : ℕ → Kernel → (cursor next : ℕ) → Option Kernel
unfolding key_round
key_rounds zero k cursor next = none
key_rounds (suc fuel) k cursor next =
    let k₁ = key_round k cursor in
    let rest = key_rounds fuel k₁ next (k₁.links next).next in
    if cursor == get_key_blocked then some k else rest

unfoldable pub key_timout_system : ℕ → Kernel → Option Kernel
unfolding key_rounds
key_timout_system fuel k =
    let first = (k.links get_key_blocked).next in key_rounds fuel k first (k.links first).next

abbrev pub then_schedule : Option Kernel → Option Kernel
then_schedule none = none
then_schedule (some k) = some (schedule k)

-- The clock that zeos_show_clock, of a precompiled library, shows on the screen is left out.
unfoldable pub clock_routine : ℕ → Kernel → Option Kernel
clock_routine fuel k =
    then_schedule (key_timout_system fuel (record k { zeos_ticks = k.zeos_ticks +ℤ pos 1 }))

-- `c` is the byte that the keyboard's port gives.
unfoldable pub push_key : (ℕ → ℤ) → Kernel → ℕ → Kernel
push_key beyond k c =
    if not (circular_buffer_full k.keyboard_buffer)
    then record k {
      keyboard_buffer =
          (circular_buffer_push k.keyboard_buffer (char_at beyond (bit_and c 0x7f))).1;
    }
    else k

-- The first process that waits for a key becomes ready.
unfoldable pub wake_reader : Kernel → Kernel
wake_reader k =
    if not (list_empty k.links get_key_blocked)
    then (let k₁ =
          update_process_state_rr k (list_head_to_task_struct (list_first k.links get_key_blocked))
            readyqueue in
        record k₁ { pending_to_service = k₁.pending_to_service +ℤ pos 1 })
    else k

unfoldable pub keyboard_routine : (ℕ → ℤ) → Kernel → ℕ → Kernel
keyboard_routine beyond k c =
    if k.make_flag
    then record (wake_reader (push_key beyond k c)) { make_flag = false }
    else record k { make_flag = true }

-- What the routine shows before it stops the system for good; `eip_val` is the word of the hardware context.
unfoldable pub page_fault_ext_routine : Kernel → ℕ → Kernel
page_fault_ext_routine k eip_val = print (print (print k page_fault) (hex_digits eip_val)) (10 ∷ [])
