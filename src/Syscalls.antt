-- ===== src/Syscalls.antt =====
-- The system calls of sys.c that create and remove no process.
pub mod Write
pub mod Block
pub mod Keys
pub mod Statistics
mod Tests
use so2_project.Common.{
  ℕ, zero, suc, ◌+◌, ◌-◌, ◌*◌, ◌/◌, ◌%◌, ◌^◌, ℤ, pos, negsuc, pos_part, neg_part, ◌+ℤ◌, ◌-ℤ◌, ltb_ℤ,
  leb_ℤ, ◌==ℤ◌, Option, none, some, Bool, true, false, not, ◌&&◌, ◌||◌, List, [], ◌∷◌, ◌==◌, ltb,
  if◌then◌else◌, update,
}
use so2_project.Address.{nr_tasks}
use so2_project.Links.{list_empty}
use so2_project.Buffer.{CircularBuffer, circular_buffer_empty, circular_buffer_pop}
use so2_project.Stats.{Stats}
use so2_project.Screen.{
  Screen, sys_write_console, clear_screen, clear_paint_screen, set_xy, change_screen_colors,
}
use so2_project.Utils.{Memory, access_ok, verify_read, verify_write, copy_from_user, copy_to_user}
use so2_project.Kernel.{Kernel, Task, blocked, get_key_blocked, null, set_task, task_address}
use so2_project.Sched.{force_task_switch, sched_next_rr, update_process_state_rr}

-- `-ESRCH`, `-EBADF`, `-EAGAIN`, `-ENOMEM`, `-EACCES`, `-EFAULT`, `-EINVAL`, `-ENOSYS` and `-ETIME`
abbrev pub e_srch : ℤ
e_srch = negsuc 2

abbrev pub e_badf : ℤ
e_badf = negsuc 8

abbrev pub e_again : ℤ
e_again = negsuc 10

abbrev pub e_nomem : ℤ
e_nomem = negsuc 11

abbrev pub e_acces : ℤ
e_acces = negsuc 12

abbrev pub e_fault : ℤ
e_fault = negsuc 13

abbrev pub e_inval : ℤ
e_inval = negsuc 21

abbrev pub e_nosys : ℤ
e_nosys = negsuc 37

abbrev pub e_time : ℤ
e_time = negsuc 61

-- `ESCRIPTURA`
abbrev pub escriptura : ℤ
escriptura = pos 1

unfoldable pub check_fd : (fd permissions : ℤ) → ℤ
check_fd fd permissions =
    if not (fd ==ℤ pos 1)
    then e_badf
    else if not (permissions ==ℤ escriptura)
    then e_acces
    else pos 0

unfoldable pub sys_ni_syscall : ℤ
sys_ni_syscall = e_nosys

unfoldable pub sys_getpid : Kernel → ℤ
sys_getpid k = (k.tasks k.current).pid

unfoldable pub sys_gettime : Kernel → ℤ
sys_gettime k = k.zeos_ticks

abbrev pub tam_buffer : ℕ
tam_buffer = 512

-- The loop of sys_write; `localbuffer` is an array on the kernel's stack. What is left comes back too.
unfoldable pub write_chunks :
    ℕ → Screen → Memory → (localbuffer buffer bytes_left : ℕ) → Screen × Memory × ℕ × ℕ
write_chunks zero s m localbuffer buffer bytes_left = (s, m, buffer, bytes_left)
write_chunks (suc fuel) s m localbuffer buffer bytes_left =
    let m' = (copy_from_user m buffer localbuffer (pos tam_buffer)).1 in
    let (ret, s') = sys_write_console s (λ i. m' (localbuffer + i)) (pos tam_buffer) in
    let rest =
      write_chunks fuel s' m' localbuffer (buffer + pos_part ret) (bytes_left - pos_part ret) in
    if ltb tam_buffer bytes_left then rest else (s, m, buffer, bytes_left)

-- What sys_write does after its loop.
unfoldable pub write_rest : (nbytes localbuffer : ℕ) → Screen × Memory × ℕ × ℕ → ℤ × Screen × Memory
write_rest nbytes localbuffer (s₁, m₁, buffer₁, bytes_left) =
    let m₂ = (copy_from_user m₁ buffer₁ localbuffer (pos bytes_left)).1 in
    let (ret, s₂) = sys_write_console s₁ (λ i. m₂ (localbuffer + i)) (pos bytes_left) in
    if ltb 0 bytes_left
    then (pos nbytes -ℤ (pos bytes_left -ℤ ret), s₂, m₂)
    else (pos nbytes -ℤ pos bytes_left, s₁, m₁)

-- The rest of the call, once the arguments have passed. One round for each byte is more than enough.
unfoldable pub write_bytes : Screen → Memory → (localbuffer buffer nbytes : ℕ) → ℤ × Screen × Memory
write_bytes s m localbuffer buffer nbytes =
    write_rest nbytes localbuffer (write_chunks nbytes s m localbuffer buffer nbytes)

unfoldable pub sys_write :
    Screen
    → Memory
    → (localbuffer : ℕ) → (fd : ℤ) → (buffer : ℕ) → (nbytes : ℤ) → ℤ × Screen × Memory
sys_write s m localbuffer fd buffer nbytes =
    if not (check_fd fd escriptura ==ℤ pos 0)
    then (check_fd fd escriptura, s, m)
    else if ltb_ℤ nbytes (pos 0)
    then (e_inval, s, m)
    else if not (access_ok verify_read buffer (pos_part nbytes))
    then (e_fault, s, m)
    else write_bytes s m localbuffer buffer (pos_part nbytes)

unfoldable pub sys_block : Kernel → ℤ × Kernel
sys_block k =
    let t = k.tasks k.current in
    (
      pos 0,
      (if t.pending_unblocks ==ℤ pos 0
          then sched_next_rr (update_process_state_rr k k.current blocked)
          else if ltb_ℤ (pos 0) t.pending_unblocks
          then set_task k k.current (record t { pending_unblocks = t.pending_unblocks -ℤ pos 1 })
          else k),
    )

-- sys_getKey up to the switch to another process: the call fails, or goes on, or waits.
pub data Entered : Type 0 where
  fails : ℤ → Entered
  goes_on waits : Entered

-- Whether the call has to wait for a key.
abbrev pub must_wait : Kernel → Bool
must_wait k =
    ltb_ℤ (pos 0) k.pending_to_service
    || (circular_buffer_empty k.keyboard_buffer || not (list_empty k.links get_key_blocked))

-- `current()->key_timeout = timeout`
abbrev pub ask : Kernel → ℤ → Kernel
ask k timeout = set_task k k.current (record (k.tasks k.current) { key_timeout = timeout })

-- The switch to another process while this one waits.
unfoldable pub wait_key : Kernel → Kernel
wait_key k = sched_next_rr (update_process_state_rr k k.current get_key_blocked)

unfoldable pub get_key_enter : Kernel → (b : ℕ) → (timeout : ℤ) → Entered × Kernel
get_key_enter k b timeout =
    if not (access_ok verify_write b 1)
    then (fails e_fault, k)
    else if must_wait (ask k timeout)
    then (waits, wait_key (ask k timeout))
    else (goes_on, ask k timeout)

-- The byte of a `char`
abbrev pub byte_of : ℤ → ℕ
byte_of c = (pos_part c + (2 ^ 8 - neg_part c % 2 ^ 8)) % 2 ^ 8

-- What is done with the character that came out of the buffer; `local` is the address of `c` on the stack.
unfoldable pub give_key : Kernel → Memory → (local b : ℕ) → ℤ × CircularBuffer → ℤ × Kernel × Memory
give_key k m local b (c, buffer) =
    let k₁ = record k { keyboard_buffer = buffer } in
    let m₁ = update m local (byte_of c) in
    if c ==ℤ negsuc 0 then (e_again, k₁, m₁) else (pos 0, k₁, (copy_to_user m₁ local b (pos 1)).1)

-- The rest of sys_getKey, when the process runs again.
unfoldable pub get_key_resume : Kernel → Memory → (local b : ℕ) → ℤ × Kernel × Memory
get_key_resume k m local b =
    if leb_ℤ (k.tasks k.current).key_timeout (pos 0)
    then (e_time, k, m)
    else give_key (record k { pending_to_service = k.pending_to_service -ℤ pos 1 }) m local b
        (circular_buffer_pop k.keyboard_buffer)

-- `((Word (*)[80]) b)[i][j]`
abbrev pub word_at : Memory → ℕ → ℕ → ℕ → ℕ
word_at m b i j = m (b + 160 * i + 2 * j) + 2 ^ 8 * m (b + 160 * i + 2 * j + 1)

unfoldable pub sys_clrscr : Screen → Memory → ℕ → ℤ × Screen
sys_clrscr s m b =
    if not (access_ok verify_read b 8000)
    then (e_fault, s)
    else if not (b == null)
    then (pos 0, clear_paint_screen s (word_at m b))
    else (pos 0, clear_screen s)

unfoldable pub sys_goto_xy : Screen → (x y : ℤ) → ℤ × Screen
sys_goto_xy s x y =
    if ltb_ℤ (pos 80) x || (ltb_ℤ (pos 25) y || (ltb_ℤ x (pos 0) || ltb_ℤ y (pos 0)))
    then (e_inval, s)
    else (pos 0, set_xy s (pos_part x) (pos_part y))

unfoldable pub sys_change_color : Screen → (fg bg : ℕ) → ℤ × Screen
sys_change_color s fg bg = (pos 0, change_screen_colors s fg bg)

unfoldable pub sys_yield : Kernel → ℤ × Kernel
sys_yield k = (pos 0, force_task_switch k)
