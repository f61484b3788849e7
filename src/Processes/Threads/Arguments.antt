-- ===== src/Processes/Threads/Arguments.antt =====
-- The words on the user stack of a new thread.
use so2_project.Common.{
  ℕ, ◌+◌, ◌-◌, ◌*◌, ◌/◌, ◌<◌, ◌≡◌, refl, ap, ◌∙◌, ◌≢◌, pos, ◌+ℤ◌, some, true, arith,
}
use so2_project.Frames.{PhysMem}
use so2_project.Paging.{PageTable}
use so2_project.Utils.{Memory}
use so2_project.Kernel.{Kernel}
use so2_project.Regions.{is_present}
use so2_project.Regions.Dynamic.{put_int}
use so2_project.Processes.{tables_of, set_tables_of, is_mapped, translate, word_of, push}
use so2_project.Processes.Threads.{
  Request, settle_thread, master_list, stack_top, put_user, then_put, put_arguments,
}

-- The top of the user's stack is in the last of its pages, and so is the word below it.
stack_top-page : (g n : ℕ) → 0 < n → g + n < 1024 → stack_top g (pos n) ≡ (g + n) * 4096 - 4
stack_top-page g n some_pages room =
    let sum : word_of (pos g +ℤ pos n) ≡ g + n = ground arith in rw sum (omega arith)

-- The table of the thread, after the fields are written.
pub settle_thread-table :
    (k : Kernel) (t g : ℕ) (q : Request) (s : PageTable × PhysMem)
    → (tables_of (settle_thread (set_tables_of k t s) t g q) t).0 ≡ s.0
unfolding settle_thread
settle_thread-table k t g q s = ground arith

pub settle_thread-same :
    (k : Kernel) (t g : ℕ) (q : Request)
    → ((settle_thread k t g q).current ≡ k.current)
      × (t ≢ k.current → master_list (settle_thread k t g q) ≡ master_list k)
      × (((settle_thread k t g q).tasks t).pid ≡ k.global_pid +ℤ pos 1)
unfolding settle_thread
settle_thread-same k t g q = (refl, (λ ne. ground arith), ground arith)

put_user-some :
    (pt : PageTable) (ram : Memory) (a v : ℕ)
    → is_mapped pt (a / 4096) ≡ true
    → put_user pt ram a v ≡ some (put_int ram (translate pt a) v)
put_user-some pt ram a v e = rw e refl

-- The writes to the user's stack meet no page fault.
pub put_arguments-some :
    (pt : PageTable) (ram : Memory) (g n : ℕ) (q : Request)
    → 0 < n
    → g + n < 1024
    → is_present pt (g + n - 1) ≡ true
    → (ram' : Memory) × (put_arguments pt ram (stack_top g (pos n)) q ≡ some ram')
put_arguments-some pt ram g n q some_pages room here =
    let top = stack_top-page g n some_pages room in
    let page : stack_top g (pos n) / 4096 ≡ g + n - 1 = rw top (omega arith) in
    let below : push (stack_top g (pos n)) / 4096 ≡ g + n - 1 = rw top (omega arith) in
    let mapped : is_mapped pt (g + n - 1) ≡ true = ground (arith, here) in
    (
      _,
      ap (then_put pt (stack_top g (pos n)) q) (
            put_user-some pt ram (push (stack_top g (pos n))) q.ext
              (ap (is_mapped pt) below ∙ mapped))
          ∙ put_user-some pt _ (stack_top g (pos n)) q.parameter (ap (is_mapped pt) page ∙ mapped),
    )
