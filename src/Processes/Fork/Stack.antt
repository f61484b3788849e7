-- ===== src/Processes/Fork/Stack.antt =====
-- What sys_fork writes to the stack of the child, which is no frame of a user.
use so2_project.Common.{ℕ, ◌+◌, ◌-◌, ◌^◌, ◌≤◌, ◌≡◌, ◌∙◌, ◌⊎◌, arith}
use so2_project.Utils.{Memory}
use so2_project.Utils.Copy.{copy-move}
use so2_project.Regions.Dynamic.{get_int, put_int}
use so2_project.Processes.{copy_stack, move_ebp, push}
use so2_project.Processes.Fork.{fork_stack}

-- The kernel's stacks lie below the frames of the users, and the saved frame pointer in the caller's.
pub record IsStack (current t ebp : ℕ) : Type 0 where
  pub current_low : current + 4096 ≤ 2 ^ 20
  pub child_low : t + 4096 ≤ 2 ^ 20
  pub above : current + 4 ≤ ebp
  pub below : ebp + 4 ≤ current + 4096

-- The writes to the child's stack change no frame of a user.
pub copy_stack-user :
    (ram : Memory) (from t a : ℕ)
    → (t ≤ from) ⊎ (from + 4096 ≤ t)
    → t + 4096 ≤ 2 ^ 20
    → 2 ^ 20 ≤ a
    → copy_stack ram from t a ≡ ram a
copy_stack-user ram from t a apart low high =
    rw ((copy-move ram from t 4096 apart).0) (ground arith)

put-user : (ram : Memory) (b v a : ℕ) → b + 4 ≤ a → put_int ram b v a ≡ ram a
put-user ram b v a l = ground arith

pub fork_stack-user :
    (ram : Memory) (current t ebp ret a : ℕ)
    → IsStack current t ebp
    → 2 ^ 20 ≤ a
    → fork_stack ram (move_ebp ebp current t) ret a ≡ ram a
unfolding fork_stack
fork_stack-user ram current t ebp ret a st high =
    let low = st.current_low in
    let child = st.child_low in
    let above = st.above in
    let below = st.below in
    let e : move_ebp ebp current t ≡ ebp - current + t = omega arith in
    put-user (put_int ram (move_ebp ebp current t) ret) (push (move_ebp ebp current t))
      (get_int ram (move_ebp ebp current t)) a (rw e (omega arith))
    ∙ put-user ram (move_ebp ebp current t) ret a (rw e (omega arith))
