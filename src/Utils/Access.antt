-- ===== src/Utils/Access.antt =====
-- Which ranges access_ok lets through.
use so2_project.Common.{ℕ, ◌+◌, ◌*◌, ◌^◌, ◌≤◌, ◌<◌, ◌≡◌, ◌↔◌, true, arith}
use so2_project.Address.{page_size, l_user_start}
use so2_project.Utils.{access_ok}

-- A range that is shorter than 2 GB and does not begin in the last 2 GB passes exactly if it begins
-- at or above L_USER_START and ends below the end of page 284, which is the page after the user's
-- last one. This holds for reading and for writing alike.
pub access_ok_iff :
    (type addr size : ℕ)
    → addr < 2 ^ 31
    → size < 2 ^ 31
    → (access_ok type addr size ≡ true) ↔ ((l_user_start ≤ addr) × (addr + size < 285 * page_size))
unfolding access_ok
access_ok_iff type addr size ha hs = (λ h. ground arith, λ h. ground arith)
