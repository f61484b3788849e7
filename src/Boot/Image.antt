-- ===== src/Boot/Image.antt =====
-- The image of the user's program, which main copies to the pages of the first process.
use so2_project.Common.{
  ℕ, ◌+◌, ◌*◌, ◌/◌, ◌%◌, ◌^◌, ◌≤◌, ◌<◌, ◌≡◌, ap, ◌∙◌, inr, arith, for_range, for_range_inv, update,
}
use so2_project.Paging.{PageTable, get_frame}
use so2_project.Utils.{Memory}
use so2_project.Utils.Copy.{copy-move}
use so2_project.Regions.Dynamic.{get_int}
use so2_project.Processes.{translate}
use so2_project.Boot.Main.{kernel_start, ph_user_start, copy_image}

-- Bytes that go to different places are all there at the end.
scatter :
    (n : ℕ) (a : ℕ → ℕ) (v : ℕ → ℕ) (f : Memory)
    → ((i j : ℕ) → i < n → j < n → a i ≡ a j → i ≡ j)
    → (j : ℕ) → j < n
    → for_range n 0 (λ i m. update m (a i) (v i)) f (a j) ≡ v j
scatter n a v f apart =
    for_range_inv (λ i (m : Memory). (j : ℕ) → j < i → m (a j) ≡ v j) _ n 0 n f
      (λ i m lo hi h j l. ground (arith, h j, apart j i)) (omega arith)
      (λ j l. absurd (omega arith))

-- The pages of the kernel are their own frames, and the user's pages have every second frame from 256 on.
pub record IsFirst (pt : PageTable) : Type 0 where
  pub user : (i : ℕ) → i < 28 → get_frame pt (256 + i) ≡ 256 + 2 * i
  pub kernel : (p : ℕ) → 16 ≤ p → p < 256 → get_frame pt p ≡ p

module _ (pt : PageTable) (h : IsFirst pt) where
  translate-user :
      (i : ℕ)
      → i < 28 * 4096
      → translate pt (ph_user_start + i) ≡ 2 ^ 20 + 8192 * (i / 4096) + i % 4096
  translate-user i l =
      let page : (ph_user_start + i) / 4096 ≡ 256 + i / 4096 = omega arith in
      let offset : (ph_user_start + i) % 4096 ≡ i % 4096 = omega arith in
      rw (page, offset, h.user (i / 4096) (omega arith)) (omega arith)

  translate-kernel : (a : ℕ) → kernel_start ≤ a → a < 2 ^ 20 → translate pt a ≡ a
  translate-kernel a lo hi = rw (h.kernel (a / 4096) (omega arith) (omega arith)) (omega arith)

  pub copy_image-bytes :
      (ram : Memory) (i : ℕ)
      → let sys_size = get_int ram kernel_start in
        let usr_size = get_int ram (kernel_start + 4) in
        kernel_start + sys_size + usr_size ≤ 2 ^ 20
        → usr_size ≤ 28 * 4096
        → i < usr_size
        → copy_image pt ram (translate pt (ph_user_start + i)) ≡ ram (kernel_start + sys_size + i)
  unfolding copy_image
  copy_image-bytes ram i room small l =
      let sys_size = get_int ram kernel_start in
      let usr_size = get_int ram (kernel_start + 4) in
      let src = kernel_start + sys_size in
      let m =
        copy-move (λ a. ram (translate pt a)) src ph_user_start usr_size (inr (omega arith)) in
      scatter usr_size (λ j. translate pt (ph_user_start + j)) _ ram
        (λ p q lp lq e.
          omega (arith, translate-user p (omega arith), translate-user q (omega arith), e))
        i l
      ∙ rw (m.0) (ground arith)
      ∙ ap ram (translate-kernel (src + i) (omega arith) (omega arith))
