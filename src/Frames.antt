-- ===== src/Frames.antt =====
-- The byte map of physical frames in mm.c: init_frames, alloc_frame and free_frame.
pub mod Alloc
pub mod Free
mod Tests
use so2_project.Common.{
  ℕ, zero, suc, ◌+◌, ◌-◌, ◌/◌, Bool, Option, none, some, ltb, ◌==◌, ◌&&◌, if◌then◌else◌, update,
  for_range,
}
use so2_project.Address.{total_pages, num_pag_kernel}

abbrev pub free_mark : ℕ
free_mark = 0

abbrev pub used_mark : ℕ
used_mark = 1

-- `phys_mem`
abbrev pub PhysMem : Type 0
PhysMem = ℕ → ℕ

unfoldable pub init_frames : PhysMem → PhysMem
init_frames mem =
    for_range num_pag_kernel 0 (λ i m. update m i used_mark)
      (for_range total_pages 0 (λ i m. update m i free_mark) mem)

-- The search from frame `i` on; `none` is the -1 of a full memory.
unfoldable pub alloc_from : ℕ → ℕ → PhysMem → Option ℕ × PhysMem
alloc_from zero i mem = (none, mem)
alloc_from (suc fuel) i mem =
    let rest = alloc_from fuel (i + 2) mem in
    if ltb i total_pages
    then (if mem i == free_mark then (some i, update mem i used_mark) else rest)
    else (none, mem)

-- A round for each frame that the search can meet, and one for the end of the loop.
abbrev pub alloc_fuel : ℕ
alloc_fuel = (total_pages - num_pag_kernel) / 2 + 1

unfoldable pub alloc_frame : PhysMem → Option ℕ × PhysMem
unfolding alloc_from
alloc_frame mem = alloc_from alloc_fuel num_pag_kernel mem

unfoldable pub free_frame : PhysMem → ℕ → PhysMem
free_frame mem frame =
    if ltb num_pag_kernel frame && ltb frame total_pages then update mem frame free_mark else mem
