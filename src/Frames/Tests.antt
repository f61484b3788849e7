-- ===== src/Frames/Tests.antt =====
-- Runs of the frame allocator, and the theorems about it at concrete memories.
use so2_project.Common.{◌≡◌, refl, some, none, if◌then◌else◌, ltb}
use so2_project.Frames.{PhysMem, free_mark, used_mark, alloc_frame, free_frame}
use so2_project.Frames.Alloc.{Found, alloc_frame-Found}
use so2_project.Frames.Free.{free_frame-alloc_frame}

-- Frames 256 and 258 are used.
abbrev memory : PhysMem
memory k = if ltb k 260 then used_mark else free_mark

alloc_memory : (alloc_frame memory).0 ≡ some 260
unfolding alloc_frame
alloc_memory = refl

alloc_full : (alloc_frame (λ _. used_mark)).0 ≡ none
unfolding alloc_frame
alloc_full = refl

alloc_frame-Found_example : Found 256 memory (alloc_frame memory)
alloc_frame-Found_example = alloc_frame-Found memory

free_frame-alloc_frame_example : free_frame (alloc_frame memory).1 260 ≡ memory
free_frame-alloc_frame_example = free_frame-alloc_frame memory 260 alloc_memory
