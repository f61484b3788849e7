-- ===== src/Buffer/Tests.antt =====
-- Runs of the circular buffer, and the theorems about it at concrete buffers.
use so2_project.Common.{pos, negsuc, ◌≡◌, refl, List, [], ◌∷◌, arith}
use so2_project.CharQueue
use so2_project.CharQueue.{Op, put, get}
use so2_project.Buffer.{CircularBuffer, init_circular_buffer, run}
use so2_project.Buffer.Inv.{IsValid}
use so2_project.Buffer.Refine.{run_refines}

abbrev fresh : CircularBuffer
fresh = record {
  head = pos 0;
  tail = negsuc 0;
  num_elem = pos 0;
  buffer = pos 0 ∷ pos 0 ∷ pos 0 ∷ [];
}

abbrev script : List Op
script = put (pos 7) ∷ get ∷ put (pos 8) ∷ put (pos 9) ∷ put (pos 5) ∷ put (pos 6) ∷ get ∷ get ∷ []

run-fresh : run fresh script ≡ pos 0 ∷ pos 7 ∷ pos 0 ∷ pos 0 ∷ pos 0 ∷ negsuc 0 ∷ pos 8 ∷ pos 9 ∷ []
unfolding run
run-fresh = refl

init_fresh : init_circular_buffer (record fresh { head = pos 2 }) ≡ fresh
unfolding init_circular_buffer
init_fresh = refl

fresh-IsValid : IsValid fresh
fresh-IsValid = omega arith

run_refines_example : run fresh script ≡ CharQueue.run 3 [] script
run_refines_example = run_refines script fresh-IsValid
