-- ===== src/CharQueue.antt =====
-- What circular_buffer.c promises: a first-in first-out queue of characters that holds at most
-- `BUFFER_SIZE` of them. It is the specification that Buffer is checked against.
use so2_project.Common.{ℤ, pos, negsuc, List, [], ◌∷◌, ◌++◌, ltb, if◌then◌else◌, length, ℕ}

abbrev pub CharQueue : Type 0
CharQueue = List ℤ

-- A character goes in at the end, unless the queue is full.
unfoldable pub push : ℕ → CharQueue → ℤ → ℤ × CharQueue
push cap q c = if ltb (length q) cap then (pos 0, q ++ (c ∷ [])) else (negsuc 0, q)

-- The oldest character comes out; -1 stands for none.
unfoldable pub pop : CharQueue → ℤ × CharQueue
pop [] = (negsuc 0, [])
pop (c ∷ q) = (c, q)

pub data Op : Type 0 where
  put : ℤ → Op
  get : Op

-- A client's calls in order, with what each returns.
unfoldable pub run : ℕ → CharQueue → List Op → List ℤ
run cap q [] = []
run cap q (put c ∷ ops) = let (r, q') = push cap q c in r ∷ run cap q' ops
run cap q (get ∷ ops) = let (r, q') = pop q in r ∷ run cap q' ops
