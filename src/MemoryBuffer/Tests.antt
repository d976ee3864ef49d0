-- ===== src/MemoryBuffer/Tests.antt =====
-- A MemoryBuffer of two writes, and what it does.
use ryulib_cpp.Common.{◌≡◌, some, List, [], ◌∷◌, arith}
use ryulib_cpp.MemoryBuffer.{empty, block, null}
use ryulib_cpp.MemoryBuffer.Fifo.{Call, clears, writes, reads, run, run_fifo, run_refines}

abbrev calls : List Call
calls =
    writes (1 ∷ 2 ∷ 3 ∷ []) ∷ reads 1 ∷ writes (4 ∷ []) ∷ reads 9 ∷ reads 3 ∷ clears ∷ reads 1 ∷ []

run_refines_example :
    run empty calls ≡ some (block 1 (1 ∷ []) ∷ null ∷ block 3 (2 ∷ 3 ∷ 4 ∷ []) ∷ null ∷ [])
unfolding run_fifo
run_refines_example =
    run_refines calls (omega arith, (omega arith, (omega arith, (omega arith, tt)))) (omega arith)
