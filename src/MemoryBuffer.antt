-- ===== src/MemoryBuffer.antt =====
-- include/ryulib/MemoryBuffer.hpp: the classes Buffer and MemoryBuffer.
-- A pointer with a size is the list of the bytes that it points to. Sizes are the values of `int`
-- that are not negative; malloc is taken to succeed. A run that meets undefined behaviour is `none`.
pub mod Contents
pub mod Fifo
mod Tests
use ryulib_cpp.Common.{
  ℕ, zero, suc, ◌+◌, ◌-◌, ◌*◌, ◌^◌, min, Bool, true, false, Option, none, some, List, [], ◌∷◌, ◌++◌,
  if◌then◌else◌, ◌==◌, ltb, leb, length, ◌>>=◌, ◌>>◌,
}
use ryulib_cpp.Common.Blocks.{read_at, add_int}

-- `offset` is the distance of `offset_` from `data_`.
pub record Buffer : Type 0 where
  pub block : List ℕ
  pub offset : ℕ
  pub size : ℕ

-- `Buffer(data, size)`.
pub new_buffer : List ℕ → Buffer
new_buffer bytes = record { block = bytes; offset = 0; size = length bytes }

-- `Buffer::read`: the number of bytes, the bytes that were copied out, and the buffer after it.
pub read_buffer : Buffer → ℕ → Option (ℕ × List ℕ × Buffer)
unfolding read_at
read_buffer b size =
    if leb b.size 0
    then some (0, [], b)
    else (let result = if ltb b.size size then b.size else size in
        read_at b.block b.offset result >>= λ bytes.
        some (result, bytes, record b { offset = b.offset + result; size = b.size - result }))

pub record MemoryBuffer : Type 0 where
  pub size : ℕ
  pub queue : List Buffer

unfoldable pub empty : MemoryBuffer
empty = record { size = 0; queue = [] }

-- The loop of `clear`: every buffer is popped and deleted.
pub pop_all : List Buffer → List Buffer
pop_all [] = []
pop_all (b ∷ q) = pop_all q

pub clear : MemoryBuffer → MemoryBuffer
unfolding pop_all
clear m = record { size = 0; queue = pop_all m.queue }

pub write : MemoryBuffer → List ℕ → Option MemoryBuffer
unfolding new_buffer add_int
write m bytes = add_int m.size (length bytes) >>= λ size.
    some (record { size = size; queue = m.queue ++ new_buffer bytes ∷ [] })

-- The loop of `read`. `n` is `bytes_to_copy`, `out` what stands before `offset` in the result.
-- Out of fuel it is `none`.
pub read_loop : ℕ → List Buffer → ℕ → List ℕ → Option (List ℕ × List Buffer)
read_loop zero q n out = none
read_loop (suc fuel) [] n out = some (out, [])
read_loop (suc fuel) (b ∷ q) n out = read_buffer b n >>= λ (copied, bytes, b').
    let next = read_loop fuel q n out in
    let more = read_loop fuel (b' ∷ q) (n - copied) (out ++ bytes) in
    if leb copied 0
    then next
    else (if leb (n - copied) 0 then some (out ++ bytes, b' ∷ q) else more)

-- The result of `read`: the null pointer, or a block of `size` bytes of which the first are `filled`.
pub data Result : Type 0 where
  null : Result
  block : (size : ℕ) → (filled : List ℕ) → Result

unfoldable pub read : MemoryBuffer → ℕ → Option (Result × MemoryBuffer)
read m size =
    if ltb m.size size
    then some (null, m)
    else (read_loop (2 * length m.queue + 1) m.queue size [] >>= λ (out, q).
        some (block size out, record { size = m.size - size; queue = q }))
