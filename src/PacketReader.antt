-- ===== src/PacketReader.antt =====
-- include/ryulib/PacketReader.hpp: a buffer of bytes that is read by counts of the caller's choice.
-- A pointer with a size is the list of its bytes; malloc is taken to succeed.
pub mod Bytes
use ryulib_cpp.Common.{
  ℕ, ◌+◌, ◌-◌, ◌*◌, Bool, true, false, not, Option, none, some, List, if◌then◌else◌, ltb, leb,
  length, ◌>>=◌,
}
use ryulib_cpp.Common.Blocks.{memcpy, memcpy_within}

abbrev pub packetreader_buffer_size : ℕ
packetreader_buffer_size = 1024 * 1024

pub record PacketReader : Type 0 where
  pub buffer : List ℕ
  pub out : List ℕ
  pub size : ℕ

-- The constructor, with what malloc leaves in the two blocks.
pub new_reader : List ℕ → List ℕ → PacketReader
new_reader buffer out = record { buffer = buffer; out = out; size = 0 }

pub clear : PacketReader → PacketReader
clear r = record r { size = 0 }

pub write : PacketReader → List ℕ → Option PacketReader
write r bytes = memcpy r.buffer r.size bytes 0 (length bytes) >>= λ buffer.
    some (record r { buffer = buffer; size = r.size + length bytes })

pub can_read : PacketReader → ℕ → Bool
can_read r size = leb size r.size

-- The rest of `read` once the packet is in `data_`: what is left moves inside the buffer.
pub move_down : PacketReader → ℕ → Option PacketReader
move_down r size =
    if ltb 0 r.size
    then (memcpy_within r.buffer 0 size r.size >>= λ buffer. some (record r { buffer = buffer }))
    else some r

-- `none` for the null pointer, or the block `data_` that begins with the `size` bytes.
pub read : PacketReader → ℕ → Option (Option (List ℕ) × PacketReader)
read r size =
    if not (can_read r size)
    then some (none, r)
    else (memcpy r.out 0 r.buffer 0 size >>= λ out.
        move_down (record r { out = out; size = r.size - size }) size >>= λ r'. some (some out, r'))
