-- ===== src/SocketUtils.antt =====
-- include/ryulib/SocketUtils.hpp: packets, `create_packet` and the PacketReader that finds the
-- packets in a stream of bytes. `#pragma pack(1)` makes a packet the bytes of its size (two, the
-- low one first), of its type, and of its data; `sizeof(Packet)` is 4. malloc is taken to succeed.
pub mod Create
pub mod Reader
pub mod Draining
pub mod Stream
mod Tests
use ryulib_cpp.Common.{
  ℕ, zero, suc, ◌+◌, ◌-◌, ◌*◌, ◌/◌, ◌%◌, ◌^◌, Bool, true, false, not, Option, none, some, List, [],
  ◌∷◌, ◌++◌, if◌then◌else◌, ltb, leb, length, get_or, take, drop, replicate, ◌>>=◌, ◌>>◌,
}
use ryulib_cpp.Common.Blocks.{memcpy, memcpy_within}
use ryulib_cpp.Common.Int.{ℤ, pos, negsuc, sub_ℕ}

abbrev pub header_size : ℕ
header_size = 3

abbrev pub packet_limit : ℕ
packet_limit = 32 * 1024

abbrev pub sizeof_packet : ℕ
sizeof_packet = 4

-- The field `packet_size` of the packet that starts a block.
abbrev pub packet_size : List ℕ → ℕ
packet_size block = get_or block 0 0 + 256 * get_or block 1 0

abbrev pub packet_type : List ℕ → ℕ
packet_type block = get_or block 2 0

-- `getData`: what follows the header.
abbrev pub data_start : List ℕ → List ℕ
data_start block = drop 3 block

-- `getDataSize`: an `int`, below zero for a packet whose size is less than its header's.
unfoldable pub get_data_size : List ℕ → ℤ
get_data_size block = sub_ℕ (packet_size block) 3

-- `memcpy` from `data_start`, whose last argument is a `size_t`: a negative size is out of every
-- block.
pub copy_text : List ℕ → List ℕ → ℤ → Option (List ℕ)
copy_text result block (pos n) = memcpy result 0 block 3 n
copy_text result block (negsuc n) = none

-- `getText`: a block of `packet_size` bytes, zero behind the text.
pub get_text : List ℕ → Option (List ℕ)
get_text block = copy_text (replicate (packet_size block) 0) block (get_data_size block)

-- Both `create_packet`s: the `text` of the second is the `data` of the first. The size is stored in
-- an `unsigned short`, the type in an `unsigned char`.
unfoldable pub create_packet : ℕ → List ℕ → List ℕ
create_packet type bytes =
    let size = (length bytes + sizeof_packet - 1) % 2 ^ 16 in
    (size % 256) ∷ (size / 256) ∷ (type % 256) ∷ bytes

pub record PacketReader : Type 0 where
  pub buffer : List ℕ
  pub out : List ℕ
  pub size : ℕ

-- The constructor, with what malloc leaves in the two blocks.
pub new_reader : List ℕ → List ℕ → PacketReader
new_reader buffer out = record { buffer = buffer; out = out; size = 0 }

pub clear : PacketReader → PacketReader
clear r = record r { size = 0 }

pub write : PacketReader → List ℕ → Option PacketReader
write r bytes =
    if leb (length bytes) 0
    then some r
    else (memcpy r.buffer r.size bytes 0 (length bytes) >>= λ buffer.
        some (record r { buffer = buffer; size = r.size + length bytes }))

-- `buffer_` is never null after the constructor.
pub can_read : PacketReader → Bool
can_read r = if ltb r.size header_size then false else leb (packet_size r.buffer) r.size

-- The bytes behind the packet move to the front of their own block.
pub move_down : PacketReader → ℕ → ℕ → Option PacketReader
move_down r n left =
    if ltb 0 left
    then (memcpy_within r.buffer 0 n left >>= λ buffer.
        some (record r { buffer = buffer; size = left }))
    else some (record r { size = left })

-- `read`: `none` for the null pointer, or the block `data_` that begins with the packet.
pub read : PacketReader → Option (Option (List ℕ) × PacketReader)
read r =
    if not (can_read r)
    then some (none, r)
    else (let n = packet_size r.buffer in
        memcpy r.out 0 r.buffer 0 n >>= λ out.
        move_down (record r { out = out }) n (r.size - n) >>= λ r'. some (some out, r'))
