-- ===== src/SocketUtils/Create.antt =====
-- The packets that `create_packet` makes.
use ryulib_cpp.Common.{
  ℕ, ◌+◌, ◌^◌, ◌≤◌, ◌<◌, ◌≡◌, refl, ap, ◌∙◌, some, List, [], ◌∷◌, ◌++◌, arith, length, length-take,
  length-drop, take, replicate, take-all, length-replicate, drop-replicate,
}
use ryulib_cpp.Common.Blocks.{memcpy-some}
use ryulib_cpp.Common.Int.{pos}
use ryulib_cpp.SocketUtils.{
  create_packet, packet_size, packet_type, data_start, get_data_size, get_text, copy_text,
}

-- A packet of a type below 256 and of data that fits its size field reads back what was put in: its
-- size field is its length, and its type, its data size and its data are those given.
pub create_packet-fields :
    (type : ℕ) (bytes : List ℕ)
    → type < 256
    → length bytes + 3 < 2 ^ 16
    → (packet_size (create_packet type bytes) ≡ length (create_packet type bytes))
      × (packet_type (create_packet type bytes) ≡ type)
      × (get_data_size (create_packet type bytes) ≡ pos (length bytes))
      × (data_start (create_packet type bytes) ≡ bytes)
unfolding create_packet get_data_size
create_packet-fields type bytes ht hs = (omega arith, omega arith, ground arith, refl)

get_data_size-create_packet :
    (type : ℕ) (bytes : List ℕ)
    → length bytes + 3 < 2 ^ 16
    → get_data_size (create_packet type bytes) ≡ pos (length bytes)
unfolding create_packet get_data_size
get_data_size-create_packet type bytes h = ground arith

get_text-some :
    (p : List ℕ) (n : ℕ)
    → packet_size p ≡ n + 3
    → get_data_size p ≡ pos n
    → n + 3 ≤ length p
    → get_text p ≡ some (take n (data_start p) ++ replicate 3 0)
unfolding get_text copy_text
get_text-some p n size data_size fits =
    rw (size, data_size)
      (memcpy-some (replicate (n + 3) 0) p 0 3 n (omega (arith, length-replicate {A = ℕ} (n + 3) 0))
          (omega arith)
        ∙ ap (λ xs. some (take n (data_start p) ++ xs))
            (drop-replicate (0 + length (take n (data_start p))) 3 (n + 3) 0
              (omega (arith, length-take n (data_start p), length-drop 3 p))))

-- getText of a packet made from a text that fits the size field is the text and three zero bytes.
pub get_text-create_packet :
    (type : ℕ) (text : List ℕ)
    → length text + 3 < 2 ^ 16
    → get_text (create_packet type text) ≡ some (text ++ 0 ∷ 0 ∷ 0 ∷ [])
unfolding create_packet
get_text-create_packet type text h =
    get_text-some (create_packet type text) (length text) (omega arith)
      (get_data_size-create_packet type text h) (omega arith)
    ∙ ap (λ xs. some (xs ++ 0 ∷ 0 ∷ 0 ∷ [])) (take-all (length text) text (omega arith))

-- From 2^16 - 3 bytes of data on, the size field wraps: the packet is longer than it says.
pub create_packet_wraps :
    (type : ℕ) (bytes : List ℕ)
    → 2 ^ 16 ≤ length bytes + 3
    → packet_size (create_packet type bytes) < length (create_packet type bytes)
unfolding create_packet
create_packet_wraps type bytes h = omega arith
