-- ===== src/SocketUtils/Tests.antt =====
-- Packets of a few bytes, and a PacketReader as the constructor makes it.
use ryulib_cpp.Common.{
  ℕ, ◌+◌, ◌*◌, ◌^◌, ◌<◌, ◌≡◌, refl, none, some, List, [], ◌∷◌, arith, length, drop, replicate,
  length-replicate, length-drop,
}
use ryulib_cpp.SocketUtils.{
  packet_limit, packet_size, create_packet, PacketReader, new_reader, read,
}
use ryulib_cpp.SocketUtils.Create.{create_packet_wraps}
use ryulib_cpp.SocketUtils.Reader.{IsValid, pending, read_overflows, read_overlaps, can_read-header}
use ryulib_cpp.SocketUtils.Draining.{stream}
use ryulib_cpp.SocketUtils.Stream.{feed, feed-stream, sent, feed-sent}

abbrev large : List ℕ
large = replicate (2 ^ 16) 1

create_packet_wraps_example : packet_size (create_packet 7 large) < length (create_packet 7 large)
create_packet_wraps_example =
    create_packet_wraps 7 large (omega (arith, length-replicate {A = ℕ} (2 ^ 16) 1))

-- What malloc left in the two blocks is taken to be zeros.
buffer_block : List ℕ
buffer_block = replicate (packet_limit * 2) 0

out_block : List ℕ
out_block = replicate (packet_limit + 4) 0

buffer_block-length : length buffer_block ≡ packet_limit * 2
unfolding buffer_block
buffer_block-length = length-replicate {A = ℕ} (packet_limit * 2) 0

out_block-length : length out_block ≡ packet_limit + 4
unfolding out_block
out_block-length = length-replicate {A = ℕ} (packet_limit + 4) 0

-- Three bytes in the buffer, and zeros behind them.
abbrev holding : ℕ → ℕ → ℕ → PacketReader
holding a b c = record { buffer = a ∷ b ∷ c ∷ drop 3 buffer_block; out = out_block; size = 3 }

holding-IsValid : (a b c : ℕ) → IsValid (holding a b c)
holding-IsValid a b c = record {
  buffer_block = omega (arith, length-drop 3 buffer_block, buffer_block-length);
  out_block = out_block-length;
  inside = omega arith;
}

-- The whole buffer is one packet of 40000 bytes.
abbrev oversize : PacketReader
oversize = record { buffer = 64 ∷ 156 ∷ 1 ∷ drop 3 buffer_block; out = out_block; size = 40000 }

oversize-IsValid : IsValid oversize
oversize-IsValid = record {
  buffer_block = omega (arith, length-drop 3 buffer_block, buffer_block-length);
  out_block = out_block-length;
  inside = omega arith;
}

oversize-size : packet_size (pending oversize) ≡ 40000
oversize-size = refl

read_overflows_example : read oversize ≡ none
read_overflows_example =
    read_overflows oversize oversize-IsValid
      (can_read-header oversize oversize-IsValid (omega arith) (omega (arith, oversize-size)))
      (omega (arith, oversize-size))

abbrev messages : List (ℕ × List ℕ)
messages = (1, 10 ∷ 11 ∷ []) ∷ (2, []) ∷ []

abbrev pieces : List (List ℕ)
pieces = (5 ∷ []) ∷ (0 ∷ 1 ∷ 10 ∷ []) ∷ (11 ∷ 3 ∷ 0 ∷ []) ∷ (2 ∷ []) ∷ []

feed-stream_example :
    (r : PacketReader) × (feed (new_reader buffer_block out_block) pieces
      ≡ some ((5 ∷ 0 ∷ 1 ∷ 10 ∷ 11 ∷ []) ∷ (3 ∷ 0 ∷ 2 ∷ []) ∷ [], r))
    × (pending r ≡ [])
    × IsValid r
feed-stream_example =
    feed-stream buffer_block out_block 3 ((5 ∷ 0 ∷ 1 ∷ 10 ∷ 11 ∷ []) ∷ (3 ∷ 0 ∷ 2 ∷ []) ∷ []) pieces
      buffer_block-length out_block-length (omega arith)
      (
        ((omega arith, omega arith, refl), omega arith),
        (((omega arith, omega arith, refl), omega arith), tt),
      )
      (omega arith, (omega arith, (omega arith, (omega arith, tt)))) refl

pieces-stream : stream pieces ≡ stream (sent messages)
unfolding create_packet
pieces-stream = refl

feed-sent_example :
    (r : PacketReader) × (feed (new_reader buffer_block out_block) pieces ≡ some (sent messages, r))
    × (pending r ≡ [])
    × IsValid r
feed-sent_example =
    feed-sent buffer_block out_block 3 messages pieces buffer_block-length out_block-length
      (omega arith) ((omega arith, omega arith), ((omega arith, omega arith), tt))
      (omega arith, (omega arith, (omega arith, (omega arith, tt)))) pieces-stream

-- A packet of three bytes, and four behind it.
abbrev two_packets : PacketReader
two_packets = record { buffer = 3 ∷ 0 ∷ 1 ∷ drop 3 buffer_block; out = out_block; size = 7 }

two_packets-IsValid : IsValid two_packets
two_packets-IsValid = record {
  buffer_block = omega (arith, length-drop 3 buffer_block, buffer_block-length);
  out_block = out_block-length;
  inside = omega arith;
}

two_packets-size : packet_size (pending two_packets) ≡ 3
two_packets-size = refl

read_overlaps_example : read two_packets ≡ none
read_overlaps_example =
    read_overlaps two_packets two_packets-IsValid
      (can_read-header two_packets two_packets-IsValid (omega arith)
        (omega (arith, two_packets-size)))
      (omega (arith, two_packets-size))
