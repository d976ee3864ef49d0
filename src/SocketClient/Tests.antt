-- ===== src/SocketClient/Tests.antt =====
-- A client that is sent two messages.
use ryulib_cpp.Common.{
  ℕ, ◌*◌, ◌≡◌, refl, true, some, List, [], ◌∷◌, length, flatten, replicate, length-replicate, arith,
}
use ryulib_cpp.SocketUtils.{packet_limit, create_packet}
use ryulib_cpp.SocketClient.{SocketClient, received, connected, header, deliver}
use ryulib_cpp.SocketClient.Receiving.{Message, packets_of, deliver-sent}

memory : List ℕ
memory = replicate (packet_limit * 2) 0

memory-length : length memory ≡ packet_limit * 2
unfolding memory
memory-length = length-replicate {A = ℕ} (packet_limit * 2) 0

abbrev client : SocketClient
client = record {
  receive_buffer = memory;
  is_open = true;
  reading = header;
  writes = [];
  log = connected ∷ [];
}

abbrev messages : List Message
messages = (1, 104 ∷ 105 ∷ []) ∷ (2, []) ∷ []

deliver-sent_example :
    (c' : SocketClient) × (deliver 4 (flatten (packets_of messages)) client ≡ some ([], c'))
    × (c'.log
        ≡ connected
          ∷ received (create_packet 1 (104 ∷ 105 ∷ []))
          ∷ received (create_packet 2 [])
          ∷ [])
    × (c'.reading ≡ header)
deliver-sent_example =
    deliver-sent messages client refl memory-length (omega arith, (omega arith, tt))
