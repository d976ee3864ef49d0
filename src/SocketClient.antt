-- ===== src/SocketClient.antt =====
-- include/ryulib/SocketClient.hpp: a client that reads packets by header and body. boost::asio is a
-- parameter: the end of each of its operations calls a handler, after it has put what it read into
-- the buffer.
pub mod Receiving
mod Tests
use ryulib_cpp.Common.{
  ℕ, zero, suc, ◌+◌, ◌*◌, Bool, true, false, Option, none, some, List, [], ◌∷◌, ◌++◌, length, take,
  drop, if◌then◌else◌, leb, ◌>>=◌,
}
use ryulib_cpp.Common.Blocks.{write_at, read_at}
use ryulib_cpp.Common.Int.{ℤ, pos, negsuc}
use ryulib_cpp.SocketUtils.{packet_limit, header_size, packet_size, get_data_size, create_packet}

-- What the handlers were called with; a packet is as many bytes of the buffer as its size field
-- says.
pub data Event : Type 0 where
  connect_error read_error write_error connected disconnected : Event
  received : List ℕ → Event

-- The `async_read` that the client waits for.
pub data Reading : Type 0 where
  no_read header : Reading
  body : ℕ → Reading

-- `writes` are the packets that `async_write` has not written yet: a packet that was freed in the
-- meantime is `none`. All the handlers are set. `is_open` is the socket's.
pub record SocketClient : Type 0 where
  pub receive_buffer : List ℕ
  pub is_open : Bool
  pub reading : Reading
  pub writes : List (Option (List ℕ))
  pub log : List Event

-- `block` is what malloc gives for the `PACKET_LIMIT * 2` bytes of the buffer.
pub new_client : List ℕ → SocketClient
new_client block = record {
  receive_buffer = block;
  is_open = false;
  reading = no_read;
  writes = [];
  log = [];
}

-- A new context and a new socket: what the old ones waited for is gone.
pub connect : SocketClient → SocketClient
connect c = record c { is_open = true; reading = no_read; writes = [] }

pub disconnect : SocketClient → SocketClient
disconnect c = record c { is_open = false; reading = no_read }

pub do_disconnect : SocketClient → SocketClient
do_disconnect c = record c { is_open = false; reading = no_read; log = c.log ++ disconnected ∷ [] }

pub connect_handler : Bool → SocketClient → SocketClient
connect_handler true c = record c { log = c.log ++ connect_error ∷ [] }
connect_handler false c = record c { log = c.log ++ connected ∷ []; reading = header }

-- A size below zero becomes a `size_t` past every buffer.
pub ask_body : ℤ → SocketClient → Option SocketClient
ask_body (pos n) c = some (record c { reading = body n })
ask_body (negsuc n) c = none

-- What was read, `none` for an error.
pub handle_read_header : Option (List ℕ) → SocketClient → Option SocketClient
unfolding ask_body do_disconnect
handle_read_header none c = some (do_disconnect (record c { log = c.log ++ read_error ∷ [] }))
handle_read_header (some bytes) c = write_at c.receive_buffer 0 bytes >>= λ block.
    ask_body (get_data_size block) (record c { receive_buffer = block })

pub handle_read_body : Option (List ℕ) → SocketClient → Option SocketClient
unfolding do_disconnect
handle_read_body none c = some (do_disconnect (record c { log = c.log ++ read_error ∷ [] }))
handle_read_body (some bytes) c = write_at c.receive_buffer 3 bytes >>= λ block. some (record c {
  receive_buffer = block;
  reading = header;
  log = c.log ++ received (take (packet_size block) block) ∷ [];
})

pub handle_write : Bool → SocketClient → SocketClient
unfolding do_disconnect
handle_write true c = do_disconnect (record c { log = c.log ++ write_error ∷ [] })
handle_write false c = c

-- `send` of a packet that its caller keeps.
pub send_packet : List ℕ → SocketClient → SocketClient
send_packet packet c = record c { writes = c.writes ++ some packet ∷ [] }

-- `send` of a type and data, or of a text: the packet is freed when `async_write` has returned.
-- `at_once` is whether that has read the packet by then.
pub send_data : Bool → ℕ → List ℕ → SocketClient → SocketClient
unfolding create_packet send_packet
send_data at_once type bytes c =
    let pending = send_packet (create_packet type bytes) c in
    if at_once then pending else record c { writes = c.writes ++ none ∷ [] }

-- `async_write` reads the oldest packet; the result is what it has written.
pub write_first : List (Option (List ℕ)) → SocketClient → Option (List ℕ × SocketClient)
write_first [] c = some ([], c)
write_first (none ∷ ws) c = none
write_first (some packet ∷ ws) c = some (packet, record c { writes = ws })

pub write_next : SocketClient → Option (List ℕ × SocketClient)
unfolding write_first
write_next c = write_first c.writes c

-- A read that has its bytes ends; the result begins with the bytes that are left.
pub end_read :
    (Option (List ℕ) → SocketClient → Option SocketClient)
    → ℕ
    → List ℕ
    → SocketClient
    → Option (List ℕ × SocketClient)
end_read handler n bytes c =
    let next = handler (some (take n bytes)) c >>= λ c. some (drop n bytes, c) in
    if leb n (length bytes) then next else some (bytes, c)

pub read_round : Reading → List ℕ → SocketClient → Option (List ℕ × SocketClient)
unfolding end_read handle_read_header handle_read_body
read_round no_read bytes c = some (bytes, c)
read_round header bytes c = end_read handle_read_header header_size bytes c
read_round (body n) bytes c = end_read handle_read_body n bytes c

-- As many reads, on the bytes that have come.
pub deliver : ℕ → List ℕ → SocketClient → Option (List ℕ × SocketClient)
unfolding read_round
deliver zero bytes c = some (bytes, c)
deliver (suc n) bytes c = read_round c.reading bytes c >>= λ (bytes, c). deliver n bytes c
