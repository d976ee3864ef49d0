-- ===== src/SocketServer/Header.antt =====
-- What a Connection of a SocketServer does with the header of a packet.
use ryulib_cpp.Common.{ℕ, ◌+◌, ◌-◌, ◌*◌, ◌≤◌, ◌<◌, ◌≡◌, false, [], ◌∷◌, ◌++◌, arith}
use ryulib_cpp.Common.Int.{pos}
use ryulib_cpp.SocketUtils.{packet_limit}
use ryulib_cpp.SocketServer.{
  SocketServer, do_disconnected, fire_disconnected_event, handle_read_header, handle_read_body,
  body, errors, disconnected, received,
}

-- On a header with a size over PACKET_LIMIT the server reports the error and the end of the
-- connection, and asks for the body all the same; when that comes, the packet is received from the
-- connection that has ended.
pub oversize_continues :
    (s : SocketServer) (a size : ℕ)
    → packet_limit < size
    → let s' = handle_read_header s a false size in
      ((s'.store a).is_connected ≡ false)
      × ((s'.store a).reading ≡ body (pos (size - 3)))
      × ((handle_read_body s' a false).log
          ≡ s.log ++ errors ∷ [] ++ disconnected a ∷ [] ++ received a size ∷ [])
unfolding handle_read_header handle_read_body fire_disconnected_event do_disconnected
oversize_continues s a size h = (ground arith, ground arith, ground arith)

-- On a header with a size from 3 to PACKET_LIMIT, the server asks for just the data behind the
-- header, which fits the block of the connection, and fires no event.
pub body_fits :
    (s : SocketServer) (a size : ℕ)
    → 3 ≤ size
    → size ≤ packet_limit
    → let s' = handle_read_header s a false size in
      ((s'.store a).reading ≡ body (pos (size - 3)))
      × (3 + (size - 3) ≤ packet_limit * 2)
      × (s'.log ≡ s.log)
unfolding handle_read_header fire_disconnected_event do_disconnected
body_fits s a size h k = (ground arith, omega arith, ground arith)
