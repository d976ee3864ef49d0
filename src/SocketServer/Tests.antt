-- ===== src/SocketServer/Tests.antt =====
-- A server with two connections, of which the first sends a packet that is too long.
use ryulib_cpp.Common.{◌+◌, ◌≡◌, true, false, List, [], ◌∷◌, ◌++◌, arith}
use ryulib_cpp.Common.Int.{pos}
use ryulib_cpp.SocketServer.{
  SocketServer, new_server, handle_read_header, handle_read_body, body, errors, disconnected,
  received, Action, accepts, reads_header, reads_body, writes, run, send_to_all, send_to_other,
}
use ryulib_cpp.SocketServer.Listed.{IsValid, one_if, run-new_server}
use ryulib_cpp.SocketServer.Sends.{sends, sends-once}
use ryulib_cpp.SocketServer.Header.{oversize_continues}

abbrev acts : List Action
acts =
    accepts false
    ∷ accepts true
    ∷ accepts false
    ∷ reads_header 2 false 9
    ∷ reads_body 2 false
    ∷ writes 0 true
    ∷ []

run-new_server_example : IsValid (run new_server acts)
run-new_server_example = run-new_server acts

abbrev server : SocketServer
server = run new_server acts

sends-once_example :
    (sends 2 7 (send_to_all server server.connection_list 7).log
      ≡ sends 2 7 server.log + one_if (server.store 2).is_connected)
    × (sends 2 7 (send_to_other server server.connection_list 0 7).log
        ≡ sends 2 7 server.log + one_if (server.store 2).is_connected)
sends-once_example = sends-once server 0 7 2 (run-new_server acts)

oversize_continues_example :
    let s' = handle_read_header server 2 false 40000 in
    ((s'.store 2).is_connected ≡ false)
    × ((s'.store 2).reading ≡ body (pos 39997))
    × ((handle_read_body s' 2 false).log
        ≡ server.log ++ errors ∷ [] ++ disconnected 2 ∷ [] ++ received 2 40000 ∷ [])
oversize_continues_example = oversize_continues server 2 40000 (omega arith)
