-- ===== src/TcpClient.antt =====
-- include/ryulib/TcpClient.hpp: a client on a socket, whose Scheduler works off its tasks and calls
-- `on_repeat`. The state between two of these; what the kernel answers is an argument.
pub mod Sockets
pub mod Receiving
pub mod Tasks
mod Tests
use ryulib_cpp.Common.{
  ℕ, zero, suc, ◌+◌, ◌≤◌, Bool, true, false, ◌&&◌, ◌||◌, Option, none, some, List, [], ◌∷◌, ◌++◌,
  length, if◌then◌else◌, ltb, leb, ◌==◌, ◌>>=◌,
}
use ryulib_cpp.Common.Blocks.{add_int}
use ryulib_cpp.Common.Int.{ℤ, pos, negsuc}
use ryulib_cpp.SocketUtils.{packet_limit}

-- What the handlers were called with.
pub data Event : Type 0 where
  connected disconnected repeated : Event
  received : List ℕ → Event
  failed : ℤ → Event

-- The tasks that are added, with what they carry.
pub data Task : Type 0 where
  connects : List ℕ → ℕ → Task
  disconnects : Task
  sends_data : List ℕ → Task
  sends_text : List ℕ → Task

-- `socket` is `pos 0` where there is none. `open_sockets` counts the sockets that were opened and not
-- closed. All the handlers are set; `sent` is what the kernel was given to send, and `tasks` the
-- queue of the Scheduler.
pub record TcpClient : Type 0 where
  pub socket : ℤ
  pub idle_count : ℕ
  pub open_sockets : ℕ
  pub tasks : List Task
  pub sent : List (List ℕ)
  pub log : List Event

pub new_client : TcpClient
new_client = record {
  socket = pos 0;
  idle_count = 0;
  open_sockets = 0;
  tasks = [];
  sent = [];
  log = [];
}

pub tell : Event → TcpClient → TcpClient
tell e c = record c { log = c.log ++ e ∷ [] }

abbrev pub add : Task → TcpClient → TcpClient
add t c = record c { tasks = c.tasks ++ t ∷ [] }

pub connect : List ℕ → ℕ → TcpClient → TcpClient
connect host port c = add (connects host port) c

pub disconnect : TcpClient → TcpClient
disconnect c = add disconnects c

-- The buffer has PACKET_LIMIT bytes; `size` of them are sent.
pub send_data : List ℕ → TcpClient → TcpClient
unfolding tell
send_data data_block c =
    if ltb packet_limit (length data_block)
    then tell (failed (negsuc 3)) c
    else add (sends_data data_block) c

pub send_text : List ℕ → TcpClient → TcpClient
send_text text c = add (sends_text text) c

pub is_connected : ℤ → Bool
is_connected (pos zero) = false
is_connected s = true

-- The socket is shut down and forgotten; the call that would close it is commented out.
pub do_disconnect : TcpClient → TcpClient
unfolding is_connected
do_disconnect c = if is_connected c.socket then record c { socket = pos 0 } else c

-- What the kernel answers in `do_connect`: whether the host is found, the socket, whether it connects
-- at once, whether the connection is in progress, and whether `select` finds it made.
pub record Answers : Type 0 where
  pub host_found : Bool
  pub socket : ℤ
  pub connects_at_once : Bool
  pub in_progress : Bool
  pub selected : Bool

-- From the call of connect on.
pub finish_connect : Answers → TcpClient → TcpClient
unfolding tell do_disconnect
finish_connect a c =
    if a.connects_at_once || (a.in_progress && a.selected)
    then tell connected c
    else tell (failed (negsuc 2)) (do_disconnect c)

-- FD_SETSIZE of glibc.
abbrev pub fd_setsize : ℕ
fd_setsize = 1024

-- From the call of socket on. FD_SET of a descriptor that is not below FD_SETSIZE is undefined.
pub open_socket : Answers → ℤ → TcpClient → Option TcpClient
unfolding tell finish_connect
open_socket a (pos n) c =
    let opened = record c { socket = pos n; open_sockets = c.open_sockets + 1 } in
    if ltb n fd_setsize then some (finish_connect a opened) else none
open_socket a (negsuc n) c = some (tell (failed (negsuc 1)) (record c { socket = negsuc n }))

-- A name is looked up, an address, which begins with a digit, is not; `at(0)` of an empty host throws.
pub do_connect : Answers → List ℕ → TcpClient → Option TcpClient
unfolding tell open_socket
do_connect a [] c = none
do_connect a (x ∷ host) c =
    if (leb 48 x && leb x 57) || a.host_found
    then open_socket a a.socket c
    else some (tell (failed (negsuc 0)) c)

-- `ok` is whether `send` takes bytes.
pub do_send_data : Bool → List ℕ → TcpClient → TcpClient
unfolding is_connected do_disconnect tell
do_send_data ok data_block c =
    let sent = record c { sent = c.sent ++ data_block ∷ [] } in
    if is_connected c.socket then (if ok then sent else tell disconnected (do_disconnect c)) else c

-- The loop of `do_receive`.
pub tell_all : List (List ℕ) → TcpClient → TcpClient
unfolding tell
tell_all [] c = c
tell_all (piece ∷ pieces) c = tell_all pieces (tell (received piece) c)

-- The pieces that `recv` gives until it gives none: nothing has come, the other side has closed, or
-- an error, which are not told apart.
pub do_receive : List (List ℕ) → TcpClient → Bool × TcpClient
unfolding is_connected tell tell_all
do_receive [] c = (false, c)
do_receive (piece ∷ pieces) c =
    let later = tell_all pieces (tell (received piece) c) in
    if is_connected c.socket then (true, later) else (false, c)

-- `on_repeat` of the Scheduler; its sleep returns at once. `idle_count_` is an `int`.
pub on_repeat : List (List ℕ) → TcpClient → Option TcpClient
unfolding tell do_receive
on_repeat pieces c =
    let (got, after) = do_receive pieces c in
    let idle =
      add_int after.idle_count 5 >>= λ n. some (tell repeated (record after { idle_count = n })) in
    if got then some (record after { idle_count = 0 }) else idle

-- `on_task` of the Scheduler.
pub on_task : Answers → Bool → Task → TcpClient → Option TcpClient
unfolding do_disconnect do_connect do_send_data
on_task a ok (connects host port) c = do_connect a host (do_disconnect c)
on_task a ok disconnects c = some (do_disconnect c)
on_task a ok (sends_data data_block) c = some (do_send_data ok data_block c)
on_task a ok (sends_text text) c = some (do_send_data ok text c)

-- A round of the Scheduler: the first task, or `on_repeat` where there is none.
pub round_on : List Task → Answers → Bool → List (List ℕ) → TcpClient → Option TcpClient
unfolding on_task on_repeat
round_on [] a ok pieces c = on_repeat pieces c
round_on (t ∷ ts) a ok pieces c = on_task a ok t (record c { tasks = ts })

pub round : Answers → Bool → List (List ℕ) → TcpClient → Option TcpClient
unfolding round_on
round a ok pieces c = round_on c.tasks a ok pieces c
