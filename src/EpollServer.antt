-- ===== src/EpollServer.antt =====
-- include/ryulib/epoll/SocketServer.hpp: a server on epoll, whose thread works off tasks and events.
-- What the kernel answers is an argument of each function.
pub mod Keeps
pub mod Reported
pub mod Received
pub mod Bind
mod Tests
use ryulib_cpp.Common.{
  ℕ, zero, suc, ◌+◌, Bool, true, false, not, ◌&&◌, ◌||◌, Option, none, some, List, [], ◌∷◌, ◌++◌,
  if◌then◌else◌, ◌==◌, ◌>>=◌,
}
use ryulib_cpp.ThreadQueue

abbrev pub task_start : ℕ
task_start = 1

abbrev pub task_stop : ℕ
task_stop = 2

pub record Task : Type 0 where
  pub task_type : ℕ
  pub int_data : ℕ

-- What the handlers were called with.
pub data Event : Type 0 where
  connected disconnected : ℕ → Event
  received_bytes : ℕ → List ℕ → Event

-- `listening` is whether the descriptor in `sfd` is open, `connections` the other open descriptors.
-- `infos` counts what getaddrinfo made and nothing freed.
pub record Server : Type 0 where
  pub is_started : Bool
  pub sfd : ℕ
  pub listening : Bool
  pub connections : List ℕ
  pub tasks : List Task
  pub infos : ℕ
  pub on_connected : Bool
  pub on_disconnected : Bool
  pub on_received : Bool
  pub log : List Event

-- The constructor leaves `sfd` as the memory was.
pub new_server : ℕ → Server
new_server garbage = record {
  is_started = false;
  sfd = garbage;
  listening = false;
  connections = [];
  tasks = [];
  infos = 0;
  on_connected = false;
  on_disconnected = false;
  on_received = false;
  log = [];
}

pub start : Server → ℕ → Server
unfolding ThreadQueue.push
start s aport = record s {
  tasks = ThreadQueue.push s.tasks (record { task_type = task_start; int_data = aport });
}

pub stop : Server → Server
unfolding ThreadQueue.push
stop s = record s {
  tasks = ThreadQueue.push s.tasks (record { task_type = task_stop; int_data = 0 });
}

-- What `socket` and `bind` answer for one of the addresses.
pub record Address : Type 0 where
  pub descriptor : Option ℕ
  pub bound : Bool

-- What `create_and_bind` returns, the sockets that it leaves open, and the lists of addresses that
-- it does not free.
pub record Bound : Type 0 where
  pub descriptor : Option ℕ
  pub open_sockets : ℕ
  pub infos : ℕ

-- The loop over the addresses, and what comes behind it.
pub bind_first : List Address → Bound
bind_first [] = record { descriptor = none; open_sockets = 0; infos = 1 }
bind_first (a ∷ rest) =
    let later = bind_first rest in
    elim a.descriptor [
      | none ↦ later
      | some fd ↦
          if a.bound then record { descriptor = some fd; open_sockets = 1; infos = 0 } else later
    ]

-- `none` is a `getaddrinfo` that fails.
pub create_and_bind : Option (List Address) → Bound
create_and_bind none = record { descriptor = none; open_sockets = 0; infos = 0 }
create_and_bind (some addresses) = bind_first addresses

-- Whether the two calls of fcntl and that of setsockopt succeed.
pub record Calls : Type 0 where
  pub get_flags : Bool
  pub set_flags : Bool
  pub set_linger : Bool

pub set_socket_options : Calls → Bool
set_socket_options c = c.get_flags && c.set_flags && c.set_linger

pub record StartAnswers : Type 0 where
  pub addresses : Option (List Address)
  pub options : Calls
  pub listens : Bool
  pub added : Bool

-- `abort` is `none`.
pub listen_on : StartAnswers → Server → Bound → Option Server
unfolding set_socket_options
listen_on a s b = elim b.descriptor [
  | none ↦ none
  | some fd ↦
      if set_socket_options a.options && a.listens && a.added
      then some
          (record s { is_started = true; sfd = fd; listening = true; infos = s.infos + b.infos })
      else none
]

pub do_task_start : StartAnswers → Server → Option Server
unfolding listen_on create_and_bind
do_task_start a s = if s.is_started then some s else listen_on a s (create_and_bind a.addresses)

abbrev pub without : ℕ → List ℕ → List ℕ
without fd [] = []
without fd (x ∷ xs) = if x == fd then without fd xs else x ∷ without fd xs

unfoldable pub close_fd : ℕ → Server → Server
close_fd fd s = record s {
  listening = s.listening && not (fd == s.sfd);
  connections = without fd s.connections;
}

pub do_task_stop : Server → Server
do_task_stop s = if s.is_started then close_fd s.sfd (record s { is_started = false }) else s

-- What a handler is told, if it is set.
abbrev pub tell : Bool → Event → List Event → List Event
tell is_set e log = if is_set then log ++ e ∷ [] else log

pub close_connection : ℕ → Server → Server
close_connection fd s =
    close_fd fd (record s { log = tell s.on_disconnected (disconnected fd) s.log })

-- A connection that `accept` gives, and what the calls for it answer.
pub record Accepted : Type 0 where
  pub descriptor : ℕ
  pub options : Calls
  pub added : Bool

-- The loop ends where `accept` fails, after the connections of the list.
pub have_new_connection : List Accepted → Server → Option Server
have_new_connection [] s = some s
have_new_connection (c ∷ rest) s =
    let next = have_new_connection rest (record s {
      connections = c.descriptor ∷ s.connections;
      log = tell s.on_connected (connected c.descriptor) s.log;
    }) in
    if set_socket_options c.options && c.added then next else none

-- The answer of `read` that ends its loop: EAGAIN, another error, or 0.
pub data LastRead : Type 0 where
  would_block failed end_of_stream : LastRead

-- `done` after the loop.
pub is_done : LastRead → Bool
is_done would_block = false
is_done failed = false
is_done end_of_stream = true

-- `chunks` is what `read` gives before its last answer.
pub read_chunks : ℕ → List (List ℕ) → Server → Server
read_chunks fd [] s = s
read_chunks fd (c ∷ cs) s =
    read_chunks fd cs (record s { log = tell s.on_received (received_bytes fd c) s.log })

pub received : ℕ → List (List ℕ) → LastRead → Server → Server
unfolding read_chunks is_done close_connection
received fd chunks last s =
    let s = read_chunks fd chunks s in if is_done last then close_connection fd s else s

-- An event of `epoll_wait`: its descriptor and flags, and what the calls that it leads to answer.
pub record Ready : Type 0 where
  pub fd : ℕ
  pub epollerr : Bool
  pub epollhup : Bool
  pub epollin : Bool
  pub accepted : List Accepted
  pub chunks : List (List ℕ)
  pub last : LastRead

pub on_event : Ready → Server → Option Server
unfolding close_connection have_new_connection received
on_event r s =
    if r.epollerr || r.epollhup || not r.epollin
    then some (close_connection r.fd s)
    else (if s.sfd == r.fd
        then have_new_connection r.accepted s
        else some (received r.fd r.chunks r.last s))

pub process_event : List Ready → Server → Option Server
process_event [] s = some s
process_event (r ∷ rs) s = on_event r s >>= λ s. process_event rs s

-- The switch on the task.
pub do_task : StartAnswers → Task → Server → Option Server
unfolding do_task_start do_task_stop
do_task a t s =
    if t.task_type == task_start
    then do_task_start a s
    else (if t.task_type == task_stop then some (do_task_stop s) else some s)

pub pop_step : StartAnswers → List Ready → Server → Option Task × List Task → Option Server
unfolding do_task process_event
pop_step a ready s (none, q) = if s.is_started then process_event ready s else some s
pop_step a ready s (some t, q) = do_task a t (record s { tasks = q })

-- One round of the loop of the thread.
pub thread_step : StartAnswers → List Ready → Server → Option Server
unfolding pop_step ThreadQueue.pop
thread_step a ready s = pop_step a ready s (ThreadQueue.pop s.tasks)
