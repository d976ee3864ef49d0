-- ===== src/SocketServer.antt =====
-- include/ryulib/SocketServer.hpp: the connections of a server and their events. boost::asio is a
-- parameter: a step is the end of one of its operations, which names the connection, whether there
-- was an error, and what was read. A pointer to a connection is the number of its creation.
pub mod Listed
pub mod Header
pub mod Sends
mod Tests
use ryulib_cpp.Common.{
  ℕ, suc, ◌+◌, ◌*◌, ◌%◌, ◌^◌, Bool, true, false, not, ◌&&◌, List, [], ◌∷◌, ◌++◌, if◌then◌else◌,
  ◌==◌, ltb,
}
use ryulib_cpp.Common.Int.{ℤ, sub_ℕ}
use ryulib_cpp.SocketUtils.{packet_limit, header_size}

-- The `async_read` that a connection waits for; `body` has the size that it asked for.
pub data Reading : Type 0 where
  no_read header : Reading
  body : ℤ → Reading

-- `user_data` and `socket_` belong to the clients and to asio. `size_field` is the size field of the
-- packet in `packet_`.
pub record Connection : Type 0 where
  pub id : ℕ
  pub is_connected : Bool
  pub idle_count : ℕ
  pub is_logined : Bool
  pub room_id : List ℕ
  pub user_id : List ℕ
  pub user_pw : List ℕ
  pub user_level : ℕ
  pub reading : Reading
  pub size_field : ℕ

abbrev pub new_connection : Connection
new_connection = record {
  id = 0;
  is_connected = false;
  idle_count = 0;
  is_logined = false;
  room_id = [];
  user_id = [];
  user_pw = [];
  user_level = 0;
  reading = no_read;
  size_field = 0;
}

pub do_connected : Connection → ℕ → Connection
do_connected c id = record c {
  id = id;
  is_connected = true;
  idle_count = 0;
  is_logined = false;
  room_id = [];
  user_id = [];
  user_pw = [];
  user_level = 0;
}

pub do_disconnected : Connection → Connection
do_disconnected c = record c {
  is_connected = false;
  idle_count = 0;
  is_logined = false;
  room_id = [];
  user_id = [];
  user_pw = [];
  user_level = 0;
}

pub data Event : Type 0 where
  errors : Event
  connected disconnected : ℕ → Event
  received sent : ℕ → ℕ → Event

-- `connection_list` holds pointers; `store` is what they point to; `created` counts the connections,
-- the last of which waits in `async_accept`. `log` lists the events, whether or not a handler is
-- set for them, with the size field of a packet that was received, and the packets that were sent, by
-- a number for each.
pub record SocketServer : Type 0 where
  pub id : ℕ
  pub connection_list : List ℕ
  pub store : ℕ → Connection
  pub created : ℕ
  pub log : List Event

-- After the first `start_accept`.
pub new_server : SocketServer
new_server = record {
  id = 0;
  connection_list = [];
  store = λ a. new_connection;
  created = 0;
  log = [];
}

abbrev pub update : (ℕ → Connection) → ℕ → Connection → ℕ → Connection
update store a c b = if b == a then c else store b

abbrev pub fire : SocketServer → Event → SocketServer
fire s e = record s { log = s.log ++ e ∷ [] }

-- `id_` is an `unsigned int`.
pub fire_connected_event : SocketServer → ℕ → SocketServer
unfolding do_connected
fire_connected_event s a = record s {
  id = (s.id + 1) % 2 ^ 32;
  store = update s.store a (do_connected (s.store a) s.id);
  connection_list = s.connection_list ++ a ∷ [];
  log = s.log ++ connected a ∷ [];
}

-- `list::remove` takes out every equal element.
pub remove : ℕ → List ℕ → List ℕ
remove a [] = []
remove a (b ∷ bs) = if b == a then remove a bs else b ∷ remove a bs

pub fire_disconnected_event : SocketServer → ℕ → SocketServer
unfolding do_disconnected remove
fire_disconnected_event s a = record s {
  store = update s.store a (do_disconnected (s.store a));
  connection_list = remove a s.connection_list;
  log = s.log ++ disconnected a ∷ [];
}

abbrev pub set_reading : SocketServer → ℕ → Reading → SocketServer
set_reading s a r = record s { store = update s.store a (record (s.store a) { reading = r }) }

-- `Connection::start`.
pub start : SocketServer → ℕ → SocketServer
unfolding fire_connected_event
start s a = set_reading (fire_connected_event s a) a header

pub handle_accept : SocketServer → Bool → SocketServer
unfolding start
handle_accept s error =
    let accepted = if error then s else start s s.created in
    record accepted { created = suc s.created }

-- The packet that is read lies in `packet_`, whose size field is `size`.
abbrev pub set_size_field : SocketServer → ℕ → ℕ → SocketServer
set_size_field s a size = record s {
  store = update s.store a (record (s.store a) { size_field = size });
}

pub handle_read_header : SocketServer → ℕ → Bool → ℕ → SocketServer
unfolding fire_disconnected_event
handle_read_header s a error size =
    if error
    then set_reading (fire_disconnected_event s a) a no_read
    else (let t = set_size_field s a size in
        set_reading (if ltb packet_limit size then fire_disconnected_event (fire t errors) a else t)
          a (body (sub_ℕ size 3)))

pub handle_read_body : SocketServer → ℕ → Bool → SocketServer
unfolding fire_disconnected_event
handle_read_body s a error =
    if error
    then set_reading (fire_disconnected_event s a) a no_read
    else set_reading (fire s (received a (s.store a).size_field)) a header

pub handle_write : SocketServer → ℕ → Bool → SocketServer
unfolding fire_disconnected_event
handle_write s a error = if error then fire_disconnected_event s a else s

-- The loops of the three sends, from where the iterator is.
pub send_to_all : SocketServer → List ℕ → ℕ → SocketServer
send_to_all s [] packet = s
send_to_all s (a ∷ rest) packet = send_to_all (fire s (sent a packet)) rest packet

pub send_to_other : SocketServer → List ℕ → ℕ → ℕ → SocketServer
send_to_other s [] c packet = s
send_to_other s (a ∷ rest) c packet =
    send_to_other (if c == a then s else fire s (sent a packet)) rest c packet

abbrev pub same_text : List ℕ → List ℕ → Bool
same_text [] [] = true
same_text [] (y ∷ ys) = false
same_text (x ∷ xs) [] = false
same_text (x ∷ xs) (y ∷ ys) = (x == y) && same_text xs ys

pub send_to_user_id : SocketServer → List ℕ → List ℕ → ℕ → SocketServer
send_to_user_id s [] user_id packet = s
send_to_user_id s (a ∷ rest) user_id packet =
    if same_text (s.store a).user_id user_id
    then fire s (sent a packet)
    else send_to_user_id s rest user_id packet

-- What ends in asio: a read only where one was started.
pub data Action : Type 0 where
  accepts : (error : Bool) → Action
  reads_header : ℕ → (error : Bool) → (size : ℕ) → Action
  reads_body : ℕ → (error : Bool) → Action
  writes : ℕ → (error : Bool) → Action

pub read_header : Reading → SocketServer → ℕ → Bool → ℕ → SocketServer
read_header header s a error size = handle_read_header s a error size
read_header (body n) s a error size = s
read_header no_read s a error size = s

pub read_body : Reading → SocketServer → ℕ → Bool → SocketServer
read_body (body n) s a error = handle_read_body s a error
read_body header s a error = s
read_body no_read s a error = s

pub act : SocketServer → Action → SocketServer
act s (accepts error) = handle_accept s error
act s (reads_header a error size) = read_header (s.store a).reading s a error size
act s (reads_body a error) = read_body (s.store a).reading s a error
act s (writes a error) = handle_write s a error

pub run : SocketServer → List Action → SocketServer
run s [] = s
run s (a ∷ acts) = run (act s a) acts
