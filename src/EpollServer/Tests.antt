-- ===== src/EpollServer/Tests.antt =====
-- A server that is started, takes two connections, reads from both and is stopped.
use ryulib_cpp.Common.{ℕ, ◌≡◌, refl, true, false, none, some, List, [], ◌∷◌, ◌++◌}
use ryulib_cpp.ThreadQueue
use ryulib_cpp.EpollServer.{
  Server, connected, disconnected, received_bytes, new_server, start, Address, Calls, StartAnswers,
  LastRead, would_block, failed, end_of_stream, Ready, thread_step, received, create_and_bind,
  pop_step, do_task, do_task_start, listen_on, bind_first, set_socket_options, process_event,
  on_event, have_new_connection, read_chunks, is_done, close_connection, close_fd,
}
use ryulib_cpp.EpollServer.Keeps.{live_from}
use ryulib_cpp.EpollServer.Reported.{
  starts, rounds, Reachable, begins, follows, Reachable-connections,
}
use ryulib_cpp.EpollServer.Received.{received-reports}

abbrev fine : Calls
fine = record { get_flags = true; set_flags = true; set_linger = true }

abbrev addresses : List Address
addresses =
    record { descriptor = none; bound = true }
    ∷ record { descriptor = some 3; bound = false }
    ∷ record { descriptor = some 4; bound = true }
    ∷ []

abbrev answers : StartAnswers
answers = record { addresses = some addresses; options = fine; listens = true; added = true }

abbrev arrival : Ready
arrival = record {
  fd = 4;
  epollerr = false;
  epollhup = false;
  epollin = true;
  accepted =
      record { descriptor = 5; options = fine; added = true }
      ∷ record { descriptor = 6; options = fine; added = true }
      ∷ [];
  chunks = [];
  last = would_block;
}

abbrev readable : ℕ → LastRead → Ready
readable fd last = record {
  fd = fd;
  epollerr = false;
  epollhup = false;
  epollin = true;
  accepted = [];
  chunks = (1 ∷ 2 ∷ []) ∷ [];
  last = last;
}

abbrev events : List Ready
events = arrival ∷ readable 5 end_of_stream ∷ readable 6 failed ∷ []

abbrev begun : Server
begun = record (new_server 0) { on_connected = true; on_disconnected = true }

abbrev listening_at : Server
listening_at = record {
  is_started = true;
  sfd = 4;
  listening = true;
  connections = [];
  tasks = [];
  infos = 0;
  on_connected = true;
  on_disconnected = true;
  on_received = false;
  log = [];
}

abbrev served : Server
served = record listening_at {
  connections = 6 ∷ [];
  log = connected 5 ∷ connected 6 ∷ disconnected 5 ∷ [];
}

start_round : thread_step answers [] (start begun 80) ≡ some listening_at
unfolding thread_step pop_step ThreadQueue.pop ThreadQueue.push start new_server do_task
    do_task_start listen_on create_and_bind bind_first set_socket_options
start_round = refl

event_round : thread_step answers events listening_at ≡ some served
unfolding thread_step pop_step ThreadQueue.pop process_event on_event have_new_connection received
    read_chunks is_done close_connection close_fd set_socket_options
event_round = refl

served-Reachable : Reachable served
unfolding start new_server
served-Reachable =
    follows
      (follows (follows (begins 0) (starts 80))
        (rounds {s = start begun 80} answers [] ((tt, (refl, (refl, tt))), tt) start_round))
      (rounds {s = listening_at} answers events
        ((tt, (refl, (refl, tt))), ((refl, (refl, tt)), (tt, (tt, tt)))) event_round)

Reachable-connections_example : served.connections ≡ live_from [] served.log
Reachable-connections_example = Reachable-connections served-Reachable

-- The connection whose read fails stays open.
received-reports_example :
    ((received 6 ((1 ∷ []) ∷ []) failed (record served { on_received = true })).log
      ≡ served.log ++ received_bytes 6 (1 ∷ []) ∷ [])
    × ((received 6 ((1 ∷ []) ∷ []) failed (record served { on_received = true })).connections
        ≡ 6 ∷ [])
    × ((received 6 ((1 ∷ []) ∷ []) failed (record served { on_received = true })).is_started ≡ true)
received-reports_example =
    received-reports 6 ((1 ∷ []) ∷ []) failed (record served { on_received = true }) refl refl
