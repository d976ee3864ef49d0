-- ===== src/TcpClient/Tests.antt =====
-- A client that connects, sends and receives.
use ryulib_cpp.Common.{arith, ◌+◌, ◌*◌, ◌≡◌, refl, true, false, some, [], ◌∷◌}
use ryulib_cpp.Common.Int.{pos}
use ryulib_cpp.TcpClient.{TcpClient, connected, repeated, Answers}
use ryulib_cpp.TcpClient.Receiving.{silent_rounds, closed_unnoticed}

abbrev client : TcpClient
client = record {
  socket = pos 7;
  idle_count = 0;
  open_sockets = 1;
  tasks = [];
  sent = [];
  log = connected ∷ [];
}

abbrev slow : Answers
slow = record {
  host_found = true;
  socket = pos 9;
  connects_at_once = false;
  in_progress = true;
  selected = false;
}

closed_unnoticed_example :
    (c' : TcpClient) × (silent_rounds 3 slow true client ≡ some c')
    × (c'.socket ≡ pos 7)
    × (c'.log ≡ connected ∷ repeated ∷ repeated ∷ repeated ∷ [])
    × (c'.idle_count ≡ 0 + 5 * 3)
closed_unnoticed_example = closed_unnoticed 3 slow true client refl (omega arith)
