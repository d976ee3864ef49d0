-- ===== src/SocketServer/Sends.antt =====
-- Whom the sends of a SocketServer reach.
use ryulib_cpp.Common.{
  ℕ, suc, ◌+◌, ◌≡◌, ap, ◌∙◌, ◌&&◌, List, [], ◌∷◌, ◌++◌, if◌then◌else◌, ◌==◌, arith,
}
use ryulib_cpp.SocketServer.{
  SocketServer, fire, Event, errors, connected, disconnected, received, sent, send_to_all,
  send_to_other,
}
use ryulib_cpp.SocketServer.Listed.{count, one_if, IsValid}

-- The packets that the loops of the sends add to the log, by how often a connection is sent one.
abbrev pub sends : ℕ → ℕ → List Event → ℕ
sends a packet [] = 0
sends a packet (sent b p ∷ es) =
    let rest = sends a packet es in if (b == a) && (p == packet) then suc rest else rest
sends a packet (_ ∷ es) = sends a packet es

sends-append :
    (a packet : ℕ) (xs ys : List Event)
    → sends a packet (xs ++ ys) ≡ sends a packet xs + sends a packet ys
sends-append a packet [] ys = omega arith
sends-append a packet (sent b p ∷ xs) ys = ground (arith, sends-append a packet xs ys)
sends-append a packet (errors ∷ xs) ys = sends-append a packet xs ys
sends-append a packet (connected b ∷ xs) ys = sends-append a packet xs ys
sends-append a packet (disconnected b ∷ xs) ys = sends-append a packet xs ys
sends-append a packet (received b n ∷ xs) ys = sends-append a packet xs ys

sends-send_to_all :
    (s : SocketServer) (xs : List ℕ) (packet a : ℕ)
    → sends a packet (send_to_all s xs packet).log ≡ sends a packet s.log + count a xs
unfolding send_to_all
sends-send_to_all s [] packet a = omega arith
sends-send_to_all s (x ∷ xs) packet a = ground (
  arith,
  sends-send_to_all (fire s (sent x packet)) xs packet a,
  sends-append a packet s.log (sent x packet ∷ []),
)

sends-send_to_other :
    (s : SocketServer) (xs : List ℕ) (c packet a : ℕ)
    → sends a packet (send_to_other s xs c packet).log
      ≡ sends a packet s.log + (if a == c then 0 else count a xs)
unfolding send_to_other
sends-send_to_other s [] c packet a = ground arith
sends-send_to_other s (x ∷ xs) c packet a = ground (
  arith,
  sends-send_to_other s xs c packet a,
  sends-send_to_other (fire s (sent x packet)) xs c packet a,
  sends-append a packet s.log (sent x packet ∷ []),
)

-- Where each connection is in the list once while it is connected and else not at all, sendToAll
-- sends a packet once to each connection that is connected and to no other, and sendToOther does so
-- but for the one it is given.
pub sends-once :
    (s : SocketServer) (c packet a : ℕ)
    → IsValid s
    → (sends a packet (send_to_all s s.connection_list packet).log
        ≡ sends a packet s.log + one_if (s.store a).is_connected)
      × (sends a packet (send_to_other s s.connection_list c packet).log
          ≡ sends a packet s.log + (if a == c then 0 else one_if (s.store a).is_connected))
sends-once s c packet a v = (
  sends-send_to_all s s.connection_list packet a ∙ ap (◌+◌ (sends a packet s.log)) (v.listed a),
  ground (arith, sends-send_to_other s s.connection_list c packet a, v.listed a),
)
