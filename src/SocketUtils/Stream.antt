-- ===== src/SocketUtils/Stream.antt =====
-- A stream of packets that arrives in pieces. A client writes each piece into the PacketReader and
-- then drains it.
use ryulib_cpp.Common.{
  ℕ, ◌+◌, ◌*◌, ◌≤◌, ◌<◌, ◌≡◌, refl, sym, ap, subst, ◌∙◌, Option, some, List, [], ◌∷◌, ◌++◌,
  append_assoc, append-nil, arith, length, length-append, ◌>>=◌,
}
use ryulib_cpp.SocketUtils.{packet_limit, create_packet, PacketReader, new_reader, write}
use ryulib_cpp.SocketUtils.Reader.{
  IsValid, pending, length-pending, write-pending, new_reader-IsValid,
}
use ryulib_cpp.SocketUtils.Draining.{
  drain, stream, IsPacket, AllPackets, AllShort, Waits, IsNear, drain-Drains,
}

pub feed : PacketReader → List (List ℕ) → Option (List (List ℕ) × PacketReader)
feed r [] = some ([], r)
feed r (piece ∷ pieces) = write r piece >>= λ r₁.
    drain (r₁.size + 1) r₁ >>= λ (ps, r₂). feed r₂ pieces >>= λ (qs, r₃). some (ps ++ qs, r₃)

AllPackets-right : (n : ℕ) (ds left : List (List ℕ)) → AllPackets n (ds ++ left) → AllPackets n left
AllPackets-right n [] left ps = ps
AllPackets-right n (d ∷ ds) left ps = AllPackets-right n ds left ps.1

Waits-lt :
    (n : ℕ) (r : PacketReader) (fs : List (List ℕ))
    → AllPackets n fs
    → Waits r fs
    → r.size < packet_limit + 4
Waits-lt n r [] ps w = omega arith
Waits-lt n r (f ∷ fs) ps w = omega arith

Waits-start :
    (n : ℕ) (r : PacketReader) (fs : List (List ℕ)) → AllPackets n fs → r.size ≡ 0 → Waits r fs
Waits-start n r [] ps z = z
Waits-start n r (f ∷ fs) ps z = omega arith

-- A piece that is written behind what waits.
Waits-IsNear :
    (n : ℕ) (r r' : PacketReader) (fs : List (List ℕ))
    → Waits r fs
    → r'.size ≤ r.size + n
    → IsNear n r' fs
Waits-IsNear n r r' [] w h = tt
Waits-IsNear n r r' (f ∷ fs) w h = omega arith

feed-some :
    (n : ℕ) (pieces : List (List ℕ)) (r : PacketReader) (fs : List (List ℕ))
    → n + 4 ≤ packet_limit
    → IsValid r
    → AllPackets n fs
    → AllShort n pieces
    → pending r ++ stream pieces ≡ stream fs
    → Waits r fs
    → (r' : PacketReader) × (feed r pieces ≡ some (fs, r')) × (pending r' ≡ []) × IsValid r'
unfolding feed
feed-some n [] r [] l v ps short e w = (r, refl, sym (append-nil (pending r)) ∙ e, v)
feed-some n [] r (f ∷ fs) l v ps short e w = absurd (
    omega (
      arith,
      length-pending r v,
      ap length e,
      length-append (pending r) [],
      length-append f (stream fs),
    ))
feed-some n (p ∷ pieces) r fs l v ps short e w =
    let (r₁, e₁, c₁, v₁) = write-pending r p v (omega (arith, Waits-lt n r fs ps w)) in
    let grown : r₁.size ≤ r.size + n = omega (
      arith,
      length-pending r v,
      length-pending r₁ v₁,
      ap length c₁,
      length-append (pending r) p,
    ) in
    let (ds, left, r₂, e₂, split, c₂, v₂, w₂) =
      drain-Drains (r₁.size + 1) n r₁ fs (stream pieces) (omega arith) v₁ ps
        (Waits-IsNear n r r₁ fs w grown) (rw (c₁, append_assoc (pending r) p (stream pieces)) e) in
    let ps₂ : AllPackets n left =
      AllPackets-right n ds left (subst (AllPackets n) (sym split) ps) in
    let (r₃, e₃, c₃, v₃) = feed-some n pieces r₂ left l v₂ ps₂ short.1 c₂ w₂ in
    (r₃, rw (e₁, e₂, e₃) (ap (λ qs. some (qs, r₃)) split), c₃, v₃)

-- For a number n of at most PACKET_LIMIT - 4, packets with a right size field, of at least n bytes
-- and their header and of no more than data_ holds, that arrive in pieces of at most n bytes, cut
-- anywhere, are read by a new PacketReader one by one and whole, without a fault, and nothing is
-- left over.
pub feed-stream :
    (buffer out : List ℕ) (n : ℕ) (fs pieces : List (List ℕ))
    → length buffer ≡ packet_limit * 2
    → length out ≡ packet_limit + 4
    → n + 4 ≤ packet_limit
    → AllPackets n fs
    → AllShort n pieces
    → stream pieces ≡ stream fs
    → (r : PacketReader) × (feed (new_reader buffer out) pieces ≡ some (fs, r))
      × (pending r ≡ [])
      × IsValid r
unfolding new_reader
feed-stream buffer out n fs pieces hb ho l ps short e =
    let r = new_reader buffer out in
    feed-some n pieces r fs l (new_reader-IsValid buffer out hb ho).0 ps short e
      (Waits-start n r fs ps refl)

-- What `create_packet` makes of a message is a packet, if it is no longer than `data_`.
pub create_packet-IsPacket :
    (n type : ℕ) (bytes : List ℕ)
    → n ≤ length bytes + 3
    → length bytes ≤ packet_limit + 1
    → IsPacket (create_packet type bytes) × (n ≤ length (create_packet type bytes))
unfolding create_packet
create_packet-IsPacket n type bytes l h = ((omega arith, omega arith, omega arith), omega arith)

abbrev pub sent : List (ℕ × List ℕ) → List (List ℕ)
sent [] = []
sent ((type, bytes) ∷ ms) = create_packet type bytes ∷ sent ms

-- Messages whose packets have at least `n` bytes and fit `data_`.
abbrev pub AllFit : ℕ → List (ℕ × List ℕ) → Type 0
AllFit n [] = Unit {0}
AllFit n ((type, bytes) ∷ ms) =
    ((n ≤ length bytes + 3) × (length bytes ≤ packet_limit + 1)) × AllFit n ms

sent-AllPackets : (n : ℕ) (ms : List (ℕ × List ℕ)) → AllFit n ms → AllPackets n (sent ms)
sent-AllPackets n [] h = tt
sent-AllPackets n ((type, bytes) ∷ ms) h =
    (create_packet-IsPacket n type bytes h.0.0 h.0.1, sent-AllPackets n ms h.1)

-- For a number n of at most PACKET_LIMIT - 4, messages of at most PACKET_LIMIT + 1 bytes whose
-- packets have at least n bytes, made into packets by create_packet and sent as one stream that
-- arrives in pieces of at most n bytes, cut anywhere, are read by a new PacketReader as the same
-- packets, without a fault and with nothing left over.
pub feed-sent :
    (buffer out : List ℕ) (n : ℕ) (ms : List (ℕ × List ℕ)) (pieces : List (List ℕ))
    → length buffer ≡ packet_limit * 2
    → length out ≡ packet_limit + 4
    → n + 4 ≤ packet_limit
    → AllFit n ms
    → AllShort n pieces
    → stream pieces ≡ stream (sent ms)
    → (r : PacketReader) × (feed (new_reader buffer out) pieces ≡ some (sent ms, r))
      × (pending r ≡ [])
      × IsValid r
feed-sent buffer out n ms pieces hb ho l fit short e =
    feed-stream buffer out n (sent ms) pieces hb ho l (sent-AllPackets n ms fit) short e
