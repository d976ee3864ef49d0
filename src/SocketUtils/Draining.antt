-- ===== src/SocketUtils/Draining.antt =====
-- A client that reads packets from a PacketReader until it gets the null pointer.
use ryulib_cpp.Common.{
  ℕ, zero, suc, ◌+◌, ◌≤◌, ◌<◌, ◌≡◌, refl, sym, ap, ◌∙◌, true, false, Option, none, some, List, [],
  ◌∷◌, ◌++◌, arith, Bool-cases, inl, inr, length, take, drop, length-append, length-drop,
  take-append_le, take-append_self, drop-append_self, drop-append_le, take-append-drop, ◌>>=◌,
}
use ryulib_cpp.SocketUtils.{packet_size, packet_limit, PacketReader, can_read, read}
use ryulib_cpp.SocketUtils.Reader.{
  IsValid, pending, length-pending, packet_size-append, read-pending, read-null, can_read-true,
  can_read-false,
}

-- The bytes of the packet at the start of the block that `read` returns.
abbrev pub packet_bytes : List ℕ → List ℕ
packet_bytes out = take (packet_size out) out

-- `while ((packet = reader.read()) != nullptr)`; out of fuel it is `none`.
pub drain : ℕ → PacketReader → Option (List (List ℕ) × PacketReader)
drain zero r = none
drain (suc fuel) r = read r >>= λ (p, r'). elim p [
  | none ↦ some ([], r')
  | some out ↦ drain fuel r' >>= λ (ps, r''). some (packet_bytes out ∷ ps, r'')
]

abbrev pub stream : List (List ℕ) → List ℕ
stream [] = []
stream (f ∷ fs) = f ++ stream fs

-- A packet whose size field is right, with at least its header and no more than `data_` holds.
abbrev pub IsPacket : List ℕ → Type 0
IsPacket f = (3 ≤ length f) × (length f ≤ packet_limit + 4) × (packet_size f ≡ length f)

-- Packets of at least `n` bytes.
abbrev pub AllPackets : ℕ → List (List ℕ) → Type 0
AllPackets n [] = Unit {0}
AllPackets n (f ∷ fs) = (IsPacket f × (n ≤ length f)) × AllPackets n fs

-- Pieces of at most `n`.
abbrev pub AllShort : ℕ → List (List ℕ) → Type 0
AllShort n [] = Unit {0}
AllShort n (p ∷ ps) = (length p ≤ n) × AllShort n ps

-- The reader holds less than the next packet.
abbrev pub Waits : PacketReader → List (List ℕ) → Type 0
Waits r [] = r.size ≡ 0
Waits r (f ∷ fs) = r.size < length f

-- It holds less than the next packet and a piece.
abbrev pub IsNear : ℕ → PacketReader → List (List ℕ) → Type 0
IsNear n r [] = Unit {0}
IsNear n r (f ∷ fs) = r.size < length f + n

-- A header that has arrived is that of the first packet.
packet_size-head :
    (xs rest f tail : List ℕ)
    → xs ++ rest ≡ f ++ tail
    → IsPacket f
    → 2 ≤ length xs
    → packet_size xs ≡ length f
packet_size-head xs rest f tail e p h =
    sym (packet_size-append xs rest h)
    ∙ ap packet_size e
    ∙ packet_size-append f tail (omega arith)
    ∙ p.2

packet_bytes-of_take :
    (out f : List ℕ) → IsPacket f → take (length f) out ≡ f → packet_bytes out ≡ f
packet_bytes-of_take out f p e =
    let long : 2 ≤ length (take (length f) out) = omega (arith, ap length e) in
    let size : packet_size out ≡ length f =
      ap packet_size (sym (take-append-drop (length f) out))
      ∙ packet_size-append (take (length f) out) (drop (length f) out) long
      ∙ ap packet_size e
      ∙ p.2 in
    ap (λ n. take n out) size ∙ e

take-head :
    (xs rest f tail : List ℕ)
    → xs ++ rest ≡ f ++ tail
    → length f ≤ length xs
    → (take (length f) xs ≡ f) × (drop (length f) xs ++ rest ≡ tail)
take-head xs rest f tail e h = (
  sym (take-append_le (length f) xs rest h) ∙ ap (take (length f)) e ∙ take-append_self f tail,
  sym (drop-append_le (length f) xs rest h) ∙ ap (drop (length f)) e ∙ drop-append_self f tail,
)

-- What `drain` leaves: packets `ds` went out, `left` are still to come.
abbrev pub Drains : Option (List (List ℕ) × PacketReader) → List (List ℕ) → List ℕ → Type 0
Drains d fs rest =
    (ds left : List (List ℕ)) × (r' : PacketReader) × (d ≡ some (ds, r'))
    × (ds ++ left ≡ fs)
    × (pending r' ++ rest ≡ stream left)
    × IsValid r'
    × Waits r' left

Drains-null :
    (n : ℕ) (r : PacketReader) (fs : List (List ℕ)) (rest : List ℕ)
    → IsValid r
    → AllPackets n fs
    → pending r ++ rest ≡ stream fs
    → can_read r ≡ false
    → Drains (some ([], r)) fs rest
Drains-null n r fs rest v ps e c = ([], fs, r, refl, refl, e, v, waits fs ps e)
  where
    waits : (gs : List (List ℕ)) → AllPackets n gs → pending r ++ rest ≡ stream gs → Waits r gs
    waits [] qs e' = omega (arith, length-pending r v, length-append (pending r) rest, ap length e')
    waits (f ∷ gs) qs e' = elim (can_read-false r v c) [
      | inl short ↦ omega arith
      | inr (header, short) ↦ omega (
        arith,
        packet_size-head (pending r) rest f (stream gs) e' qs.0.0
            (omega (arith, length-pending r v)),
      )
    ]

Drains-next :
    (f : List ℕ) (fs : List (List ℕ)) (rest out : List ℕ)
    {d : Option (List (List ℕ) × PacketReader)}
    → packet_bytes out ≡ f
    → Drains d fs rest
    → Drains (d >>= λ (ps, r''). some (packet_bytes out ∷ ps, r'')) (f ∷ fs) rest
Drains-next f fs rest out e (ds, left, r', ed, ef, ep, v, w) =
    (f ∷ ds, left, r', rw (ed, e), ap (◌∷◌ f) ef, ep, v, w)

IsNear-left :
    (n : ℕ) (r : PacketReader) (fs : List (List ℕ)) → AllPackets n fs → r.size < n → IsNear n r fs
IsNear-left n r [] ps h = tt
IsNear-left n r (f ∷ fs) ps h = omega arith

-- A reader with a complete packet returns the first packet of its stream.
read_next :
    (n : ℕ) (r : PacketReader) (fs : List (List ℕ)) (rest : List ℕ)
    → IsValid r
    → AllPackets n fs
    → IsNear n r fs
    → pending r ++ rest ≡ stream fs
    → can_read r ≡ true
    → (f : List ℕ) × (gs : List (List ℕ)) × (out : List ℕ) × (r' : PacketReader) × (fs ≡ f ∷ gs)
      × AllPackets n gs
      × IsNear n r' gs
      × (read r ≡ some (some out, r'))
      × (packet_bytes out ≡ f)
      × (pending r' ++ rest ≡ stream gs)
      × IsValid r'
      × (r'.size < r.size)
read_next n r [] rest v ps near e c = absurd (
    omega
      (arith, can_read-true r v c, length-pending r v, length-append (pending r) rest, ap length e))
read_next n r (f ∷ gs) rest v ps near e c =
    let (header, fits) = can_read-true r v c in
    let size : packet_size (pending r) ≡ length f =
      packet_size-head (pending r) rest f (stream gs) e ps.0.0
        (omega (arith, length-pending r v)) in
    let (out, r', er, eo, ep, v') =
      read-pending r v c (omega (arith, size)) (omega (arith, size)) in
    let (et, ed) = take-head (pending r) rest f (stream gs) e (omega (arith, length-pending r v)) in
    let left : r'.size + length f ≡ r.size = omega (
      arith,
      size,
      length-pending r v,
      length-pending r' v',
      ap length ep,
      length-drop (packet_size (pending r)) (pending r),
    ) in
    (
      f,
      gs,
      out,
      r',
      refl,
      ps.1,
      IsNear-left n r' gs ps.1 (omega (arith, left)),
      er,
      packet_bytes-of_take out f ps.0.0 ((rw size at eo) ∙ et),
      rw (ep, size) ed,
      v',
      omega (arith, left),
    )

pub drain-Drains :
    (fuel n : ℕ) (r : PacketReader) (fs : List (List ℕ)) (rest : List ℕ)
    → r.size < fuel
    → IsValid r
    → AllPackets n fs
    → IsNear n r fs
    → pending r ++ rest ≡ stream fs
    → Drains (drain fuel r) fs rest
unfolding drain
drain-Drains zero n r fs rest h v ps near e = absurd (omega arith)
drain-Drains (suc fuel) n r fs rest h v ps near e = elim (Bool-cases (can_read r)) [
  | inr c ↦ rw (read-null r c) (Drains-null n r fs rest v ps e c)
  | inl c ↦
      let (f, gs, out, r', ef, qs, near', er, eo, ep, v', smaller) =
        read_next n r fs rest v ps near e c in
      rw (ef, er)
        (Drains-next f gs rest out eo (drain-Drains fuel n r' gs rest (omega arith) v' qs near' ep))
]
