-- ===== src/SocketClient/Receiving.antt =====
-- What a SocketClient makes of a stream of packets.
use ryulib_cpp.Common.{
  ℕ, suc, ◌+◌, ◌-◌, ◌*◌, ◌^◌, ◌≤◌, ◌<◌, ◌≡◌, refl, sym, ap, ap₂, subst, ◌∙◌, Option, some, List, [],
  ◌∷◌, ◌++◌, append-nil, append_assoc, map, length, length-append, take, drop, take-append_self,
  drop-append_self, length-drop, flatten, arith, ◌>>=◌, if-true, le→leb,
}
use ryulib_cpp.Common.Blocks.{write_at, write_at-some, length-splice}
use ryulib_cpp.Common.Int.{pos}
use ryulib_cpp.SocketUtils.{packet_size, get_data_size, create_packet, packet_limit}
use ryulib_cpp.SocketClient.{
  SocketClient, received, Reading, header, body, ask_body, handle_read_header, handle_read_body,
  end_read, read_round, deliver,
}

-- A packet whose size field is its length, at least that of a header.
abbrev pub IsPacket : List ℕ → Type 0
IsPacket (x ∷ y ∷ t ∷ bytes) = x + 256 * y ≡ length bytes + 3
IsPacket p = ⊥

abbrev pub AllPackets : ℕ → List (List ℕ) → Type 0
AllPackets n [] = Unit {0}
AllPackets n (p ∷ ps) = (IsPacket p × (length p ≤ n)) × AllPackets n ps

end_read-some :
    (handler : Option (List ℕ) → SocketClient → Option SocketClient) (bytes rest : List ℕ)
    (c c' : SocketClient)
    → handler (some bytes) c ≡ some c'
    → end_read handler (length bytes) (bytes ++ rest) c ≡ some (rest, c')
unfolding end_read
end_read-some handler bytes rest c c' e =
    if-true _ _
      (le→leb (length bytes) (length (bytes ++ rest)) (omega (arith, length-append bytes rest)))
    ∙ ap₂ (λ b r. handler (some b) c >>= λ c. some (r, c)) (take-append_self bytes rest)
        (drop-append_self bytes rest)
    ∙ ap (λ o. o >>= λ c. some (rest, c)) e

get_data_size-body :
    (x y t n : ℕ) (rest : List ℕ) → x + 256 * y ≡ n + 3 → get_data_size (x ∷ y ∷ t ∷ rest) ≡ pos n
unfolding get_data_size
get_data_size-body x y t n rest h = ground arith

header_read :
    (x y t n : ℕ) (c : SocketClient)
    → x + 256 * y ≡ n + 3
    → 3 ≤ length c.receive_buffer
    → handle_read_header (some (x ∷ y ∷ t ∷ [])) c
      ≡ some (record c { receive_buffer = x ∷ y ∷ t ∷ drop 3 c.receive_buffer; reading = body n })
unfolding handle_read_header ask_body
header_read x y t n c h room =
    ap (λ o. o >>= λ block. ask_body (get_data_size block) (record c { receive_buffer = block }))
      (write_at-some c.receive_buffer 0 (x ∷ y ∷ t ∷ []) (omega arith))
    ∙ ap (λ size. ask_body size (record c { receive_buffer = x ∷ y ∷ t ∷ drop 3 c.receive_buffer }))
        (get_data_size-body x y t n (drop 3 c.receive_buffer) h)

body_read :
    (x y t : ℕ) (bytes left : List ℕ) (c : SocketClient)
    → x + 256 * y ≡ length bytes + 3
    → c.receive_buffer ≡ x ∷ y ∷ t ∷ left
    → length bytes ≤ length left
    → (block : List ℕ) × (length block ≡ length c.receive_buffer)
      × (handle_read_body (some bytes) c
          ≡ some (record c {
            receive_buffer = block;
            reading = header;
            log = c.log ++ received (x ∷ y ∷ t ∷ bytes) ∷ [];
          }))
unfolding handle_read_body
body_read x y t bytes left c h e room =
    let old : List ℕ = x ∷ y ∷ t ∷ left in
    let after = drop (3 + length bytes) old in
    let block : List ℕ = x ∷ y ∷ t ∷ (bytes ++ after) in
    let size : x + 256 * y ≡ suc (suc (suc (length bytes))) = omega (arith, h) in
    let whole : take (x + 256 * y) block ≡ x ∷ y ∷ t ∷ bytes =
      ap (λ n. take n block) size ∙ ap (λ l. x ∷ y ∷ t ∷ l) (take-append_self bytes after) in
    let written : write_at c.receive_buffer 3 bytes ≡ some block =
      ap (λ b. write_at b 3 bytes) e ∙ write_at-some old 3 bytes (omega (arith, room)) in
    (
      block,
      length-splice old 3 bytes (omega (arith, room)) ∙ sym (ap length e),
      ap
            (λ o. o >>= λ b. some (record c {
              receive_buffer = b;
              reading = header;
              log = c.log ++ received (take (packet_size b) b) ∷ [];
            }))
            written
          ∙ ap
              (λ p. some (record c {
                receive_buffer = block;
                reading = header;
                log = c.log ++ received p ∷ [];
              }))
              whole,
    )

deliver-next :
    (n : ℕ) (bytes rest : List ℕ) (r : Reading) (c c' : SocketClient)
    → c.reading ≡ r
    → read_round r bytes c ≡ some (rest, c')
    → deliver (suc n) bytes c ≡ deliver n rest c'
unfolding deliver
deliver-next n bytes rest r c c' e h =
    ap (λ o. o >>= λ (bytes, c). deliver n bytes c) (ap (λ r. read_round r bytes c) e ∙ h)

-- A header and a body.
packet_read :
    (n : ℕ) (p rest : List ℕ) (c : SocketClient)
    → IsPacket p
    → length p ≤ length c.receive_buffer
    → c.reading ≡ header
    → (block : List ℕ) × (length block ≡ length c.receive_buffer)
      × (deliver (suc (suc n)) (p ++ rest) c
          ≡ deliver n rest (record c {
            receive_buffer = block;
            reading = header;
            log = c.log ++ received p ∷ [];
          }))
unfolding read_round
packet_read n [] rest c h room e = absurd h
packet_read n (x ∷ []) rest c h room e = absurd h
packet_read n (x ∷ y ∷ []) rest c h room e = absurd h
packet_read n (x ∷ y ∷ t ∷ bytes) rest c h room e =
    let left = drop 3 c.receive_buffer in
    let c₁ : SocketClient = record c {
      receive_buffer = x ∷ y ∷ t ∷ left;
      reading = body (length bytes);
    } in
    let size : length left ≡ length c.receive_buffer - 3 = length-drop 3 c.receive_buffer in
    let (block, lb, eb) = body_read x y t bytes left c₁ h refl (omega (arith, room, size)) in
    let c₂ : SocketClient = record c {
      receive_buffer = block;
      reading = header;
      log = c.log ++ received (x ∷ y ∷ t ∷ bytes) ∷ [];
    } in
    (
      block,
      omega (arith, lb, size, room),
      deliver-next (suc n) (x ∷ y ∷ t ∷ bytes ++ rest) (bytes ++ rest) header c c₁ e (
            end_read-some handle_read_header (x ∷ y ∷ t ∷ []) (bytes ++ rest) c c₁
              (header_read x y t (length bytes) c h (omega (arith, room))))
          ∙ deliver-next n (bytes ++ rest) rest (body (length bytes)) c₁ c₂ refl
              (end_read-some handle_read_body bytes rest c₁ c₂ eb),
    )

pub deliver-packets :
    (ps : List (List ℕ)) (c : SocketClient)
    → c.reading ≡ header
    → AllPackets (length c.receive_buffer) ps
    → (c' : SocketClient) × (deliver (2 * length ps) (flatten ps) c ≡ some ([], c'))
      × (c'.log ≡ c.log ++ map received ps)
      × (c'.reading ≡ header)
unfolding deliver
deliver-packets [] c e a = (c, refl, sym (append-nil c.log), e)
deliver-packets (p ∷ ps) c e ((h, room), a) =
    let (block, lb, ed) = packet_read (2 * length ps) p (flatten ps) c h room e in
    let c₁ : SocketClient = record c {
      receive_buffer = block;
      reading = header;
      log = c.log ++ received p ∷ [];
    } in
    let (c', er, el, eh) = deliver-packets ps c₁ refl (subst (λ n. AllPackets n ps) (sym lb) a) in
    let rounds : 2 * suc (length ps) ≡ suc (suc (2 * length ps)) = omega arith in
    (
      c',
      ap (λ n. deliver n (p ++ flatten ps) c) rounds ∙ ed ∙ er,
      el ∙ append_assoc c.log (received p ∷ []) (map received ps),
      eh,
    )

abbrev pub Message : Type 0
Message = ℕ × List ℕ

-- Messages that a size field of 16 bits can tell.
abbrev pub AllFit : List Message → Type 0
AllFit [] = Unit {0}
AllFit ((type, bytes) ∷ ms) = (length bytes + 3 < 2 ^ 16) × AllFit ms

abbrev pub packets_of : List Message → List (List ℕ)
packets_of [] = []
packets_of ((type, bytes) ∷ ms) = create_packet type bytes ∷ packets_of ms

create_packet-IsPacket :
    (type : ℕ) (bytes : List ℕ) → length bytes + 3 < 2 ^ 16 → IsPacket (create_packet type bytes)
unfolding create_packet
create_packet-IsPacket type bytes h = omega arith

create_packet-length :
    (type : ℕ) (bytes : List ℕ) → length (create_packet type bytes) ≡ length bytes + 3
unfolding create_packet
create_packet-length type bytes = omega arith

packets_of-AllPackets :
    (n : ℕ) (ms : List Message) → 2 ^ 16 ≤ n → AllFit ms → AllPackets n (packets_of ms)
packets_of-AllPackets n [] h f = tt
packets_of-AllPackets n ((type, bytes) ∷ ms) h (f, fs) = (
  (create_packet-IsPacket type bytes f, omega (arith, f, create_packet-length type bytes)),
  packets_of-AllPackets n ms h fs,
)

-- Messages that a size field of 16 bits can tell, made into packets by create_packet and sent as
-- one stream, are read by a SocketClient that waits for a header, with its buffer of PACKET_LIMIT *
-- 2 bytes, one by one and whole, without a fault and with nothing left over.
pub deliver-sent :
    (ms : List Message) (c : SocketClient)
    → c.reading ≡ header
    → length c.receive_buffer ≡ packet_limit * 2
    → AllFit ms
    → (c' : SocketClient) × (deliver (2 * length (packets_of ms)) (flatten (packets_of ms)) c
        ≡ some ([], c'))
      × (c'.log ≡ c.log ++ map received (packets_of ms))
      × (c'.reading ≡ header)
deliver-sent ms c e size f =
    deliver-packets (packets_of ms) c e
      (packets_of-AllPackets (length c.receive_buffer) ms (omega (arith, size)) f)
