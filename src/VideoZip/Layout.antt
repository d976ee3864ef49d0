-- ===== src/VideoZip/Layout.antt =====
-- What `encode` leaves in the buffer of a VideoZip.
use ryulib_cpp.Common.{
  ℕ, ◌+◌, ◌≤◌, ◌≡◌, refl, sym, ap, ◌∙◌, some, List, [], ◌∷◌, ◌++◌, append_assoc, append-nil, arith,
  length, length-append, take, le→leb, if-true,
}
use ryulib_cpp.Common.Blocks.{write_at, splice, length-splice, take-splice}
use ryulib_cpp.VideoZip.{CxPacket, frame_packet, other_packet, int_bytes, put_packets}

-- The frames among the packets.
abbrev pub frames : List CxPacket → List (List ℕ)
frames [] = []
frames (other_packet ∷ ps) = frames ps
frames (frame_packet bytes ∷ ps) = bytes ∷ frames ps

-- The frames one after another, each with its size in front.
abbrev pub framed : List (List ℕ) → List ℕ
framed [] = []
framed (f ∷ fs) = int_bytes (length f) ++ f ++ framed fs

write_at-fits :
    (block : List ℕ) (i : ℕ) (bytes : List ℕ)
    → i + length bytes ≤ length block
    → (block' : List ℕ) × (write_at block i bytes ≡ some block')
      × (take (i + length bytes) block' ≡ take i block ++ bytes)
      × (length block' ≡ length block)
unfolding write_at
write_at-fits block i bytes h = (
  splice block i bytes,
  if-true _ _ (le→leb (i + length bytes) (length block) h),
  take-splice block i bytes h,
  length-splice block i bytes h,
)

put_packets-next :
    (bytes : List ℕ) (ps : List CxPacket) (b b₁ b₂ : List ℕ) (n size : ℕ)
    → write_at b n (int_bytes (length bytes)) ≡ some b₁
    → write_at b₁ (n + 4) bytes ≡ some b₂
    → put_packets (frame_packet bytes ∷ ps) b n size
      ≡ put_packets ps b₂ (n + 4 + length bytes) (size + 4 + length bytes)
unfolding put_packets
put_packets-next bytes ps b b₁ b₂ n size e₁ e₂ = rw (e₁, e₂)

pub put_packets-framed :
    (ps : List CxPacket) (b : List ℕ) (n : ℕ)
    → n + length (framed (frames ps)) ≤ length b
    → (b' : List ℕ) × (put_packets ps b n n ≡ some (b', n + length (framed (frames ps))))
      × (take (n + length (framed (frames ps))) b' ≡ take n b ++ framed (frames ps))
      × (length b' ≡ length b)
unfolding put_packets
put_packets-framed [] b n h =
    let same : n ≡ n + 0 = omega arith in
    (
      b,
      ap (λ k. some (b, k)) same,
      ap (λ k. take k b) (sym same) ∙ sym (append-nil (take n b)),
      refl,
    )
put_packets-framed (other_packet ∷ ps) b n h = put_packets-framed ps b n h
put_packets-framed (frame_packet bytes ∷ ps) b n h =
    let head = int_bytes (length bytes) in
    let rest = framed (frames ps) in
    let whole : length (framed (frames (frame_packet bytes ∷ ps)))
        ≡ 4 + length bytes + length rest =
      length-append (head ++ bytes) rest ∙ ap (λ k. k + length rest) (length-append head bytes) in
    let (b₁, e₁, t₁, l₁) = write_at-fits b n head (omega arith) in
    let (b₂, e₂, t₂, l₂) = write_at-fits b₁ (n + 4) bytes (omega (arith, l₁)) in
    let (b₃, e₃, t₃, l₃) =
      put_packets-framed ps b₂ (n + 4 + length bytes) (omega (arith, l₁, l₂)) in
    let size : n + 4 + length bytes + length rest
        ≡ n + length (framed (frames (frame_packet bytes ∷ ps))) =
      omega arith in
    (
      b₃,
      put_packets-next bytes ps b b₁ b₂ n n e₁ e₂ ∙ e₃ ∙ ap (λ k. some (b₃, k)) size,
      ap (λ k. take k b₃) (sym size)
          ∙ t₃
          ∙ ap (λ xs. xs ++ rest)
              (t₂ ∙ ap (λ xs. xs ++ bytes) t₁ ∙ append_assoc (take n b) head bytes)
          ∙ append_assoc (take n b) (head ++ bytes) rest,
      l₃ ∙ l₂ ∙ l₁,
    )
