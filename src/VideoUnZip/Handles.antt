-- ===== src/VideoUnZip/Handles.antt =====
-- What a VideoUnZip holds of libvpx, and what `decode` reads.
use ryulib_cpp.Common.{
  ℕ, zero, suc, ◌+◌, ◌≤◌, ◌<◌, ◌≡◌, refl, ap, ◌∙◌, true, false, none, some, List, [], length, take,
  arith, lt→ltb, ltb,
}
use ryulib_cpp.Common.Blocks.{read_at, read_at-some, read_at-none}
use ryulib_cpp.VideoUnZip.{
  Decoder, VideoUnZip, close_decoder, refresh, get_int, decode_loop, decode, after_frame,
}

abbrev pub refreshes : ℕ → VideoUnZip → VideoUnZip
refreshes zero z = z
refreshes (suc n) z = refreshes n (refresh true z)

refreshes-codecs :
    (n : ℕ) (z : VideoUnZip)
    → ((refreshes n z).codecs ≡ z.codecs + n) × ((refreshes n z).is_opened ≡ z.is_opened)
unfolding refresh
refreshes-codecs zero z = (omega arith, refl)
refreshes-codecs (suc n) z =
    let (c, o) = refreshes-codecs n (refresh true z) in (omega (arith, c), o)

close_decoder-opened :
    (z : VideoUnZip) (n : ℕ)
    → z.is_opened ≡ true
    → z.codecs ≡ suc n
    → close_decoder z ≡ some (record z { is_opened = false; codecs = n; bitmap = [] })
unfolding close_decoder
close_decoder-opened z n o c = rw (o, c)

pub refresh_leaks :
    (n : ℕ) (z : VideoUnZip)
    → z.is_opened ≡ true
    → z.codecs ≡ 1
    → (z' : VideoUnZip) × (close_decoder (refreshes n z) ≡ some z')
      × (z'.is_opened ≡ false)
      × (z'.codecs ≡ n)
refresh_leaks n z o c =
    let (cs, os) = refreshes-codecs n z in
    (
      record (refreshes n z) { is_opened = false; codecs = n; bitmap = [] },
      close_decoder-opened (refreshes n z) n (os ∙ o) (omega (arith, cs, c)),
      refl,
      refl,
    )

past_end :
    (fuel : ℕ) (vpx : Decoder) (block : List ℕ) (count : ℕ) (z : VideoUnZip) (head : List ℕ) (n : ℕ)
    → ltb count (length block) ≡ true
    → read_at block count 4 ≡ some head
    → get_int head ≡ n
    → read_at block (count + 4) n ≡ none
    → decode_loop (suc fuel) vpx block (length block) count z ≡ none
unfolding decode_loop after_frame
past_end fuel vpx block count z head n more eh en ev = rw (more, eh, en, ev)

pub decode_reads_past :
    (vpx : Decoder) (z : VideoUnZip) (block : List ℕ)
    → 4 ≤ length block
    → length block < 4 + get_int (take 4 block)
    → decode vpx z block (length block) ≡ none
unfolding decode
decode_reads_past vpx z block h k =
    let size = length block in
    let start : size + 1 ≡ suc size = omega arith in
    ap (λ fuel. decode_loop fuel vpx block size 0 z) start
    ∙ past_end size vpx block 0 z (take 4 block) (get_int (take 4 block))
        (lt→ltb 0 size (omega arith)) (read_at-some block 0 4 (omega arith)) refl
        (read_at-none block (0 + 4) (get_int (take 4 block)) (omega arith))
