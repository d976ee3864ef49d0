-- ===== src/VideoUnZip/RoundTrip.antt =====
-- What a VideoUnZip makes of the data of a VideoZip.
use ryulib_cpp.Common.{
  ap₂, ℕ, zero, suc, ◌+◌, ◌*◌, ◌^◌, ◌≤◌, ◌<◌, ◌≡◌, refl, sym, ap, ◌∙◌, true, Option, some, List, [],
  ◌∷◌, ◌++◌, append_assoc, append-nil, arith, length, length-append, take, ltb, if-false, lt→ltb,
  le→ltb, subst,
}
use ryulib_cpp.Common.Blocks.{read_at, read_at-middle}
use ryulib_cpp.VideoZip.{VideoZip, CxPacket, int_bytes, encode, pixel_size, put_packets}
use ryulib_cpp.VideoZip.Layout.{frames, framed, put_packets-framed}
use ryulib_cpp.YuvTools.Encode.{rgb_to_yuv420}
use ryulib_cpp.YuvTools.Decode.{Picture}
use ryulib_cpp.YuvTools.Decode.Safety.{IsEven, i420_to_argb-some}
use ryulib_cpp.VideoUnZip.{
  Decoder, VideoUnZip, get_int, show_pictures, after_frame, decode_loop, decode,
}

-- A picture whose planes hold it, for a bitmap of `n` bytes.
pub record Fits (n : ℕ) (p : Picture) : Type 0 where
  pub columns : ℕ
  pub rows : ℕ
  pub even : IsEven columns p
  pub height : p.height ≡ 2 * rows
  pub y : rows * (2 * p.src_stride_y) ≤ length p.src_y
  pub u : rows * p.src_stride_u ≤ length p.src_u
  pub v : rows * p.src_stride_v ≤ length p.src_v
  pub bitmap : rows * (16 * columns) ≤ n

abbrev pub AllFit : ℕ → List Picture → Type 0
AllFit n [] = Unit {0}
AllFit n (p ∷ ps) = Fits n p × AllFit n ps

-- The decoder takes the frames one after another, with pictures that fit the bitmap.
abbrev pub Takes : Decoder → ℕ → List (List ℕ) → List (List ℕ) → Type 0
Takes vpx n fed [] = Unit {0}
Takes vpx n fed (f ∷ fs) =
    ((ps : List Picture) × (vpx fed f ≡ some ps) × AllFit n ps) × Takes vpx n (fed ++ f ∷ []) fs

show_pictures-some :
    (n : ℕ) (ps : List Picture) (bitmap : List ℕ)
    → length bitmap ≡ n
    → AllFit n ps
    → (bitmap' : List ℕ) × (show_pictures ps bitmap ≡ some bitmap') × (length bitmap' ≡ n)
unfolding show_pictures
show_pictures-some n [] bitmap e fit = (bitmap, refl, e)
show_pictures-some n (p ∷ ps) bitmap e (fit, fits) =
    let (shown, es, ls) =
      i420_to_argb-some fit.columns fit.rows p bitmap fit.even fit.height fit.y fit.u fit.v
        (omega (arith, fit.bitmap)) in
    let (last, el, ll) = show_pictures-some n ps shown (ls ∙ e) fits in (last, rw es el, ll)

get_int-bytes : (n : ℕ) → n < 2 ^ 31 → get_int (int_bytes n) ≡ n
get_int-bytes n h = omega arith

decode_loop-next :
    (fuel : ℕ) (vpx : Decoder) (block : List ℕ) (size count n : ℕ) (z : VideoUnZip)
    (head bytes : List ℕ) (ps : List Picture) (bitmap : List ℕ)
    → ltb count size ≡ true
    → read_at block count 4 ≡ some head
    → get_int head ≡ n
    → read_at block (count + 4) n ≡ some bytes
    → vpx z.fed bytes ≡ some ps
    → show_pictures ps z.bitmap ≡ some bitmap
    → decode_loop (suc fuel) vpx block size count z
      ≡ decode_loop fuel vpx block size
          (count + 4 + n)
          (record z { bitmap = bitmap; fed = z.fed ++ bytes ∷ [] })
unfolding decode_loop after_frame
decode_loop-next fuel vpx block size count n z head bytes ps bitmap more eh en eb ep es =
    rw (more, eh, en, eb, ep, es)

decode_loop-framed :
    (fs : List (List ℕ)) (fuel : ℕ) (vpx : Decoder) (block before : List ℕ) (z : VideoUnZip)
    → block ≡ before ++ framed fs
    → length (framed fs) < fuel
    → length block < 2 ^ 31
    → Takes vpx (length z.bitmap) z.fed fs
    → (z' : VideoUnZip) × (decode_loop fuel vpx block (length block) (length before) z
        ≡ some (true, z'))
      × (z'.fed ≡ z.fed ++ fs)
      × (length z'.bitmap ≡ length z.bitmap)
unfolding decode_loop
decode_loop-framed fs zero vpx block before z e h k t = absurd (omega arith)
decode_loop-framed [] (suc fuel) vpx block before z e h k t =
    let size : length block ≡ length before = ap length (e ∙ append-nil before) in
    (
      z,
      if-false _ _ (le→ltb (length before) (length block) (omega arith)),
      sym (append-nil z.fed),
      refl,
    )
decode_loop-framed (f ∷ fs) (suc fuel) vpx block before z e h k ((ps, ep, fit), t) =
    let head = int_bytes (length f) in
    let rest = framed fs in
    let whole : length (framed (f ∷ fs)) ≡ 4 + length f + length rest =
      length-append (head ++ f) rest ∙ ap (λ n. n + length rest) (length-append head f) in
    let size : length block ≡ length before + length (framed (f ∷ fs)) =
      ap length e ∙ length-append before (framed (f ∷ fs)) in
    let first : block ≡ before ++ head ++ (f ++ rest) =
      e
      ∙ ap (λ xs. before ++ xs) (append_assoc head f rest)
      ∙ sym (append_assoc before head (f ++ rest)) in
    let second : block ≡ before ++ head ++ f ++ rest =
      first ∙ sym (append_assoc (before ++ head) f rest) in
    let at : length (before ++ head) ≡ length before + 4 = length-append before head in
    let here : length (before ++ head ++ f) ≡ length before + 4 + length f =
      length-append (before ++ head) f ∙ ap (λ n. n + length f) at in
    let (bitmap, es, ls) = show_pictures-some (length z.bitmap) ps z.bitmap refl fit in
    let z₁ : VideoUnZip = record z { bitmap = bitmap; fed = z.fed ++ f ∷ [] } in
    let step : decode_loop (suc fuel) vpx block (length block) (length before) z
        ≡ decode_loop fuel vpx block (length block) (length before + 4 + length f) z₁ =
      decode_loop-next fuel vpx block (length block) (length before) (length f) z head f ps bitmap
        (lt→ltb (length before) (length block) (omega arith))
        (ap (λ b. read_at b (length before) 4) first ∙ read_at-middle before head (f ++ rest))
        (get_int-bytes (length f) (omega arith))
        (ap (λ b. read_at b (length before + 4) (length f)) second
          ∙ ap (λ n. read_at (before ++ head ++ f ++ rest) n (length f)) (sym at)
          ∙ read_at-middle (before ++ head) f rest)
        ep es in
    let (z', e', f', l') =
      decode_loop-framed fs fuel vpx block (before ++ head ++ f) z₁ second (omega arith) k
        (subst (λ n. Takes vpx n (z.fed ++ f ∷ []) fs) (sym ls) t) in
    (
      z',
      step ∙ ap (λ n. decode_loop fuel vpx block (length block) n z₁) (sym here) ∙ e',
      f' ∙ append_assoc z.fed (f ∷ []) fs,
      l' ∙ ls,
    )

encode-packets :
    (vpx : List ℕ → Option (List CxPacket)) (z : VideoZip) (bitmap planes : List ℕ)
    (ps : List CxPacket) (data_block : List ℕ) (n : ℕ)
    → rgb_to_yuv420 bitmap z.planes z.width z.height pixel_size ≡ some planes
    → vpx planes ≡ some ps
    → put_packets ps z.data_block 0 0 ≡ some (data_block, n)
    → encode vpx z bitmap
      ≡ some (true, record z { planes = planes; data_block = data_block; size = n })
unfolding encode
encode-packets vpx z bitmap planes ps data_block n er ev ep = rw (er, ev, ep)

-- Where the picture is converted, libvpx makes packets of it whose frames, each with its size in
-- front, fit data_ (of less than 2^31 bytes), and the decoder takes these frames one after another
-- with pictures that fit its bitmap, VideoZip.encode succeeds, and VideoUnZip.decode of its data
-- succeeds and feeds the decoder exactly those frames, in order.
pub decode-encode :
    (zip : List ℕ → Option (List CxPacket)) (unzip : Decoder) (z : VideoZip) (w : VideoUnZip)
    (bitmap planes : List ℕ) (ps : List CxPacket)
    → rgb_to_yuv420 bitmap z.planes z.width z.height pixel_size ≡ some planes
    → zip planes ≡ some ps
    → length (framed (frames ps)) ≤ length z.data_block
    → length z.data_block < 2 ^ 31
    → Takes unzip (length w.bitmap) w.fed (frames ps)
    → (z' : VideoZip) × (encode zip z bitmap ≡ some (true, z'))
      × (w' : VideoUnZip) × (decode unzip w (take z'.size z'.data_block) z'.size ≡ some (true, w'))
      × (w'.fed ≡ w.fed ++ frames ps)
unfolding decode
decode-encode zip unzip z w bitmap planes ps er ev room small t =
    let all = framed (frames ps) in
    let size = length all in
    let (block, ep, et, el) = put_packets-framed ps z.data_block 0 (omega arith) in
    let (w', ew, ef, lw) =
      decode_loop-framed (frames ps) (size + 1) unzip all [] w refl (omega arith) (omega arith) t in
    let start : 0 + size ≡ size = omega arith in
    (
      record z { planes = planes; data_block = block; size = 0 + size },
      encode-packets zip z bitmap planes ps block (0 + size) er ev ep,
      w',
      ap₂ (λ b n. decode_loop (n + 1) unzip b n 0 w) et start ∙ ew,
      ef,
    )
