-- ===== src/VideoUnZip.antt =====
-- include/ryulib/VideoUnZip.hpp: frames with their sizes in front are decoded into a bitmap. libvpx is
-- a parameter: whether its decoder opens, and what pictures it has after the frames that it was fed.
pub mod RoundTrip
pub mod Handles
mod Tests
use ryulib_cpp.Common.{
  ℕ, zero, suc, ◌+◌, ◌*◌, Bool, true, false, Option, none, some, List, [], ◌∷◌, ◌++◌, if◌then◌else◌,
  ltb, get_or, ◌>>=◌,
}
use ryulib_cpp.Common.Blocks.{read_at}
use ryulib_cpp.VideoZip.{take_one}
use ryulib_cpp.YuvTools.Decode.{Picture, i420_to_argb}

-- What libvpx makes of a frame, after those it was fed before: `none` for an error, or the pictures.
abbrev pub Decoder : Type 0
Decoder = List (List ℕ) → List ℕ → Option (List Picture)

-- `codecs` counts the decoders that libvpx has opened and not closed; `fed` lists the frames that
-- the decoder took.
pub record VideoUnZip : Type 0 where
  pub is_opened : Bool
  pub bitmap : List ℕ
  pub codecs : ℕ
  pub fed : List (List ℕ)

pub close_decoder : VideoUnZip → Option VideoUnZip
close_decoder z =
    let closed = take_one z.codecs >>= λ codecs.
    some (record z { is_opened = false; codecs = codecs; bitmap = [] }) in
    if z.is_opened then closed else some z

-- `block` is what malloc gives for the bitmap.
pub open_decoder : Bool → List ℕ → VideoUnZip → Option (Bool × VideoUnZip)
unfolding close_decoder
open_decoder inited block z = close_decoder z >>= λ z. some (
    if inited
    then (true, record z { is_opened = true; bitmap = block; codecs = z.codecs + 1; fed = [] })
    else (false, z))

-- The decoder is opened again in the place of the one that is there, which is not closed.
pub refresh : Bool → VideoUnZip → VideoUnZip
refresh inited z = if inited then record z { codecs = z.codecs + 1; fed = [] } else z

-- An `int` in four bytes, the low one first. One of 2^31 or more, which is below zero, is past every
-- block.
abbrev pub get_int : List ℕ → ℕ
get_int bytes =
    get_or bytes 0 0
    + 256 * get_or bytes 1 0
    + 65536 * get_or bytes 2 0
    + 16777216 * get_or bytes 3 0

-- The loop over the pictures of one frame.
pub show_pictures : List Picture → List ℕ → Option (List ℕ)
show_pictures [] bitmap = some bitmap
show_pictures (p ∷ ps) bitmap =
    i420_to_argb false p bitmap >>= λ (ok, bitmap). show_pictures ps bitmap

-- What the loop of `decode` does with the answer for one frame, and `again` the rest of the loop.
pub after_frame :
    Option (List Picture)
    → (List ℕ → Option (Bool × VideoUnZip))
    → VideoUnZip
    → Option (Bool × VideoUnZip)
after_frame none again z = some (false, z)
after_frame (some pictures) again z = show_pictures pictures z.bitmap >>= again

-- The loop of `decode`: `count` is also the distance of `frame` from the start of the data. Out of
-- fuel it is `none`.
pub decode_loop : ℕ → Decoder → List ℕ → ℕ → ℕ → VideoUnZip → Option (Bool × VideoUnZip)
decode_loop zero vpx data_block size count z = none
decode_loop (suc fuel) vpx data_block size count z =
    let next = read_at data_block count 4 >>= λ head.
    read_at data_block (count + 4) (get_int head) >>= λ bytes.
    after_frame (vpx z.fed bytes)
      (λ bitmap.
        decode_loop fuel vpx data_block size (count + 4 + get_int head)
          (record z { bitmap = bitmap; fed = z.fed ++ bytes ∷ [] }))
      z in
    if ltb count size then next else some (true, z)

-- Each round takes four bytes or more.
pub decode : Decoder → VideoUnZip → List ℕ → ℕ → Option (Bool × VideoUnZip)
decode vpx z data_block size = decode_loop (size + 1) vpx data_block size 0 z
