-- ===== src/VideoZip.antt =====
-- include/ryulib/VideoZip.hpp: bitmaps are encoded into frames, each with its size in front. libvpx is
-- a parameter: whether its calls that open the encoder succeed, and what it makes of an image.
pub mod Layout
pub mod Handles
use ryulib_cpp.Common.{
  ℕ, zero, suc, ◌+◌, ◌-◌, ◌*◌, ◌/◌, ◌%◌, ◌^◌, Bool, true, false, Option, none, some, List, [], ◌∷◌,
  length, if◌then◌else◌, ltb, ◌>>=◌,
}
use ryulib_cpp.Common.Blocks.{write_at}
use ryulib_cpp.YuvTools.Encode.{rgb_to_yuv420}

abbrev pub buffer_size : ℕ
buffer_size = 1024 * 1024

abbrev pub pixel_size : ℕ
pixel_size = 3

-- What `vpx_codec_get_cx_data` gives: a frame, or a packet of another kind.
pub data CxPacket : Type 0 where
  frame_packet : List ℕ → CxPacket
  other_packet : CxPacket

-- `images` and `codecs` count what libvpx has allocated and not yet freed; `planes` is the block of
-- the image.
pub record VideoZip : Type 0 where
  pub data_block : List ℕ
  pub size : ℕ
  pub is_opened : Bool
  pub width : ℕ
  pub height : ℕ
  pub planes : List ℕ
  pub images : ℕ
  pub codecs : ℕ

-- Whether `vpx_img_alloc`, `vpx_codec_enc_config_default` and `vpx_codec_enc_init` succeed, and the
-- block that the first allocates.
pub record Answers : Type 0 where
  pub allocated : Bool
  pub configured : Bool
  pub inited : Bool
  pub img_block : List ℕ

-- A second `vpx_img_free` of an image or `vpx_codec_destroy` of an encoder is a fault.
abbrev pub take_one : ℕ → Option ℕ
take_one zero = none
take_one (suc n) = some n

pub close_encoder : VideoZip → Option VideoZip
close_encoder z =
    let closed = take_one z.images >>= λ images. take_one z.codecs >>= λ codecs.
    some (record z { is_opened = false; images = images; codecs = codecs }) in
    if z.is_opened then closed else some z

-- The part of `open` behind `vpx_img_alloc`.
pub configure : Answers → ℕ → ℕ → VideoZip → Bool × VideoZip
configure a width height z =
    if a.configured
    then (let sized = record z { width = width; height = height } in
        if a.inited
        then (true, record sized { is_opened = true; codecs = z.codecs + 1 })
        else (false, record sized { images = z.images - 1 }))
    else (false, record z { images = z.images - 1 })

pub open_encoder : Answers → VideoZip → ℕ → ℕ → Option (Bool × VideoZip)
unfolding close_encoder configure
open_encoder a z width height = close_encoder z >>= λ z. some (
    if a.allocated
    then configure a width height (record z { images = z.images + 1; planes = a.img_block })
    else (false, z))

-- An `int` of four bytes, the low one first.
abbrev pub int_bytes : ℕ → List ℕ
int_bytes n = n % 256 ∷ n / 256 % 256 ∷ n / 65536 % 256 ∷ n / 16777216 % 256 ∷ []

-- The loop of `encode`; `frame` is the distance of the pointer of that name from `data_`.
pub put_packets : List CxPacket → List ℕ → ℕ → ℕ → Option (List ℕ × ℕ)
put_packets [] data_block frame size = some (data_block, size)
put_packets (other_packet ∷ ps) data_block frame size = put_packets ps data_block frame size
put_packets (frame_packet bytes ∷ ps) data_block frame size =
    write_at data_block frame (int_bytes (length bytes)) >>= λ data_block.
    write_at data_block (frame + 4) bytes >>= λ data_block.
    put_packets ps data_block (frame + 4 + length bytes) (size + 4 + length bytes)

-- `vpx` is what `vpx_codec_encode` makes of the image, `none` for an error.
unfoldable pub encode :
    (List ℕ → Option (List CxPacket)) → VideoZip → List ℕ → Option (Bool × VideoZip)
encode vpx z bitmap = rgb_to_yuv420 bitmap z.planes z.width z.height pixel_size >>= λ planes.
    elim (vpx planes) [
      | none ↦ some (false, record z { planes = planes })
      | some packets ↦ put_packets packets z.data_block 0 0 >>= λ (data_block, size).
          some (true, record z { planes = planes; data_block = data_block; size = size })
    ]
