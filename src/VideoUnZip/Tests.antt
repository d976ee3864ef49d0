-- ===== src/VideoUnZip/Tests.antt =====
-- Two frames through a VideoZip and a VideoUnZip.
use ryulib_cpp.Common.{
  ℕ, ◌≡◌, refl, Bool, true, false, Option, some, List, [], ◌∷◌, length, take, arith,
}
use ryulib_cpp.YuvTools.Encode.{rgb_to_yuv420}
use ryulib_cpp.YuvTools.Encode.Safety.{rgb_to_yuv420-some}
use ryulib_cpp.YuvTools.Decode.{Picture}
use ryulib_cpp.VideoZip.{VideoZip, CxPacket, frame_packet, other_packet, encode, open_encoder}
use ryulib_cpp.VideoZip.Handles.{IsOwned, open_encoder-IsOwned}
use ryulib_cpp.VideoUnZip.{Decoder, VideoUnZip, decode}
use ryulib_cpp.VideoUnZip.RoundTrip.{Fits, decode-encode}

abbrev pixels : List ℕ
pixels = 1 ∷ 2 ∷ 3 ∷ 4 ∷ 5 ∷ 6 ∷ 7 ∷ 8 ∷ 9 ∷ 10 ∷ 11 ∷ 12 ∷ []

abbrev zip : VideoZip
zip = record {
  data_block = 0 ∷ 0 ∷ 0 ∷ 0 ∷ 0 ∷ 0 ∷ 0 ∷ 0 ∷ 0 ∷ 0 ∷ 0 ∷ 0 ∷ 0 ∷ [];
  size = 0;
  is_opened = true;
  width = 2;
  height = 2;
  planes = 0 ∷ 0 ∷ 0 ∷ 0 ∷ 0 ∷ 0 ∷ [];
  images = 1;
  codecs = 1;
}

abbrev packets : List CxPacket
packets = frame_packet (7 ∷ 8 ∷ []) ∷ other_packet ∷ frame_packet (9 ∷ []) ∷ []

abbrev coder : List ℕ → Option (List CxPacket)
coder planes = some packets

abbrev picture : Picture
picture = record {
  src_y = 16 ∷ 235 ∷ 100 ∷ 50 ∷ [];
  src_stride_y = 2;
  src_u = 128 ∷ [];
  src_stride_u = 1;
  src_v = 90 ∷ [];
  src_stride_v = 1;
  dst_stride = 8;
  width = 2;
  height = 2;
}

abbrev decoder : Decoder
decoder fed frame = some (picture ∷ [])

abbrev unzip : VideoUnZip
unzip = record {
  is_opened = true;
  bitmap = 0 ∷ 0 ∷ 0 ∷ 0 ∷ 0 ∷ 0 ∷ 0 ∷ 0 ∷ 0 ∷ 0 ∷ 0 ∷ 0 ∷ 0 ∷ 0 ∷ 0 ∷ 0 ∷ [];
  codecs = 1;
  fed = [];
}

picture-Fits : Fits 16 picture
picture-Fits = record {
  columns = 1;
  rows = 1;
  even = record {
    width = refl;
    stride_y = omega arith;
    stride_u = omega arith;
    stride_v = omega arith;
    dst_stride = refl;
  };
  height = refl;
  y = omega arith;
  u = omega arith;
  v = omega arith;
  bitmap = omega arith;
}

converted : (yuv : List ℕ) × (rgb_to_yuv420 pixels zip.planes 2 2 3 ≡ some yuv) × (length yuv ≡ 6)
converted =
    rgb_to_yuv420-some pixels zip.planes 1 1 3 (omega arith) (omega arith) (omega arith)
      (omega arith)

decode-encode_example :
    (z' : VideoZip) × (encode coder zip pixels ≡ some (true, z'))
    × (w' : VideoUnZip) × (decode decoder unzip (take z'.size z'.data_block) z'.size
        ≡ some (true, w'))
    × (w'.fed ≡ (7 ∷ 8 ∷ []) ∷ (9 ∷ []) ∷ [])
decode-encode_example =
    decode-encode coder decoder zip unzip pixels converted.0 packets converted.1 refl (omega arith)
      (omega arith)
      ((picture ∷ [], refl, (picture-Fits, tt)), ((picture ∷ [], refl, (picture-Fits, tt)), tt))

abbrev shut : VideoZip
shut = record zip { is_opened = false; images = 0; codecs = 0 }

open_encoder-IsOwned_example :
    (ok : Bool) × (z' : VideoZip) × (open_encoder
        (record { allocated = true; configured = true; inited = false; img_block = [] })
        shut
        2
        2
      ≡ some (ok, z'))
    × IsOwned z'
    × (z'.is_opened ≡ ok)
open_encoder-IsOwned_example =
    open_encoder-IsOwned
      (record { allocated = true; configured = true; inited = false; img_block = [] }) shut 2 2
      (record { images = refl; codecs = refl })
