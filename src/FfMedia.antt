-- ===== src/FfMedia.antt =====
-- include/ffmpeg: what FFStream.hpp, FFAudio.hpp and FFVideo.hpp share, and FFStream. FFmpeg is a
-- parameter, of which the answers enter.
use ryulib_cpp.Common.{ℕ, ◌+◌, Bool, true, false, Option, none, some, List, [], ◌∷◌, if◌then◌else◌}
use ryulib_cpp.Common.Int.{ℤ, pos, negsuc}

-- A packet of a stream; decoding it takes the codec to the time `pts`, which is counted from the
-- least number of 64 bits on.
pub record Packet : Type 0 where
  pub stream_index : ℕ
  pub pts : ℕ

-- The codec types of the streams.
pub data MediaType : Type 0 where
  audio_type video_type other_type : MediaType

abbrev pub is_audio : MediaType → Bool
is_audio audio_type = true
is_audio type = false

abbrev pub is_video : MediaType → Bool
is_video video_type = true
is_video type = false

-- The loops that look for the first stream of a kind, from stream `i` on.
unfoldable pub find_stream : (MediaType → Bool) → List MediaType → ℕ → Option ℕ
find_stream is_wanted [] i = none
find_stream is_wanted (type ∷ types) i =
    let later = find_stream is_wanted types (i + 1) in if is_wanted type then some i else later

-- Whether avcodec_find_decoder, avcodec_parameters_to_context and avcodec_open2 succeed.
pub record CodecAnswers : Type 0 where
  pub found : Bool
  pub has_parameters : Bool
  pub opens : Bool

-- What ends the loop over the frames of a packet: that the codec has no more (EAGAIN, EOF), or an
-- error.
pub data LastReceive : Type 0 where
  no_more receive_error : LastReceive

-- `int ret = avcodec_send_packet(...) < 0`: the comparison, not the answer.
unfoldable pub send_result : Bool → ℤ
send_result true = pos 0
send_result false = pos 1

abbrev pub is_negative : ℤ → Bool
is_negative (pos n) = false
is_negative (negsuc n) = true

-- FFStream: whether `context_` is not null.
pub record FfStream : Type 0 where
  pub context : Bool

-- The answers of avformat_open_input and avformat_find_stream_info. Where the first fails, it leaves
-- a null pointer.
unfoldable pub open_stream : Bool → Bool → Bool × FfStream
open_stream opens has_info =
    if opens then (has_info, record { context = true }) else (false, record { context = false })

unfoldable pub close_stream : FfStream
close_stream = record { context = false }

-- A packet that cannot be filled is freed again.
unfoldable pub read_packet : Option Packet → FfStream → Option Packet
read_packet answer s = if s.context then answer else none

-- `move` dereferences `context_`.
unfoldable pub move_stream : FfStream → Option FfStream
move_stream s = if s.context then some s else none
