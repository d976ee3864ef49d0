-- ===== src/FfVideo.antt =====
-- include/ffmpeg/FFVideo.hpp: packets of pictures wait until the sound has reached their time.
pub mod Due
pub mod Losses
use ryulib_cpp.Common.{
  ℕ, zero, suc, ◌+◌, Bool, true, false, Option, none, some, List, [], ◌∷◌, ◌++◌, length,
  if◌then◌else◌, leb, ◌>>=◌,
}
use ryulib_cpp.FfMedia.{
  Packet, MediaType, is_video, find_stream, CodecAnswers, LastReceive, no_more, receive_error,
  send_result, is_negative,
}

-- `shown` lists the frames that were shown, each by its time; the other fields are as in FfAudio.
pub record FfVideo : Type 0 where
  pub stream_index : Option ℕ
  pub context : Bool
  pub contexts : ℕ
  pub last_pts : ℕ
  pub target_pts : ℕ
  pub queue : List Packet
  pub freed : ℕ
  pub lost : ℕ
  pub shown : List ℕ
  pub window : Bool

-- From the search of the decoder on.
unfoldable pub open_codec : CodecAnswers → FfVideo → Bool × FfVideo
open_codec c v =
    let allocated = record v { context = true; contexts = v.contexts + 1 } in
    if c.found
    then (if c.has_parameters
        then (if c.opens then (true, record allocated { window = true }) else (false, allocated))
        else (false, allocated))
    else (false, v)

unfoldable pub open_index : Option ℕ → CodecAnswers → FfVideo → Bool × FfVideo
unfolding open_codec
open_index none c v = (false, record v { stream_index = none })
open_index (some i) c v = open_codec c (record v { stream_index = some i })

unfoldable pub open_video : List MediaType → CodecAnswers → FfVideo → Bool × FfVideo
unfolding open_index
open_video types c v = open_index (find_stream is_video types 0) c v

-- The loop of `close`: the packets that it frees.
unfoldable pub free_queue : List Packet → ℕ → ℕ
free_queue [] freed = freed
free_queue (p ∷ q) freed = free_queue q (freed + 1)

unfoldable pub close_video : FfVideo → FfVideo
unfolding free_queue
close_video v = record v { context = false; queue = []; freed = free_queue v.queue v.freed }

unfoldable pub write : Packet → FfVideo → FfVideo
write p v =
    if v.context then record v { queue = v.queue ++ p ∷ [] } else record v { lost = v.lost + 1 }

unfoldable pub audio_sync : ℕ → FfVideo → FfVideo
audio_sync pts v = if v.context then record v { target_pts = pts } else v

unfoldable pub free_after : LastReceive → FfVideo → FfVideo
free_after no_more v = record v { freed = v.freed + 1 }
free_after receive_error v = record v { lost = v.lost + 1 }

-- The loop over the frames, each of which takes `pts_correction_last_pts` to its time.
unfoldable pub show_frames : List ℕ → FfVideo → FfVideo
show_frames [] v = v
show_frames (pts ∷ frames) v =
    show_frames frames (record v { last_pts = pts; shown = v.shown ++ pts ∷ [] })

unfoldable pub decode_and_play : Bool → List ℕ → LastReceive → Packet → FfVideo → FfVideo
unfolding free_after show_frames
decode_and_play sent frames last p v =
    if is_negative (send_result sent)
    then record v { lost = v.lost + 1 }
    else free_after last (show_frames frames v)

-- What FFmpeg answers for a packet: whether avcodec_send_packet succeeds, the times of the frames that
-- it gives then, which may be none, and what ends the loop.
pub record Decoded : Type 0 where
  pub sent : Bool
  pub frames : List ℕ
  pub last : LastReceive

abbrev pub Decoding : Type 0
Decoding = Packet → Decoded

-- The inner loop of the thread, over what waits: `getPTS` dereferences `context_`.
unfoldable pub show_due : Decoding → List Packet → FfVideo → Option FfVideo
unfolding decode_and_play
show_due answers [] v = some v
show_due answers (p ∷ q) v =
    let d = answers p in
    let later =
      show_due answers q (decode_and_play d.sent d.frames d.last p (record v { queue = q })) in
    if v.context then (if leb v.last_pts v.target_pts then later else some v) else none

-- What the thread does between two sleeps.
unfoldable pub turn : Decoding → FfVideo → Option FfVideo
unfolding show_due
turn answers v = show_due answers v.queue v
