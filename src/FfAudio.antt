-- ===== src/FfAudio.antt =====
-- include/ffmpeg/FFAudio.hpp: packets of sound wait for a Worker, which decodes and plays them.
pub mod Decoding
pub mod Losses
use ryulib_cpp.Common.{
  ℕ, zero, suc, ◌+◌, Bool, true, false, Option, none, some, List, [], ◌∷◌, ◌++◌, if◌then◌else◌, ltb,
  ◌>>=◌,
}
use ryulib_cpp.AudioSdl
use ryulib_cpp.AudioSdl.{AudioSdl}
use ryulib_cpp.FfMedia.{
  Packet, MediaType, is_audio, find_stream, CodecAnswers, LastReceive, no_more, receive_error,
  send_result, is_negative,
}

-- `contexts` and `resamplers` count what FFmpeg has allocated. `queue` is what the Worker has not
-- handled; `freed` counts the packets that were freed, `lost` those that nothing points to any more.
pub record FfAudio : Type 0 where
  pub stream_index : Option ℕ
  pub context : Bool
  pub contexts : ℕ
  pub resamplers : ℕ
  pub last_pts : ℕ
  pub queue : List Packet
  pub freed : ℕ
  pub lost : ℕ
  pub audio : AudioSdl

-- What the opening of the sound device needs, and its answer.
pub record DeviceAnswers : Type 0 where
  pub channels : ℕ
  pub sample_rate : ℕ
  pub opens : Bool

-- From swr_alloc_set_opts on.
unfoldable pub open_device : DeviceAnswers → FfAudio → Bool × FfAudio
unfolding AudioSdl.open_device
open_device d a =
    let (ok, audio) = AudioSdl.open_device a.audio d.channels d.sample_rate 1024 d.opens in
    (ok, record a { resamplers = a.resamplers + 1; audio = audio })

-- From the search of the decoder on.
unfoldable pub open_codec : CodecAnswers → DeviceAnswers → FfAudio → Bool × FfAudio
unfolding open_device
open_codec c d a =
    let allocated = record a { context = true; contexts = a.contexts + 1 } in
    let opened = open_device d allocated in
    if c.found
    then (if c.has_parameters
        then (if c.opens then opened else (false, allocated))
        else (false, allocated))
    else (false, a)

unfoldable pub open_index : Option ℕ → CodecAnswers → DeviceAnswers → FfAudio → Bool × FfAudio
unfolding open_codec
open_index none c d a = (false, record a { stream_index = none })
open_index (some i) c d a = open_codec c d (record a { stream_index = some i })

unfoldable pub open_audio : List MediaType → CodecAnswers → DeviceAnswers → FfAudio → Bool × FfAudio
unfolding open_index
open_audio types c d a = open_index (find_stream is_audio types 0) c d a

unfoldable pub close_audio : FfAudio → FfAudio
unfolding AudioSdl.close_device
close_audio a = record a { context = false; audio = AudioSdl.close_device a.audio }

unfoldable pub write : Packet → FfAudio → FfAudio
write p a =
    if a.context then record a { queue = a.queue ++ p ∷ [] } else record a { lost = a.lost + 1 }

unfoldable pub is_empty : FfAudio → Bool
unfolding AudioSdl.get_delay_count
is_empty a = ltb (AudioSdl.get_delay_count a.audio) 2

-- The loop over the frames, each a block of samples.
unfoldable pub play_frames : List (List ℕ) → AudioSdl → Option AudioSdl
unfolding AudioSdl.play
play_frames [] audio = some audio
play_frames (frame ∷ frames) audio = AudioSdl.play audio frame >>= λ audio. play_frames frames audio

-- An error returns before the packet is freed.
unfoldable pub free_after : LastReceive → FfAudio → FfAudio
free_after no_more a = record a { freed = a.freed + 1 }
free_after receive_error a = record a { lost = a.lost + 1 }

-- `pts_correction_last_pts`, the time of the last frame; the frames of a packet have its time.
abbrev pub last_pts_after : List (List ℕ) → Packet → ℕ → ℕ
last_pts_after [] p n = n
last_pts_after (frame ∷ frames) p n = p.pts

-- `sent` is whether avcodec_send_packet succeeds.
unfoldable pub decode_and_play :
    Bool → List (List ℕ) → LastReceive → Packet → FfAudio → Option FfAudio
unfolding play_frames free_after
decode_and_play sent frames last p a =
    let played = play_frames frames a.audio >>= λ audio.
    some (
      free_after last
        (record a { audio = audio; last_pts = last_pts_after frames p a.last_pts })) in
    if is_negative (send_result sent) then some (record a { lost = a.lost + 1 }) else played

-- The task of the Worker.
unfoldable pub on_task : Bool → List (List ℕ) → LastReceive → Packet → FfAudio → Option FfAudio
unfolding decode_and_play
on_task sent frames last p a =
    let decoded = decode_and_play sent frames last p a in
    if a.context then decoded else some (record a { freed = a.freed + 1 })

-- The Worker takes its first task.
unfoldable pub work_on : List Packet → Bool → List (List ℕ) → LastReceive → FfAudio → Option FfAudio
unfolding on_task
work_on [] sent frames last a = some a
work_on (p ∷ q) sent frames last a = on_task sent frames last p (record a { queue = q })

unfoldable pub work : Bool → List (List ℕ) → LastReceive → FfAudio → Option FfAudio
unfolding work_on
work sent frames last a = work_on a.queue sent frames last a

unfoldable pub get_pts : FfAudio → ℕ
get_pts a = if a.context then a.last_pts else 9223372036854775808
