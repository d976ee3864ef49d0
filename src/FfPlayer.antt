-- ===== src/FfPlayer.antt =====
-- include/ffmpeg/FFPlayer.hpp: the handlers that the Scheduler of a player calls, with the Worker of
-- its FFAudio and the thread of its FFVideo.
pub mod Losses
pub mod Files
mod Tests
use ryulib_cpp.Common.{
  ℕ, zero, suc, ◌+◌, Bool, true, false, Option, none, some, List, [], ◌∷◌, ◌++◌, if◌then◌else◌,
  ◌==◌, ◌>>=◌,
}
use ryulib_cpp.FfMedia.{
  Packet, MediaType, CodecAnswers, LastReceive, FfStream, open_stream, close_stream, read_packet,
  move_stream,
}
use ryulib_cpp.FfAudio
use ryulib_cpp.FfAudio.{FfAudio, DeviceAnswers}
use ryulib_cpp.FfVideo
use ryulib_cpp.FfVideo.{FfVideo, Decoding}

pub data Event : Type 0 where
  reached_end open_error : Event

-- `started` is that of the Scheduler. `read_count` counts the packets that were read, `freed` those
-- that the player itself freed; `log` is what the handlers got.
pub record FfPlayer : Type 0 where
  pub started : Bool
  pub media : FfStream
  pub audio : FfAudio
  pub video : FfVideo
  pub read_count : ℕ
  pub freed : ℕ
  pub on_eof : Bool
  pub on_error : Bool
  pub log : List Event

-- What FFmpeg and SDL answer when a file is opened, and the types of its streams.
pub record OpenAnswers : Type 0 where
  pub opens : Bool
  pub has_info : Bool
  pub types : List MediaType
  pub audio_codec : CodecAnswers
  pub device : DeviceAnswers
  pub video_codec : CodecAnswers

abbrev pub report : FfPlayer → FfPlayer
report p = record p { log = if p.on_error then p.log ++ open_error ∷ [] else p.log }

-- With the stream and the sound open.
unfoldable pub open_pictures : Bool × FfVideo → FfPlayer → FfPlayer
unfolding FfAudio.close_audio close_stream
open_pictures (ok, video) p =
    if ok
    then record p { video = video }
    else report
        (record p { media = close_stream; audio = FfAudio.close_audio p.audio; video = video })

-- With the stream open.
unfoldable pub open_codecs : OpenAnswers → Bool × FfAudio → FfPlayer → FfPlayer
unfolding open_pictures FfVideo.open_video close_stream
open_codecs a (ok, audio) p =
    if ok
    then open_pictures (FfVideo.open_video a.types a.video_codec p.video)
        (record p { audio = audio })
    else report (record p { media = close_stream; audio = audio })

unfoldable pub open_file : OpenAnswers → Bool × FfStream → FfPlayer → FfPlayer
unfolding open_codecs FfAudio.open_audio
open_file a (ok, media) p =
    if ok
    then open_codecs a (FfAudio.open_audio a.types a.audio_codec a.device p.audio)
        (record p { media = media })
    else report (record p { media = media })

unfoldable pub do_close : FfPlayer → FfPlayer
unfolding FfAudio.close_audio FfVideo.close_video close_stream
do_close p = record p {
  started = false;
  media = close_stream;
  audio = FfAudio.close_audio p.audio;
  video = FfVideo.close_video p.video;
}

pub data Task : Type 0 where
  opens : OpenAnswers → Task
  closes plays pauses moves : Task

unfoldable pub on_task : Task → FfPlayer → Option FfPlayer
unfolding open_file open_stream do_close move_stream
on_task (opens a) p = some (open_file a (open_stream a.opens a.has_info) p)
on_task closes p = some (do_close p)
on_task plays p = some (record p { started = true })
on_task pauses p = some (record p { started = false })
on_task moves p = move_stream p.media >>= λ media. some (record p { media = media })

abbrev pub is_index : ℕ → Option ℕ → Bool
is_index n none = false
is_index n (some i) = n == i

-- A packet goes to the sound or to the pictures, by its stream, or is freed.
unfoldable pub route : Packet → FfPlayer → FfPlayer
unfolding FfAudio.write FfAudio.get_pts FfVideo.audio_sync FfVideo.write
route k p =
    let audio = FfAudio.write k p.audio in
    if is_index k.stream_index p.audio.stream_index
    then record p { audio = audio; video = FfVideo.audio_sync (FfAudio.get_pts audio) p.video }
    else (if is_index k.stream_index p.video.stream_index
        then record p { video = FfVideo.write k p.video }
        else record p { freed = p.freed + 1 })

unfoldable pub read_on : Option Packet → FfPlayer → FfPlayer
unfolding route do_close
read_on none p =
    let closed = do_close p in
    record closed { log = if p.on_eof then closed.log ++ reached_end ∷ [] else closed.log }
read_on (some k) p = route k (record p { read_count = p.read_count + 1 })

-- The argument is what av_read_frame gives.
unfoldable pub on_repeat : Option Packet → FfPlayer → FfPlayer
unfolding read_on read_packet FfAudio.is_empty
on_repeat answer p = if FfAudio.is_empty p.audio then read_on (read_packet answer p.media) p else p

-- A task of the Scheduler, a call of its `on_repeat`, which it makes while it is started, a task of
-- the Worker, and a turn of the thread.
pub data Action : Type 0 where
  tasks : Task → Action
  repeats : Option Packet → Action
  works : Bool → List (List ℕ) → LastReceive → Action
  turns : Decoding → Action

unfoldable pub act : FfPlayer → Action → Option FfPlayer
unfolding on_task on_repeat FfAudio.work FfVideo.turn
act p (tasks t) = on_task t p
act p (repeats answer) = some (if p.started then on_repeat answer p else p)
act p (works sent frames last) =
    FfAudio.work sent frames last p.audio >>= λ audio. some (record p { audio = audio })
act p (turns answers) = FfVideo.turn answers p.video >>= λ video. some (record p { video = video })

unfoldable pub run : FfPlayer → List Action → Option FfPlayer
unfolding act
run p [] = some p
run p (a ∷ acts) = act p a >>= λ p. run p acts
