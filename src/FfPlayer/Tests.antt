-- ===== src/FfPlayer/Tests.antt =====
-- A player with a packet of each kind.
use ryulib_cpp.Common.{
  ℕ, ◌≡◌, refl, true, false, some, List, [], ◌∷◌, replicate, arith, length, length-replicate,
}
use ryulib_cpp.AudioSdl
use ryulib_cpp.AudioSdl.{AudioSdl}
use ryulib_cpp.PacketReader.Bytes.{IsValid}
use ryulib_cpp.PacketReader.{PacketReader, packetreader_buffer_size}
use ryulib_cpp.FfMedia.{no_more, read_packet, send_result}
use ryulib_cpp.FfAudio
use ryulib_cpp.FfAudio.{FfAudio, DeviceAnswers, decode_and_play}
use ryulib_cpp.FfAudio.Decoding.{PlaysAll, decode_and_play-PlaysAll}
use ryulib_cpp.FfVideo
use ryulib_cpp.FfVideo.{FfVideo, Decoding, turn}
use ryulib_cpp.FfVideo.Due.{Shown, turn-Shown}
use ryulib_cpp.FfPlayer.{
  FfPlayer, Action, repeats, works, turns, act, run, on_repeat, read_on, route,
}
use ryulib_cpp.FfPlayer.Losses.{IsSound, run-IsSound}

abbrev reader : PacketReader
reader = record { buffer = []; out = []; size = 0 }

abbrev sound : AudioSdl
sound = record {
  channels = 1;
  sample_rate = 8000;
  fpb = 1;
  frame_size = 4;
  reader = reader;
  queue = [];
  playing = false;
}

abbrev audio : FfAudio
audio = record {
  stream_index = some 1;
  context = true;
  contexts = 1;
  resamplers = 1;
  last_pts = 0;
  queue = [];
  freed = 0;
  lost = 0;
  audio = sound;
}

abbrev video : FfVideo
video = record {
  stream_index = some 0;
  context = true;
  contexts = 1;
  last_pts = 0;
  target_pts = 5;
  queue =
      record { stream_index = 0; pts = 3 }
      ∷ record { stream_index = 0; pts = 7 }
      ∷ record { stream_index = 0; pts = 9 }
      ∷ [];
  freed = 0;
  lost = 0;
  shown = [];
  window = true;
}

-- Each packet has a frame, at its time.
abbrev one_frame : Decoding
one_frame p = record { sent = true; frames = p.pts ∷ []; last = no_more }

turn-Shown_example :
    (v' : FfVideo) × (turn (one_frame) video ≡ some v') × Shown one_frame video v' video.queue
turn-Shown_example = turn-Shown (one_frame) video refl

abbrev player : FfPlayer
player = record {
  started = true;
  media = record { context = true };
  audio = audio;
  video = record video { queue = [] };
  read_count = 0;
  freed = 0;
  on_eof = true;
  on_error = true;
  log = [];
}

-- A packet for the pictures, one for the sound, and one of a third stream.
abbrev actions : List Action
actions =
    repeats (some (record { stream_index = 0; pts = 3 }))
    ∷ repeats (some (record { stream_index = 1; pts = 4 }))
    ∷ repeats (some (record { stream_index = 2; pts = 5 }))
    ∷ works true [] no_more
    ∷ turns (one_frame)
    ∷ []

abbrev after : FfPlayer
after = record player {
  audio = record audio { freed = 1 };
  video = record video { last_pts = 3; target_pts = 0; queue = []; freed = 1; shown = 3 ∷ [] };
  read_count = 3;
  freed = 1;
}

actions-run : run player actions ≡ some after
unfolding run act on_repeat read_on read_packet route FfAudio.is_empty FfAudio.write FfAudio.get_pts
    FfVideo.audio_sync FfVideo.write FfAudio.work FfAudio.work_on FfAudio.on_task
    FfAudio.decode_and_play FfAudio.play_frames FfAudio.free_after send_result FfVideo.turn
    FfVideo.show_due FfVideo.decode_and_play FfVideo.show_frames FfVideo.free_after
    AudioSdl.get_delay_count
actions-run = refl

run-IsSound_example : IsSound after
run-IsSound_example =
    run-IsSound actions player after (tt, (tt, (tt, (refl, ((λ p. refl), tt)))))
      (record { audio = refl; video = refl; codecs = λ e. (refl, refl) }) actions-run

memory : List ℕ
memory = replicate packetreader_buffer_size 0

memory-length : length memory ≡ packetreader_buffer_size
unfolding memory
memory-length = length-replicate {A = ℕ} packetreader_buffer_size 0

abbrev empty_reader : PacketReader
empty_reader = record { buffer = memory; out = memory; size = 0 }

empty_reader-IsValid : IsValid empty_reader
empty_reader-IsValid = record {
  buffer_block = memory-length;
  out_block = memory-length;
  inside = omega arith;
}

abbrev ready : FfAudio
ready = record audio { audio = record sound { reader = empty_reader } }

decode_and_play-PlaysAll_example :
    (a' : FfAudio) × (decode_and_play false
        ((1 ∷ 2 ∷ []) ∷ (3 ∷ 4 ∷ 5 ∷ []) ∷ [])
        no_more
        (record { stream_index = 1; pts = 8 })
        ready
      ≡ some a')
    × PlaysAll ((1 ∷ 2 ∷ []) ∷ (3 ∷ 4 ∷ 5 ∷ []) ∷ []) no_more ready a'
decode_and_play-PlaysAll_example =
    decode_and_play-PlaysAll false ((1 ∷ 2 ∷ []) ∷ (3 ∷ 4 ∷ 5 ∷ []) ∷ []) no_more
      (record { stream_index = 1; pts = 8 }) ready empty_reader-IsValid (omega arith)
      ((omega arith, omega arith), ((omega arith, omega arith), tt))
