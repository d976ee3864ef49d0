-- ===== src/AudioCapture.antt =====
-- include/ryulib/AudioCapture.hpp: the sound of a microphone, mixed with what the system plays. The
-- arithmetic of `float` is a parameter.
pub mod Mixing
mod Tests
use ryulib_cpp.Common.{
  ℕ, zero, suc, ◌+◌, ◌*◌, ◌/◌, Bool, true, false, Option, none, some, List, [], ◌∷◌, ◌++◌,
  replicate, length, if◌then◌else◌, ◌>>=◌,
}
use ryulib_cpp.Common.Blocks.{read_at, write_at}
use ryulib_cpp.Common.Int.{ℤ}
use ryulib_cpp.AudioIo.{PaAnswers}
use ryulib_cpp.AudioIo.Input
use ryulib_cpp.AudioIo.Input.{AudioInput}
use ryulib_cpp.SystemAudio.{Answers}
use ryulib_cpp.SystemAudioCapture
use ryulib_cpp.SystemAudioCapture.{SystemAudioCapture}

-- The four bytes of a sample times one volume and of another times a second one, added.
abbrev pub Mix : Type 0
Mix = ℕ → List ℕ → ℕ → List ℕ → List ℕ

pub record AudioCaptureOption : Type 0 where
  pub mic_device_id : Option ℕ
  pub channels : ℕ
  pub sample_rate : ℕ
  pub sample_size : ℕ
  pub frames : ℕ

pub get_frame_size : AudioCaptureOption → ℕ
get_frame_size o = o.channels * o.sample_size * o.frames

-- `log` is what `on_data_` got.
pub record AudioCapture : Type 0 where
  pub mic : Option AudioInput
  pub system_audio : SystemAudioCapture
  pub silent_audio : List ℕ
  pub audio_data : List ℕ
  pub is_mic_muted : Bool
  pub is_system_muted : Bool
  pub volume_mic : ℕ
  pub volume_system : ℕ
  pub on_data : Bool
  pub log : List (List ℕ)

-- The microphone is closed before it is deleted.
pub drop_mic : Option AudioInput → AudioCapture → AudioCapture
drop_mic none c = c
drop_mic (some mic) c = record c { mic = none }

pub stop : AudioCapture → Option AudioCapture
unfolding drop_mic
stop c = SystemAudioCapture.stop c.system_audio >>= λ system.
    some (drop_mic c.mic (record c { system_audio = system }))

pub stop_if_started : Option AudioInput → AudioCapture → Option AudioCapture
unfolding stop
stop_if_started none c = some c
stop_if_started (some mic) c = stop c

-- `one` is the volume of 1.0. The result is the code of AudioInput.open.
pub start :
    ℕ → PaAnswers → Answers → ℕ → AudioCaptureOption → AudioCapture → Option (ℤ × AudioCapture)
unfolding stop_if_started get_frame_size
start one pa answers src_size o c = stop_if_started c.mic c >>= λ c.
    SystemAudioCapture.start answers src_size c.system_audio >>= λ system.
    Input.open_input pa o.mic_device_id
      (record (Input.new_input one o.channels o.sample_rate o.sample_size o.frames) {
        on_error = true;
        on_data = true;
      })
    >>= λ (code, mic). some (
      code,
      record c {
        mic = some mic;
        system_audio = system;
        silent_audio = replicate (get_frame_size o) 0;
        audio_data = replicate (get_frame_size o) 0;
      },
    )

-- The loop over `n` samples from `at` on.
pub mix_samples : Mix → ℕ → ℕ → ℕ → ℕ → List ℕ → List ℕ → List ℕ → Option (List ℕ)
mix_samples mix vm vs zero at mic system dst = some dst
mix_samples mix vm vs (suc n) at mic system dst = read_at mic at 4 >>= λ m.
    read_at system at 4 >>= λ s.
    write_at dst at (mix vm m vs s) >>= λ dst. mix_samples mix vm vs n (at + 4) mic system dst

-- What the system plays, or silence.
pub chosen_system : Bool → Option (List ℕ) → List ℕ → List ℕ
chosen_system true memory silent = silent
chosen_system false none silent = silent
chosen_system false (some memory) silent = memory

pub on_data : Mix → List ℕ → AudioCapture → Option AudioCapture
unfolding chosen_system mix_samples
on_data mix buffer c =
    let (memory, system) = SystemAudioCapture.get_audio_data c.system_audio in
    let mic = if c.is_mic_muted then c.silent_audio else buffer in
    mix_samples mix c.volume_mic c.volume_system (length buffer / 4) 0 mic
      (chosen_system c.is_system_muted memory c.silent_audio) c.audio_data
    >>= λ mixed. some (record c {
      system_audio = system;
      audio_data = mixed;
      log = if c.on_data then c.log ++ mixed ∷ [] else c.log;
    })
