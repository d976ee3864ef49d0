-- ===== src/SystemAudio.antt =====
-- include/ryulib/SystemAudio.hpp: the capture of what the system plays. The answers of COM and of
-- WASAPI are arguments; the worker's loop calls `do_repeat`.
pub mod Opening
pub mod Closing
pub mod Packets
mod Tests
use ryulib_cpp.Common.{
  ℕ, zero, suc, ◌+◌, ◌-◌, ◌*◌, ◌/◌, Bool, true, false, Option, none, some, List, [], ◌∷◌, ◌++◌,
  if◌then◌else◌, ◌>>=◌,
}

-- The pointer `pwfx`: null, to a format, or to one that was freed.
pub data Format : Type 0 where
  no_format live freed : Format

-- The interface pointers are whether they are not null. `references` counts the interfaces that
-- were given out and not released, `formats` the formats that were not freed, and `buffers` the
-- buffers that were not given back. `log` is what `on_data_` got: the data, where there are any, and
-- the size.
pub record SystemAudio : Type 0 where
  pub worker : Bool
  pub is_stoped : Bool
  pub enumerator : Bool
  pub device : Bool
  pub audio_client : Bool
  pub capture_client : Bool
  pub audio_volume : Bool
  pub pwfx : Format
  pub references : ℕ
  pub formats : ℕ
  pub buffers : ℕ
  pub on_data : Bool
  pub log : List (Option (List ℕ) × ℕ)

pub new_system_audio : SystemAudio
new_system_audio = record {
  worker = false;
  is_stoped = true;
  enumerator = false;
  device = false;
  audio_client = false;
  capture_client = false;
  audio_volume = false;
  pwfx = no_format;
  references = 0;
  formats = 0;
  buffers = 0;
  on_data = false;
  log = [];
}

-- SAFE_RELEASE on a pointer: the references after it.
abbrev pub safe_release : Bool → ℕ → ℕ
safe_release true n = n - 1
safe_release false n = n

-- The four SAFE_RELEASE of `fin_values`.
pub release_all : SystemAudio → SystemAudio
release_all s = record s {
  references = safe_release s.capture_client (
      safe_release s.audio_client (safe_release s.device (safe_release s.enumerator s.references)));
  enumerator = false;
  device = false;
  audio_client = false;
  capture_client = false;
}

-- The format is freed, and its pointer keeps its value; to free it again is a fault.
pub free_format : Format → SystemAudio → Option SystemAudio
free_format no_format s = some s
free_format live s = some (record s { pwfx = freed; formats = s.formats - 1 })
free_format freed s = none

pub fin_values : SystemAudio → Option SystemAudio
unfolding free_format release_all
fin_values s = free_format s.pwfx s >>= λ s. some (release_all s)

-- Whether the eight calls of `open` succeed, in their order.
pub record Answers : Type 0 where
  pub creates_instance : Bool
  pub gets_endpoint : Bool
  pub activates : Bool
  pub gets_format : Bool
  pub initializes : Bool
  pub gets_buffer_size : Bool
  pub gets_service : Bool
  pub starts : Bool

-- Whether a call succeeds, and what it does where it does and where it does not.
pub record Stage : Type 0 where
  pub ok : Bool
  pub success : SystemAudio → SystemAudio
  pub failure : SystemAudio → SystemAudio

-- The calls of `open` before that which gets the format. A pointer is written over; a call that fails
-- sets its pointer to null, as documented.
abbrev pub early_stages : Answers → List Stage
early_stages a =
    record {
      ok = a.creates_instance;
      success = λ s. record s { enumerator = true; references = s.references + 1 };
      failure = λ s. record s { enumerator = false };
    }
    ∷ record {
      ok = a.gets_endpoint;
      success = λ s. record s { device = true; references = s.references + 1 };
      failure = λ s. record s { device = false };
    }
    ∷ record {
      ok = a.activates;
      success = λ s. record s { audio_client = true; references = s.references + 1 };
      failure = λ s. record s { audio_client = false };
    }
    ∷ []

-- Those from there on.
abbrev pub late_stages : Answers → List Stage
late_stages a =
    record {
      ok = a.gets_format;
      success = λ s. record s { pwfx = live; formats = s.formats + 1 };
      failure = λ s. record s { pwfx = no_format };
    }
    ∷ record { ok = a.initializes; success = λ s. s; failure = λ s. s }
    ∷ record { ok = a.gets_buffer_size; success = λ s. s; failure = λ s. s }
    ∷ record {
      ok = a.gets_service;
      success = λ s. record s { capture_client = true; references = s.references + 1 };
      failure = λ s. record s { capture_client = false };
    }
    ∷ record { ok = a.starts; success = λ s. s; failure = λ s. s }
    ∷ []

-- A call that fails leads to `fin_values` and false. Behind the last one the worker is made.
pub run_stages : List Stage → SystemAudio → Option (Bool × SystemAudio)
unfolding fin_values
run_stages [] s = some (true, record s { is_stoped = false; worker = true })
run_stages (stage ∷ rest) s =
    let next = run_stages rest (stage.success s) in
    let stopped = fin_values (stage.failure s) >>= λ s. some (false, s) in
    if stage.ok then next else stopped

pub open_audio : Answers → SystemAudio → Option (Bool × SystemAudio)
unfolding run_stages
open_audio a s = run_stages (early_stages a ++ late_stages a) s

pub close_audio : SystemAudio → Option SystemAudio
unfolding fin_values
close_audio s =
    let closed = fin_values (record s { is_stoped = true; worker = false }) in
    if s.worker then closed else some s

-- `getVolume` and `setVolume`, but for the number itself, with the answer of GetService.
pub ask_volume : Bool → SystemAudio → SystemAudio
ask_volume ok s = if ok then record s { audio_volume = true; references = s.references + 1 } else s

-- What GetBuffer gives.
pub record Buffer : Type 0 where
  pub frame_bytes : List ℕ
  pub frames : ℕ
  pub silent : Bool

abbrev pub tell : SystemAudio → Option (List ℕ) → ℕ → SystemAudio
tell s data_block size = record s {
  log = if s.on_data then s.log ++ (data_block, size) ∷ [] else s.log;
}

-- What `do_repeat` does with the answer of GetBuffer; `n_channels` and `bits` are those of the
-- format.
pub take_buffer : ℕ → ℕ → ℕ → Option Buffer → SystemAudio → SystemAudio
take_buffer n_channels bits packet_length none s = s
take_buffer n_channels bits packet_length (some b) s =
    let got = record s { buffers = s.buffers + 1 } in
    let told = tell got (some b.frame_bytes) (packet_length * n_channels * bits / 8) in
    let after = if b.silent then got else told in record after { buffers = after.buffers - 1 }

-- The first answer is that of GetNextPacketSize.
pub do_repeat : ℕ → ℕ → Option ℕ → Option Buffer → SystemAudio → SystemAudio
unfolding take_buffer
do_repeat n_channels bits none buffer s = s
do_repeat n_channels bits (some zero) buffer s = tell s none 0
do_repeat n_channels bits (some (suc n)) buffer s = take_buffer n_channels bits (suc n) buffer s
