-- ===== src/AudioIo.antt =====
-- include/ryulib/AudioIO.hpp: what the input and the output of sound share. PortAudio and the
-- arithmetic of `float` are parameters.
pub mod Input
pub mod Output
pub mod Volume
mod Tests
use ryulib_cpp.Common.{
  ℕ, zero, suc, ◌+◌, ◌*◌, Bool, true, false, Option, none, some, List, [], ◌∷◌, ◌++◌, if◌then◌else◌,
  ◌>>=◌,
}
use ryulib_cpp.Common.Blocks.{read_at, write_at}
use ryulib_cpp.Common.Int.{ℤ, pos, negsuc}

abbrev pub error_no_default_input_device : ℤ
error_no_default_input_device = negsuc 0

abbrev pub error_open_input_device : ℤ
error_open_input_device = negsuc 1

abbrev pub error_start_input_device : ℤ
error_start_input_device = negsuc 2

abbrev pub error_no_default_output_device : ℤ
error_no_default_output_device = negsuc 3

abbrev pub error_open_output_device : ℤ
error_open_output_device = negsuc 4

abbrev pub error_start_output_device : ℤ
error_start_output_device = negsuc 5

-- `Audio::init` on `is_audio_inited`, with the answer of `Pa_Initialize`.
pub init : Bool → Bool → Bool × Bool
init is_audio_inited ok =
    if is_audio_inited then (true, true) else (if ok then (true, true) else (false, false))

-- A pointer to a stream: as the memory was, null, open, or to a stream that was closed.
pub data Stream : Type 0 where
  unset null opened closed : Stream

-- What PortAudio answers: its default device, whether it knows the device, and whether the stream
-- opens and starts.
pub record PaAnswers : Type 0 where
  pub default_device : Option ℕ
  pub info : Bool
  pub opens : Bool
  pub starts : Bool

-- A `device_id` of -1 is `none`, as is paNoDevice in the result; the other ids are not negative.
pub chosen_device : PaAnswers → Option ℕ → Option ℕ
chosen_device a none = a.default_device
chosen_device a (some device) = some device

-- The arithmetic of `float`: whether a volume is not 1, within 0.0001, and the four bytes of a sample
-- times it.
pub record Floats : Type 0 where
  pub is_changed : ℕ → Bool
  pub multiply : ℕ → List ℕ → List ℕ

-- The loop over `n` samples of four bytes from `at` on.
pub scale_samples : Floats → ℕ → ℕ → ℕ → List ℕ → Option (List ℕ)
scale_samples f volume zero at block = some block
scale_samples f volume (suc n) at block = read_at block at 4 >>= λ sample.
    write_at block at (f.multiply volume sample) >>= λ block.
    scale_samples f volume n (at + 4) block

-- Both callbacks scale `fpb` samples where the volume is changed.
pub apply_volume : Floats → ℕ → ℕ → List ℕ → Option (List ℕ)
unfolding scale_samples
apply_volume f volume fpb block =
    let scaled = scale_samples f volume fpb 0 block in
    if f.is_changed volume then scaled else some block
