-- ===== src/AudioIo/Input/Callback.antt =====
-- What recordCallback hands to its client.
use ryulib_cpp.Common.{
  ℕ, ◌*◌, ◌<◌, ◌≡◌, true, none, some, List, [], ◌∷◌, ◌++◌, length, flatten, map,
}
use ryulib_cpp.AudioIo.{Floats, apply_volume}
use ryulib_cpp.AudioIo.Volume.{GivesFour, AllFour, apply_volume-map, apply_volume-none}
use ryulib_cpp.AudioIo.Input.{AudioInput, record_callback}

record_callback-some :
    (f : Floats) (i : AudioInput) (block block' : List ℕ)
    → apply_volume f i.volume i.fpb block ≡ some block'
    → i.on_data ≡ true
    → record_callback f i block
      ≡ some (block', record i { data_log = i.data_log ++ (block', i.buffer_size) ∷ [] })
unfolding record_callback
record_callback-some f i block block' e h = rw (e, h)

-- With a volume other than 1, samples of four bytes and as many of them as fpb_, recordCallback
-- hands its client the block with each sample multiplied by the volume, and the bytes behind them
-- unchanged.
pub record_callback-map :
    (f : Floats) (i : AudioInput) (samples : List (List ℕ)) (rest : List ℕ)
    → GivesFour f i.volume
    → AllFour samples
    → f.is_changed i.volume ≡ true
    → i.on_data ≡ true
    → i.fpb ≡ length samples
    → let block = flatten (map (f.multiply i.volume) samples) ++ rest in
      record_callback f i (flatten samples ++ rest)
      ≡ some (block, record i { data_log = i.data_log ++ (block, i.buffer_size) ∷ [] })
record_callback-map f i samples rest g four changed handled frames =
    record_callback-some f i (flatten samples ++ rest)
      (flatten (map (f.multiply i.volume) samples) ++ rest)
      (apply_volume-map f i.volume i.fpb samples rest g four changed frames) handled

-- With a volume other than 1 and a block of fewer than 4 * fpb_ bytes, as one channel of 16 bits
-- gives, recordCallback reads and writes past the end of the block.
pub record_callback_overflows :
    (f : Floats) (i : AudioInput) (block : List ℕ)
    → GivesFour f i.volume
    → f.is_changed i.volume ≡ true
    → length block < 4 * i.fpb
    → record_callback f i block ≡ none
unfolding record_callback
record_callback_overflows f i block g changed short =
    rw (apply_volume-none f i.volume i.fpb block g changed short)
