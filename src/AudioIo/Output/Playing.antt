-- ===== src/AudioIo/Output/Playing.antt =====
-- What an AudioOutput plays.
use ryulib_cpp.Common.{
  ℕ, zero, suc, ◌≤◌, ◌<◌, ◌≡◌, refl, sym, ap, subst, ◌-◌, ◌∙◌, false, Option, none, some, List, [],
  ◌∷◌, ◌++◌, length, drop, arith, ◌>>=◌,
}
use ryulib_cpp.Common.Blocks.{memcpy, memcpy-whole, memcpy-none, splice}
use ryulib_cpp.ThreadQueue
use ryulib_cpp.AudioIo.{Floats, apply_volume, opened, closed}
use ryulib_cpp.AudioIo.Volume.{apply_volume-same}
use ryulib_cpp.AudioIo.Output.{
  AudioOutput, play, skip, skip_loop, play_memory, play_callback, close_stream, close_output,
}

skip_loop-drop : (n : ℕ) (q : List (List ℕ)) → skip_loop n q ≡ drop n q
unfolding skip_loop
skip_loop-drop zero q = refl
skip_loop-drop (suc n) [] = refl
skip_loop-drop (suc n) (memory ∷ q) = skip_loop-drop n q

-- What happens to an output whose volume is left at 1: its client plays or skips, or the callback
-- asks for a block.
pub data Call : Type 0 where
  plays : List ℕ → Call
  skips : ℕ → Call
  calls_back : Call

-- The blocks that a history puts out, each written over `output`.
pub run : Floats → List ℕ → AudioOutput → List Call → Option (List (List ℕ) × AudioOutput)
run f output o [] = some ([], o)
run f output o (plays block ∷ calls) = run f output (play o block) calls
run f output o (skips n ∷ calls) = run f output (skip o n) calls
run f output o (calls_back ∷ calls) = play_callback f o output >>= λ (block, o).
    run f output o calls >>= λ (blocks, o). some (block ∷ blocks, o)

-- The same history on a queue of blocks: a block is put out, or `mute` where there is none.
abbrev pub put_out : List ℕ → List ℕ → List (List ℕ) → List Call → List (List ℕ) × List (List ℕ)
put_out mute output q [] = ([], q)
put_out mute output q (plays block ∷ calls) = put_out mute output (q ++ block ∷ []) calls
put_out mute output q (skips n ∷ calls) = put_out mute output (drop n q) calls
put_out mute output [] (calls_back ∷ calls) =
    let later = put_out mute output [] calls in (splice output 0 mute ∷ later.0, later.1)
put_out mute output (block ∷ q) (calls_back ∷ calls) =
    let later = put_out mute output q calls in (splice output 0 block ∷ later.0, later.1)

abbrev pub AllWithin : ℕ → List (List ℕ) → Type 0
AllWithin n [] = Unit {0}
AllWithin n (block ∷ q) = (length block ≤ n) × AllWithin n q

abbrev pub CallsWithin : ℕ → List Call → Type 0
CallsWithin n [] = Unit {0}
CallsWithin n (plays block ∷ calls) = (length block ≤ n) × CallsWithin n calls
CallsWithin n (call ∷ calls) = CallsWithin n calls

within-append :
    (n : ℕ) (q : List (List ℕ)) (block : List ℕ)
    → AllWithin n q
    → length block ≤ n
    → AllWithin n (q ++ block ∷ [])
within-append n [] block a h = (h, tt)
within-append n (x ∷ q) block (a, rest) h = (a, within-append n q block rest h)

within-drop : (n m : ℕ) (q : List (List ℕ)) → AllWithin n q → AllWithin n (drop m q)
within-drop n zero q a = a
within-drop n (suc m) [] a = a
within-drop n (suc m) (x ∷ q) (a, rest) = within-drop n m q rest

play_memory-mute :
    (f : Floats) (o : AudioOutput) (output output' : List ℕ) (q : List (List ℕ))
    → memcpy output 0 o.mute 0 o.buffer_size ≡ some output'
    → play_memory f o output (none, q) ≡ some (output', record o { queue = q })
unfolding play_memory
play_memory-mute f o output output' q e = rw e

play_memory-next :
    (f : Floats) (o : AudioOutput) (output memory output' : List ℕ) (q : List (List ℕ))
    → memcpy output 0 memory 0 (length memory) ≡ some output'
    → apply_volume f o.volume o.fpb output' ≡ some output'
    → play_memory f o output (some memory, q) ≡ some (output', record o { queue = q })
unfolding play_memory
play_memory-next f o output memory output' q e v = rw (e, v)

callback_mute :
    (f : Floats) (o : AudioOutput) (output : List ℕ)
    → o.queue ≡ []
    → o.buffer_size ≡ length o.mute
    → length o.mute ≤ length output
    → play_callback f o output ≡ some (splice output 0 o.mute, record o { queue = [] })
unfolding play_callback ThreadQueue.pop
callback_mute f o output e b h =
    ap (λ q. play_memory f o output (ThreadQueue.pop q)) e
    ∙ play_memory-mute f o output (splice output 0 o.mute) []
        (ap (memcpy output 0 o.mute 0) b ∙ memcpy-whole output o.mute 0 (omega arith))

callback_block :
    (f : Floats) (o : AudioOutput) (output block : List ℕ) (q : List (List ℕ))
    → o.queue ≡ block ∷ q
    → f.is_changed o.volume ≡ false
    → length block ≤ length output
    → play_callback f o output ≡ some (splice output 0 block, record o { queue = q })
unfolding play_callback ThreadQueue.pop
callback_block f o output block q e v h =
    ap (λ q. play_memory f o output (ThreadQueue.pop q)) e
    ∙ play_memory-next f o output block (splice output 0 block) q
        (memcpy-whole output block 0 (omega arith))
        (apply_volume-same f o.volume o.fpb (splice output 0 block) v)

pub play_callback_overflows :
    (f : Floats) (o : AudioOutput) (output block : List ℕ) (q : List (List ℕ))
    → o.queue ≡ block ∷ q
    → length output < length block
    → play_callback f o output ≡ none
unfolding play_callback play_memory ThreadQueue.pop
play_callback_overflows f o output block q e h =
    ap (λ q. play_memory f o output (ThreadQueue.pop q)) e
    ∙ rw (memcpy-none output block 0 0 (length block) (omega arith))

-- An output whose blocks fit what the callback fills, with its volume at 1.
pub record IsFit (f : Floats) (n : ℕ) (o : AudioOutput) : Type 0 where
  pub volume : f.is_changed o.volume ≡ false
  pub mute_size : o.buffer_size ≡ length o.mute
  pub mute : length o.mute ≤ n
  pub queue : AllWithin n o.queue

with_queue-IsFit :
    (f : Floats) (n : ℕ) (o : AudioOutput) (q : List (List ℕ))
    → IsFit f n o
    → AllWithin n q
    → IsFit f n (record o { queue = q })
with_queue-IsFit f n o q fit a = record {
  volume = fit.volume;
  mute_size = fit.mute_size;
  mute = fit.mute;
  queue = a;
}

run-back :
    (f : Floats) (output block : List ℕ) (o o₁ o₂ : AudioOutput) (calls : List Call)
    (blocks : List (List ℕ))
    → play_callback f o output ≡ some (block, o₁)
    → run f output o₁ calls ≡ some (blocks, o₂)
    → run f output o (calls_back ∷ calls) ≡ some (block ∷ blocks, o₂)
unfolding run
run-back f output block o o₁ o₂ calls blocks e r = rw (e, r)

-- The result of a history, from what the queue of blocks gives.
abbrev Puts : Floats → List ℕ → AudioOutput → List Call → List (List ℕ) × List (List ℕ) → Type 0
Puts f output o calls expected =
    (o' : AudioOutput) × (run f output o calls ≡ some (expected.0, o')) × (o'.queue ≡ expected.1)

run-queue :
    (f : Floats) (output : List ℕ) (o : AudioOutput) (q : List (List ℕ)) (calls : List Call)
    → o.queue ≡ q
    → IsFit f (length output) o
    → CallsWithin (length output) calls
    → Puts f output o calls (put_out o.mute output q calls)
unfolding run play skip ThreadQueue.push
run-queue f output o q [] e fit c = (o, refl, e)
run-queue f output o q (plays block ∷ calls) e fit (h, c) =
    run-queue f output (play o block) (q ++ block ∷ []) calls (ap (λ q. q ++ block ∷ []) e)
      (with_queue-IsFit f (length output) o (o.queue ++ block ∷ []) fit
        (within-append (length output) o.queue block fit.queue h))
      c
run-queue f output o q (skips n ∷ calls) e fit c =
    let skipped = skip_loop-drop n o.queue in
    run-queue f output (skip o n) (drop n q) calls (skipped ∙ ap (drop n) e)
      (with_queue-IsFit f (length output) o (skip_loop n o.queue) fit (
        subst (AllWithin (length output)) (sym skipped)
          (within-drop (length output) n o.queue fit.queue)))
      c
run-queue f output o [] (calls_back ∷ calls) e fit c =
    let o₁ = record o { queue = [] } in
    let (o₂, er, eq) =
      run-queue f output o₁ [] calls refl (with_queue-IsFit f (length output) o [] fit tt) c in
    (
      o₂,
      run-back f output (splice output 0 o.mute) o o₁ o₂ calls _
          (callback_mute f o output e fit.mute_size fit.mute) er,
      eq,
    )
run-queue f output o (block ∷ q) (calls_back ∷ calls) e fit c =
    let (h, rest) = subst (AllWithin (length output)) e fit.queue in
    let o₁ = record o { queue = q } in
    let (o₂, er, eq) =
      run-queue f output o₁ q calls refl (with_queue-IsFit f (length output) o q fit rest) c in
    (
      o₂,
      run-back f output (splice output 0 block) o o₁ o₂ calls _
          (callback_block f o output block q e fit.volume h) er,
      eq,
    )

-- With the volume at 1, and packets and a silence that fit the buffer that the callback fills, any
-- history of plays, skips and callbacks runs without a fault and puts out what one queue of packets
-- puts out: each packet once, in order, or silence where there is none.
pub run-put_out :
    (f : Floats) (output : List ℕ) (o : AudioOutput) (calls : List Call)
    → IsFit f (length output) o
    → CallsWithin (length output) calls
    → (o' : AudioOutput) × (run f output o calls
        ≡ some ((put_out o.mute output o.queue calls).0, o'))
      × (o'.queue ≡ (put_out o.mute output o.queue calls).1)
run-put_out f output o calls fit c = run-queue f output o o.queue calls refl fit c

pub close_output_twice :
    (o : AudioOutput)
    → o.stream ≡ opened
    → (o' : AudioOutput) × (close_output o ≡ some o')
      × (o'.streams ≡ o.streams - 1)
      × (close_output o' ≡ none)
unfolding close_output close_stream
close_output_twice o e = (record o { stream = closed; streams = o.streams - 1 }, rw e, refl, refl)
