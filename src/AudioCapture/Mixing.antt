-- ===== src/AudioCapture/Mixing.antt =====
-- What on_data hands to its client.
use ryulib_cpp.Common.{
  ℕ, suc, ◌+◌, ◌/◌, ◌≡◌, refl, sym, ap, ◌∙◌, true, some, List, [], ◌∷◌, ◌++◌, append_assoc, length,
  length-append, arith, if◌then◌else◌,
}
use ryulib_cpp.Common.Blocks.{read_at, write_at, read_at-middle, write_at-middle}
use ryulib_cpp.SystemAudioCapture
use ryulib_cpp.AudioCapture.{Mix, AudioCapture, mix_samples, chosen_system, on_data}

-- As many samples of four bytes of the microphone, of the system, and of the block that is filled.
abbrev pub Triple : Type 0
Triple = List ℕ × List ℕ × List ℕ

abbrev pub AllFour : List Triple → Type 0
AllFour [] = Unit {0}
AllFour ((m, s, d) ∷ ts) = (length m ≡ 4) × (length s ≡ 4) × (length d ≡ 4) × AllFour ts

abbrev pub mics : List Triple → List ℕ
mics [] = []
mics ((m, s, d) ∷ ts) = m ++ mics ts

abbrev pub systems : List Triple → List ℕ
systems [] = []
systems ((m, s, d) ∷ ts) = s ++ systems ts

abbrev pub olds : List Triple → List ℕ
olds [] = []
olds ((m, s, d) ∷ ts) = d ++ olds ts

abbrev pub mixes : Mix → ℕ → ℕ → List Triple → List ℕ
mixes mix vm vs [] = []
mixes mix vm vs ((m, s, d) ∷ ts) = mix vm m vs s ++ mixes mix vm vs ts

abbrev pub MixesFour : Mix → ℕ → ℕ → Type 0
MixesFour mix vm vs = (m s : List ℕ) → length (mix vm m vs s) ≡ 4

mix_samples-next :
    (mix : Mix) (vm vs n at : ℕ) (mic system dst m s dst' : List ℕ)
    → read_at mic at 4 ≡ some m
    → read_at system at 4 ≡ some s
    → write_at dst at (mix vm m vs s) ≡ some dst'
    → mix_samples mix vm vs (suc n) at mic system dst
      ≡ mix_samples mix vm vs n (at + 4) mic system dst'
unfolding mix_samples
mix_samples-next mix vm vs n at mic system dst m s dst' em es ed = rw (em, es, ed)

-- A block `b`, and `xs` and `ys` behind it, taken apart behind `xs`.
apart : (b xs ys zs : List ℕ) → b ++ (xs ++ ys) ++ zs ≡ b ++ xs ++ (ys ++ zs)
apart b xs ys zs = ap (λ l. l ++ zs) (sym (append_assoc b xs ys)) ∙ append_assoc (b ++ xs) ys zs

read_four :
    (b xs ys zs : List ℕ) (at : ℕ)
    → length b ≡ at
    → length xs ≡ 4
    → read_at (b ++ (xs ++ ys) ++ zs) at 4 ≡ some xs
read_four b xs ys zs at hb hx =
    ap (λ l. read_at l at 4) (apart b xs ys zs)
    ∙ ap (λ n. read_at (b ++ xs ++ (ys ++ zs)) n 4) (sym hb)
    ∙ ap (read_at (b ++ xs ++ (ys ++ zs)) (length b)) (sym hx)
    ∙ read_at-middle b xs (ys ++ zs)

write_four :
    (b xs ys zs new : List ℕ) (at : ℕ)
    → length b ≡ at
    → length new ≡ length xs
    → write_at (b ++ (xs ++ ys) ++ zs) at new ≡ some ((b ++ new) ++ ys ++ zs)
write_four b xs ys zs new at hb hx =
    ap (λ l. write_at l at new) (apart b xs ys zs)
    ∙ ap (λ n. write_at (b ++ xs ++ (ys ++ zs)) n new) (sym hb)
    ∙ write_at-middle b xs (ys ++ zs) new hx
    ∙ ap some (sym (append_assoc (b ++ new) ys zs))

mix_samples-mixes :
    (mix : Mix) (vm vs at : ℕ) (ts : List Triple) (mb sb db mr sr dr : List ℕ)
    → MixesFour mix vm vs
    → AllFour ts
    → length mb ≡ at
    → length sb ≡ at
    → length db ≡ at
    → mix_samples mix vm vs
        (length ts)
        at
        (mb ++ mics ts ++ mr)
        (sb ++ systems ts ++ sr)
        (db ++ olds ts ++ dr)
      ≡ some (db ++ mixes mix vm vs ts ++ dr)
unfolding mix_samples
mix_samples-mixes mix vm vs at [] mb sb db mr sr dr g f hm hs hd = refl
mix_samples-mixes mix vm vs at ((m, s, d) ∷ ts) mb sb db mr sr dr g (fm, fs, fd, f) hm hs hd =
    let new = mix vm m vs s in
    let mic = mb ++ (m ++ mics ts) ++ mr in
    let system = sb ++ (s ++ systems ts) ++ sr in
    let dst = (db ++ new) ++ olds ts ++ dr in
    mix_samples-next mix vm vs (length ts) at mic system (db ++ (d ++ olds ts) ++ dr) m s dst
      (read_four mb m (mics ts) mr at hm fm) (read_four sb s (systems ts) sr at hs fs)
      (write_four db d (olds ts) dr new at hd (g m s ∙ sym fd))
    ∙ ap (λ l. mix_samples mix vm vs (length ts) (at + 4) l system dst)
        (ap (λ l. l ++ mr) (sym (append_assoc mb m (mics ts))))
    ∙ ap (λ l. mix_samples mix vm vs (length ts) (at + 4) ((mb ++ m) ++ mics ts ++ mr) l dst)
        (ap (λ l. l ++ sr) (sym (append_assoc sb s (systems ts))))
    ∙ mix_samples-mixes mix vm vs (at + 4) ts (mb ++ m) (sb ++ s) (db ++ new) mr sr dr g f
        (omega (arith, length-append mb m, fm, hm)) (omega (arith, length-append sb s, fs, hs))
        (omega (arith, length-append db new, g m s, hd))
    ∙ ap (λ l. some (l ++ dr)) (append_assoc db new (mixes mix vm vs ts))

-- The block that is taken for the sound of the system.
abbrev pub system_block : AudioCapture → List ℕ
system_block c =
    chosen_system c.is_system_muted (SystemAudioCapture.get_audio_data c.system_audio).0
      c.silent_audio

on_data-next :
    (mix : Mix) (buffer mixed : List ℕ) (c : AudioCapture)
    → mix_samples mix c.volume_mic c.volume_system
        (length buffer / 4)
        0
        (if c.is_mic_muted then c.silent_audio else buffer)
        (system_block c)
        c.audio_data
      ≡ some mixed
    → c.on_data ≡ true
    → on_data mix buffer c
      ≡ some (record c {
        system_audio = (SystemAudioCapture.get_audio_data c.system_audio).1;
        audio_data = mixed;
        log = c.log ++ mixed ∷ [];
      })
unfolding on_data
on_data-next mix buffer mixed c e h = rw (e, h)

-- Where the microphone or the silence that stands for it, the block of the system or the silence
-- that stands for it, and audio_data_ begin with as many samples of four bytes as the block that
-- was captured has, on_data hands its client a block that begins with their mixes, sample by
-- sample, and ends as audio_data_ did.
pub on_data-mixes :
    (mix : Mix) (buffer mr sr dr : List ℕ) (ts : List Triple) (c : AudioCapture)
    → MixesFour mix c.volume_mic c.volume_system
    → AllFour ts
    → length buffer / 4 ≡ length ts
    → (if c.is_mic_muted then c.silent_audio else buffer) ≡ mics ts ++ mr
    → system_block c ≡ systems ts ++ sr
    → c.audio_data ≡ olds ts ++ dr
    → c.on_data ≡ true
    → let mixed = mixes mix c.volume_mic c.volume_system ts ++ dr in
      on_data mix buffer c
      ≡ some (record c {
        system_audio = (SystemAudioCapture.get_audio_data c.system_audio).1;
        audio_data = mixed;
        log = c.log ++ mixed ∷ [];
      })
on_data-mixes mix buffer mr sr dr ts c g f n em es ed h =
    on_data-next mix buffer (mixes mix c.volume_mic c.volume_system ts ++ dr) c
      (ap
          (λ k.
            mix_samples mix c.volume_mic c.volume_system k 0
              (if c.is_mic_muted then c.silent_audio else buffer) (system_block c) c.audio_data)
          n
        ∙ ap
            (λ l.
              mix_samples mix c.volume_mic c.volume_system (length ts) 0 l (system_block c)
                c.audio_data)
            em
        ∙ ap
            (λ l.
              mix_samples mix c.volume_mic c.volume_system (length ts) 0 (mics ts ++ mr) l
                c.audio_data)
            es
        ∙ ap
            (mix_samples mix c.volume_mic c.volume_system (length ts) 0 (mics ts ++ mr)
              (systems ts ++ sr))
            ed
        ∙ mix_samples-mixes mix c.volume_mic c.volume_system 0 ts [] [] [] mr sr dr g f refl refl
            refl)
      h
