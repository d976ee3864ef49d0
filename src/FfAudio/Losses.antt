-- ===== src/FfAudio/Losses.antt =====
-- When an FFAudio loses no packet.
use ryulib_cpp.Common.{
  ℕ, ◌≡◌, refl, ap, Bool, true, false, Option, none, some, List, [], ◌∷◌, ◌>>=◌, if-both, if-true,
  Holds,
}
use ryulib_cpp.AudioSdl.{AudioSdl}
use ryulib_cpp.FfMedia.{
  Packet, MediaType, is_audio, find_stream, CodecAnswers, no_more, send_result,
}
use ryulib_cpp.FfAudio.{
  last_pts_after, FfAudio, DeviceAnswers, open_device, open_codec, open_index, open_audio, write,
  play_frames, free_after, decode_and_play, on_task, work_on, work,
}

-- An open that succeeds leaves a codec, and none loses a packet.
abbrev pub Opened : FfAudio → Bool × FfAudio → Type 0
Opened a r = (r.0 ≡ true → r.1.context ≡ true) × (r.1.lost ≡ a.lost)

false_opened : (a : FfAudio) → (false ≡ true → a.context ≡ true)
false_opened a e = absurd (cc)

open_codec-Opened :
    (c : CodecAnswers) (d : DeviceAnswers) (a : FfAudio) → Opened a (open_codec c d a)
unfolding open_codec open_device
open_codec-Opened c d a =
    if-both (Opened a) c.found _ _
      (if-both (Opened a) c.has_parameters _ _
        (if-both (Opened a) c.opens _ _ ((λ e. refl), refl) ((λ e. refl), refl))
        ((λ e. refl), refl))
      (false_opened a, refl)

open_index-Opened :
    (i : Option ℕ) (c : CodecAnswers) (d : DeviceAnswers) (a : FfAudio)
    → Opened a (open_index i c d a)
unfolding open_index
open_index-Opened none c d a = (false_opened a, refl)
open_index-Opened (some i) c d a = open_codec-Opened c d (record a { stream_index = some i })

pub open_audio-Opened :
    (types : List MediaType) (c : CodecAnswers) (d : DeviceAnswers) (a : FfAudio)
    → Opened a (open_audio types c d a)
unfolding open_audio
open_audio-Opened types c d a = open_index-Opened (find_stream is_audio types 0) c d a

pub write-lost : (p : Packet) (a : FfAudio) → a.context ≡ true → (write p a).lost ≡ a.lost
unfolding write
write-lost p a h = ap (λ (b : FfAudio). b.lost) (if-true _ _ h)

pub write-context : (p : Packet) (a : FfAudio) → (write p a).context ≡ a.context
unfolding write
write-context p a = if-both (λ (b : FfAudio). b.context ≡ a.context) a.context _ _ refl refl

-- What a task without an error keeps.
abbrev Calm : FfAudio → FfAudio → Type 0
Calm a b = (b.lost ≡ a.lost) × (b.context ≡ a.context)

played-Calm :
    (frames : List (List ℕ)) (p : Packet) (a : FfAudio) (o : Option AudioSdl)
    → Holds (Calm a) (
        o >>= λ audio. some (
          free_after no_more
            (record a { audio = audio; last_pts = last_pts_after frames p a.last_pts })))
unfolding free_after
played-Calm frames p a none = tt
played-Calm frames p a (some audio) = (refl, refl)

on_task-Calm :
    (sent : Bool) (frames : List (List ℕ)) (p : Packet) (a : FfAudio)
    → Holds (Calm a) (on_task sent frames no_more p a)
unfolding on_task decode_and_play send_result
on_task-Calm true frames p a =
    if-both (Holds (Calm a)) a.context _ _ (played-Calm frames p a (play_frames frames a.audio))
      (refl, refl)
on_task-Calm false frames p a =
    if-both (Holds (Calm a)) a.context _ _ (played-Calm frames p a (play_frames frames a.audio))
      (refl, refl)

work_on-Calm :
    (q : List Packet) (sent : Bool) (frames : List (List ℕ)) (a : FfAudio)
    → Holds (Calm a) (work_on q sent frames no_more a)
unfolding work_on
work_on-Calm [] sent frames a = (refl, refl)
work_on-Calm (p ∷ q) sent frames a = on_task-Calm sent frames p (record a { queue = q })

pub work-Calm :
    (sent : Bool) (frames : List (List ℕ)) (a : FfAudio)
    → Holds (λ b. (b.lost ≡ a.lost) × (b.context ≡ a.context)) (work sent frames no_more a)
unfolding work
work-Calm sent frames a = work_on-Calm a.queue sent frames a
