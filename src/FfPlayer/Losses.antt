-- ===== src/FfPlayer/Losses.antt =====
-- When a player loses no packet.
use ryulib_cpp.Common.{
  ℕ, ◌+◌, ◌≡◌, refl, sym, subst, ◌∙◌, Bool, true, false, Option, none, some, List, [], ◌∷◌, ◌>>=◌,
  if-both, if-true, if-false, Bool-cases, inl, inr, Holds, bind-Holds, some-Holds,
}
use ryulib_cpp.FfMedia.{
  Packet, FfStream, no_more, receive_error, open_stream, close_stream, read_packet, move_stream,
}
use ryulib_cpp.FfAudio
use ryulib_cpp.FfAudio.{FfAudio}
use ryulib_cpp.FfVideo
use ryulib_cpp.FfVideo.{FfVideo}
use ryulib_cpp.FfPlayer.{
  FfPlayer, OpenAnswers, open_pictures, open_codecs, open_file, do_close, Task, opens, closes,
  plays, pauses, moves, on_task, is_index, route, read_on, on_repeat, Action, tasks, repeats, works,
  turns, act, run,
}

-- Nothing is lost, and a stream is open only with both codecs.
pub record IsSound (p : FfPlayer) : Type 0 where
  pub audio : p.audio.lost ≡ 0
  pub video : p.video.lost ≡ 0
  pub codecs : p.media.context ≡ true → (p.audio.context ≡ true) × (p.video.context ≡ true)

-- What FFmpeg does without an error: the information on the streams of a file that opens is found,
-- and each packet is decoded to its end.
abbrev pub IsFine : Action → Type 0
IsFine (tasks (opens a)) = a.has_info ≡ true
IsFine (tasks t) = Unit {0}
IsFine (repeats answer) = Unit {0}
IsFine (works sent frames last) = last ≡ no_more
IsFine (turns answers) = (p : Packet) → (answers p).last ≡ no_more

abbrev pub AllFine : List Action → Type 0
AllFine [] = Unit {0}
AllFine (a ∷ acts) = IsFine a × AllFine acts

closed_codecs :
    (p : FfPlayer) → (false ≡ true → (p.audio.context ≡ true) × (p.video.context ≡ true))
closed_codecs p e = absurd (cc)

open_pictures-IsSound :
    (ok : Bool) (video : FfVideo) (p : FfPlayer)
    → p.audio.lost ≡ 0
    → p.audio.context ≡ true
    → (ok ≡ true → video.context ≡ true)
    → video.lost ≡ 0
    → IsSound (open_pictures (ok, video) p)
unfolding open_pictures FfAudio.close_audio close_stream
open_pictures-IsSound true video p a c f l = record {
  audio = a;
  video = l;
  codecs = λ e. (c, f refl);
}
open_pictures-IsSound false video p a c f l = record {
  audio = a;
  video = l;
  codecs = λ e. absurd (cc);
}

open_codecs-IsSound :
    (a : OpenAnswers) (ok : Bool) (audio : FfAudio) (p : FfPlayer)
    → p.video.lost ≡ 0
    → (ok ≡ true → audio.context ≡ true)
    → audio.lost ≡ 0
    → IsSound (open_codecs a (ok, audio) p)
unfolding open_codecs close_stream
open_codecs-IsSound a true audio p v f l =
    let video = FfVideo.open_video a.types a.video_codec p.video in
    let (g, m) = FfVideo.Losses.open_video-Opened a.types a.video_codec p.video in
    open_pictures-IsSound video.0 video.1 (record p { audio = audio }) l (f refl) g (m ∙ v)
open_codecs-IsSound a false audio p v f l = record {
  audio = l;
  video = v;
  codecs = λ e. absurd (cc);
}

open_file-IsSound :
    (a : OpenAnswers) (p : FfPlayer) (opening : Bool)
    → a.opens ≡ opening
    → a.has_info ≡ true
    → IsSound p
    → IsSound (open_file a (open_stream opening true) p)
unfolding open_file open_stream
open_file-IsSound a p true e h s =
    let audio = FfAudio.open_audio a.types a.audio_codec a.device p.audio in
    let (f, l) = FfAudio.Losses.open_audio-Opened a.types a.audio_codec a.device p.audio in
    open_codecs-IsSound a audio.0 audio.1 (record p { media = record { context = true } }) s.video f
      (l ∙ s.audio)
open_file-IsSound a p false e h s = record {
  audio = s.audio;
  video = s.video;
  codecs = λ e. absurd (cc);
}

do_close-IsSound : (p : FfPlayer) → IsSound p → IsSound (do_close p)
unfolding do_close FfAudio.close_audio FfVideo.close_video close_stream
do_close-IsSound p s = record { audio = s.audio; video = s.video; codecs = λ e. absurd (cc) }

on_task-IsSound :
    (t : Task) (p : FfPlayer) → IsFine (tasks t) → IsSound p → Holds IsSound (on_task t p)
unfolding on_task move_stream
on_task-IsSound (opens a) p h s =
    subst (λ b. IsSound (open_file a (open_stream a.opens b) p)) (sym h)
      (open_file-IsSound a p a.opens refl h s)
on_task-IsSound closes p h s = do_close-IsSound p s
on_task-IsSound plays p h s = record { audio = s.audio; video = s.video; codecs = s.codecs }
on_task-IsSound pauses p h s = record { audio = s.audio; video = s.video; codecs = s.codecs }
on_task-IsSound moves p h s =
    if-both
      (λ (o : Option FfStream). Holds IsSound (o >>= λ media. some (record p { media = media })))
      p.media.context _ _ (record { audio = s.audio; video = s.video; codecs = s.codecs }) tt

route-IsSound :
    (k : Packet) (p : FfPlayer) → p.media.context ≡ true → IsSound p → IsSound (route k p)
unfolding route
route-IsSound k p m s =
    let (a, v) = s.codecs m in
    let pts = FfAudio.get_pts (FfAudio.write k p.audio) in
    let (sl, sc) = FfVideo.Losses.audio_sync-Calm pts p.video in
    if-both IsSound (is_index k.stream_index p.audio.stream_index) _ _
      (record {
        audio = FfAudio.Losses.write-lost k p.audio a ∙ s.audio;
        video = sl ∙ s.video;
        codecs = λ e. (FfAudio.Losses.write-context k p.audio ∙ a, sc ∙ v);
      })
      (if-both IsSound (is_index k.stream_index p.video.stream_index) _ _
        (record {
          audio = s.audio;
          video = FfVideo.Losses.write-lost k p.video v ∙ s.video;
          codecs = λ e. (a, FfVideo.Losses.write-context k p.video ∙ v);
        })
        (record { audio = s.audio; video = s.video; codecs = s.codecs }))

end-IsSound : (p : FfPlayer) → IsSound p → IsSound (read_on none p)
unfolding read_on
end-IsSound p s =
    let closed = do_close-IsSound p s in
    record { audio = closed.audio; video = closed.video; codecs = closed.codecs }

open-IsSound :
    (o : Option Packet) (p : FfPlayer) → p.media.context ≡ true → IsSound p → IsSound (read_on o p)
unfolding read_on
open-IsSound none p m s = end-IsSound p s
open-IsSound (some k) p m s =
    route-IsSound k (record p { read_count = p.read_count + 1 }) m
      (record { audio = s.audio; video = s.video; codecs = s.codecs })

-- Only an open stream gives a packet.
read_on-IsSound :
    (o : Option Packet) (p : FfPlayer) → IsSound p → IsSound (read_on (read_packet o p.media) p)
unfolding read_packet
read_on-IsSound o p s = elim (Bool-cases p.media.context) [
  | inl e ↦ subst (λ r. IsSound (read_on r p)) (sym (if-true _ _ e)) (open-IsSound o p e s)
  | inr e ↦ subst (λ r. IsSound (read_on r p)) (sym (if-false _ _ e)) (end-IsSound p s)
]

work-IsSound :
    (p : FfPlayer) (sent : Bool) (frames : List (List ℕ))
    → IsSound p
    → Holds IsSound
        (FfAudio.work sent frames no_more p.audio >>= λ audio. some (record p { audio = audio }))
work-IsSound p sent frames s =
    bind-Holds _ IsSound (FfAudio.work sent frames no_more p.audio) _
      (FfAudio.Losses.work-Calm sent frames p.audio)
      (λ audio (l, c). record {
        audio = l ∙ s.audio;
        video = s.video;
        codecs = λ e. (c ∙ (s.codecs e).0, (s.codecs e).1);
      })

act-IsSound : (p : FfPlayer) (a : Action) → IsFine a → IsSound p → Holds IsSound (act p a)
unfolding act on_repeat
act-IsSound p (tasks t) h s = on_task-IsSound t p h s
act-IsSound p (repeats answer) h s =
    if-both IsSound p.started _ _
      (if-both IsSound (FfAudio.is_empty p.audio) _ _ (read_on-IsSound answer p s) s) s
act-IsSound p (works sent frames no_more) h s = work-IsSound p sent frames s
act-IsSound p (works sent frames receive_error) h s = absurd (cc)
act-IsSound p (turns answers) h s =
    bind-Holds _ IsSound (FfVideo.turn answers p.video) _
      (FfVideo.Losses.turn-Calm answers p.video h)
      (λ video (l, c). record {
        audio = s.audio;
        video = l ∙ s.video;
        codecs = λ e. ((s.codecs e).0, c ∙ (s.codecs e).1);
      })

run-Holds :
    (acts : List Action) (p : FfPlayer) → AllFine acts → IsSound p → Holds IsSound (run p acts)
unfolding run
run-Holds [] p f s = s
run-Holds (a ∷ acts) p (f, fs) s =
    bind-Holds IsSound IsSound (act p a) _ (act-IsSound p a f s) (λ p' s'. run-Holds acts p' fs s')

-- A player that has lost no packet, and whose stream is open only with both codecs, is so after any
-- tasks, repeats, decodings and turns that run to their end, if FFmpeg finds the information of
-- each file that it opens and decodes each packet to its end.
pub run-IsSound :
    (acts : List Action) (p p' : FfPlayer)
    → AllFine acts
    → IsSound p
    → run p acts ≡ some p'
    → IsSound p'
run-IsSound acts p p' f s e = some-Holds IsSound (run p acts) p' (run-Holds acts p f s) e
