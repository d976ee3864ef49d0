-- ===== src/FfPlayer/Files.antt =====
-- What a player does at the end of its file.
use ryulib_cpp.Common.{
  ◌≡◌, refl, ap, ◌∙◌, true, false, Option, none, some, [], ◌∷◌, ◌++◌, if-true, if-false, if-both,
}
use ryulib_cpp.FfMedia.{Packet, close_stream, read_packet}
use ryulib_cpp.FfAudio
use ryulib_cpp.FfAudio.{FfAudio}
use ryulib_cpp.FfVideo
use ryulib_cpp.FfVideo.{FfVideo}
use ryulib_cpp.FfPlayer.{FfPlayer, reached_end, do_close, read_on, on_repeat, repeats, act}

-- A player that is stopped, with its file closed, and no picture waiting.
pub record IsClosed (p : FfPlayer) : Type 0 where
  pub started : p.started ≡ false
  pub media : p.media.context ≡ false
  pub audio : p.audio.context ≡ false
  pub video : p.video.context ≡ false
  pub pictures : p.video.queue ≡ []

do_close-IsClosed : (p : FfPlayer) → IsClosed (do_close p)
unfolding do_close close_stream FfAudio.close_audio FfVideo.close_video
do_close-IsClosed p = record {
  started = refl;
  media = refl;
  audio = refl;
  video = refl;
  pictures = refl;
}

do_close-log : (p : FfPlayer) → ((do_close p).log ≡ p.log) × ((do_close p).on_eof ≡ p.on_eof)
unfolding do_close
do_close-log p = (refl, refl)

read_on-end :
    (p : FfPlayer)
    → p.on_eof ≡ true
    → IsClosed (read_on none p) × ((read_on none p).log ≡ p.log ++ reached_end ∷ [])
unfolding read_on
read_on-end p h =
    let c = do_close-IsClosed p in
    let (l, e) = do_close-log p in
    (
      record {
        started = c.started;
        media = c.media;
        audio = c.audio;
        video = c.video;
        pictures = c.pictures;
      },
      if-true _ _ h ∙ ap (λ log. log ++ reached_end ∷ []) l,
    )

idle_repeat :
    (p : FfPlayer) (answer : Option Packet) → p.started ≡ false → act p (repeats answer) ≡ some p
unfolding act
idle_repeat p answer h = ap some (if-false _ _ h)

-- A started player whose sound has run low and that gets no packet closes its file, both codecs and
-- the queue of pictures, stops, and tells its client once: a further repeat changes nothing.
pub end_of_file :
    (p : FfPlayer) (later : Option Packet)
    → p.started ≡ true
    → FfAudio.is_empty p.audio ≡ true
    → p.on_eof ≡ true
    → (p' : FfPlayer) × (act p (repeats none) ≡ some p')
      × IsClosed p'
      × (p'.log ≡ p.log ++ reached_end ∷ [])
      × (act p' (repeats later) ≡ some p')
unfolding act on_repeat read_packet
end_of_file p later s e h =
    let (c, l) = read_on-end p h in
    (
      read_on none p,
      ap some (
          if-true _ _ s
          ∙ if-true _ _ e
          ∙ ap (λ o. read_on o p)
              (if-both (λ (o : Option Packet). o ≡ none) p.media.context none none refl refl)),
      c,
      l,
      idle_repeat (read_on none p) later c.started,
    )
