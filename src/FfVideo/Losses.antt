-- ===== src/FfVideo/Losses.antt =====
-- When an FFVideo loses no packet.
use ryulib_cpp.Common.{
  ℕ, ◌≡◌, refl, ap, ◌∙◌, Bool, true, false, Option, none, some, List, [], ◌∷◌, if-both, if-true,
  ◌++◌, Holds, leb,
}
use ryulib_cpp.FfMedia.{
  Packet, MediaType, is_video, find_stream, CodecAnswers, LastReceive, no_more, receive_error,
  send_result,
}
use ryulib_cpp.FfVideo.{
  FfVideo, Decoding, open_codec, open_index, open_video, write, audio_sync, free_after, show_frames,
  decode_and_play, show_due, turn,
}

-- An open that succeeds leaves a codec, and none loses a packet.
abbrev pub Opened : FfVideo → Bool × FfVideo → Type 0
Opened v r = (r.0 ≡ true → r.1.context ≡ true) × (r.1.lost ≡ v.lost)

false_opened : (v : FfVideo) → (false ≡ true → v.context ≡ true)
false_opened v e = absurd (cc)

open_codec-Opened : (c : CodecAnswers) (v : FfVideo) → Opened v (open_codec c v)
unfolding open_codec
open_codec-Opened c v =
    if-both (Opened v) c.found _ _
      (if-both (Opened v) c.has_parameters _ _
        (if-both (Opened v) c.opens _ _ ((λ e. refl), refl) ((λ e. refl), refl))
        ((λ e. refl), refl))
      (false_opened v, refl)

open_index-Opened : (i : Option ℕ) (c : CodecAnswers) (v : FfVideo) → Opened v (open_index i c v)
unfolding open_index
open_index-Opened none c v = (false_opened v, refl)
open_index-Opened (some i) c v = open_codec-Opened c (record v { stream_index = some i })

pub open_video-Opened :
    (types : List MediaType) (c : CodecAnswers) (v : FfVideo) → Opened v (open_video types c v)
unfolding open_video
open_video-Opened types c v = open_index-Opened (find_stream is_video types 0) c v

pub write-lost : (p : Packet) (v : FfVideo) → v.context ≡ true → (write p v).lost ≡ v.lost
unfolding write
write-lost p v h = ap (λ (w : FfVideo). w.lost) (if-true _ _ h)

pub write-context : (p : Packet) (v : FfVideo) → (write p v).context ≡ v.context
unfolding write
write-context p v = if-both (λ (w : FfVideo). w.context ≡ v.context) v.context _ _ refl refl

pub audio_sync-Calm :
    (pts : ℕ) (v : FfVideo)
    → ((audio_sync pts v).lost ≡ v.lost) × ((audio_sync pts v).context ≡ v.context)
unfolding audio_sync
audio_sync-Calm pts v =
    if-both (λ (w : FfVideo). (w.lost ≡ v.lost) × (w.context ≡ v.context)) v.context _ _
      (refl, refl) (refl, refl)

abbrev Calm : FfVideo → FfVideo → Type 0
Calm v w = (w.lost ≡ v.lost) × (w.context ≡ v.context)

show_frames-Calm : (frames : List ℕ) (v : FfVideo) → Calm v (show_frames frames v)
unfolding show_frames
show_frames-Calm [] v = (refl, refl)
show_frames-Calm (pts ∷ frames) v =
    show_frames-Calm frames (record v { last_pts = pts; shown = v.shown ++ pts ∷ [] })

decode_and_play-Calm :
    (sent : Bool) (frames : List ℕ) (last : LastReceive) (p : Packet) (v : FfVideo)
    → last ≡ no_more
    → Calm v (decode_and_play sent frames last p v)
unfolding decode_and_play send_result free_after
decode_and_play-Calm true frames no_more p v e = show_frames-Calm frames v
decode_and_play-Calm false frames no_more p v e = show_frames-Calm frames v
decode_and_play-Calm sent frames receive_error p v e = absurd (cc)

show_due-Calm :
    (answers : Decoding) (q : List Packet) (v : FfVideo)
    → ((p : Packet) → (answers p).last ≡ no_more)
    → Holds (Calm v) (show_due answers q v)
unfolding show_due
show_due-Calm answers [] v h = (refl, refl)
show_due-Calm answers (p ∷ q) v h =
    let d = answers p in
    let next = decode_and_play d.sent d.frames d.last p (record v { queue = q }) in
    let (l, c) = decode_and_play-Calm d.sent d.frames d.last p (record v { queue = q }) (h p) in
    if-both (Holds (Calm v)) v.context _ _
      (if-both (Holds (Calm v)) (leb v.last_pts v.target_pts) _ _
        (carried (show_due answers q next) next (l, c) (show_due-Calm answers q next h))
        (refl, refl))
      tt
  where
    carried :
        (o : Option FfVideo) (next : FfVideo) → Calm v next → Holds (Calm next) o → Holds (Calm v) o
    carried none next c d = tt
    carried (some w) next (l, c) (m, d) = (m ∙ l, d ∙ c)

pub turn-Calm :
    (answers : Decoding) (v : FfVideo)
    → ((p : Packet) → (answers p).last ≡ no_more)
    → Holds (λ w. (w.lost ≡ v.lost) × (w.context ≡ v.context)) (turn answers v)
unfolding turn
turn-Calm answers v h = show_due-Calm answers v.queue v h
