-- ===== src/FfAudio/Decoding.antt =====
-- What an FFAudio plays of a packet, and what becomes of the packet.
use ryulib_cpp.Common.{
  ℕ, ◌+◌, ◌≤◌, ◌<◌, ◌≡◌, refl, sym, ap, subst, ◌∙◌, Bool, true, false, some, List, [], ◌∷◌, ◌++◌,
  append-nil, append_assoc, length, flatten, flatten-append, arith,
}
use ryulib_cpp.PacketReader.{packetreader_buffer_size}
use ryulib_cpp.PacketReader.Bytes.{IsValid, pending}
use ryulib_cpp.AudioSdl
use ryulib_cpp.AudioSdl.{AudioSdl}
use ryulib_cpp.AudioSdl.Frames.{Played, AllFrames, play-Played}
use ryulib_cpp.FfMedia.{Packet, LastReceive, no_more, receive_error, send_result}
use ryulib_cpp.FfAudio.{FfAudio, play_frames, free_after, decode_and_play, last_pts_after}

-- Each block of samples is no longer than a frame, and fits the reader beside less than a frame.
abbrev pub AllFit : ℕ → List (List ℕ) → Type 0
AllFit n [] = Unit {0}
AllFit n (frame ∷ frames) =
    ((n + length frame ≤ packetreader_buffer_size) × (length frame ≤ n)) × AllFit n frames

AllFrames-append :
    (n : ℕ) (xs ys : List (List ℕ)) → AllFrames n xs → AllFrames n ys → AllFrames n (xs ++ ys)
AllFrames-append n [] ys hx hy = hy
AllFrames-append n (x ∷ xs) ys hx hy = (hx.0, AllFrames-append n xs ys hx.1 hy)

Played-nothing : (a : AudioSdl) → IsValid a.reader → a.reader.size < a.frame_size → Played a a []
Played-nothing a v h = record {
  frames = [];
  queued = sym (append-nil a.queue);
  sized = tt;
  kept = sym (append-nil (pending a.reader));
  left = h;
  same_frame_size = refl;
  valid = v;
}

-- Two runs of `play`, one after the other.
Played-Played :
    (a b c : AudioSdl) (xs ys : List ℕ) → Played a b xs → Played b c ys → Played a c (xs ++ ys)
Played-Played a b c xs ys p q = record {
  frames = p.frames ++ q.frames;
  queued = q.queued ∙ ap (λ l. l ++ q.frames) p.queued ∙ append_assoc a.queue p.frames q.frames;
  sized =
      AllFrames-append a.frame_size p.frames q.frames p.sized
        (subst (λ n. AllFrames n q.frames) p.same_frame_size q.sized);
  kept =
      ap (λ l. l ++ pending c.reader) (flatten-append p.frames q.frames)
      ∙ append_assoc (flatten p.frames) (flatten q.frames) (pending c.reader)
      ∙ ap (◌++◌ (flatten p.frames)) q.kept
      ∙ sym (append_assoc (flatten p.frames) (pending b.reader) ys)
      ∙ ap (λ l. l ++ ys) p.kept
      ∙ append_assoc (pending a.reader) xs ys;
  left = omega (arith, q.left, p.same_frame_size);
  same_frame_size = q.same_frame_size ∙ p.same_frame_size;
  valid = q.valid;
}

play_frames-next :
    (frame : List ℕ) (frames : List (List ℕ)) (a b : AudioSdl)
    → AudioSdl.play a frame ≡ some b
    → play_frames (frame ∷ frames) a ≡ play_frames frames b
unfolding play_frames
play_frames-next frame frames a b e = rw e

pub play_frames-Played :
    (frames : List (List ℕ)) (a : AudioSdl)
    → IsValid a.reader
    → a.reader.size < a.frame_size
    → AllFit a.frame_size frames
    → (a' : AudioSdl) × (play_frames frames a ≡ some a') × Played a a' (flatten frames)
unfolding play_frames
play_frames-Played [] a v h f = (a, refl, Played-nothing a v h)
play_frames-Played (frame ∷ frames) a v h (f, fs) =
    let (b, eb, pb) = play-Played a frame (omega arith) v (omega arith) (omega arith) in
    let (c, ec, pc) =
      play_frames-Played frames b pb.valid (omega (arith, pb.left, pb.same_frame_size))
        (subst (λ n. AllFit n frames) (sym pb.same_frame_size) fs) in
    (c, play_frames-next frame frames a b eb ∙ ec, Played-Played a b c frame (flatten frames) pb pc)

decoded :
    (sent : Bool) (frames : List (List ℕ)) (last : LastReceive) (p : Packet) (a : FfAudio)
    (audio : AudioSdl)
    → play_frames frames a.audio ≡ some audio
    → decode_and_play sent frames last p a
      ≡ some (
          free_after last
            (record a { audio = audio; last_pts = last_pts_after frames p a.last_pts }))
unfolding decode_and_play send_result
decoded true frames last p a audio e = rw e
decoded false frames last p a audio e = rw e

-- Where the packet goes.
abbrev pub freed_by : LastReceive → ℕ
freed_by no_more = 1
freed_by receive_error = 0

abbrev pub lost_by : LastReceive → ℕ
lost_by no_more = 0
lost_by receive_error = 1

-- A decoding that played the frames and left the packet where `last` says.
pub record PlaysAll (frames : List (List ℕ)) (last : LastReceive) (a a' : FfAudio) : Type 0 where
  pub played : Played a.audio a'.audio (flatten frames)
  pub freed : a'.freed ≡ a.freed + freed_by last
  pub lost : a'.lost ≡ a.lost + lost_by last

after-PlaysAll :
    (frames : List (List ℕ)) (last : LastReceive) (p : Packet) (a : FfAudio) (audio : AudioSdl)
    → Played a.audio audio (flatten frames)
    → PlaysAll frames last a (
        free_after last (record a { audio = audio; last_pts = last_pts_after frames p a.last_pts }))
unfolding free_after
after-PlaysAll frames no_more p a audio h = record { played = h; freed = refl; lost = omega arith }
after-PlaysAll frames receive_error p a audio h = record {
  played = h;
  freed = omega arith;
  lost = refl;
}

-- On a valid reader with less than a frame of the AudioSDL pending, and blocks of samples that are
-- no longer than such a frame and fit the reader beside one, decode_and_play plays all blocks
-- whatever avcodec_send_packet answers, with no byte lost or reordered, and frees the packet, but
-- loses it where avcodec_receive_frame ends with an error.
pub decode_and_play-PlaysAll :
    (sent : Bool) (frames : List (List ℕ)) (last : LastReceive) (p : Packet) (a : FfAudio)
    → IsValid a.audio.reader
    → a.audio.reader.size < a.audio.frame_size
    → AllFit a.audio.frame_size frames
    → (a' : FfAudio) × (decode_and_play sent frames last p a ≡ some a') × PlaysAll frames last a a'
decode_and_play-PlaysAll sent frames last p a v h f =
    let (audio, e, played) = play_frames-Played frames a.audio v h f in
    (
      free_after last (record a { audio = audio; last_pts = last_pts_after frames p a.last_pts }),
      decoded sent frames last p a audio e,
      after-PlaysAll frames last p a audio played,
    )
