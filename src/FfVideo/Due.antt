-- ===== src/FfVideo/Due.antt =====
-- Which packets the thread of an FFVideo shows in a turn.
use ryulib_cpp.Common.{
  ℕ, ◌+◌, ◌≤◌, ◌<◌, ◌≡◌, refl, sym, ap, subst, ◌∙◌, Bool, true, false, some, List, [], ◌∷◌, ◌++◌,
  append-nil, append_assoc, length, arith, if-true, if-false, leb, le→leb, lt→leb, lt_or_le, inl,
  inr, ◌⊎◌,
}
use ryulib_cpp.FfMedia.{Packet, LastReceive, no_more, receive_error, send_result}
use ryulib_cpp.FfVideo.{FfVideo, Decoding, free_after, show_frames, decode_and_play, show_due, turn}

-- The time of the codec after some frames.
abbrev pub last_after : ℕ → List ℕ → ℕ
last_after last [] = last
last_after last (pts ∷ frames) = last_after pts frames

-- The frames of packets.
abbrev pub frames_of : Decoding → List Packet → List ℕ
frames_of answers [] = []
frames_of answers (p ∷ ps) = (answers p).frames ++ frames_of answers ps

-- The codec was at or before the target when each of the packets was taken; it begins at `last`.
abbrev pub AllDue : Decoding → ℕ → ℕ → List Packet → Type 0
AllDue answers target last [] = Unit {0}
AllDue answers target last (p ∷ ps) =
    (last ≤ target) × AllDue answers target (last_after last (answers p).frames) ps

-- A turn took `taken` from the front, showed their frames, and ended because nothing waits or the
-- target is passed.
pub record Shown (answers : Decoding) (v v' : FfVideo) (queue : List Packet) : Type 0 where
  pub taken : List Packet
  pub split : queue ≡ taken ++ v'.queue
  pub shown : v'.shown ≡ v.shown ++ frames_of answers taken
  pub due : AllDue answers v.target_pts v.last_pts taken
  pub waits : (v'.queue ≡ []) ⊎ (v.target_pts < v'.last_pts)
  pub accounted : v'.freed + v'.lost ≡ v.freed + v.lost + length taken

show_frames-state :
    (frames : List ℕ) (v : FfVideo)
    → show_frames frames v
      ≡ record v { last_pts = last_after v.last_pts frames; shown = v.shown ++ frames }
unfolding show_frames
show_frames-state [] v = ap (λ l. record v { shown = l }) (sym (append-nil v.shown))
show_frames-state (pts ∷ frames) v =
    show_frames-state frames (record v { last_pts = pts; shown = v.shown ++ pts ∷ [] })
    ∙ ap (λ l. record v { last_pts = last_after pts frames; shown = l })
        (append_assoc v.shown (pts ∷ []) frames)

-- What one packet does, whatever FFmpeg answers.
record After (frames : List ℕ) (v v' : FfVideo) : Type 0 where
  context : v'.context ≡ v.context
  target_pts : v'.target_pts ≡ v.target_pts
  last_pts : v'.last_pts ≡ last_after v.last_pts frames
  queue : v'.queue ≡ v.queue
  shown : v'.shown ≡ v.shown ++ frames
  accounted : v'.freed + v'.lost ≡ v.freed + v.lost + 1

free_after-After :
    (last : LastReceive) (frames : List ℕ) (v : FfVideo)
    → After frames v (
        free_after last
          (record v { last_pts = last_after v.last_pts frames; shown = v.shown ++ frames }))
unfolding free_after
free_after-After no_more frames v = record {
  context = refl;
  target_pts = refl;
  last_pts = refl;
  queue = refl;
  shown = refl;
  accounted = omega arith;
}
free_after-After receive_error frames v = record {
  context = refl;
  target_pts = refl;
  last_pts = refl;
  queue = refl;
  shown = refl;
  accounted = omega arith;
}

decode_and_play-After :
    (sent : Bool) (frames : List ℕ) (last : LastReceive) (p : Packet) (v : FfVideo)
    → After frames v (decode_and_play sent frames last p v)
unfolding decode_and_play send_result
decode_and_play-After true frames last p v =
    subst (λ w. After frames v (free_after last w)) (sym (show_frames-state frames v))
      (free_after-After last frames v)
decode_and_play-After false frames last p v =
    subst (λ w. After frames v (free_after last w)) (sym (show_frames-state frames v))
      (free_after-After last frames v)

-- The state after a packet.
abbrev after : Decoding → Packet → FfVideo → FfVideo
after answers p v = decode_and_play (answers p).sent (answers p).frames (answers p).last p v

show_due-next :
    (answers : Decoding) (p : Packet) (q : List Packet) (v : FfVideo)
    → v.context ≡ true
    → leb v.last_pts v.target_pts ≡ true
    → show_due answers (p ∷ q) v ≡ show_due answers q (after answers p (record v { queue = q }))
unfolding show_due
show_due-next answers p q v h k = if-true _ _ h ∙ if-true _ _ k

show_due-stop :
    (answers : Decoding) (p : Packet) (q : List Packet) (v : FfVideo)
    → v.context ≡ true
    → leb v.last_pts v.target_pts ≡ false
    → show_due answers (p ∷ q) v ≡ some v
unfolding show_due
show_due-stop answers p q v h k = if-true _ _ h ∙ if-false _ _ k

After-Shown :
    (answers : Decoding) (p : Packet) (q : List Packet) (v next v' : FfVideo)
    → After (answers p).frames (record v { queue = q }) next
    → v.last_pts ≤ v.target_pts
    → Shown answers next v' q
    → Shown answers v v' (p ∷ q)
After-Shown answers p q v next v' d due s = record {
  taken = p ∷ s.taken;
  split = ap (◌∷◌ p) s.split;
  shown =
      s.shown
      ∙ ap (λ l. l ++ frames_of answers s.taken) d.shown
      ∙ append_assoc v.shown (answers p).frames (frames_of answers s.taken);
  due = (
    due,
    subst (λ t. AllDue answers t (last_after v.last_pts (answers p).frames) s.taken) d.target_pts
        (subst (λ l. AllDue answers next.target_pts l s.taken) d.last_pts s.due),
  );
  waits = subst (λ t. (v'.queue ≡ []) ⊎ (t < v'.last_pts)) d.target_pts s.waits;
  accounted = omega (arith, s.accounted, d.accounted);
}

show_due-Shown :
    (answers : Decoding) (queue : List Packet) (v : FfVideo)
    → v.context ≡ true
    → v.queue ≡ queue
    → (v' : FfVideo) × (show_due answers queue v ≡ some v') × Shown answers v v' queue
unfolding show_due
show_due-Shown answers [] v h e = (
  v,
  refl,
  record {
    taken = [];
    split = sym e;
    shown = sym (append-nil v.shown);
    due = tt;
    waits = inl e;
    accounted = omega arith;
  },
)
show_due-Shown answers (p ∷ q) v h e = elim (lt_or_le v.target_pts v.last_pts) [
  | inl late ↦ (
    v,
    show_due-stop answers p q v h (lt→leb v.last_pts v.target_pts late),
    record {
      taken = [];
      split = sym e;
      shown = sym (append-nil v.shown);
      due = tt;
      waits = inr late;
      accounted = omega arith;
    },
  )
  | inr due ↦
      let next = after answers p (record v { queue = q }) in
      let d : After (answers p).frames (record v { queue = q }) next =
        decode_and_play-After (answers p).sent (answers p).frames (answers p).last p
          (record v { queue = q }) in
      let (v', es, s) = show_due-Shown answers q next (d.context ∙ h) d.queue in
      (
        v',
        show_due-next answers p q v h (le→leb v.last_pts v.target_pts due) ∙ es,
        After-Shown answers p q v next v' d due s,
      )
]

-- With a codec, a turn of the thread of FFVideo ends without a fault, whatever FFmpeg answers: it
-- takes packets from the front of the queue, in order, each while the last frame was not past the
-- time of the sound, shows exactly the frames that the codec gives for them, in order, leaves the
-- rest, stops only when none waits or the last frame is past that time, and frees or loses each
-- packet that it took.
pub turn-Shown :
    (answers : Decoding) (v : FfVideo)
    → v.context ≡ true
    → (v' : FfVideo) × (turn answers v ≡ some v') × Shown answers v v' v.queue
unfolding turn
turn-Shown answers v h = show_due-Shown answers v.queue v h refl
