-- ===== src/SystemAudio/Packets.antt =====
-- What the worker of a SystemAudio hands to its client.
use ryulib_cpp.Common.{
  ℕ, zero, suc, ◌+◌, ◌-◌, ◌*◌, ◌/◌, ◌≡◌, refl, sym, ap, ◌∙◌, Bool, true, false, Option, none, some,
  List, [], ◌∷◌, ◌++◌, append-nil, append_assoc, if◌then◌else◌, if-true, if-false, arith,
}
use ryulib_cpp.SystemAudio.{SystemAudio, Buffer, tell, take_buffer, do_repeat}

-- The answers of GetNextPacketSize and of GetBuffer.
abbrev pub Round : Type 0
Round = Option ℕ × Option Buffer

abbrev pub rounds : ℕ → ℕ → List Round → SystemAudio → SystemAudio
rounds n_channels bits [] s = s
rounds n_channels bits ((packet, buffer) ∷ rest) s =
    rounds n_channels bits rest (do_repeat n_channels bits packet buffer s)

-- What one packet is to give.
abbrev pub reports : ℕ → ℕ → Round → List (Option (List ℕ) × ℕ)
reports n_channels bits (none, buffer) = []
reports n_channels bits (some zero, buffer) = (none, 0) ∷ []
reports n_channels bits (some (suc n), none) = []
reports n_channels bits (some (suc n), some b) =
    if b.silent then [] else (some b.frame_bytes, suc n * n_channels * bits / 8) ∷ []

abbrev pub all_reports : ℕ → ℕ → List Round → List (Option (List ℕ) × ℕ)
all_reports n_channels bits [] = []
all_reports n_channels bits (r ∷ rest) =
    reports n_channels bits r ++ all_reports n_channels bits rest

-- One round, with all that it leaves as it was.
record Reports (n_channels bits : ℕ) (r : Round) (s s' : SystemAudio) : Type 0 where
  log : s'.log ≡ s.log ++ reports n_channels bits r
  buffers : s'.buffers ≡ s.buffers
  on_data : s'.on_data ≡ s.on_data

tell-log :
    (s : SystemAudio) (d : Option (List ℕ)) (size : ℕ)
    → s.on_data ≡ true
    → (tell s d size).log ≡ s.log ++ (d, size) ∷ []
tell-log s d size h = if-true _ _ h

taken :
    (n_channels bits n : ℕ) (b : Buffer) (silent : Bool) (s : SystemAudio)
    → b.silent ≡ silent
    → s.on_data ≡ true
    → Reports n_channels bits
        (some (suc n), some b)
        s
        (take_buffer n_channels bits (suc n) (some b) s)
unfolding take_buffer
taken n_channels bits n b true s e h =
    let got = record s { buffers = s.buffers + 1 } in
    let told = tell got (some b.frame_bytes) (suc n * n_channels * bits / 8) in
    let kept : (if b.silent then got else told) ≡ got = if-true _ _ e in
    record {
      log = ap (λ z. z.log) kept ∙ sym (append-nil s.log) ∙ ap (◌++◌ s.log) (sym (if-true _ _ e));
      buffers = ap (λ z. z.buffers - 1) kept ∙ omega arith;
      on_data = ap (λ z. z.on_data) kept;
    }
taken n_channels bits n b false s e h =
    let got = record s { buffers = s.buffers + 1 } in
    let size = suc n * n_channels * bits / 8 in
    let told = tell got (some b.frame_bytes) size in
    let kept : (if b.silent then got else told) ≡ told = if-false _ _ e in
    record {
      log =
          ap (λ z. z.log) kept
          ∙ tell-log got (some b.frame_bytes) size h
          ∙ ap (◌++◌ s.log) (sym (if-false _ _ e));
      buffers = ap (λ z. z.buffers - 1) kept ∙ omega arith;
      on_data = ap (λ z. z.on_data) kept;
    }

unchanged :
    (n_channels bits : ℕ) (r : Round) (s : SystemAudio)
    → reports n_channels bits r ≡ []
    → Reports n_channels bits r s s
unchanged n_channels bits r s e = record {
  log = sym (append-nil s.log) ∙ ap (◌++◌ s.log) (sym e);
  buffers = refl;
  on_data = refl;
}

do_repeat-Reports :
    (n_channels bits : ℕ) (r : Round) (s : SystemAudio)
    → s.on_data ≡ true
    → Reports n_channels bits r s (do_repeat n_channels bits r.0 r.1 s)
unfolding do_repeat take_buffer
do_repeat-Reports n_channels bits (none, b) s h = unchanged n_channels bits (none, b) s refl
do_repeat-Reports n_channels bits (some zero, b) s h = record {
  log = tell-log s none 0 h;
  buffers = refl;
  on_data = refl;
}
do_repeat-Reports n_channels bits (some (suc n), none) s h =
    unchanged n_channels bits (some (suc n), none) s refl
do_repeat-Reports n_channels bits (some (suc n), some b) s h =
    taken n_channels bits n b b.silent s refl h

-- With a handler, the rounds of the worker report a packet with its data and size where it is not
-- silent, and the absence of one, in order and nothing else, and give back every buffer that they
-- get.
pub rounds-reports :
    (n_channels bits : ℕ) (rs : List Round) (s : SystemAudio)
    → s.on_data ≡ true
    → ((rounds n_channels bits rs s).log ≡ s.log ++ all_reports n_channels bits rs)
      × ((rounds n_channels bits rs s).buffers ≡ s.buffers)
rounds-reports n_channels bits [] s h = (sym (append-nil s.log), refl)
rounds-reports n_channels bits ((packet, buffer) ∷ rest) s h =
    let r = do_repeat-Reports n_channels bits (packet, buffer) s h in
    let next = do_repeat n_channels bits packet buffer s in
    let (el, eb) = rounds-reports n_channels bits rest next (r.on_data ∙ h) in
    (
      el
          ∙ ap (λ log. log ++ all_reports n_channels bits rest) r.log
          ∙ append_assoc s.log (reports n_channels bits (packet, buffer))
              (all_reports n_channels bits rest),
      eb ∙ r.buffers,
    )
