-- ===== src/AudioIo/Input/Streams.antt =====
-- What opening and closing an AudioInput reports and holds.
use ryulib_cpp.Common.{
  ℕ, zero, suc, ◌+◌, ◌-◌, ◌≡◌, refl, sym, ap, ◌∙◌, Bool, true, false, Option, none, some, List, [],
  ◌∷◌, ◌++◌, append-nil, if◌then◌else◌, if-true, if-false, ◌⊎◌, inl, inr, ◌≢◌, ◌==◌, ◌||◌, arith,
}
use ryulib_cpp.Common.Int.{ℤ, pos, negsuc}
use ryulib_cpp.AudioIo.{
  Stream, null, opened, PaAnswers, chosen_device, error_no_default_input_device,
  error_open_input_device, error_start_input_device,
}
use ryulib_cpp.AudioIo.Input.{
  AudioInput, fail, open_stream, open_device, open_input, close_stream, close_input,
}

-- What the error handler gets for a code that is returned.
abbrev pub reported : Bool → ℤ → List ℤ
reported true (negsuc n) = negsuc n ∷ []
reported set code = []

-- How many streams are opened for it: a stream that does not start stays open.
abbrev pub opened_by : ℤ → ℕ
opened_by (pos n) = 1
opened_by (negsuc (suc (suc n))) = 1
opened_by (negsuc n) = 0

-- The pointer behind it.
abbrev pub stream_after : ℤ → Stream → Stream
stream_after (pos n) s = opened
stream_after (negsuc (suc (suc n))) s = opened
stream_after (negsuc n) s = s

-- Why PortAudio's answers lead to a code, for the device that was chosen.
abbrev pub Cause : PaAnswers → Option ℕ → ℤ → Type 0
Cause a device (pos zero) = (device ≢ none) × (a.info ≡ true) × (a.opens ≡ true) × (a.starts ≡ true)
Cause a device (negsuc zero) = device ≡ none
Cause a device (negsuc (suc zero)) =
    (device ≢ none) × ((a.info ≡ false) ⊎ ((a.info ≡ true) × (a.opens ≡ false)))
Cause a device (negsuc (suc (suc zero))) =
    (device ≢ none) × (a.info ≡ true) × (a.opens ≡ true) × (a.starts ≡ false)
Cause a device code = ⊥

-- The result of an open: its code has its cause, goes to the handler, and only the codes of success and of a start
-- that fails leave one more stream open.
pub record Outcome (a : PaAnswers) (device : Option ℕ) (i : AudioInput) (code : ℤ) (i' : AudioInput)
    : Type 0 where
  pub cause : Cause a device code
  pub errors : i'.errors ≡ i.errors ++ reported i.on_error code
  pub streams : i'.streams ≡ i.streams + opened_by code
  pub stream : i'.stream ≡ stream_after code i.stream

handled :
    (b : Bool) (n : ℕ) (es : List ℤ)
    → (if b then es ++ negsuc n ∷ [] else es) ≡ es ++ reported b (negsuc n)
handled true n es = refl
handled false n es = sym (append-nil es)

unhandled : (b : Bool) (es : List ℤ) → es ≡ es ++ reported b (pos 0)
unhandled true es = sym (append-nil es)
unhandled false es = sym (append-nil es)

open_stream-Outcome :
    (a : PaAnswers) (device : ℕ) (i : AudioInput) (opens starts : Bool)
    → a.info ≡ true
    → a.opens ≡ opens
    → a.starts ≡ starts
    → (code : ℤ) × (i' : AudioInput) × (open_stream a i ≡ (code, i'))
      × Outcome a (some device) i code i'
unfolding open_stream fail
open_stream-Outcome a device i true true e₀ e₁ e₂ = (
  pos 0,
  record i { stream = opened; streams = i.streams + 1 },
  if-true _ _ e₁ ∙ if-true _ _ e₂,
  record {
    cause = (λ e. absurd (cc), e₀, e₁, e₂);
    errors = unhandled i.on_error i.errors;
    streams = refl;
    stream = refl;
  },
)
open_stream-Outcome a device i true false e₀ e₁ e₂ = (
  error_start_input_device,
  (fail error_start_input_device (record i { stream = opened; streams = i.streams + 1 })).1,
  if-true _ _ e₁ ∙ if-false _ _ e₂,
  record {
    cause = (λ e. absurd (cc), e₀, e₁, e₂);
    errors = handled i.on_error 2 i.errors;
    streams = refl;
    stream = refl;
  },
)
open_stream-Outcome a device i false starts e₀ e₁ e₂ = (
  error_open_input_device,
  (fail error_open_input_device i).1,
  if-false _ _ e₁,
  record {
    cause = (λ e. absurd (cc), inr (e₀, e₁));
    errors = handled i.on_error 1 i.errors;
    streams = omega arith;
    stream = refl;
  },
)

open_info-Outcome :
    (a : PaAnswers) (device : ℕ) (i : AudioInput) (info : Bool)
    → a.info ≡ info
    → (code : ℤ) × (i' : AudioInput) × ((if a.info
          then open_stream a i
          else fail error_open_input_device i)
        ≡ (code, i'))
      × Outcome a (some device) i code i'
unfolding fail
open_info-Outcome a device i true e =
    let (code, i', eo, out) = open_stream-Outcome a device i a.opens a.starts e refl refl in
    (code, i', if-true _ _ e ∙ eo, out)
open_info-Outcome a device i false e = (
  error_open_input_device,
  (fail error_open_input_device i).1,
  if-false _ _ e,
  record {
    cause = (λ e. absurd (cc), inl e);
    errors = handled i.on_error 1 i.errors;
    streams = omega arith;
    stream = refl;
  },
)

open_device-Outcome :
    (a : PaAnswers) (d : Option ℕ) (i : AudioInput)
    → (i.smaple_size == 2 || i.smaple_size == 4) ≡ true
    → (code : ℤ) × (i' : AudioInput) × (open_device a i d ≡ some (code, i')) × Outcome a d i code i'
unfolding open_device fail
open_device-Outcome a none i h = (
  error_no_default_input_device,
  (fail error_no_default_input_device i).1,
  refl,
  record {
    cause = refl;
    errors = handled i.on_error 0 i.errors;
    streams = omega arith;
    stream = refl;
  },
)
open_device-Outcome a (some device) i h =
    let (code, i', eo, out) = open_info-Outcome a device i a.info refl in
    (code, i', if-true _ _ h ∙ ap some eo, out)

-- With samples of 2 or 4 bytes, AudioInput.open returns a code on every branch, which the answers
-- of PortAudio for the chosen device give: 0 only where all succeed, and otherwise that of the
-- first that fails; the error handler gets the code where it is an error, and one more stream is
-- open exactly where the code is 0 or that of a start that fails.
pub open_input-Outcome :
    (a : PaAnswers) (d : Option ℕ) (i : AudioInput)
    → (i.smaple_size == 2 || i.smaple_size == 4) ≡ true
    → (code : ℤ) × (i' : AudioInput) × (open_input a d i ≡ some (code, i'))
      × Outcome a (chosen_device a d) i code i'
unfolding open_input
open_input-Outcome a d i h = open_device-Outcome a (chosen_device a d) i h

close_opened :
    (s : Stream) (i : AudioInput)
    → s ≡ opened
    → close_stream s i ≡ record i { stream = null; streams = i.streams - 1 }
unfolding close_stream
close_opened s i e = rw e

pub reopen_leaks :
    (a : PaAnswers) (d : Option ℕ) (i : AudioInput)
    → (i.smaple_size == 2 || i.smaple_size == 4) ≡ true
    → i.stream ≡ opened
    → (code : ℤ) × (i' : AudioInput) × (open_input a d i ≡ some (code, i'))
      × ((close_input i').stream ≡ null)
      × ((close_input i').streams ≡ i.streams + opened_by code - 1)
unfolding close_input
reopen_leaks a d i h o =
    let (code, i', e, out) = open_input-Outcome a d i h in
    let closing = close_opened i'.stream i' (out.stream ∙ after code o) in
    (
      code,
      i',
      e,
      ap (λ z. z.stream) closing,
      ap (λ z. z.streams) closing ∙ ap (λ n. n - 1) out.streams,
    )
  where
    after : (code : ℤ) {s : Stream} → s ≡ opened → stream_after code s ≡ opened
    after (pos n) e = refl
    after (negsuc (suc (suc n))) e = refl
    after (negsuc zero) e = e
    after (negsuc (suc zero)) e = e
