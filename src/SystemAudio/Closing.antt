-- ===== src/SystemAudio/Closing.antt =====
-- What a SystemAudio holds after it was closed, and what a second open does.
use ryulib_cpp.Common.{
  ℕ, zero, suc, ◌+◌, ◌≡◌, refl, sym, ap, subst, ◌∙◌, Bool, true, false, ◌&&◌, none, some, List, [],
  ◌∷◌, ◌++◌, ◌>>=◌, if-true, if-false, arith, Bool-cases, inl, inr,
}
use ryulib_cpp.SystemAudio.{
  SystemAudio, freed, free_format, fin_values, Answers, Stage, early_stages, late_stages,
  run_stages, open_audio, close_audio, ask_volume,
}
use ryulib_cpp.SystemAudio.Opening.{
  IsHeld, IsReleased, fin_values-IsReleased, all_ok, run_stages-next,
}

close_running :
    (s s' : SystemAudio)
    → s.worker ≡ true
    → fin_values (record s { is_stoped = true; worker = false }) ≡ some s'
    → close_audio s ≡ some s'
unfolding close_audio
close_running s s' w e = if-true _ _ w ∙ e

close_idle : (s : SystemAudio) → s.worker ≡ false → close_audio s ≡ some s
unfolding close_audio
close_idle s w = if-false _ _ w

pub close_audio-IsReleased :
    (more : ℕ) (s : SystemAudio)
    → IsHeld more s
    → s.worker ≡ true
    → (s' : SystemAudio) × (close_audio s ≡ some s')
      × IsReleased more s'
      × (close_audio s' ≡ some s')
close_audio-IsReleased more s h w =
    let (s', e, r, w') =
      fin_values-IsReleased more (record s { is_stoped = true; worker = false })
        (record { references = h.references; formats = h.formats; freeable = h.freeable }) in
    (s', close_running s s' w e, r, close_idle s' w')

-- As many volumes asked for, each with an answer.
abbrev pub asks : ℕ → SystemAudio → SystemAudio
asks zero s = s
asks (suc n) s = asks n (ask_volume true s)

asks-IsHeld :
    (n more : ℕ) (s : SystemAudio)
    → IsHeld more s
    → IsHeld (more + n) (asks n s) × ((asks n s).worker ≡ s.worker)
unfolding ask_volume
asks-IsHeld zero more s h = (subst (λ k. IsHeld k s) (omega arith) h, refl)
asks-IsHeld (suc n) more s h =
    let next : IsHeld (more + 1) (ask_volume true s) = record {
      references = omega (arith, h.references);
      formats = h.formats;
      freeable = h.freeable;
    } in
    let (held, w) = asks-IsHeld n (more + 1) (ask_volume true s) next in
    (subst (λ k. IsHeld k (asks n (ask_volume true s))) (omega arith) held, w)

pub volume_leaks :
    (n more : ℕ) (s : SystemAudio)
    → IsHeld more s
    → s.worker ≡ true
    → (s' : SystemAudio) × (close_audio (asks n s) ≡ some s') × (s'.references ≡ more + n)
volume_leaks n more s h w =
    let (held, same) = asks-IsHeld n more s h in
    let (s', e, r, again) = close_audio-IsReleased (more + n) (asks n s) held (same ∙ w) in
    (s', e, r.references)

-- Where a call fails, the format was freed.
abbrev FreedBefore : List Stage → SystemAudio → Type 0
FreedBefore [] s = Unit {0}
FreedBefore (stage ∷ rest) s = ((stage.failure s).pwfx ≡ freed) × FreedBefore rest (stage.success s)

fin_values-freed : (s : SystemAudio) → s.pwfx ≡ freed → fin_values s ≡ none
unfolding fin_values free_format
fin_values-freed s e = rw e refl

run_stages-stop :
    (stage : Stage) (rest : List Stage) (s : SystemAudio)
    → stage.ok ≡ false
    → (stage.failure s).pwfx ≡ freed
    → run_stages (stage ∷ rest) s ≡ none
unfolding run_stages
run_stages-stop stage rest s h e =
    if-false _ _ h ∙ ap (λ o. o >>= λ t. some (false, t)) (fin_values-freed (stage.failure s) e)

run_stages-freed :
    (early late : List Stage) (s : SystemAudio)
    → FreedBefore early s
    → all_ok early ≡ false
    → run_stages (early ++ late) s ≡ none
run_stages-freed [] late s f h = absurd (cc)
run_stages-freed (stage ∷ rest) late s (e, f) h = elim (Bool-cases stage.ok) [
  | inl o ↦
      run_stages-next stage (rest ++ late) s o
      ∙ run_stages-freed rest late (stage.success s) f (sym (ap (λ b. b && all_ok rest) o) ∙ h)
  | inr o ↦ run_stages-stop stage (rest ++ late) s o e
]

and_true : (a b c : Bool) → (a && b && c) ≡ (a && (b && (c && true)))
and_true true true true = refl
and_true true true false = refl
and_true true false c = refl
and_true false b c = refl

-- Once the format was freed, an open in which one of the three calls before GetMixFormat fails
-- frees it again: a fault.
pub reopen_frees_twice :
    (a : Answers) (s : SystemAudio)
    → s.pwfx ≡ freed
    → (a.creates_instance && a.gets_endpoint && a.activates) ≡ false
    → open_audio a s ≡ none
unfolding open_audio
reopen_frees_twice a s e h =
    run_stages-freed (early_stages a) (late_stages a) s (e, (e, (e, tt)))
      (sym (and_true a.creates_instance a.gets_endpoint a.activates) ∙ h)
