-- ===== src/SystemAudio/Opening.antt =====
-- What a SystemAudio holds while it opens.
use ryulib_cpp.Common.{
  ℕ, ◌+◌, ◌-◌, ◌≡◌, refl, sym, ap, subst, ◌∙◌, Bool, true, false, some, List, [], ◌∷◌, ◌++◌, ◌>>=◌,
  ◌&&◌, arith, if-true, if-false, Bool-cases, inl, inr,
}
use ryulib_cpp.SystemAudio.{
  SystemAudio, Format, no_format, live, freed, safe_release, release_all, free_format, fin_values,
  Answers, Stage, early_stages, late_stages, run_stages, open_audio,
}

abbrev pub one_if : Bool → ℕ
one_if true = 1
one_if false = 0

abbrev pub format_count : Format → ℕ
format_count live = 1
format_count other = 0

abbrev pub IsFreeable : Format → Type 0
IsFreeable freed = ⊥
IsFreeable other = Unit {0}

-- One reference for each pointer that is not null, `more` references that no pointer of the four
-- holds, and a format that can be freed.
pub record IsHeld (more : ℕ) (s : SystemAudio) : Type 0 where
  pub references :
      s.references
      ≡ one_if s.enumerator
        + one_if s.device
        + one_if s.audio_client
        + one_if s.capture_client
        + more
  pub formats : s.formats ≡ format_count s.pwfx
  pub freeable : IsFreeable s.pwfx

-- All that the four pointers and the format held is given back.
pub record IsReleased (more : ℕ) (s : SystemAudio) : Type 0 where
  pub references : s.references ≡ more
  pub formats : s.formats ≡ 0
  pub enumerator : s.enumerator ≡ false
  pub device : s.device ≡ false
  pub audio_client : s.audio_client ≡ false
  pub capture_client : s.capture_client ≡ false

safe_release-one_if : (b : Bool) (n m : ℕ) → n ≡ one_if b + m → safe_release b n ≡ m
safe_release-one_if true n m e = omega (arith, e)
safe_release-one_if false n m e = omega (arith, e)

release_all-IsReleased :
    (more : ℕ) (s : SystemAudio)
    → s.references
      ≡ one_if s.enumerator
        + one_if s.device
        + one_if s.audio_client
        + one_if s.capture_client
        + more
    → s.formats ≡ 0
    → IsReleased more (release_all s)
unfolding release_all
release_all-IsReleased more s h f = record {
  references = safe_release-one_if s.capture_client _ more (
      safe_release-one_if s.audio_client _ (one_if s.capture_client + more) (
        safe_release-one_if s.device _ (one_if s.audio_client + (one_if s.capture_client + more)) (
          safe_release-one_if s.enumerator s.references
            (one_if s.device + (one_if s.audio_client + (one_if s.capture_client + more)))
            (omega (arith, h)))));
  formats = f;
  enumerator = refl;
  device = refl;
  audio_client = refl;
  capture_client = refl;
}

fin_values-next :
    (s t : SystemAudio) → free_format s.pwfx s ≡ some t → fin_values s ≡ some (release_all t)
unfolding fin_values
fin_values-next s t e = rw e

fin_format :
    (more : ℕ) (s : SystemAudio) (f : Format)
    → s.pwfx ≡ f
    → IsHeld more s
    → (s' : SystemAudio) × (fin_values s ≡ some s') × IsReleased more s' × (s'.worker ≡ s.worker)
unfolding free_format release_all
fin_format more s no_format e h = (
  release_all s,
  fin_values-next s s (ap (λ f. free_format f s) e),
  release_all-IsReleased more s h.references (h.formats ∙ ap format_count e),
  refl,
)
fin_format more s live e h =
    let t = record s { pwfx = freed; formats = s.formats - 1 } in
    (
      release_all t,
      fin_values-next s t (ap (λ f. free_format f s) e),
      release_all-IsReleased more t h.references (ap (λ n. n - 1) (h.formats ∙ ap format_count e)),
      refl,
    )
fin_format more s freed e h = absurd (subst IsFreeable e h.freeable)

pub fin_values-IsReleased :
    (more : ℕ) (s : SystemAudio)
    → IsHeld more s
    → (s' : SystemAudio) × (fin_values s ≡ some s') × IsReleased more s' × (s'.worker ≡ s.worker)
fin_values-IsReleased more s h = fin_format more s s.pwfx refl h

abbrev pub all_ok : List Stage → Bool
all_ok [] = true
all_ok (stage ∷ rest) = stage.ok && all_ok rest

abbrev pub after_all : List Stage → SystemAudio → SystemAudio
after_all [] s = s
after_all (stage ∷ rest) s = after_all rest (stage.success s)

-- Whichever of the calls fails, it is given back what is held.
abbrev AllHeld : ℕ → List Stage → SystemAudio → Type 0
AllHeld more [] s = Unit {0}
AllHeld more (stage ∷ rest) s = IsHeld more (stage.failure s) × AllHeld more rest (stage.success s)

-- What a successful open leaves: the interfaces and the format, each with its one reference, and the
-- running worker.
pub record IsRunning (more : ℕ) (s : SystemAudio) : Type 0 where
  pub enumerator : s.enumerator ≡ true
  pub device : s.device ≡ true
  pub audio_client : s.audio_client ≡ true
  pub capture_client : s.capture_client ≡ true
  pub pwfx : s.pwfx ≡ live
  pub references : s.references ≡ 4 + more
  pub formats : s.formats ≡ 1
  pub worker : s.worker ≡ true
  pub is_stoped : s.is_stoped ≡ false

-- What an open leaves, by its answer.
abbrev pub Leaves : ℕ → Bool → SystemAudio → Type 0
Leaves more true s = IsRunning more s
Leaves more false s = IsReleased more s

run_stages-fail :
    (stage : Stage) (rest : List Stage) (s s' : SystemAudio)
    → stage.ok ≡ false
    → fin_values (stage.failure s) ≡ some s'
    → run_stages (stage ∷ rest) s ≡ some (false, s')
unfolding run_stages
run_stages-fail stage rest s s' h e = if-false _ _ h ∙ ap (λ o. o >>= λ t. some (false, t)) e

pub run_stages-next :
    (stage : Stage) (rest : List Stage) (s : SystemAudio)
    → stage.ok ≡ true
    → run_stages (stage ∷ rest) s ≡ run_stages rest (stage.success s)
unfolding run_stages
run_stages-next stage rest s h = if-true _ _ h

run_stages-Leaves :
    (more : ℕ) (rest : List Stage) (s : SystemAudio)
    → AllHeld more rest s
    → IsRunning more (record (after_all rest s) { is_stoped = false; worker = true })
    → (s' : SystemAudio) × (run_stages rest s ≡ some (all_ok rest, s'))
      × Leaves more (all_ok rest) s'
unfolding run_stages
run_stages-Leaves more [] s h r = (_, refl, r)
run_stages-Leaves more (stage ∷ rest) s (h, hs) r = elim (Bool-cases stage.ok) [
  | inl e ↦
      let (s', es, l) = run_stages-Leaves more rest (stage.success s) hs r in
      let same : all_ok rest ≡ (stage.ok && all_ok rest) = ap (λ b. b && all_ok rest) (sym e) in
      (
        s',
        run_stages-next stage rest s e ∙ es ∙ ap (λ b. some (b, s')) same,
        subst (λ b. Leaves more b s') same l,
      )
  | inr e ↦
      let (s', es, l, w) = fin_values-IsReleased more (stage.failure s) h in
      let same : false ≡ (stage.ok && all_ok rest) = ap (λ b. b && all_ok rest) (sym e) in
      (
        s',
        run_stages-fail stage rest s s' e es ∙ ap (λ b. some (b, s')) same,
        subst (λ b. Leaves more b s') same l,
      )
]

-- Whether all eight calls succeed.
abbrev pub all_succeed : Answers → Bool
all_succeed a =
    a.creates_instance
    && (a.gets_endpoint
        && (a.activates
            && (a.gets_format
                && (a.initializes
                    && (a.gets_buffer_size && (a.gets_service && (a.starts && true)))))))

-- On a SystemAudio whose four interface pointers are null, that holds no format and never got one,
-- open ends without a fault and answers true exactly where all eight calls succeed: then all four
-- pointers and the format are set, with one reference for each interface and one format beside what
-- was held before, and the worker runs; otherwise all that it got is given back and the four
-- pointers are null.
pub open_audio-Leaves :
    (more : ℕ) (a : Answers) (s : SystemAudio)
    → IsReleased more s
    → s.pwfx ≡ no_format
    → (s' : SystemAudio) × (open_audio a s ≡ some (all_succeed a, s'))
      × Leaves more (all_succeed a) s'
unfolding open_audio
open_audio-Leaves more a s r p =
    let free : IsFreeable s.pwfx = subst IsFreeable (sym p) tt in
    let fs : s.formats ≡ format_count s.pwfx = r.formats ∙ sym (ap format_count p) in
    let e = ap one_if r.enumerator in
    let d = ap one_if r.device in
    let c = ap one_if r.audio_client in
    let k = ap one_if r.capture_client in
    let n = r.references in
    let s₁ = record s { enumerator = true; references = s.references + 1 } in
    let s₂ = record s₁ { device = true; references = s₁.references + 1 } in
    let s₃ = record s₂ { audio_client = true; references = s₂.references + 1 } in
    let s₄ = record s₃ { pwfx = live; formats = s₃.formats + 1 } in
    let h₀ : IsHeld more (record s { enumerator = false }) = record {
      references = omega (arith, e, d, c, k, n);
      formats = fs;
      freeable = free;
    } in
    let h₁ : IsHeld more (record s₁ { device = false }) = record {
      references = omega (arith, e, d, c, k, n);
      formats = fs;
      freeable = free;
    } in
    let h₂ : IsHeld more (record s₂ { audio_client = false }) = record {
      references = omega (arith, e, d, c, k, n);
      formats = fs;
      freeable = free;
    } in
    let h₃ : IsHeld more (record s₃ { pwfx = no_format }) = record {
      references = omega (arith, e, d, c, k, n);
      formats = r.formats;
      freeable = tt;
    } in
    let h₄ : IsHeld more s₄ = record {
      references = h₃.references;
      formats = omega (arith, r.formats);
      freeable = tt;
    } in
    let h₅ : IsHeld more (record s₄ { capture_client = false }) = record {
      references = omega (arith, e, d, c, k, n);
      formats = omega (arith, r.formats);
      freeable = tt;
    } in
    let h₆ : IsHeld more (record s₄ { capture_client = true; references = s₄.references + 1 }) =
      record {
        references = omega (arith, e, d, c, k, n);
        formats = omega (arith, r.formats);
        freeable = tt;
      } in
    run_stages-Leaves more (early_stages a ++ late_stages a) s
      (h₀, (h₁, (h₂, (h₃, (h₄, (h₄, (h₅, (h₆, tt))))))))
      (record {
        enumerator = refl;
        device = refl;
        audio_client = refl;
        capture_client = refl;
        pwfx = refl;
        references = omega (arith, n);
        formats = omega (arith, r.formats);
        worker = refl;
        is_stoped = refl;
      })
