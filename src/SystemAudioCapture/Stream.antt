-- ===== src/SystemAudioCapture/Stream.antt =====
-- The bytes of a SystemAudioCapture in their order, and what the parts of a round do to them.
use ryulib_cpp.Common.{
  ℕ, ◌+◌, ◌^◌, ◌≤◌, ◌<◌, ◌≡◌, refl, sym, ap, ◌∙◌, Option, none, some, List, [], ◌∷◌, ◌++◌,
  append-nil, append_assoc, length, flatten, flatten-append, if-true, lt→ltb,
}
use ryulib_cpp.MemoryBuffer
use ryulib_cpp.MemoryBuffer.{MemoryBuffer, Result, null, block}
use ryulib_cpp.MemoryBuffer.Contents.{IsValid, contents}
use ryulib_cpp.SystemAudioCapture.{SystemAudioCapture, execute, handle}

abbrev pub AllSized : ℕ → List (List ℕ) → Type 0
AllSized n [] = Unit {0}
AllSized n (b ∷ bs) = (length b ≡ n) × AllSized n bs

pub AllSized-snoc :
    (n : ℕ) (bs : List (List ℕ)) (b : List ℕ)
    → AllSized n bs
    → length b ≡ n
    → AllSized n (bs ++ b ∷ [])
AllSized-snoc n [] b a h = (h, tt)
AllSized-snoc n (x ∷ bs) b (hx, a) h = (hx, AllSized-snoc n bs b a h)

-- All the bytes in their order: given to the resampler, collected, and waiting.
abbrev pub stream : SystemAudioCapture → List ℕ
stream c = flatten c.executed ++ contents c.buffer.queue ++ flatten c.queue_in

-- The state between two rounds, with less than 2^31 bytes collected and waiting.
pub record IsFed (c : SystemAudioCapture) : Type 0 where
  pub valid : IsValid c.buffer
  pub src_size : 0 < c.src_size
  pub executed : AllSized c.src_size c.executed
  pub room : c.buffer.size + length (flatten c.queue_in) < 2 ^ 31

-- What a round keeps: the stream, and at most one block more is given to the resampler.
pub record Kept (n : ℕ) (c c' : SystemAudioCapture) : Type 0 where
  pub stream : stream c' ≡ stream c
  pub fed : IsFed c'
  pub blocks : length c'.executed ≤ length c.executed + n
  pub src_size : c'.src_size ≡ c.src_size

pub read_short : (m : MemoryBuffer) (n : ℕ) → m.size < n → MemoryBuffer.read m n ≡ some (null, m)
unfolding MemoryBuffer.read
read_short m n h = if-true _ _ (lt→ltb m.size n h)

pub handled :
    (resample : List ℕ → Option (List ℕ)) (bytes : List ℕ) (q : List (List ℕ))
    (c : SystemAudioCapture) (b b' : MemoryBuffer) (r : Result)
    → MemoryBuffer.write c.buffer bytes ≡ some b
    → MemoryBuffer.read b c.src_size ≡ some (r, b')
    → handle resample (some bytes, q) c
      ≡ some (execute resample r (record c { queue_in = q; buffer = b' }))
unfolding handle
handled resample bytes q c b b' r ew er = rw (ew, er)

pub execute-fields :
    (resample : List ℕ → Option (List ℕ)) (n : ℕ) (bytes : List ℕ) (c : SystemAudioCapture)
    → let c' = execute resample (block n bytes) c in
      (c'.executed ≡ c.executed ++ bytes ∷ [])
      × (c'.buffer ≡ c.buffer)
      × (c'.queue_in ≡ c.queue_in)
      × (c'.src_size ≡ c.src_size)
unfolding execute
execute-fields resample n bytes c = made (resample bytes)
  where
    made :
        (o : Option (List ℕ))
        → let c' = elim o as (λ x. SystemAudioCapture) [
          | none ↦ record c { executed = c.executed ++ bytes ∷ [] }
          | some out ↦ record c {
            executed = c.executed ++ bytes ∷ [];
            queue_out = c.queue_out ++ out ∷ [];
          }
        ] in
          (c'.executed ≡ c.executed ++ bytes ∷ [])
          × (c'.buffer ≡ c.buffer)
          × (c'.queue_in ≡ c.queue_in)
          × (c'.src_size ≡ c.src_size)
    made none = (refl, refl, refl, refl)
    made (some out) = (refl, refl, refl, refl)

pub regroup : (xs ys w zs : List ℕ) → xs ++ (ys ++ w) ++ zs ≡ xs ++ ys ++ (w ++ zs)
regroup xs ys w zs = ap (λ l. l ++ zs) (sym (append_assoc xs ys w)) ∙ append_assoc (xs ++ ys) w zs

pub regroup_block :
    (ex : List (List ℕ)) (b rest old w zs : List ℕ)
    → b ++ rest ≡ old ++ w
    → flatten (ex ++ b ∷ []) ++ rest ++ zs ≡ flatten ex ++ old ++ (w ++ zs)
regroup_block ex b rest old w zs e =
    ap (λ l. l ++ rest ++ zs) (flatten-append ex (b ∷ []) ∙ ap (◌++◌ (flatten ex)) (append-nil b))
    ∙ ap (λ l. l ++ zs) (append_assoc (flatten ex) b rest ∙ ap (◌++◌ (flatten ex)) e)
    ∙ regroup (flatten ex) old w zs
