-- ===== src/PipeSender/Handles.antt =====
-- What a PipeSender writes, and what it does not give back.
use ryulib_cpp.Common.{
  ℕ, zero, suc, ◌+◌, ◌-◌, ◌≡◌, sym, ap, ap₂, ◌∙◌, Bool, true, false, none, some, List, [], ◌∷◌,
  ◌++◌, append-nil, append_assoc, length, if-true, arith,
}
use ryulib_cpp.PipeSender.{
  PipeSender, Task, opens, closes, sends, open_pipe, close, send, do_open, do_close, close_handle,
  do_send, write_pipe, on_task, work_on, work,
}

abbrev pub send_all : List (List ℕ) → PipeSender → PipeSender
send_all [] s = s
send_all (b ∷ bs) s = send_all bs (send b s)

abbrev pub works : ℕ → Bool → PipeSender → PipeSender
works zero connects s = s
works (suc n) connects s = works n connects (work connects s)

abbrev all_sends : List (List ℕ) → List Task
all_sends [] = []
all_sends (b ∷ bs) = sends b ∷ all_sends bs

send-connected :
    (b : List ℕ) (s : PipeSender)
    → s.is_connected ≡ true
    → send b s ≡ record s { memories = s.memories + 1; tasks = s.tasks ++ sends b ∷ [] }
unfolding send
send-connected b s h = if-true _ _ h

send_all-tasks :
    (bs : List (List ℕ)) (s : PipeSender)
    → s.is_connected ≡ true
    → send_all bs s
      ≡ record s { memories = s.memories + length bs; tasks = s.tasks ++ all_sends bs }
send_all-tasks [] s h =
    let same : s.memories ≡ s.memories + 0 = omega arith in
    ap₂ (λ m ts. record s { memories = m; tasks = ts }) same (sym (append-nil s.tasks))
send_all-tasks (b ∷ bs) s h =
    let more : s.memories + 1 + length bs ≡ s.memories + suc (length bs) = omega arith in
    ap (send_all bs) (send-connected b s h)
    ∙ send_all-tasks bs (record s { memories = s.memories + 1; tasks = s.tasks ++ sends b ∷ [] }) h
    ∙ ap₂ (λ m ts. record s { memories = m; tasks = ts }) more
        (append_assoc s.tasks (sends b ∷ []) (all_sends bs))

works-sends :
    (bs : List (List ℕ)) (connects : Bool) (n : ℕ) (s : PipeSender)
    → s.pipe ≡ some n
    → works
        (length bs)
        connects
        (record s { memories = s.memories + length bs; tasks = all_sends bs })
      ≡ record s { tasks = []; written = s.written ++ bs }
unfolding work work_on on_task do_send write_pipe
works-sends [] connects n s e =
    let same : s.memories + 0 ≡ s.memories = omega arith in
    ap₂ (λ m w. record s { memories = m; tasks = []; written = w }) same
      (sym (append-nil s.written))
works-sends (b ∷ bs) connects n s e =
    let fewer : s.memories + suc (length bs) - 1 ≡ s.memories + length bs = omega arith in
    let written = record s { written = s.written ++ b ∷ [] } in
    ap
      (λ p. works (length bs) connects (
        write_pipe p b
          (record s { memories = s.memories + suc (length bs); tasks = all_sends bs })))
      e
    ∙ ap (λ m. works (length bs) connects (record written { memories = m; tasks = all_sends bs }))
        fewer
    ∙ works-sends bs connects n written e
    ∙ ap (λ w. record s { tasks = []; written = w }) (append_assoc s.written (b ∷ []) bs)

pub works-send_all :
    (bs : List (List ℕ)) (connects : Bool) (n : ℕ) (s : PipeSender)
    → s.is_connected ≡ true
    → s.pipe ≡ some n
    → s.tasks ≡ []
    → works (length bs) connects (send_all bs s)
      ≡ record s { tasks = []; written = s.written ++ bs }
works-send_all bs connects n s c e idle =
    ap (works (length bs) connects) (send_all-tasks bs s c)
    ∙ ap
        (λ ts.
          works (length bs) connects
            (record s { memories = s.memories + length bs; tasks = ts ++ all_sends bs }))
        idle
    ∙ works-sends bs connects n s e

-- A send that comes between a close and the Worker's handling of it.
pub late_send_leaks :
    (bytes : List ℕ) (connects : Bool) (n : ℕ) (s : PipeSender)
    → s.is_connected ≡ true
    → s.pipe ≡ some n
    → s.tasks ≡ []
    → works 2 connects (send bytes (close s)) ≡ record s {
      pipe = none;
      is_connected = false;
      handles = s.handles - 1;
      memories = s.memories + 1;
      tasks = [];
    }
unfolding close work work_on on_task do_close close_handle do_send write_pipe
late_send_leaks bytes connects n s c e idle =
    ap (works 2 connects) (send-connected bytes (close s) c)
    ∙ ap
        (λ ts.
          works 2 connects
            (record s { memories = s.memories + 1; tasks = ts ++ closes ∷ [] ++ sends bytes ∷ [] }))
        idle
    ∙ ap
        (λ p. works 1 connects (
          close_handle p (record s {
            is_connected = false;
            memories = s.memories + 1;
            tasks = sends bytes ∷ [];
          })))
        e

-- A second open that fails while the first pipe is open.
pub failed_reopen :
    (m n : ℕ) (s : PipeSender)
    → s.is_connected ≡ true
    → s.pipe ≡ some n
    → s.tasks ≡ []
    → let s' = work false (open_pipe (some m) s).1 in
      (s'.is_connected ≡ true) × (s'.pipe ≡ none) × (s'.handles ≡ s.handles)
unfolding open_pipe work work_on on_task do_open
failed_reopen m n s c e idle =
    let worked =
      ap (λ ts. work false (record s { handles = s.handles + 1; tasks = ts ++ opens m ∷ [] }))
        idle in
    (
      ap (λ (z : PipeSender). z.is_connected) worked ∙ c,
      ap (λ (z : PipeSender). z.pipe) worked,
      ap (λ (z : PipeSender). z.handles) worked ∙ omega arith,
    )
