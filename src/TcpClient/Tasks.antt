-- ===== src/TcpClient/Tasks.antt =====
-- What a connected client sends.
use ryulib_cpp.Common.{
  ℕ, zero, suc, ◌≡◌, refl, sym, ap, ◌∙◌, Bool, true, false, Option, some, List, [], ◌∷◌, ◌++◌,
  append-nil, append_assoc, length, if-true, ◌>>=◌,
}
use ryulib_cpp.Common.Int.{pos}
use ryulib_cpp.TcpClient.{
  TcpClient, Task, sends_data, sends_text, disconnected, Answers, tell, is_connected, do_disconnect,
  do_send_data, on_task, round_on, round,
}

abbrev pub Message : Type 0
Message = Bool × List ℕ

-- A message as text or as data.
abbrev pub task_of : Message → Task
task_of (true, bytes) = sends_text bytes
task_of (false, bytes) = sends_data bytes

abbrev pub tasks_of : List Message → List Task
tasks_of [] = []
tasks_of (m ∷ ms) = task_of m ∷ tasks_of ms

abbrev pub bytes_of : List Message → List (List ℕ)
bytes_of [] = []
bytes_of ((kind, bytes) ∷ ms) = bytes ∷ bytes_of ms

-- A round for each of the messages; the kernel takes them all.
pub rounds : ℕ → Answers → List (List ℕ) → TcpClient → Option TcpClient
rounds zero a pieces c = some c
rounds (suc n) a pieces c = round a true pieces c >>= λ c. rounds n a pieces c

rounds-next :
    (n : ℕ) (a : Answers) (pieces : List (List ℕ)) (c c' : TcpClient)
    → round a true pieces c ≡ some c'
    → rounds (suc n) a pieces c ≡ rounds n a pieces c'
unfolding rounds
rounds-next n a pieces c c' e = rw e

send_round :
    (m : Message) (ts : List Task) (a : Answers) (pieces : List (List ℕ)) (c : TcpClient)
    → c.tasks ≡ task_of m ∷ ts
    → is_connected c.socket ≡ true
    → round a true pieces c ≡ some (record c { tasks = ts; sent = c.sent ++ m.1 ∷ [] })
unfolding round round_on on_task do_send_data
send_round (true, bytes) ts a pieces c e h =
    ap (λ q. round_on q a true pieces c) e ∙ ap some (if-true _ _ h)
send_round (false, bytes) ts a pieces c e h =
    ap (λ q. round_on q a true pieces c) e ∙ ap some (if-true _ _ h)

pub rounds-sent :
    (ms : List Message) (a : Answers) (pieces : List (List ℕ)) (c : TcpClient)
    → c.tasks ≡ tasks_of ms
    → is_connected c.socket ≡ true
    → (c' : TcpClient) × (rounds (length ms) a pieces c ≡ some c')
      × (c'.sent ≡ c.sent ++ bytes_of ms)
      × (c'.tasks ≡ [])
      × (c'.socket ≡ c.socket)
unfolding rounds
rounds-sent [] a pieces c e h = (c, refl, sym (append-nil c.sent), e, refl)
rounds-sent (m ∷ ms) a pieces c e h =
    let next = record c { tasks = tasks_of ms; sent = c.sent ++ m.1 ∷ [] } in
    let (c', er, es, et, ek) = rounds-sent ms a pieces next refl h in
    (
      c',
      rounds-next (length ms) a pieces c next (send_round m (tasks_of ms) a pieces c e h) ∙ er,
      es ∙ append_assoc c.sent (m.1 ∷ []) (bytes_of ms),
      et,
      ek,
    )

-- A send that fails ends the connection, and what waits is dropped without a word.
pub failed_send :
    (bytes later : List ℕ) (c : TcpClient)
    → is_connected c.socket ≡ true
    → do_send_data true later (do_send_data false bytes c)
      ≡ record c { socket = pos 0; sent = c.sent; log = c.log ++ disconnected ∷ [] }
unfolding do_send_data do_disconnect tell is_connected
failed_send bytes later c h =
    ap (do_send_data true later) (if-true _ _ h ∙ ap (tell disconnected) (if-true _ _ h))
