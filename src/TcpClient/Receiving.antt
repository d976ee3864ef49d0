-- ===== src/TcpClient/Receiving.antt =====
-- What a client that has no tasks receives, and what it does not notice.
use ryulib_cpp.Common.{
  ℕ, zero, suc, ◌+◌, ◌*◌, ◌^◌, ◌<◌, ◌≡◌, refl, sym, ap, ◌∙◌, Bool, true, Option, some, List, [],
  ◌∷◌, ◌++◌, append-nil, append_assoc, map, replicate, if-true, arith, ◌>>=◌,
}
use ryulib_cpp.Common.Blocks.{add_int-some}
use ryulib_cpp.TcpClient.{
  TcpClient, repeated, received, Answers, tell, tell_all, is_connected, do_receive, on_repeat,
  round_on, round,
}

tell_all-log :
    (pieces : List (List ℕ)) (c : TcpClient)
    → tell_all pieces c ≡ record c { log = c.log ++ map received pieces }
unfolding tell_all tell
tell_all-log [] c = ap (λ log. record c { log = log }) (sym (append-nil c.log))
tell_all-log (piece ∷ pieces) c =
    tell_all-log pieces (record c { log = c.log ++ received piece ∷ [] })
    ∙ ap (λ log. record c { log = log })
        (append_assoc c.log (received piece ∷ []) (map received pieces))

pub do_receive-pieces :
    (piece : List ℕ) (pieces : List (List ℕ)) (c : TcpClient)
    → is_connected c.socket ≡ true
    → do_receive (piece ∷ pieces) c
      ≡ (true, record c { log = c.log ++ map received (piece ∷ pieces) })
unfolding do_receive tell_all
do_receive-pieces piece pieces c h =
    if-true _ _ h ∙ ap (λ c. (true, c)) (tell_all-log (piece ∷ pieces) c)

-- As many rounds in which `recv` gives nothing.
pub silent_rounds : ℕ → Answers → Bool → TcpClient → Option TcpClient
silent_rounds zero a ok c = some c
silent_rounds (suc n) a ok c = round a ok [] c >>= λ c. silent_rounds n a ok c

silent_round :
    (a : Answers) (ok : Bool) (c : TcpClient)
    → c.tasks ≡ []
    → c.idle_count + 5 < 2 ^ 31
    → round a ok [] c
      ≡ some (record c { idle_count = c.idle_count + 5; log = c.log ++ repeated ∷ [] })
unfolding round round_on on_repeat do_receive tell
silent_round a ok c e i =
    ap (λ ts. round_on ts a ok [] c) e
    ∙ ap (λ o. o >>= λ n. some (record c { idle_count = n; log = c.log ++ repeated ∷ [] }))
        (add_int-some c.idle_count 5 i)

silent_rounds-next :
    (n : ℕ) (a : Answers) (ok : Bool) (c c' : TcpClient)
    → round a ok [] c ≡ some c'
    → silent_rounds (suc n) a ok c ≡ silent_rounds n a ok c'
unfolding silent_rounds
silent_rounds-next n a ok c c' e = rw e

-- While recv gives nothing, also because the other side has closed, a client without tasks stays
-- connected for any number of rounds that keep its idle count an int: it only calls on_repeat and
-- adds 5 to its idle count in each.
pub closed_unnoticed :
    (n : ℕ) (a : Answers) (ok : Bool) (c : TcpClient)
    → c.tasks ≡ []
    → c.idle_count + 5 * n < 2 ^ 31
    → (c' : TcpClient) × (silent_rounds n a ok c ≡ some c')
      × (c'.socket ≡ c.socket)
      × (c'.log ≡ c.log ++ replicate n repeated)
      × (c'.idle_count ≡ c.idle_count + 5 * n)
unfolding silent_rounds
closed_unnoticed zero a ok c e i = (c, refl, refl, sym (append-nil c.log), omega arith)
closed_unnoticed (suc n) a ok c e i =
    let next = record c { idle_count = c.idle_count + 5; log = c.log ++ repeated ∷ [] } in
    let (c', er, es, el, ei) = closed_unnoticed n a ok next e (omega arith) in
    (
      c',
      silent_rounds-next n a ok c next (silent_round a ok c e (omega arith)) ∙ er,
      es,
      el ∙ append_assoc c.log (repeated ∷ []) (replicate n repeated),
      omega (arith, ei),
    )
