-- ===== src/EpollServer/Received.antt =====
-- What the server does with a connection that has something to read.
use ryulib_cpp.Common.{
  ℕ, ◌≡◌, refl, sym, ap, subst, ◌∙◌, true, List, [], ◌∷◌, ◌++◌, append_assoc, append-nil, map,
  if◌then◌else◌, if-true,
}
use ryulib_cpp.EpollServer.{
  Server, Event, disconnected, received_bytes, without, close_fd, close_connection, LastRead,
  would_block, failed, end_of_stream, is_done, read_chunks, received,
}

-- What `received` hands to the handlers.
abbrev pub reports : ℕ → List (List ℕ) → LastRead → List Event
reports fd chunks end_of_stream = map (received_bytes fd) chunks ++ disconnected fd ∷ []
reports fd chunks last = map (received_bytes fd) chunks

-- The connections behind it.
abbrev pub remaining : ℕ → LastRead → List ℕ → List ℕ
remaining fd end_of_stream fds = without fd fds
remaining fd last fds = fds

read_chunks-log :
    (fd : ℕ) (chunks : List (List ℕ)) (s : Server)
    → s.on_received ≡ true
    → read_chunks fd chunks s ≡ record s { log = s.log ++ map (received_bytes fd) chunks }
unfolding read_chunks
read_chunks-log fd [] s h = ap (λ log. record s { log = log }) (sym (append-nil s.log))
read_chunks-log fd (c ∷ cs) s h =
    ap (λ log. read_chunks fd cs (record s { log = log })) (if-true _ _ h)
    ∙ read_chunks-log fd cs (record s { log = s.log ++ received_bytes fd c ∷ [] }) h
    ∙ ap (λ log. record s { log = log })
        (append_assoc s.log (received_bytes fd c ∷ []) (map (received_bytes fd) cs))

reported :
    (fd : ℕ) (chunks : List (List ℕ)) (last : LastRead) (s : Server)
    → s.on_disconnected ≡ true
    → let read = record s { log = s.log ++ map (received_bytes fd) chunks } in
      let after = if is_done last then close_connection fd read else read in
      (after.log ≡ s.log ++ reports fd chunks last)
      × (after.connections ≡ remaining fd last s.connections)
      × (after.is_started ≡ s.is_started)
unfolding is_done close_connection close_fd
reported fd chunks would_block s h = (refl, refl, refl)
reported fd chunks failed s h = (refl, refl, refl)
reported fd chunks end_of_stream s h = (
  if-true _ _ h ∙ append_assoc s.log (map (received_bytes fd) chunks) (disconnected fd ∷ []),
  refl,
  refl,
)

-- With handlers set, received hands on the bytes of each read in order, whatever ends the loop, and
-- reports and closes the connection where the other side has closed it, but leaves it open after an
-- error of read.
pub received-reports :
    (fd : ℕ) (chunks : List (List ℕ)) (last : LastRead) (s : Server)
    → s.on_received ≡ true
    → s.on_disconnected ≡ true
    → ((received fd chunks last s).log ≡ s.log ++ reports fd chunks last)
      × ((received fd chunks last s).connections ≡ remaining fd last s.connections)
      × ((received fd chunks last s).is_started ≡ s.is_started)
unfolding received is_done close_connection close_fd
received-reports fd chunks last s hr hd =
    subst
      (λ read.
        let after = if is_done last then close_connection fd read else read in
        (after.log ≡ s.log ++ reports fd chunks last)
        × (after.connections ≡ remaining fd last s.connections)
        × (after.is_started ≡ s.is_started))
      (sym (read_chunks-log fd chunks s hr)) (reported fd chunks last s hd)
