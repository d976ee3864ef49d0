-- ===== src/EpollServer/Keeps.antt =====
-- That the open connections of the server are those that its handlers were told of: what each
-- operation keeps.
use ryulib_cpp.Common.{
  ℕ, ◌≡◌, refl, sym, ap, subst, ◌∙◌, Bool, true, false, not, ◌&&◌, ◌||◌, none, List, [], ◌∷◌, ◌++◌,
  ◌==◌, if-true, if-false, Bool-cases, inl, inr, if-both, Holds, bind-Holds,
}
use ryulib_cpp.EpollServer.{
  Server, Event, connected, disconnected, received_bytes, Ready, Accepted, LastRead, without, tell,
  close_fd, close_connection, have_new_connection, read_chunks, received, is_done, on_event,
  process_event, set_socket_options,
}

-- The connections that a client of the handlers takes to be open after one more call.
abbrev pub live_after : List ℕ → Event → List ℕ
live_after fds (connected fd) = fd ∷ fds
live_after fds (disconnected fd) = without fd fds
live_after fds (received_bytes fd bytes) = fds

abbrev pub live_from : List ℕ → List Event → List ℕ
live_from fds [] = fds
live_from fds (e ∷ es) = live_from (live_after fds e) es

live_from-append :
    (fds : List ℕ) (es : List Event) (e : Event)
    → live_from fds (es ++ e ∷ []) ≡ live_after (live_from fds es) e
live_from-append fds [] e = refl
live_from-append fds (x ∷ es) e = live_from-append (live_after fds x) es e

abbrev pub has : ℕ → List ℕ → Bool
has fd [] = false
has fd (x ∷ xs) = (x == fd) || has fd xs

or_false : (a b : Bool) → (a || b) ≡ false → (a ≡ false) × (b ≡ false)
or_false true b h = absurd (cc)
or_false false b h = (refl, h)

pub without-absent : (fd : ℕ) (xs : List ℕ) → has fd xs ≡ false → without fd xs ≡ xs
without-absent fd [] h = refl
without-absent fd (x ∷ xs) h =
    let (hx, hs) = or_false (x == fd) (has fd xs) h in
    if-false _ _ hx ∙ ap (◌∷◌ x) (without-absent fd xs hs)

pub has-without : (fd gd : ℕ) (xs : List ℕ) → has fd xs ≡ false → has fd (without gd xs) ≡ false
has-without fd gd [] h = refl
has-without fd gd (x ∷ xs) h =
    let (hx, hs) = or_false (x == fd) (has fd xs) h in
    let kept = has-without fd gd xs hs in
    elim (Bool-cases (x == gd)) [
      | inl e ↦ ap (has fd) (if-true _ _ e) ∙ kept
      | inr e ↦ ap (has fd) (if-false _ _ e) ∙ ap (λ b. b || has fd (without gd xs)) hx ∙ kept
    ]

pub record IsReported (s : Server) : Type 0 where
  pub on_connected : s.on_connected ≡ true
  pub on_disconnected : s.on_disconnected ≡ true
  pub connections : s.connections ≡ live_from [] s.log
  pub absent : has s.sfd s.connections ≡ false

tell-set : (b : Bool) (e : Event) (log : List Event) → b ≡ true → tell b e log ≡ log ++ e ∷ []
tell-set b e log h = if-true _ _ h

close_connection-IsReported :
    (fd : ℕ) (s : Server) → IsReported s → IsReported (close_connection fd s)
unfolding close_connection close_fd
close_connection-IsReported fd s r = record {
  on_connected = r.on_connected;
  on_disconnected = r.on_disconnected;
  connections =
      ap (without fd) r.connections
      ∙ sym (live_from-append [] s.log (disconnected fd))
      ∙ ap (live_from [])
          (sym (tell-set s.on_disconnected (disconnected fd) s.log r.on_disconnected));
  absent = has-without s.sfd fd s.connections r.absent;
}

-- `accept` does not give the descriptor of the listening socket.
abbrev pub Differ : ℕ → List Accepted → Type 0
Differ sfd [] = Unit {0}
Differ sfd (c ∷ rest) = ((c.descriptor == sfd) ≡ false) × Differ sfd rest

have_new_connection-IsReported :
    (cs : List Accepted) (s : Server)
    → Differ s.sfd cs
    → IsReported s
    → Holds (λ s'. IsReported s' × (s'.sfd ≡ s.sfd)) (have_new_connection cs s)
unfolding have_new_connection
have_new_connection-IsReported [] s d r = (r, refl)
have_new_connection-IsReported (c ∷ rest) s (d, ds) r =
    let fd = c.descriptor in
    if-both (Holds (λ s'. IsReported s' × (s'.sfd ≡ s.sfd)))
      (set_socket_options c.options && c.added) _ none
      (have_new_connection-IsReported rest
        (record s {
          connections = fd ∷ s.connections;
          log = tell s.on_connected (connected fd) s.log;
        })
        ds
        (record {
          on_connected = r.on_connected;
          on_disconnected = r.on_disconnected;
          connections =
              ap (◌∷◌ fd) r.connections
              ∙ sym (live_from-append [] s.log (connected fd))
              ∙ ap (live_from [])
                  (sym (tell-set s.on_connected (connected fd) s.log r.on_connected));
          absent = rw d r.absent;
        }))
      tt

tell-bytes :
    (b : Bool) (fd : ℕ) (bytes : List ℕ) (log : List Event)
    → live_from [] (tell b (received_bytes fd bytes) log) ≡ live_from [] log
tell-bytes true fd bytes log = live_from-append [] log (received_bytes fd bytes)
tell-bytes false fd bytes log = refl

read_chunks-IsReported :
    (fd : ℕ) (cs : List (List ℕ)) (s : Server) → IsReported s → IsReported (read_chunks fd cs s)
unfolding read_chunks
read_chunks-IsReported fd [] s r = r
read_chunks-IsReported fd (c ∷ cs) s r =
    read_chunks-IsReported fd cs (record s { log = tell s.on_received (received_bytes fd c) s.log })
      (record {
        on_connected = r.on_connected;
        on_disconnected = r.on_disconnected;
        connections = r.connections ∙ sym (tell-bytes s.on_received fd c s.log);
        absent = r.absent;
      })

read_chunks-sfd : (fd : ℕ) (cs : List (List ℕ)) (s : Server) → (read_chunks fd cs s).sfd ≡ s.sfd
unfolding read_chunks
read_chunks-sfd fd [] s = refl
read_chunks-sfd fd (c ∷ cs) s =
    read_chunks-sfd fd cs (record s { log = tell s.on_received (received_bytes fd c) s.log })

-- What an event keeps.
abbrev pub Keeps : ℕ → Server → Type 0
Keeps sfd s = IsReported s × (s.sfd ≡ sfd)

close_connection-Keeps : (fd : ℕ) (s : Server) → IsReported s → Keeps s.sfd (close_connection fd s)
unfolding close_connection close_fd
close_connection-Keeps fd s r = (close_connection-IsReported fd s r, refl)

received-Keeps :
    (fd : ℕ) (chunks : List (List ℕ)) (last : LastRead) (s : Server)
    → IsReported s
    → Keeps s.sfd (received fd chunks last s)
unfolding received close_connection
received-Keeps fd chunks last s r =
    let read = read_chunks fd chunks s in
    let rr = read_chunks-IsReported fd chunks s r in
    let same = read_chunks-sfd fd chunks s in
    elim (Bool-cases (is_done last)) [
      | inl e ↦
          let (c, k) = close_connection-Keeps fd read rr in
          subst (Keeps s.sfd) (sym (if-true _ _ e)) (c, k ∙ same)
      | inr e ↦ subst (Keeps s.sfd) (sym (if-false _ _ e)) (rr, same)
    ]

on_event-Keeps :
    (e : Ready) (s : Server)
    → Differ s.sfd e.accepted
    → IsReported s
    → Holds (Keeps s.sfd) (on_event e s)
unfolding on_event
on_event-Keeps e s d r =
    if-both (Holds (Keeps s.sfd)) (e.epollerr || e.epollhup || not e.epollin) _ _
      (close_connection-Keeps e.fd s r)
      (if-both (Holds (Keeps s.sfd)) (s.sfd == e.fd) _ _
        (have_new_connection-IsReported e.accepted s d r) (received-Keeps e.fd e.chunks e.last s r))

abbrev pub AllDiffer : ℕ → List Ready → Type 0
AllDiffer sfd [] = Unit {0}
AllDiffer sfd (e ∷ es) = Differ sfd e.accepted × AllDiffer sfd es

pub process_event-Keeps :
    (es : List Ready) (s : Server) (sfd : ℕ)
    → AllDiffer sfd es
    → Keeps sfd s
    → Holds (Keeps sfd) (process_event es s)
unfolding process_event
process_event-Keeps [] s sfd d k = k
process_event-Keeps (e ∷ es) s sfd (d, ds) (r, same) =
    bind-Holds (Keeps sfd) (Keeps sfd) (on_event e s) (process_event es)
      (subst (λ n. Holds (Keeps n) (on_event e s)) same
        (on_event-Keeps e s (subst (λ n. Differ n e.accepted) (sym same) d) r))
      (λ s' k. process_event-Keeps es s' sfd ds k)
