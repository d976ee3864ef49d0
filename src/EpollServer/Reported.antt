-- ===== src/EpollServer/Reported.antt =====
-- The open connections of the server in every state that it reaches.
use ryulib_cpp.Common.{
  ℕ, ◌≡◌, refl, sym, ap, subst, ◌∙◌, Bool, true, false, ◌&&◌, Option, none, some, List, [], ◌∷◌,
  if◌then◌else◌, ◌==◌, if-both, Holds, some-Holds, if-true, if-false, Bool-cases, inl, inr,
}
use ryulib_cpp.ThreadQueue
use ryulib_cpp.EpollServer.{
  Server, Task, task_start, task_stop, StartAnswers, Address, Bound, bind_first, create_and_bind,
  listen_on, do_task_start, do_task_stop, do_task, Ready, close_fd, process_event, pop_step,
  thread_step, start, stop, set_socket_options, new_server,
}
use ryulib_cpp.EpollServer.Keeps.{
  live_from, has, without-absent, IsReported, Keeps, AllDiffer, process_event-Keeps,
}

abbrev pub IsAbsent : Option ℕ → List ℕ → Type 0
IsAbsent none fds = Unit {0}
IsAbsent (some fd) fds = has fd fds ≡ false

abbrev pub AllAbsent : List Address → List ℕ → Type 0
AllAbsent [] fds = Unit {0}
AllAbsent (a ∷ rest) fds = IsAbsent a.descriptor fds × AllAbsent rest fds

abbrev pub AnyAbsent : Option (List Address) → List ℕ → Type 0
AnyAbsent none fds = Unit {0}
AnyAbsent (some addresses) fds = AllAbsent addresses fds

-- The kernel gives no descriptor that is open.
abbrev pub IsFresh : StartAnswers → List Ready → Server → Type 0
IsFresh a ready s = AnyAbsent a.addresses s.connections × AllDiffer s.sfd ready

picked :
    (d : Option ℕ) (bound : Bool) (later : Bound) (fds : List ℕ)
    → IsAbsent d fds
    → IsAbsent later.descriptor fds
    → IsAbsent
        (elim d as (λ x. Bound) [
          | none ↦ later
          | some fd ↦
              if bound then record { descriptor = some fd; open_sockets = 1; infos = 0 } else later
        ]).descriptor
        fds
picked none bound later fds f h = h
picked (some fd) true later fds f h = f
picked (some fd) false later fds f h = h

bind_first-IsAbsent :
    (addresses : List Address) (fds : List ℕ)
    → AllAbsent addresses fds
    → IsAbsent (bind_first addresses).descriptor fds
unfolding bind_first
bind_first-IsAbsent [] fds f = tt
bind_first-IsAbsent (a ∷ rest) fds (f, fs) =
    picked a.descriptor a.bound (bind_first rest) fds f (bind_first-IsAbsent rest fds fs)

do_task_stop-IsReported : (s : Server) → IsReported s → IsReported (do_task_stop s)
unfolding do_task_stop close_fd
do_task_stop-IsReported s r =
    let kept = without-absent s.sfd s.connections r.absent in
    elim (Bool-cases s.is_started) [
      | inl e ↦ subst IsReported (sym (if-true _ _ e)) (record {
        on_connected = r.on_connected;
        on_disconnected = r.on_disconnected;
        connections = kept ∙ r.connections;
        absent = ap (has s.sfd) kept ∙ r.absent;
      })
      | inr e ↦ subst IsReported (sym (if-false _ _ e)) r
    ]

listen_on-IsReported :
    (a : StartAnswers) (s : Server) (b : Bound) (fd : Option ℕ)
    → b.descriptor ≡ fd
    → IsAbsent fd s.connections
    → IsReported s
    → Holds IsReported (listen_on a s b)
unfolding listen_on
listen_on-IsReported a s b none e f r = rw e tt
listen_on-IsReported a s b (some fd) e f r = rw e (
    if-both (Holds IsReported) (set_socket_options a.options && a.listens && a.added) _ none
      (record {
        on_connected = r.on_connected;
        on_disconnected = r.on_disconnected;
        connections = r.connections;
        absent = f;
      })
      tt)

create_and_bind-IsAbsent :
    (a : Option (List Address)) (fds : List ℕ)
    → AnyAbsent a fds
    → IsAbsent (create_and_bind a).descriptor fds
unfolding create_and_bind
create_and_bind-IsAbsent none fds f = tt
create_and_bind-IsAbsent (some addresses) fds f = bind_first-IsAbsent addresses fds f

do_task_start-IsReported :
    (a : StartAnswers) (s : Server) (ready : List Ready)
    → IsFresh a ready s
    → IsReported s
    → Holds IsReported (do_task_start a s)
unfolding do_task_start
do_task_start-IsReported a s ready (f, d) r = if-both (Holds IsReported) s.is_started (some s) _ r (
    listen_on-IsReported a s (create_and_bind a.addresses) _ refl
      (create_and_bind-IsAbsent a.addresses s.connections f) r)

weaken : (sfd : ℕ) (o : Option Server) → Holds (Keeps sfd) o → Holds IsReported o
weaken sfd none h = tt
weaken sfd (some s) (r, same) = r

pop_step-IsReported :
    (a : StartAnswers) (ready : List Ready) (s : Server) (p : Option Task × List Task)
    → IsFresh a ready s
    → IsReported s
    → Holds IsReported (pop_step a ready s p)
unfolding pop_step do_task
pop_step-IsReported a ready s (none, q) (f, d) r =
    if-both (Holds IsReported) s.is_started _ (some s)
      (weaken s.sfd (process_event ready s) (process_event-Keeps ready s s.sfd d (r, refl))) r
pop_step-IsReported a ready s (some t, q) f r =
    let s₁ = record s { tasks = q } in
    let r₁ : IsReported s₁ = record {
      on_connected = r.on_connected;
      on_disconnected = r.on_disconnected;
      connections = r.connections;
      absent = r.absent;
    } in
    if-both (Holds IsReported) (t.task_type == task_start) _ _
      (do_task_start-IsReported a s₁ ready f r₁)
      (if-both (Holds IsReported) (t.task_type == task_stop) _ (some s₁)
        (do_task_stop-IsReported s₁ r₁) r₁)

-- A call of a client, or a round of the thread with answers of the kernel.
infix 40 ◌⟶◌
pub data ◌⟶◌ : Server → Server → Type 0 where
  starts : {s : Server} (aport : ℕ) → s ⟶ start s aport
  stops : {s : Server} → s ⟶ stop s
  sets_on_received : {s : Server} (value : Bool) → s ⟶ record s { on_received = value }
  rounds :
      {s s' : Server} (a : StartAnswers) (ready : List Ready)
      → IsFresh a ready s
      → thread_step a ready s ≡ some s'
      → s ⟶ s'

-- The states that a server gets into whose two other handlers are set first.
pub data Reachable : Server → Type 0 where
  begins :
      (garbage : ℕ)
      → Reachable (record (new_server garbage) { on_connected = true; on_disconnected = true })
  follows : {s s' : Server} → Reachable s → s ⟶ s' → Reachable s'

Step-IsReported : {s s' : Server} → s ⟶ s' → IsReported s → IsReported s'
unfolding start stop thread_step
Step-IsReported {s} (starts aport) r = record {
  on_connected = r.on_connected;
  on_disconnected = r.on_disconnected;
  connections = r.connections;
  absent = r.absent;
}
Step-IsReported stops r = record {
  on_connected = r.on_connected;
  on_disconnected = r.on_disconnected;
  connections = r.connections;
  absent = r.absent;
}
Step-IsReported (sets_on_received value) r = record {
  on_connected = r.on_connected;
  on_disconnected = r.on_disconnected;
  connections = r.connections;
  absent = r.absent;
}
Step-IsReported {s} {s'} (rounds a ready f e) r =
    some-Holds IsReported (thread_step a ready s) s'
      (pop_step-IsReported a ready s (ThreadQueue.pop s.tasks) f r) e

Reachable-IsReported : {s : Server} → Reachable s → IsReported s
unfolding new_server
Reachable-IsReported (begins garbage) = record {
  on_connected = refl;
  on_disconnected = refl;
  connections = refl;
  absent = refl;
}
Reachable-IsReported (follows r step) = Step-IsReported step (Reachable-IsReported r)

-- In every state that a server with handlers for connections and disconnections reaches, where the
-- kernel gives no descriptor that is open, the open connections are exactly those that the handlers
-- were told of and not told the end of.
pub Reachable-connections : {s : Server} → Reachable s → s.connections ≡ live_from [] s.log
Reachable-connections r = (Reachable-IsReported r).connections
