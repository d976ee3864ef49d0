-- ===== src/EpollServer/Bind.antt =====
-- The socket that the server listens on: what create_and_bind leaves open, and what a stop does.
use ryulib_cpp.Common.{
  ℕ, ◌≡◌, refl, ap, ◌∙◌, Bool, true, false, Option, none, some, List, [], ◌∷◌, if◌then◌else◌,
  if-true, if-false,
}
use ryulib_cpp.ThreadQueue
use ryulib_cpp.EpollServer.{
  Server, Address, Bound, bind_first, create_and_bind, Ready, StartAnswers, close_fd, do_task_stop,
  pop_step, thread_step,
}
use ryulib_cpp.EpollServer.Keeps.{has, without-absent}

-- The descriptors of the sockets that are opened and bound.
abbrev pub usable : List Address → List ℕ
usable [] = []
usable (a ∷ rest) = elim a.descriptor [
  | none ↦ usable rest
  | some fd ↦ if a.bound then fd ∷ usable rest else usable rest
]

-- What create_and_bind is to leave: the first of them and nothing else, or nothing.
abbrev pub LeavesFirst : List ℕ → Bound → Type 0
LeavesFirst [] b = (b.descriptor ≡ none) × (b.open_sockets ≡ 0) × (b.infos ≡ 1)
LeavesFirst (fd ∷ fds) b = (b.descriptor ≡ some fd) × (b.open_sockets ≡ 1) × (b.infos ≡ 0)

first_of_one :
    (d : Option ℕ) (bound : Bool) (later : Bound) (fds : List ℕ)
    → LeavesFirst fds later
    → LeavesFirst
        (elim d as (λ x. List ℕ) [ none ↦ fds | some fd ↦ if bound then fd ∷ fds else fds ])
        (elim d as (λ x. Bound) [
          | none ↦ later
          | some fd ↦
              if bound then record { descriptor = some fd; open_sockets = 1; infos = 0 } else later
        ])
first_of_one none bound later fds h = h
first_of_one (some fd) true later fds h = (refl, refl, refl)
first_of_one (some fd) false later fds h = h

-- create_and_bind leaves open the first socket that is opened and bound, and nothing else, or no
-- socket where there is none; in the second case it does not free the list of addresses.
pub create_and_bind-LeavesFirst :
    (addresses : List Address) → LeavesFirst (usable addresses) (create_and_bind (some addresses))
unfolding create_and_bind bind_first
create_and_bind-LeavesFirst [] = (refl, refl, refl)
create_and_bind-LeavesFirst (a ∷ rest) =
    first_of_one a.descriptor a.bound (bind_first rest) (usable rest)
      (create_and_bind-LeavesFirst rest)

idle_round :
    (a : StartAnswers) (ready : List Ready) (s : Server)
    → s.is_started ≡ false
    → s.tasks ≡ []
    → thread_step a ready s ≡ some s
unfolding thread_step pop_step ThreadQueue.pop
idle_round a ready s started idle =
    ap (λ q. pop_step a ready s (ThreadQueue.pop q)) idle ∙ if-false _ _ started

pub stop_keeps_connections :
    (s : Server) (a : StartAnswers) (ready : List Ready)
    → s.is_started ≡ true
    → s.tasks ≡ []
    → has s.sfd s.connections ≡ false
    → ((do_task_stop s).connections ≡ s.connections)
      × (thread_step a ready (do_task_stop s) ≡ some (do_task_stop s))
unfolding do_task_stop close_fd thread_step pop_step ThreadQueue.pop
stop_keeps_connections s a ready started idle absent =
    let stopped : do_task_stop s ≡ close_fd s.sfd (record s { is_started = false }) =
      if-true _ _ started in
    (
      ap (λ z. z.connections) stopped ∙ without-absent s.sfd s.connections absent,
      idle_round a ready (do_task_stop s) (ap (λ z. z.is_started) stopped)
          (ap (λ z. z.tasks) stopped ∙ idle),
    )
