-- ===== src/TcpClient/Sockets.antt =====
-- What do_connect leaves on each of its branches.
use ryulib_cpp.Common.{
  ℕ, ◌+◌, ◌≡◌, refl, ap, ◌∙◌, Bool, true, false, ◌&&◌, ◌||◌, some, List, [], ◌∷◌, ◌++◌, if-true,
  leb, ◌⊎◌, ◌≤◌, ◌<◌,
}
use ryulib_cpp.Common.Int.{ℤ, pos, negsuc}
use ryulib_cpp.TcpClient.{
  TcpClient, connected, failed, Answers, tell, is_connected, open_socket, do_connect, fd_setsize,
}

-- The host is an address, or is found.
abbrev pub IsKnown : Answers → ℕ → Type 0
IsKnown a x = ((48 ≤ x) × (x ≤ 57)) ⊎ (a.host_found ≡ true)

abbrev pub IsUnknown : Answers → ℕ → Type 0
IsUnknown a x = ((x < 48) ⊎ (57 < x)) × (a.host_found ≡ false)

-- The kernel makes the connection, at once or while `select` waits for it.
abbrev pub IsMade : Answers → Type 0
IsMade a = (a.connects_at_once ≡ true) ⊎ ((a.in_progress ≡ true) × (a.selected ≡ true))

abbrev pub IsFailed : Answers → Type 0
IsFailed a = (a.connects_at_once ≡ false) × ((a.in_progress ≡ false) ⊎ (a.selected ≡ false))

-- How `do_connect` of a client `c` to a host that begins with `x` ends in `c'`, and why.
pub data Ending (a : Answers) (x : ℕ) (c : TcpClient) : TcpClient → Type 0 where
  is_connected_to :
      (n : ℕ)
      → IsKnown a x
      → a.socket ≡ pos n
      → IsMade a
      → Ending a x c (record c {
        socket = pos n;
        open_sockets = c.open_sockets + 1;
        log = c.log ++ connected ∷ [];
      })
  is_refused :
      (n : ℕ)
      → IsKnown a x
      → a.socket ≡ pos n
      → IsFailed a
      → Ending a x c (record c {
        socket = pos 0;
        open_sockets = c.open_sockets + 1;
        log = c.log ++ failed (negsuc 2) ∷ [];
      })
  has_no_socket :
      (n : ℕ)
      → IsKnown a x
      → a.socket ≡ negsuc n
      → Ending a x c (record c { socket = negsuc n; log = c.log ++ failed (negsuc 1) ∷ [] })
  has_no_host : IsUnknown a x → Ending a x c (record c { log = c.log ++ failed (negsuc 0) ∷ [] })

-- A descriptor that FD_SET takes and that is not the 0 of no socket, or an error.
abbrev pub IsDescriptor : ℤ → Type 0
IsDescriptor (pos n) = (0 < n) × (n < fd_setsize)
IsDescriptor (negsuc n) = Unit {0}

-- One of the endings.
abbrev pub Ends : Answers → ℕ → TcpClient → TcpClient → Type 0
Ends a x c c' = (e : TcpClient) × (c' ≡ e) × Ending a x c e

or_right : (a b : Bool) → b ≡ true → (a || b) ≡ true
or_right true b h = refl
or_right false b h = h

pub failed_socket_connected :
    (a : Answers) (x n : ℕ) (host : List ℕ) (c : TcpClient)
    → a.host_found ≡ true
    → a.socket ≡ negsuc n
    → (c' : TcpClient) × (do_connect a (x ∷ host) c ≡ some c')
      × (c'.log ≡ c.log ++ failed (negsuc 1) ∷ [])
      × (is_connected c'.socket ≡ true)
unfolding do_connect open_socket tell is_connected
failed_socket_connected a x n host c h e = (
  record c { socket = negsuc n; log = c.log ++ failed (negsuc 1) ∷ [] },
  if-true _ _ (or_right (leb 48 x && leb x 57) a.host_found h) ∙ ap (λ s. open_socket a s c) e,
  refl,
  refl,
)
