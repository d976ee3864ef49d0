-- ===== src/SocketServer/Listed.antt =====
-- The list of connections of a SocketServer.
use ryulib_cpp.Common.{
  ℕ, suc, ◌+◌, ◌≤◌, ◌≡◌, refl, Bool, true, false, List, [], ◌∷◌, ◌++◌, if◌then◌else◌, ◌==◌, ltb,
  arith,
}
use ryulib_cpp.SocketUtils.{packet_limit}
use ryulib_cpp.SocketServer.{
  SocketServer, new_server, do_connected, do_disconnected, fire_connected_event,
  fire_disconnected_event, remove, start, handle_accept, handle_read_header, handle_read_body,
  handle_write, set_reading, set_size_field, fire, Reading, no_read, header, body, Event, errors,
  received, Action, accepts, reads_header, reads_body, writes, read_header, read_body, act, run,
}

-- How often a pointer is in a list.
abbrev pub count : ℕ → List ℕ → ℕ
count a [] = 0
count a (b ∷ bs) = let rest = count a bs in if b == a then suc rest else rest

abbrev pub one_if : Bool → ℕ
one_if true = 1
one_if false = 0

-- Each connection is in the list once while it is connected, and else not at all; those that are
-- still to come are not connected.
pub record IsValid (s : SocketServer) : Type 0 where
  pub listed : (a : ℕ) → count a s.connection_list ≡ one_if (s.store a).is_connected
  pub fresh : (a : ℕ) → s.created ≤ a → (s.store a).is_connected ≡ false

count-snoc : (a b : ℕ) (xs : List ℕ) → count a (xs ++ b ∷ []) ≡ count a xs + one_if (b == a)
count-snoc a b [] = ground arith
count-snoc a b (x ∷ xs) = ground (arith, count-snoc a b xs)

count-remove : (a b : ℕ) (xs : List ℕ) → count b (remove a xs) ≡ (if b == a then 0 else count b xs)
unfolding remove
count-remove a b [] = ground arith
count-remove a b (x ∷ xs) = ground (arith, count-remove a b xs)

connected-IsValid :
    (s : SocketServer)
    → IsValid s
    → IsValid (record (fire_connected_event s s.created) { created = suc s.created })
unfolding fire_connected_event do_connected
connected-IsValid s v = record {
  listed = λ a. ground (
    arith,
    count-snoc a s.created s.connection_list,
    v.listed a,
    v.listed s.created,
    v.fresh s.created (omega arith),
  );
  fresh = λ a h. ground (arith, v.fresh a (omega arith));
}

disconnected-IsValid :
    (s : SocketServer) (a : ℕ) → IsValid s → IsValid (fire_disconnected_event s a)
unfolding fire_disconnected_event do_disconnected
disconnected-IsValid s a v = record {
  listed = λ b. ground (arith, count-remove a b s.connection_list, v.listed b);
  fresh = λ b h. ground (arith, v.fresh b h);
}

set_reading-IsValid :
    (s : SocketServer) (a : ℕ) (r : Reading) → IsValid s → IsValid (set_reading s a r)
set_reading-IsValid s a r v = record {
  listed = λ b. ground (arith, v.listed b);
  fresh = λ b h. ground (arith, v.fresh b h);
}

set_size_field-IsValid :
    (s : SocketServer) (a size : ℕ) → IsValid s → IsValid (set_size_field s a size)
set_size_field-IsValid s a size v = record {
  listed = λ b. ground (arith, v.listed b);
  fresh = λ b h. ground (arith, v.fresh b h);
}

fire-IsValid : (s : SocketServer) (e : Event) → IsValid s → IsValid (fire s e)
fire-IsValid s e v = record { listed = v.listed; fresh = v.fresh }

handle_accept-IsValid :
    (s : SocketServer) (error : Bool) → IsValid s → IsValid (handle_accept s error)
unfolding handle_accept start
handle_accept-IsValid s true v = record {
  listed = v.listed;
  fresh = λ a h. v.fresh a (omega arith);
}
handle_accept-IsValid s false v =
    set_reading-IsValid (record (fire_connected_event s s.created) { created = suc s.created })
      s.created header (connected-IsValid s v)

handle_read_header-IsValid :
    (s : SocketServer) (a : ℕ) (error : Bool) (size : ℕ)
    → IsValid s
    → IsValid (handle_read_header s a error size)
unfolding handle_read_header
handle_read_header-IsValid s a true size v =
    set_reading-IsValid (fire_disconnected_event s a) a no_read (disconnected-IsValid s a v)
handle_read_header-IsValid s a false size v =
    let t = set_size_field s a size in
    let w = set_size_field-IsValid s a size v in
    set_reading-IsValid _ a _ (checked (ltb packet_limit size) t w)
  where
    checked :
        (b : Bool) (t : SocketServer)
        → IsValid t
        → IsValid (if b then fire_disconnected_event (fire t errors) a else t)
    checked true t w = disconnected-IsValid (fire t errors) a (fire-IsValid t errors w)
    checked false t w = w

handle_read_body-IsValid :
    (s : SocketServer) (a : ℕ) (error : Bool) → IsValid s → IsValid (handle_read_body s a error)
unfolding handle_read_body
handle_read_body-IsValid s a true v =
    set_reading-IsValid (fire_disconnected_event s a) a no_read (disconnected-IsValid s a v)
handle_read_body-IsValid s a false v =
    set_reading-IsValid (fire s (received a (s.store a).size_field)) a header
      (fire-IsValid s (received a (s.store a).size_field) v)

read_header-IsValid :
    (r : Reading) (s : SocketServer) (a : ℕ) (error : Bool) (size : ℕ)
    → IsValid s
    → IsValid (read_header r s a error size)
unfolding read_header
read_header-IsValid header s a error size v = handle_read_header-IsValid s a error size v
read_header-IsValid (body n) s a error size v = v
read_header-IsValid no_read s a error size v = v

read_body-IsValid :
    (r : Reading) (s : SocketServer) (a : ℕ) (error : Bool)
    → IsValid s
    → IsValid (read_body r s a error)
unfolding read_body
read_body-IsValid (body n) s a error v = handle_read_body-IsValid s a error v
read_body-IsValid header s a error v = v
read_body-IsValid no_read s a error v = v

act-IsValid : (s : SocketServer) (a : Action) → IsValid s → IsValid (act s a)
unfolding act handle_write
act-IsValid s (accepts error) v = handle_accept-IsValid s error v
act-IsValid s (reads_header a error size) v =
    read_header-IsValid (s.store a).reading s a error size v
act-IsValid s (reads_body a error) v = read_body-IsValid (s.store a).reading s a error v
act-IsValid s (writes a true) v = disconnected-IsValid s a v
act-IsValid s (writes a false) v = v

run-IsValid : (s : SocketServer) (acts : List Action) → IsValid s → IsValid (run s acts)
unfolding run
run-IsValid s [] v = v
run-IsValid s (a ∷ acts) v = run-IsValid (act s a) acts (act-IsValid s a v)

-- After any sequence of accepts, reads and writes, each connection of a new server is in the list
-- once while it is connected and else not at all, and none that is still to come is connected.
pub run-new_server : (acts : List Action) → IsValid (run new_server acts)
unfolding new_server
run-new_server acts =
    run-IsValid new_server acts (record { listed = λ a. refl; fresh = λ a h. refl })
