-- ===== src/Socket/Tests.antt =====
-- src/socket.rs: the theorems on a listener, a client and a connected pair.
use macha_os.Prelude.{zero, suc, ◌≡◌, refl, false, some, [], ◌∷◌, ◌++◌, arith, slot, insert_from}
use macha_os.Pmm.{initial}
use macha_os.Shm.{Shm, SharedMem}
use macha_os.Socket.{
  Sockets, Endpoint, listening, connected, fresh, create, connect, send, close, peer_of,
  alloc_endpoint, find_listener,
}
use macha_os.Socket.Stream.{read_all, inbox_of, read_all-send}
use macha_os.Socket.Passing.{AllHeld}
use macha_os.Socket.Connect.{next_id, server_for, connect_dead_client, send_reaches_stranger}

abbrev listener : Endpoint
listener = record fresh { role = listening; backlog = 4 ∷ [] }

abbrev talker : Endpoint
talker = record fresh { role = connected 3; inbox = 1 ∷ 2 ∷ 3 ∷ [] }

abbrev hearer : Endpoint
hearer = record fresh { role = connected 2; inbox = 9 ∷ [] }

-- A listener at 0, a client at 1, a connected pair at 2 and 3, and an end at 4 whose peer is gone.
abbrev net : Sockets
net = record {
  endpoints =
      some listener
      ∷ some fresh
      ∷ some talker
      ∷ some hearer
      ∷ some (record fresh { role = connected 7 })
      ∷ [];
  listeners = ("/run/w", 0) ∷ [];
}

abbrev object : SharedMem
object = record { phys = 0; pages = 0; size = 0; refcount = 1 }

abbrev memory : Shm
memory = record { table = some object ∷ []; pmm = initial; bytes = λ a. 0 }

memory-AllHeld : AllHeld memory
memory-AllHeld zero o e = ground arith
memory-AllHeld (suc j) o e = ground arith

peer_known : peer_of net 2 ≡ some 3
unfolding peer_of
peer_known = refl

peer_lost : peer_of net 4 ≡ some 7
unfolding peer_of
peer_lost = refl

listed : find_listener "/run/w" net.listeners ≡ some 0
unfolding find_listener
listed = refl

read_all-send_example :
    (read_all (send net memory 2 (5 ∷ 6 ∷ []) (0 ∷ [])).1 3 (2 ∷ [])).0
      ++ inbox_of (read_all (send net memory 2 (5 ∷ 6 ∷ []) (0 ∷ [])).1 3 (2 ∷ [])).1 3
    ≡ (9 ∷ []) ++ (5 ∷ 6 ∷ [])
read_all-send_example =
    read_all-send net memory 2 3 hearer (5 ∷ 6 ∷ []) (0 ∷ []) (2 ∷ []) peer_known refl

next_free : next_id net (server_for 9) ≡ 5
unfolding alloc_endpoint insert_from
next_free = refl

connect_dead_client_example :
    ((connect net 9 "/run/w").0 ≡ false)
    × (slot (connect net 9 "/run/w").1.endpoints (next_id net (server_for 9)) ≡ some (server_for 9))
    × (slot (connect net 9 "/run/w").1.endpoints 0
        ≡ some (record listener { backlog = listener.backlog ++ next_id net (server_for 9) ∷ [] }))
connect_dead_client_example =
    connect_dead_client net 9 0 "/run/w" listener listed refl refl
      (λ e. ground (arith, next_free, e))

id_reused : (create (close net memory 3).0).0 ≡ 3
unfolding create close alloc_endpoint insert_from
id_reused = refl

send_reaches_stranger_example :
    ((send (create (close net memory 3).0).1 memory 2 (5 ∷ []) []).0 ≡ some 1)
    × (slot (send (create (close net memory 3).0).1 memory 2 (5 ∷ []) []).1.endpoints 3
        ≡ some (record fresh { inbox = 5 ∷ [] }))
send_reaches_stranger_example =
    send_reaches_stranger net memory memory 2 3 talker (5 ∷ []) (λ e. ground arith) refl refl
      id_reused
