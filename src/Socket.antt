-- ===== src/Socket.antt =====
-- src/socket.rs: AF_UNIX stream sockets inside the kernel, with file descriptors passed along.
-- The static STATE is the record `Sockets`; what `send` and `close` do to passed descriptors goes
-- through the shared-memory table, which they take and return. The lock makes each call one step.
-- A buffer is given by its length, and what is copied into it is returned.

pub mod Stream
pub mod Passing
pub mod Connect
mod Tests
use Prim.Native.String.{String}
use text.Mathlib.Text.{◌==◌ as str_eq}
use macha_os.Prelude.{
  ℕ, zero, suc, ◌+◌, Bool, true, false, not, Option, none, some, List, [], ◌∷◌, ◌++◌, set, slot,
  insert_from, take, drop, length, min, ◌==◌, if◌then◌else◌,
}
use macha_os.Shm as SharedMemory
use macha_os.Shm.{Shm}

pub data Role : Type 0 where
  idle : Role
  bound : String → Role
  listening : Role
  connected : ℕ → Role

pub record Endpoint : Type 0 where
  pub role : Role
  pub inbox : List ℕ
  pub inbox_fds : List ℕ
  pub backlog : List ℕ

abbrev pub fresh : Endpoint
fresh = record { role = idle; inbox = []; inbox_fds = []; backlog = [] }

pub record Sockets : Type 0 where
  pub endpoints : List (Option Endpoint)
  pub listeners : List (String × ℕ)

abbrev pub empty : Sockets
empty = record { endpoints = []; listeners = [] }

-- The map of listeners: `get`, `insert` and `retain(|_, lid| lid != id)`.
unfoldable pub find_listener : String → List (String × ℕ) → Option ℕ
find_listener path [] = none
find_listener path ((p, id) ∷ rest) = if str_eq p path then some id else find_listener path rest

unfoldable pub insert_listener : String → ℕ → List (String × ℕ) → List (String × ℕ)
insert_listener path id [] = (path, id) ∷ []
insert_listener path id ((p, old) ∷ rest) =
    if str_eq p path then (path, id) ∷ rest else (p, old) ∷ insert_listener path id rest

unfoldable pub retain_others : ℕ → List (String × ℕ) → List (String × ℕ)
retain_others id [] = []
retain_others id ((p, lid) ∷ rest) =
    let others = retain_others id rest in if lid == id then others else (p, lid) ∷ others

abbrev pub write : Sockets → ℕ → Endpoint → Sockets
write s id ep = record s { endpoints = set s.endpoints id (some ep) }

unfoldable pub alloc_endpoint : Sockets → Endpoint → ℕ × Sockets
alloc_endpoint s ep =
    let (id, endpoints) = insert_from 0 s.endpoints ep in (id, record s { endpoints = endpoints })

unfoldable pub create : Sockets → ℕ × Sockets
unfolding alloc_endpoint
create s = alloc_endpoint s fresh

bind_endpoint : Sockets → ℕ → String → Endpoint → Role → Bool × Sockets
bind_endpoint s id path ep idle = (true, write s id (record ep { role = bound path }))
bind_endpoint s id path ep (bound p) = (false, s)
bind_endpoint s id path ep listening = (false, s)
bind_endpoint s id path ep (connected peer) = (false, s)

unfoldable pub bind : Sockets → ℕ → String → Bool × Sockets
unfolding bind_endpoint
bind s id path = elim (find_listener path s.listeners) [
  | some taken ↦ (false, s)
  | none ↦ elim (slot s.endpoints id) [
    | none ↦ (false, s)
    | some ep ↦ bind_endpoint s id path ep ep.role
  ]
]

listen_endpoint : Sockets → ℕ → Endpoint → Role → Bool × Sockets
listen_endpoint s id ep (bound path) = (
  true,
  record (write s id (record ep { role = listening })) {
    listeners = insert_listener path id s.listeners;
  },
)
listen_endpoint s id ep idle = (false, s)
listen_endpoint s id ep listening = (false, s)
listen_endpoint s id ep (connected peer) = (false, s)

unfoldable pub listen : Sockets → ℕ → Bool × Sockets
unfolding listen_endpoint
listen s id = elim (slot s.endpoints id) [
  | none ↦ (false, s)
  | some ep ↦ listen_endpoint s id ep ep.role
]

-- What `connect` does once the paired endpoint `server_id` exists.
unfoldable pub pair_up : Sockets → ℕ → ℕ → ℕ → Bool × Sockets
pair_up s id listener_id server_id = elim (slot s.endpoints listener_id) [
  | none ↦ (false, s)
  | some listener ↦
      let queued =
        write s listener_id (record listener { backlog = listener.backlog ++ server_id ∷ [] }) in
      elim (slot queued.endpoints id) [
        | none ↦ (false, queued)
        | some client ↦ (true, write queued id (record client { role = connected server_id }))
      ]
]

unfoldable pub connect : Sockets → ℕ → String → Bool × Sockets
unfolding alloc_endpoint pair_up
connect s id path = elim (find_listener path s.listeners) [
  | none ↦ (false, s)
  | some listener_id ↦
      let (server_id, s') = alloc_endpoint s (record fresh { role = connected id }) in
      pair_up s' id listener_id server_id
]

abbrev pub pop_front : Endpoint → List ℕ → Option ℕ × Endpoint
pop_front ep [] = (none, ep)
pop_front ep (x ∷ rest) = (some x, record ep { backlog = rest })

unfoldable pub accept : Sockets → ℕ → Option ℕ × Sockets
accept s listener_id = elim (slot s.endpoints listener_id) [
  | none ↦ (none, s)
  | some ep ↦ let (conn, ep') = pop_front ep ep.backlog in (conn, write s listener_id ep')
]

peer_in : Role → Option ℕ
peer_in (connected peer) = some peer
peer_in idle = none
peer_in (bound path) = none
peer_in listening = none

unfoldable pub peer_of : Sockets → ℕ → Option ℕ
unfolding peer_in
peer_of s id = elim (slot s.endpoints id) [ none ↦ none | some ep ↦ peer_in ep.role ]

-- `for &fid in fds { shm::dup(fid) }`, and the same with `close`.
pub dup_all : Shm → List ℕ → Shm
dup_all m [] = m
dup_all m (fid ∷ fds) = dup_all (SharedMemory.dup m fid) fds

pub close_all : Shm → List ℕ → Shm
close_all m [] = m
close_all m (fid ∷ fds) = close_all (SharedMemory.close m fid) fds

unfoldable pub send : Sockets → Shm → ℕ → List ℕ → List ℕ → Option ℕ × Sockets × Shm
send s m id bytes fds = elim (peer_of s id) [
  | none ↦ (none, s, m)
  | some peer_id ↦ elim (slot s.endpoints peer_id) [
    | none ↦ (none, s, close_all (dup_all m fds) fds)
    | some peer ↦ (
      some (length bytes),
      write s peer_id
          (record peer { inbox = peer.inbox ++ bytes; inbox_fds = peer.inbox_fds ++ fds }),
      dup_all m fds,
    )
  ]
]

-- `buf.len()` bytes at most, and every descriptor.
unfoldable pub recv : Sockets → ℕ → ℕ → List ℕ × List ℕ × Sockets
recv s id buf_len = elim (slot s.endpoints id) [
  | none ↦ ([], [], s)
  | some ep ↦
      let n = min (length ep.inbox) buf_len in
      (
        take n ep.inbox,
        ep.inbox_fds,
        write s id (record ep { inbox = drop n ep.inbox; inbox_fds = [] }),
      )
]

is_empty : List ℕ → Bool
is_empty [] = true
is_empty (x ∷ xs) = false

pub has_data : Sockets → ℕ → Bool
unfolding is_empty
has_data s id = elim (slot s.endpoints id) [ none ↦ false | some ep ↦ not (is_empty ep.inbox) ]

pub has_backlog : Sockets → ℕ → Bool
unfolding is_empty
has_backlog s id = elim (slot s.endpoints id) [ none ↦ false | some ep ↦ not (is_empty ep.backlog) ]

pending_fds : Option Endpoint → List ℕ
pending_fds none = []
pending_fds (some ep) = ep.inbox_fds

unfoldable pub close : Sockets → Shm → ℕ → Sockets × Shm
unfolding pending_fds
close s m id = (
  record { endpoints = set s.endpoints id none; listeners = retain_others id s.listeners },
  close_all m (pending_fds (slot s.endpoints id)),
)
