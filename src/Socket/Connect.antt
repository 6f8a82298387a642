-- ===== src/Socket/Connect.antt =====
-- src/socket.rs: `connect`, `accept` and what a closed endpoint's id means to its peer.
use macha_os.Prelude.{
  ℕ, ◌≡◌, ◌≢◌, refl, ap, subst, ◌∙◌, true, false, Option, none, some, List, [], ◌∷◌, ◌++◌, arith,
  length, ◌==◌, if◌then◌else◌, slot, slot-insert_from, insert_from-free, slot-set, slot-set-some,
}
use Prim.Native.String.{String}
use macha_os.Shm.{Shm}
use macha_os.Socket.Stream.{send_lem}
use macha_os.Socket.{
  Endpoint, Sockets, connected, fresh, write, find_listener, alloc_endpoint, pair_up, connect,
  accept, close, create, peer_of, send,
}

alloc_slot :
    (s : Sockets) (ep : Endpoint) (j : ℕ)
    → (slot (alloc_endpoint s ep).1.endpoints j
        ≡ (if (alloc_endpoint s ep).0 == j then some ep else slot s.endpoints j))
      × (slot s.endpoints (alloc_endpoint s ep).0 ≡ none)
      × ((alloc_endpoint s ep).1.listeners ≡ s.listeners)
unfolding alloc_endpoint
alloc_slot s ep j = (slot-insert_from 0 s.endpoints ep j, insert_from-free 0 s.endpoints ep, refl)

-- The id that the next endpoint gets.
abbrev pub next_id : Sockets → Endpoint → ℕ
next_id s ep = (alloc_endpoint s ep).0

abbrev pub server_for : ℕ → Endpoint
server_for id = record fresh { role = connected id }

module _ (s : Sockets) (id listener_id : ℕ) (path : String) (listener : Endpoint)
    (found : find_listener path s.listeners ≡ some listener_id)
    (live : slot s.endpoints listener_id ≡ some listener) where
  abbrev server_id : ℕ
  server_id = next_id s (server_for id)

  connect_unfolds :
      connect s id path ≡ pair_up (alloc_endpoint s (server_for id)).1 id listener_id server_id
  unfolding connect
  connect_unfolds = rw (found, connect)

  server_ne : server_id ≢ listener_id
  server_ne e =
      let free = (alloc_slot s (server_for id) 0).1 in
      cc (subst (λ (x : ℕ). slot s.endpoints x ≡ none) e free, live)

  listener_there : slot (alloc_endpoint s (server_for id)).1.endpoints listener_id ≡ some listener
  listener_there = ground (arith, (alloc_slot s (server_for id) listener_id).0, server_ne)

  abbrev queued : Sockets
  queued =
      write (alloc_endpoint s (server_for id)).1 listener_id
        (record listener { backlog = listener.backlog ++ server_id ∷ [] })

  queued_slot :
      (j : ℕ)
      → slot queued.endpoints j ≡ (
          if listener_id == j
          then some (record listener { backlog = listener.backlog ++ server_id ∷ [] })
          else if server_id == j
          then some (server_for id)
          else slot s.endpoints j)
  queued_slot j =
      slot-set-some (alloc_endpoint s (server_for id)).1.endpoints listener_id listener
        (some (record listener { backlog = listener.backlog ++ server_id ∷ [] })) j listener_there
      ∙ ap
          (λ (o : Option Endpoint).
            if listener_id == j
            then some (record listener { backlog = listener.backlog ++ server_id ∷ [] })
            else o)
          (alloc_slot s (server_for id) j).0

  -- `connect` of a live client, other than the listener, to a live listener succeeds: a free id
  -- gets a server endpoint connected to the client, the client becomes connected to it, the id is
  -- queued last on the listener's backlog, and no other endpoint changes.
  pub connect_lem :
      (client : Endpoint)
      → id ≢ listener_id
      → slot s.endpoints id ≡ some client
      → ((connect s id path).0 ≡ true)
        × (slot s.endpoints server_id ≡ none)
        × ((j : ℕ)
            → slot (connect s id path).1.endpoints j ≡ (
                if id == j
                then some (record client { role = connected server_id })
                else if listener_id == j
                then some (record listener { backlog = listener.backlog ++ server_id ∷ [] })
                else if server_id == j
                then some (server_for id)
                else slot s.endpoints j))
  unfolding pair_up
  connect_lem client ne there =
      let free = (alloc_slot s (server_for id) 0).1 in
      let client_ne : server_id ≢ id =
        λ (e : server_id ≡ id). cc (subst (λ (x : ℕ). slot s.endpoints x ≡ none) e free, there) in
      let client_there : slot queued.endpoints id ≡ some client = ground (arith, queued_slot id) in
      rw (connect_unfolds, pair_up, listener_there, client_there)
        (
          refl,
          free,
          λ j.
              slot-set-some queued.endpoints id client
                (some (record client { role = connected server_id })) j client_there
              ∙ ap
                  (λ (o : Option Endpoint).
                    if id == j then some (record client { role = connected server_id }) else o)
                  (queued_slot j),
        )

  -- `connect` to a live listener of an id that names no endpoint reports failure, but a server
  -- endpoint connected to that id has been made and queued on the listener's backlog, unless the
  -- new endpoint's id is the very id that was passed.
  pub connect_dead_client :
      slot s.endpoints id ≡ none
      → next_id s (server_for id) ≢ id
      → ((connect s id path).0 ≡ false)
        × (slot (connect s id path).1.endpoints (next_id s (server_for id)) ≡ some (server_for id))
        × (slot (connect s id path).1.endpoints listener_id
            ≡ some
                (record listener { backlog = listener.backlog ++ next_id s (server_for id) ∷ [] }))
  unfolding pair_up
  connect_dead_client gone ne =
      let not_listener : id ≢ listener_id =
        λ (e : id ≡ listener_id). cc (subst (λ (x : ℕ). slot s.endpoints x ≡ none) e gone, live) in
      let client_gone : slot queued.endpoints id ≡ none = ground (arith, queued_slot id) in
      rw (connect_unfolds, pair_up, listener_there, client_gone)
        (
          refl,
          ground (arith, queued_slot server_id, server_ne),
          ground (arith, queued_slot listener_id),
        )

-- `accept` on a live endpoint with a pending connection takes the oldest one off its backlog, and
-- changes no other endpoint.
pub accept_lem :
    (s : Sockets) (id conn : ℕ) (rest : List ℕ) (ep : Endpoint)
    → slot s.endpoints id ≡ some ep
    → ep.backlog ≡ conn ∷ rest
    → ((accept s id).0 ≡ some conn)
      × ((j : ℕ)
          → slot (accept s id).1.endpoints j
            ≡ (if id == j then some (record ep { backlog = rest }) else slot s.endpoints j))
unfolding accept
accept_lem s id conn rest ep live pending =
    rw (live, accept, pending) (refl, λ j. slot-set-some s.endpoints id ep _ j live)

-- An id is reused: when the peer of a connected endpoint closes and the next endpoint created gets
-- the peer's id, `send` no longer fails, but delivers the bytes to the new endpoint, which nobody
-- connected.
pub send_reaches_stranger :
    (s : Sockets) (m m' : Shm) (id peer_id : ℕ) (ep : Endpoint) (bytes : List ℕ)
    → id ≢ peer_id
    → slot s.endpoints id ≡ some ep
    → ep.role ≡ connected peer_id
    → (create (close s m peer_id).0).0 ≡ peer_id
    → let t = (create (close s m peer_id).0).1 in
      ((send t m' id bytes []).0 ≡ some (length bytes))
      × (slot (send t m' id bytes []).1.endpoints peer_id ≡ some (record fresh { inbox = bytes }))
send_reaches_stranger s m m' id peer_id ep bytes ne live role reused =
    let closed = (close s m peer_id).0 in
    let t = (create closed).1 in
    let kept : slot closed.endpoints id ≡ some ep =
      unfold close in ground (arith, slot-set s.endpoints peer_id none id) in
    let at : (j : ℕ)
        → slot t.endpoints j
          ≡ (if (create closed).0 == j then some fresh else slot closed.endpoints j) =
      unfold create in λ j. (alloc_slot closed fresh j).0 in
    let there : slot t.endpoints id ≡ some ep = ground (arith, at id) in
    let stranger : slot t.endpoints peer_id ≡ some fresh = ground (arith, at peer_id) in
    let linked : peer_of t id ≡ some peer_id = unfold peer_of in rw (there, peer_of, role) in
    let sent = send_lem t m' id peer_id fresh bytes [] linked stranger in
    (sent.0, ground (arith, sent.1 peer_id))
