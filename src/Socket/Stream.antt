-- ===== src/Socket/Stream.antt =====
-- src/socket.rs: the bytes of a connection arrive in order, whatever the sizes of the reads.
use macha_os.Prelude.{
  ℕ, min, ◌≡◌, refl, ap, ◌∙◌, Option, none, some, List, [], ◌∷◌, ◌++◌, arith, length,
  take as take_list, drop, length-take, take-append-drop, ◌==◌, if◌then◌else◌, slot, slot-set-some,
}
use macha_os.Shm.{Shm}
use mathlib.Core.List.{append_assoc}
use macha_os.Socket.{Endpoint, Sockets, peer_of, send, recv}

take-append_all {ℓ} :
    {A : Type ℓ} (n : ℕ) (xs ys : List A)
    → take_list (min (length xs) n) xs ++ drop (min (length xs) n) xs ≡ xs
take-append_all n xs ys = take-append-drop (min (length xs) n) xs

module _ (s : Sockets) (m : Shm) (id peer_id : ℕ) (peer : Endpoint) (bytes fds : List ℕ)
    (linked : peer_of s id ≡ some peer_id) (live : slot s.endpoints peer_id ≡ some peer) where
  -- `send` to a live peer reports every byte, and appends the bytes and the descriptors to the
  -- peer's inbox; no other endpoint changes.
  pub send_lem :
      ((send s m id bytes fds).0 ≡ some (length bytes))
      × ((j : ℕ)
          → slot (send s m id bytes fds).1.endpoints j ≡ (
              if peer_id == j
              then some
                  (record peer { inbox = peer.inbox ++ bytes; inbox_fds = peer.inbox_fds ++ fds })
              else slot s.endpoints j))
  unfolding send
  send_lem = rw (linked, send, live) (refl, λ j. slot-set-some s.endpoints peer_id peer _ j live)

-- `recv` on a live endpoint returns a prefix of its inbox no longer than the buffer, and leaves the
-- rest; a read is short only when it empties the inbox. All pending descriptors come with it.
pub recv_lem :
    (s : Sockets) (id buf_len : ℕ) (ep : Endpoint)
    → slot s.endpoints id ≡ some ep
    → (rest : List ℕ) × ((recv s id buf_len).0 ++ rest ≡ ep.inbox)
      × (length (recv s id buf_len).0 ≡ min (length ep.inbox) buf_len)
      × ((recv s id buf_len).1 ≡ ep.inbox_fds)
      × ((j : ℕ)
          → slot (recv s id buf_len).2.endpoints j ≡ (
              if id == j
              then some (record ep { inbox = rest; inbox_fds = [] })
              else slot s.endpoints j))
unfolding recv
recv_lem s id buf_len ep live =
    let n = min (length ep.inbox) buf_len in
    (
      drop n ep.inbox,
      rw (live, recv) (take-append-drop n ep.inbox),
      rw (live, recv) (omega (arith, length-take n ep.inbox)),
      rw (live, recv),
      rw (live, recv) (λ j. slot-set-some s.endpoints id ep _ j live),
    )

-- A client that reads with buffers of the given sizes, one after the other.
pub read_all : Sockets → ℕ → List ℕ → List ℕ × Sockets
read_all s id [] = ([], s)
read_all s id (size ∷ sizes) =
    let (bytes, fds, s') = recv s id size in
    let (more, s'') = read_all s' id sizes in (bytes ++ more, s'')

abbrev pub inbox_of : Sockets → ℕ → List ℕ
inbox_of s id = elim (slot s.endpoints id) [ none ↦ [] | some ep ↦ ep.inbox ]

inbox_of-live :
    (s : Sockets) (id : ℕ) (ep : Endpoint)
    → slot s.endpoints id ≡ some ep
    → inbox_of s id ≡ ep.inbox
inbox_of-live s id ep e = ap (λ (o : Option Endpoint). elim o [ none ↦ [] | some q ↦ q.inbox ]) e

-- A sequence of reads on a live endpoint returns the bytes of its inbox in order: what they return,
-- one after the other, followed by what they leave, is the inbox from before, whatever the buffer
-- sizes.
pub read_all-inbox :
    (sizes : List ℕ) (s : Sockets) (id : ℕ) (ep : Endpoint)
    → slot s.endpoints id ≡ some ep
    → (read_all s id sizes).0 ++ inbox_of (read_all s id sizes).1 id ≡ ep.inbox
unfolding read_all
read_all-inbox [] s id ep live = inbox_of-live s id ep live
read_all-inbox (size ∷ sizes) s id ep live =
    let (rest, split, len, fds, after) = recv_lem s id size ep live in
    let left : Endpoint = record ep { inbox = rest; inbox_fds = [] } in
    let there : slot (recv s id size).2.endpoints id ≡ some left = ground (arith, after id) in
    append_assoc (recv s id size).0 _ _
    ∙ ap (λ (l : List ℕ). (recv s id size).0 ++ l)
        (read_all-inbox sizes (recv s id size).2 id left there)
    ∙ split

-- What is sent to a live peer arrives: reads by the peer after a `send` return, in order, the bytes
-- that were waiting and then the bytes sent, up to what the reads leave in the inbox.
pub read_all-send :
    (s : Sockets) (m : Shm) (id peer_id : ℕ) (peer : Endpoint) (bytes fds sizes : List ℕ)
    → peer_of s id ≡ some peer_id
    → slot s.endpoints peer_id ≡ some peer
    → let t = (send s m id bytes fds).1 in
      (read_all t peer_id sizes).0 ++ inbox_of (read_all t peer_id sizes).1 peer_id
      ≡ peer.inbox ++ bytes
read_all-send s m id peer_id peer bytes fds sizes linked live =
    let after = (send_lem s m id peer_id peer bytes fds linked live).1 in
    read_all-inbox sizes (send s m id bytes fds).1 peer_id
      (record peer { inbox = peer.inbox ++ bytes; inbox_fds = peer.inbox_fds ++ fds })
      (ground (arith, after peer_id))
