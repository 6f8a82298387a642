-- ===== src/Keyboard/Ring.antt =====
-- src/keyboard.rs: the event ring refines a bounded queue of 255 events, oldest first.
use macha_os.Prelude.{
  tests, ℕ, zero, suc, ◌+◌, ◌-◌, ◌%◌, ◌<◌, ◌≤◌, ◌≡◌, ◌≢◌, refl, sym, ap, subst, ◌∙◌, true, false,
  Option, none, some, List, [], ◌∷◌, ◌++◌, ◌⊎◌, inl, inr, arith, length, get_or, set, length-set,
  get_or-set_self, get_or-set_ne, ltb, leb, lt→ltb, ◌==◌, ==_iff, if◌then◌else◌, Bool-cases,
}
use macha_os.Keyboard.{Event, char, EventQueue, push, pop}

pub record IsValid (q : EventQueue) : Type 0 where
  pub full_size : length q.buffer ≡ 256
  pub head_in : q.head < 256
  pub tail_in : q.tail < 256

-- The events between tail and head.
abbrev pub held : EventQueue → ℕ
held q = if leb q.tail q.head then q.head - q.tail else q.head + 256 - q.tail

abbrev pub read_ring : List Event → ℕ → ℕ → List Event
read_ring buf t zero = []
read_ring buf t (suc n) = get_or buf t (char 0) ∷ read_ring buf ((t + 1) % 256) n

unfoldable pub contents : EventQueue → List Event
contents q = read_ring q.buffer q.tail (held q)

wrap :
    (t : ℕ)
    → t < 256
    → ((t + 1 < 256) × ((t + 1) % 256 ≡ t + 1)) ⊎ ((t + 1 ≡ 256) × ((t + 1) % 256 ≡ 0))
wrap t h = elim (Bool-cases (ltb (t + 1) 256)) [
  | inl e ↦ inl (omega tests, omega tests)
  | inr e ↦ inr (ground arith, ground arith)
]

-- How far `h` is ahead of `t` on the ring.
abbrev ahead : ℕ → ℕ → ℕ
ahead t h = if leb t h then h - t else h + 256 - t

ahead-step : (t h n : ℕ) → t < 256 → h < 256 → suc n ≤ ahead t h → n ≤ ahead ((t + 1) % 256) h
ahead-step t h n lt lh some_left = elim (wrap t lt) [
  | inl e ↦ rw (e.1) (ground arith)
  | inr e ↦ rw (e.1) (ground arith)
]

true≢false : ¬ (true ≡ false)
true≢false e = ground arith

wrap_in : (t : ℕ) → t < 256 → (t + 1) % 256 < 256
wrap_in t lt = omega arith

read_ring-set :
    (buf : List Event) (t h n : ℕ) (e : Event)
    → t < 256
    → h < 256
    → n ≤ ahead t h
    → read_ring (set buf h e) t n ≡ read_ring buf t n
read_ring-set buf t h zero e lt lh le = refl
read_ring-set buf t h (suc n) e lt lh le =
    rw
      (
        get_or-set_ne buf h t e (char 0) (λ same. absurd (ground arith)),
        read_ring-set buf ((t + 1) % 256) h n e (wrap_in t lt) lh (ahead-step t h n lt lh le),
      )
      refl

read_ring-snoc :
    (buf : List Event) (t h n : ℕ)
    → t < 256
    → n ≤ 255
    → h ≡ (t + n) % 256
    → read_ring buf t (suc n) ≡ read_ring buf t n ++ (get_or buf h (char 0) ∷ [])
read_ring-snoc buf t h zero lt le e = rw (e ∙ wrapped) refl
  where
    wrapped : (t + 0) % 256 ≡ t
    wrapped = omega arith
read_ring-snoc buf t h (suc n) lt le e =
    ap (λ l. get_or buf t (char 0) ∷ l)
      (read_ring-snoc buf ((t + 1) % 256) h n (wrap_in t lt) (omega arith) (e ∙ shifted))
  where
    shifted : (t + suc n) % 256 ≡ ((t + 1) % 256 + n) % 256
    shifted = omega arith

length-read_ring : (buf : List Event) (t n : ℕ) → length (read_ring buf t n) ≡ n
length-read_ring buf t zero = refl
length-read_ring buf t (suc n) = ap suc (length-read_ring buf ((t + 1) % 256) n)

held-push :
    (q : EventQueue)
    → IsValid q
    → ((q.head + 1) % 256) ≢ q.tail
    → (held (record q { head = (q.head + 1) % 256 }) ≡ suc (held q))
      × (held q < 255)
      × (q.head ≡ (q.tail + held q) % 256)
held-push q v ne = elim (wrap q.head v.head_in) [
  | inl e ↦ rw (e.1) (
    ground (arith, v.head_in, v.tail_in, ne),
    ground (arith, v.head_in, v.tail_in, ne),
    ground (arith, v.head_in, v.tail_in, ne),
  )
  | inr e ↦ rw (e.1) (
    ground (arith, v.head_in, v.tail_in, ne),
    ground (arith, v.head_in, v.tail_in, ne),
    ground (arith, v.head_in, v.tail_in, ne),
  )
]

held-full : (q : EventQueue) → IsValid q → ((q.head + 1) % 256) ≡ q.tail → held q ≡ 255
held-full q v e = elim (wrap q.head v.head_in) [
  | inl w ↦ ground (arith, v.head_in, v.tail_in, e, w)
  | inr w ↦ ground (arith, v.head_in, v.tail_in, e, w)
]

push_room :
    (e : Event) (q : EventQueue)
    → IsValid q
    → ((q.head + 1) % 256) ≢ q.tail
    → (contents (record q { buffer = set q.buffer q.head e; head = (q.head + 1) % 256 })
        ≡ contents q ++ (e ∷ []))
      × IsValid (record q { buffer = set q.buffer q.head e; head = (q.head + 1) % 256 })
unfolding contents
push_room e q v ne =
    let (more, below, at) = held-push q v ne in
    (
      ap (read_ring (set q.buffer q.head e) q.tail) more
          ∙ read_ring-snoc (set q.buffer q.head e) q.tail q.head (held q) v.tail_in (omega arith) at
          ∙ rw
              (
                get_or-set_self q.buffer q.head e (char 0)
                    (subst (λ n. q.head < n) (sym v.full_size) v.head_in),
                read_ring-set q.buffer q.tail q.head (held q) e v.tail_in v.head_in (omega arith),
              )
              refl,
      record {
        full_size = length-set q.buffer q.head e ∙ v.full_size;
        head_in = wrap_in q.head v.head_in;
        tail_in = v.tail_in;
      },
    )

-- On a valid ring an event that is pushed becomes the last of the queue while it holds fewer than
-- 255 events, and is dropped when it holds 255. The ring stays valid.
pub push_lem :
    (e : Event) (q : EventQueue)
    → IsValid q
    → (contents (push e q)
        ≡ (if ltb (length (contents q)) 255 then contents q ++ (e ∷ []) else contents q))
      × IsValid (push e q)
unfolding push contents
push_lem e q v = elim (Bool-cases ((q.head + 1) % 256 == q.tail)) [
  | inl full ↦
      rw (full, length-read_ring q.buffer q.tail (held q), held-full q v ((==_iff _ _).0 full))
        (refl, v)
  | inr room ↦
      let (pushed, valid) =
        push_room e q v (λ same. true≢false (sym ((==_iff _ _).1 same) ∙ room)) in
      let below = (held-push q v (λ same. true≢false (sym ((==_iff _ _).1 same) ∙ room))).1 in
      rw room
        (pushed ∙ rw (length-read_ring q.buffer q.tail (held q), lt→ltb _ _ below) refl, valid)
]

held-pop :
    (q : EventQueue)
    → IsValid q
    → q.head ≢ q.tail
    → held q ≡ suc (held (record q { tail = (q.tail + 1) % 256 }))
held-pop q v ne = elim (wrap q.tail v.tail_in) [
  | inl e ↦ rw (e.1) (ground (arith, v.head_in, v.tail_in, ne))
  | inr e ↦ rw (e.1) (ground (arith, v.head_in, v.tail_in, ne))
]

-- What the queue held before `pop` gave this.
unfoldable pub queue_before : Option Event × EventQueue → List Event
queue_before (none, q) = []
queue_before (some e, q) = e ∷ contents q

pop-empty : (q : EventQueue) → (q.head == q.tail) ≡ true → pop q ≡ (none, q)
unfolding pop
pop-empty q e = rw e refl

pop-held :
    (q : EventQueue)
    → (q.head == q.tail) ≡ false
    → pop q ≡ (some (get_or q.buffer q.tail (char 0)), record q { tail = (q.tail + 1) % 256 })
unfolding pop
pop-held q e = rw e refl

-- On a valid ring popping takes the first event of the queue; it returns none only if the queue is
-- empty. The ring stays valid.
pub pop_lem : (q : EventQueue) → IsValid q → (contents q ≡ queue_before (pop q)) × IsValid (pop q).1
unfolding contents queue_before
pop_lem q v = elim (Bool-cases (q.head == q.tail)) [
  | inl empty ↦ rw (pop-empty q empty) (rw (none_held ((==_iff _ _).0 empty)) refl, v)
  | inr some_left ↦
      let ne : q.head ≢ q.tail = λ same. true≢false (sym ((==_iff _ _).1 same) ∙ some_left) in
      rw (pop-held q some_left) (
        ap (read_ring q.buffer q.tail) (held-pop q v ne),
        record { full_size = v.full_size; head_in = v.head_in; tail_in = wrap_in q.tail v.tail_in },
      )
]
  where
    none_held : q.head ≡ q.tail → held q ≡ 0
    none_held e = ground (arith, e)
