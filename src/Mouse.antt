-- ===== src/Mouse.antt =====
-- src/mouse.rs: the assembly of packets in the interrupt, and the event ring. `Mouse` holds the statics
-- PACKET, SKIP_FIRST_PACKET and QUEUE; the byte that the port gives is an argument of `irq`.
use macha_os.Prelude.{
  negsuc, negate, pos, ℤ, ℕ, ◌+◌, ◌-◌, ◌%◌, Bool, true, false, ◌&&◌, not, Option, none, some, List,
  [], ◌∷◌, get_or, set, replicate, ltb, ◌==◌, if◌then◌else◌,
}
use Prim.Native.Nat.{bit_and}
pub mod Packets
mod Tests

pub record MouseEvent : Type 0 where
  pub dx : ℤ
  pub dy : ℤ
  pub left : Bool
  pub right : Bool
  pub middle : Bool

abbrev pub buffer_capacity : ℕ
buffer_capacity = 64

abbrev pub blank_event : MouseEvent
blank_event = record { dx = pos 0; dy = pos 0; left = false; right = false; middle = false }

pub record EventQueue : Type 0 where
  pub buffer : List MouseEvent
  pub head : ℕ
  pub tail : ℕ

unfoldable pub push : EventQueue → MouseEvent → EventQueue
push q event =
    let next = (q.head + 1) % buffer_capacity in
    if next == q.tail then q else record q { buffer = set q.buffer q.head event; head = next }

unfoldable pub pop : EventQueue → Option MouseEvent × EventQueue
pop q = if q.head == q.tail then (none, q) else (
  some (get_or q.buffer q.tail blank_event),
  record q { tail = (q.tail + 1) % buffer_capacity },
)

pub record PacketState : Type 0 where
  pub bytes : List ℕ
  pub index : ℕ

pub record Mouse : Type 0 where
  pub packet : PacketState
  pub skip_first : Bool
  pub queue : EventQueue

abbrev pub initial : Mouse
initial = record {
  packet = record { bytes = 0 ∷ 0 ∷ 0 ∷ []; index = 0 };
  skip_first = true;
  queue = record { buffer = replicate buffer_capacity blank_event; head = 0; tail = 0 };
}

abbrev pub has_bit : ℕ → ℕ → Bool
has_bit b mask = not (bit_and b mask == 0)

-- The 9-bit two's complement of a byte and its sign.
abbrev pub extend : Bool → ℕ → ℤ
extend negative b = if negative then negsuc (255 - b) else pos b

unfoldable pub decode : List ℕ → MouseEvent
decode bytes =
    let b0 = get_or bytes 0 0 in
    record {
      dx = extend (has_bit b0 0x10) (get_or bytes 1 0);
      dy = negate (extend (has_bit b0 0x20) (get_or bytes 2 0));
      left = has_bit b0 0x01;
      right = has_bit b0 0x02;
      middle = has_bit b0 0x04;
    }

-- A packet that is complete: the first one is dropped.
abbrev pub deliver : List ℕ → Mouse → Mouse
deliver bytes m =
    if m.skip_first
    then record m { skip_first = false }
    else record m { queue = push m.queue (decode bytes) }

-- An index past the three bytes cannot be, since it is put back at 3.
unfoldable pub irq : ℕ → Mouse → Mouse
irq byte m =
    let p = m.packet in
    let bytes = set p.bytes p.index byte in
    if (p.index == 0) && not (has_bit byte 0x08)
    then m
    else if ltb (p.index + 1) 3
    then record m { packet = record { bytes = bytes; index = p.index + 1 } }
    else deliver bytes (record m { packet = record { bytes = bytes; index = 0 } })

unfoldable pub next_event : Mouse → Option MouseEvent × Mouse
next_event m = let (event, queue) = pop m.queue in (event, record m { queue = queue })
