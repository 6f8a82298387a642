-- ===== src/Keyboard.antt =====
-- src/keyboard.rs: the event ring between the keyboard interrupt and its readers, and the decoding of
-- scancodes. A character is its code; a keymap is the text of its rows, with 0 for no character.
use macha_os.Prelude.{
  ℕ, ◌+◌, ◌%◌, Option, none, some, List, get_or, set, replicate, ◌==◌, if◌then◌else◌,
}
pub mod Ring
pub mod Keymap
pub mod Scancodes
pub mod Typing
mod Tests

pub data Event : Type 0 where
  char ctrl : ℕ → Event
  backspace enter tab up down left right escape f2 : Event

abbrev pub buffer_capacity : ℕ
buffer_capacity = 256

pub record EventQueue : Type 0 where
  pub buffer : List Event
  pub head : ℕ
  pub tail : ℕ

unfoldable pub new_queue : EventQueue
new_queue = record { buffer = replicate buffer_capacity (char 0); head = 0; tail = 0 }

unfoldable pub push : Event → EventQueue → EventQueue
push event q =
    let next = (q.head + 1) % buffer_capacity in
    if next == q.tail then q else record q { buffer = set q.buffer q.head event; head = next }

unfoldable pub pop : EventQueue → Option Event × EventQueue
pop q = if q.head == q.tail then (none, q) else (
  some (get_or q.buffer q.tail (char 0)),
  record q { tail = (q.tail + 1) % buffer_capacity },
)
