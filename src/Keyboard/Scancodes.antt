-- ===== src/Keyboard/Scancodes.antt =====
-- src/keyboard.rs: the decoding of scancodes and the keyboard interrupt. The four atomics are the record
-- `Modifiers`; each interrupt is one step, since nothing else writes them. A byte that the interrupt
-- reads from the port is its argument.
use macha_os.Prelude.{
  ℕ, ◌-◌, Bool, true, false, ◌&&◌, ◌||◌, not, Option, none, some, get_or, leb, ◌==◌, if◌then◌else◌,
}
use macha_os.Keyboard.Keymap.{keymap, keymap_shift}
use macha_os.Keyboard.{
  Event, char, ctrl, backspace, enter, tab, up, down, left, right, escape, f2, EventQueue, push,
}

pub record Modifiers : Type 0 where
  pub shift_down : Bool
  pub caps_lock : Bool
  pub ctrl_down : Bool
  pub extended : Bool

abbrev pub is_ascii_alphabetic : ℕ → Bool
is_ascii_alphabetic c = leb 65 c && leb c 90 || leb 97 c && leb c 122

-- On a letter.
abbrev pub to_ascii_uppercase : ℕ → ℕ
to_ascii_uppercase c = if leb 97 c && leb c 122 then c - 32 else c

abbrev pub decode_extended : ℕ → Option Event
decode_extended scancode =
    if scancode == 0x48
    then some up
    else if scancode == 0x50
    then some down
    else if scancode == 0x4b
    then some left
    else if scancode == 0x4d
    then some right
    else none

-- The last arm: a key with an entry in the tables. The index is below 128, the length of the tables,
-- since codes from 0x80 on return before.
abbrev pub decode_key : ℕ → Modifiers → Option Event
decode_key scancode m =
    let base = get_or keymap scancode 0 in
    let shifted_char = get_or keymap_shift scancode 0 in
    if m.ctrl_down && not (base == 0)
    then some (ctrl base)
    else if m.shift_down && not (shifted_char == 0)
    then some (char shifted_char)
    else if m.caps_lock && is_ascii_alphabetic base
    then some (char (to_ascii_uppercase base))
    else if not (base == 0)
    then some (char base)
    else none

-- The arms that give a fixed event, and the releases.
abbrev pub decode_plain : ℕ → Modifiers → Option Event
decode_plain scancode m =
    if scancode == 0x0e
    then some backspace
    else if scancode == 0x1c
    then some enter
    else if scancode == 0x0f
    then some tab
    else if scancode == 0x39
    then some (char 32)
    else if scancode == 0x01
    then some escape
    else if scancode == 0x3c
    then some f2
    else if leb 0x80 scancode
    then none
    else decode_key scancode m

unfoldable pub decode : ℕ → Bool → Modifiers → Option Event × Modifiers
decode scancode extended m =
    if extended
    then (decode_extended scancode, m)
    else if (scancode == 0x2a) || (scancode == 0x36)
    then (none, record m { shift_down = true })
    else if (scancode == 0xaa) || (scancode == 0xb6)
    then (none, record m { shift_down = false })
    else if scancode == 0x1d
    then (none, record m { ctrl_down = true })
    else if scancode == 0x9d
    then (none, record m { ctrl_down = false })
    else if scancode == 0x3a
    then (none, record m { caps_lock = not m.caps_lock })
    else (decode_plain scancode m, m)

abbrev pub push_some : Option Event → EventQueue → EventQueue
push_some none q = q
push_some (some event) q = push event q

unfoldable pub irq : ℕ → Modifiers × EventQueue → Modifiers × EventQueue
irq scancode (m, q) = if scancode == 0xe0 then (record m { extended = true }, q) else (
  (decode scancode m.extended (record m { extended = false })).1,
  push_some (decode scancode m.extended (record m { extended = false })).0 q,
)
