-- ===== src/Keyboard/Typing.antt =====
-- src/keyboard.rs: what typing a key puts on the queue, checked over the whole keymap.
use macha_os.Prelude.{
  ℕ, ◌+◌, ◌<◌, ◌≡◌, ◌≢◌, refl, sym, ap, ◌∙◌, Bool, true, false, ◌&&◌, ◌||◌, not, Option, none, some,
  arith, get_or, ◌==◌, ==_iff,
}
use macha_os.Prelude.Bits.{every_under, every_under_lem}
use macha_os.Keyboard.{
  Event, char, ctrl, backspace, enter, tab, up, down, left, right, escape, f2, EventQueue, push,
}
use macha_os.Keyboard.Keymap.{keymap, keymap_shift}
use macha_os.Keyboard.Scancodes.{Modifiers, decode, irq, push_some}

abbrev event_is : Option Event → ℕ → Bool
event_is (some (char c)) d = c == d
event_is (some (ctrl c)) d = false
event_is (some backspace) d = false
event_is (some enter) d = false
event_is (some tab) d = false
event_is (some up) d = false
event_is (some down) d = false
event_is (some left) d = false
event_is (some right) d = false
event_is (some escape) d = false
event_is (some f2) d = false
event_is none d = false

event_is_lem : (o : Option Event) (d : ℕ) → event_is o d ≡ true → o ≡ some (char d)
event_is_lem (some (char c)) d h = ap (λ n. some (char n)) ((==_iff c d).0 h)
event_is_lem (some (ctrl c)) d h = ground arith
event_is_lem (some backspace) d h = ground arith
event_is_lem (some enter) d h = ground arith
event_is_lem (some tab) d h = ground arith
event_is_lem (some up) d h = ground arith
event_is_lem (some down) d h = ground arith
event_is_lem (some left) d h = ground arith
event_is_lem (some right) d h = ground arith
event_is_lem (some escape) d h = ground arith
event_is_lem (some f2) d h = ground arith
event_is_lem none d h = ground arith

-- No key held, and the states of the shift key with no other.
abbrev pub modifiers : Bool → Modifiers
modifiers shift = record {
  shift_down = shift;
  caps_lock = false;
  ctrl_down = false;
  extended = false;
}

-- The table that the state of the shift key selects.
abbrev pub legend : Bool → ℕ → ℕ
legend false k = get_or keymap k 0
legend true k = get_or keymap_shift k 0

abbrev same : Bool → Bool → Bool
same true b = b
same false b = not b

-- These are the modifiers of above.
abbrev unchanged : Bool → Modifiers → Bool
unchanged shift m =
    same m.shift_down shift && (not m.caps_lock && (not m.ctrl_down && not m.extended))

abbrev is_none : Option Event → Bool
is_none none = true
is_none (some e) = false

abbrev pressed : Bool → ℕ → Bool
pressed shift k =
    not (k == 0xe0)
    && (event_is (decode k false (modifiers shift)).0 (legend shift k)
        && unchanged shift (decode k false (modifiers shift)).1)

abbrev released : Bool → ℕ → Bool
released shift k =
    not (k + 128 == 0xe0)
    && (is_none (decode (k + 128) false (modifiers shift)).0
        && unchanged shift (decode (k + 128) false (modifiers shift)).1)

abbrev typed : Bool → ℕ → Bool
typed shift k = (legend shift k == 0) || (pressed shift k && released shift k)

typed_all : (shift : Bool) → every_under (typed shift) 128 ≡ true
unfolding every_under decode
typed_all false = refl
typed_all true = refl

==-ne : (n : ℕ) → n ≢ 0 → (n == 0) ≡ false
==-ne n ne = ground arith

or_right : (a b : Bool) → (a || b) ≡ true → a ≡ false → b ≡ true
or_right a b h e = ground arith

and_parts : (a b : Bool) → (a && b) ≡ true → (a ≡ true) × (b ≡ true)
and_parts a b h = ground arith

not-true : (a : Bool) → not a ≡ true → a ≡ false
not-true a h = ground arith

same_lem : (a b : Bool) → same a b ≡ true → a ≡ b
same_lem true b h = sym h
same_lem false b h = sym (not-true b h)

unchanged_lem : (shift : Bool) (m : Modifiers) → unchanged shift m ≡ true → m ≡ modifiers shift
unchanged_lem shift m h =
    let (a, rest) = and_parts _ _ h in
    let (b, rest') = and_parts _ _ rest in
    let (c, d) = and_parts _ _ rest' in
    λ i. record {
      shift_down = same_lem m.shift_down shift a i;
      caps_lock = not-true m.caps_lock b i;
      ctrl_down = not-true m.ctrl_down c i;
      extended = not-true m.extended d i;
    }

is_none_lem : (o : Option Event) → is_none o ≡ true → o ≡ none
is_none_lem none h = refl
is_none_lem (some e) h = ground arith

irq-decode :
    (shift : Bool) (k : ℕ) (q : EventQueue) (o : Option Event)
    → (k == 0xe0) ≡ false
    → (decode k false (modifiers shift)).0 ≡ o
    → (decode k false (modifiers shift)).1 ≡ modifiers shift
    → irq k (modifiers shift, q) ≡ (modifiers shift, push_some o q)
unfolding irq
irq-decode shift k q o key event after = rw (key, event, after) refl

-- With no control or caps lock held, pressing and releasing a key that has an entry in the table
-- which the shift key selects pushes exactly that character, and leaves the modifiers as they were.
pub irq-irq :
    (shift : Bool) (k : ℕ) (q : EventQueue)
    → k < 128
    → legend shift k ≢ 0
    → irq (k + 128) (irq k (modifiers shift, q)) ≡ (modifiers shift, push (char (legend shift k)) q)
irq-irq shift k q h has_entry =
    let both =
      or_right _ _ (every_under_lem (typed shift) 128 k h (typed_all shift)) (differs has_entry) in
    let (press, release) = and_parts _ _ both in
    let (key, press') = and_parts _ _ press in
    let (event, after) = and_parts _ _ press' in
    let (key', release') = and_parts _ _ release in
    let (nothing, after') = and_parts _ _ release' in
    ap (irq (k + 128)) (
      irq-decode shift k q _ (not-true _ key) (event_is_lem _ _ event)
        (unchanged_lem shift _ after))
    ∙ irq-decode shift (k + 128) (push (char (legend shift k)) q) none (not-true _ key')
        (is_none_lem _ nothing) (unchanged_lem shift _ after')
  where
    differs : legend shift k ≢ 0 → (legend shift k == 0) ≡ false
    differs ne = ==-ne (legend shift k) ne
