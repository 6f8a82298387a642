-- ===== src/Mouse/Packets.antt =====
-- src/mouse.rs: what a packet of three bytes does, whatever came before it.
use macha_os.Prelude.{
  ℕ, ◌+◌, ◌-◌, ◌<◌, ◌≡◌, Bool, true, false, if◌then◌else◌, zero, suc, refl, ap, ◌&&◌, not, List, [],
  ◌∷◌, arith, length, set, ◌∙◌, length-set, inl, inr, Bool-cases,
}
use macha_os.Mouse.{negsuc, pos, negate, ℤ, MouseEvent, push, Mouse, has_bit, extend, decode, irq}

-- The packet for an event as the device sends it: the buttons, the sync bit and the signs of the
-- movements, and their low bytes; the vertical movement is reported upwards.
abbrev pub sign_of : ℤ → Bool
sign_of (pos n) = false
sign_of (negsuc n) = true

abbrev pub low_of : ℤ → ℕ
low_of (pos n) = n
low_of (negsuc n) = 255 - n

abbrev pub InNineBits : ℤ → Type 0
InNineBits (pos n) = n < 256
InNineBits (negsuc n) = n < 256

abbrev pub bit : Bool → ℕ → ℕ
bit b value = if b then value else 0

abbrev pub first_of : Bool → Bool → Bool → Bool → Bool → ℕ
first_of left right middle x y = 8 + bit left 1 + bit right 2 + bit middle 4 + bit x 16 + bit y 32

abbrev pub packet_of : MouseEvent → List ℕ
packet_of e =
    let up = negate e.dy in
    first_of e.left e.right e.middle (sign_of e.dx) (sign_of up) ∷ low_of e.dx ∷ low_of up ∷ []

-- Interrupts for one byte after the other.
abbrev pub feed : List ℕ → Mouse → Mouse
feed [] m = m
feed (b ∷ bs) m = feed bs (irq b m)

abbrev every : (Bool → Bool) → Bool
every f = f true && f false

every-true : (f : Bool → Bool) → every f ≡ true → (b : Bool) → f b ≡ true
every-true f h b = go (f true) (f false) h refl refl b
  where
    go : (x y : Bool) → (x && y) ≡ true → f true ≡ x → f false ≡ y → (b : Bool) → f b ≡ true
    go true true h ht hf true = ht
    go true true h ht hf false = hf
    go true false h ht hf b = absurd (ground arith)
    go false y h ht hf b = absurd (ground arith)

abbrev same : Bool → Bool → Bool
same true b = b
same false b = not b

same-≡ : (a b : Bool) → same a b ≡ true → a ≡ b
same-≡ true true h = refl
same-≡ true false h = absurd (ground arith)
same-≡ false true h = absurd (ground arith)
same-≡ false false h = refl

abbrev flag :
    (mask : ℕ) → (Bool → Bool → Bool → Bool → Bool → Bool) → Bool → Bool → Bool → Bool → Bool → Bool
flag mask pick l r m x y = same (has_bit (first_of l r m x y) mask) (pick l r m x y)

abbrev all_flags : (Bool → Bool → Bool → Bool → Bool → Bool) → Bool
all_flags f = every (λ l. every (λ r. every (λ m. every (λ x. every (λ y. f l r m x y)))))

all_flags-true :
    (f : Bool → Bool → Bool → Bool → Bool → Bool)
    → all_flags f ≡ true
    → (l r m x y : Bool) → f l r m x y ≡ true
all_flags-true f h l r m x y =
    let h1 =
      every-true (λ l. every (λ r. every (λ m. every (λ x. every (λ y. f l r m x y))))) h l in
    let h2 = every-true (λ r. every (λ m. every (λ x. every (λ y. f l r m x y)))) h1 r in
    let h3 = every-true (λ m. every (λ x. every (λ y. f l r m x y))) h2 m in
    let h4 = every-true (λ x. every (λ y. f l r m x y)) h3 x in every-true (λ y. f l r m x y) h4 y

flag_lem :
    (mask : ℕ) (pick : Bool → Bool → Bool → Bool → Bool → Bool)
    → all_flags (flag mask pick) ≡ true
    → (l r m x y : Bool) → has_bit (first_of l r m x y) mask ≡ pick l r m x y
flag_lem mask pick h l r m x y = same-≡ _ _ (all_flags-true (flag mask pick) h l r m x y)

extend-low : (z : ℤ) → InNineBits z → extend (sign_of z) (low_of z) ≡ z
extend-low (pos n) h = refl
extend-low (negsuc n) h = ap negsuc (omega arith)

negate-negate : (z : ℤ) → negate (negate z) ≡ z
negate-negate (pos zero) = refl
negate-negate (pos (suc n)) = refl
negate-negate (negsuc n) = refl

decode-packet_of :
    (e : MouseEvent) → InNineBits e.dx → InNineBits (negate e.dy) → decode (packet_of e) ≡ e
unfolding decode
decode-packet_of e hx hy =
    let up = negate e.dy in
    rw
      (
        flag_lem 0x01 (λ l r m x y. l) refl e.left e.right e.middle (sign_of e.dx) (sign_of up),
        flag_lem 0x02 (λ l r m x y. r) refl e.left e.right e.middle (sign_of e.dx) (sign_of up),
        flag_lem 0x04 (λ l r m x y. m) refl e.left e.right e.middle (sign_of e.dx) (sign_of up),
        flag_lem 0x10 (λ l r m x y. x) refl e.left e.right e.middle (sign_of e.dx) (sign_of up),
        flag_lem 0x20 (λ l r m x y. y) refl e.left e.right e.middle (sign_of e.dx) (sign_of up),
        extend-low e.dx hx,
        extend-low up hy,
        negate-negate e.dy,
      )
      refl

-- The three bytes are there, and the next index is one of theirs.
pub record IsValid (m : Mouse) : Type 0 where
  pub three : length m.packet.bytes ≡ 3
  pub within : m.packet.index < 3

abbrev pub IsIdle : Mouse → Type 0
IsIdle m = m.packet.index ≡ 0

irq-first :
    (m : Mouse) (b : ℕ)
    → IsIdle m
    → has_bit b 0x08 ≡ true
    → irq b m ≡ record m { packet = record { bytes = set m.packet.bytes 0 b; index = 1 } }
unfolding irq
irq-first m b at sync = rw (at, sync) refl

set_three :
    (bs : List ℕ) (a b c : ℕ) → length bs ≡ 3 → set (set (set bs 0 a) 1 b) 2 c ≡ a ∷ b ∷ c ∷ []
set_three [] a b c h = absurd (omega arith)
set_three (x ∷ []) a b c h = absurd (omega arith)
set_three (x ∷ y ∷ []) a b c h = absurd (omega arith)
set_three (x ∷ y ∷ z ∷ []) a b c h = refl
set_three (x ∷ y ∷ z ∷ w ∷ rest) a b c h = absurd (omega arith)

-- Between packets and with its first packet behind it, the driver that gets the three bytes of an
-- event with 9-bit movements pushes exactly that event, and is between packets again.
pub feed-packet_of :
    (m : Mouse) (e : MouseEvent)
    → IsValid m
    → IsIdle m
    → m.skip_first ≡ false
    → InNineBits e.dx
    → InNineBits (negate e.dy)
    → feed (packet_of e) m
      ≡ record m { packet = record { bytes = packet_of e; index = 0 }; queue = push m.queue e }
unfolding irq
feed-packet_of m e valid at ready hx hy =
    let up = negate e.dy in
    let sync =
      flag_lem 0x08 (λ l r m x y. true) refl e.left e.right e.middle (sign_of e.dx) (sign_of up) in
    ap (feed (low_of e.dx ∷ low_of up ∷ [])) (irq-first m _ at sync)
    ∙ rw
        (
          ready,
          set_three m.packet.bytes (first_of e.left e.right e.middle (sign_of e.dx) (sign_of up))
              (low_of e.dx) (low_of up) valid.three,
          decode-packet_of e hx hy,
        )
        refl

-- Where a byte without the sync bit leads.
abbrev skip_to : ℕ → ℕ
skip_to zero = 0
skip_to (suc zero) = 2
skip_to (suc (suc n)) = 0

abbrev Unsynced : Mouse → Mouse → Type 0
Unsynced m w =
    (w.packet.index ≡ skip_to m.packet.index)
    × IsValid w
    × (m.skip_first ≡ false → w.skip_first ≡ false)

irq-Unsynced : (m : Mouse) (x : ℕ) → IsValid m → has_bit x 0x08 ≡ false → Unsynced m (irq x m)
unfolding irq
irq-Unsynced m x valid clear = go m.packet.index refl
  where
    stored : (i : ℕ) → length (set m.packet.bytes i x) ≡ 3
    stored i = length-set m.packet.bytes i x ∙ valid.three

    go : (i : ℕ) → m.packet.index ≡ i → Unsynced m (irq x m)
    go zero at = rw (at, clear) (refl, record { three = valid.three; within = omega arith }, λ h. h)
    go (suc zero) at = rw at (refl, record { three = stored 1; within = omega arith }, λ h. h)
    go (suc (suc zero)) at = elim (Bool-cases m.skip_first) [
      | inl skip ↦
          rw (at, skip) (refl, record { three = stored 2; within = omega arith }, λ h. refl)
      | inr ready ↦
          rw (at, ready) (refl, record { three = stored 2; within = omega arith }, λ h. refl)
    ]
    go (suc (suc (suc n))) at = absurd (omega (arith, at, valid.within))

-- Wherever in a packet the driver stands, with its first packet behind it, two bytes without the
-- sync bit bring it back in step: the packet of any event with 9-bit movements that follows them
-- pushes exactly that event.
pub feed_resync :
    (m : Mouse) (x y : ℕ) (e : MouseEvent)
    → IsValid m
    → m.skip_first ≡ false
    → has_bit x 0x08 ≡ false
    → has_bit y 0x08 ≡ false
    → InNineBits e.dx
    → InNineBits (negate e.dy)
    → (feed (x ∷ y ∷ packet_of e) m).queue ≡ push (irq y (irq x m)).queue e
feed_resync m x y e valid ready cx cy hx hy =
    let (at1, valid1, ready1) = irq-Unsynced m x valid cx in
    let (at2, valid2, ready2) = irq-Unsynced (irq x m) y valid1 cy in
    let idle : IsIdle (irq y (irq x m)) =
      at2 ∙ ap skip_to at1 ∙ twice m.packet.index valid.within in
    ap (λ w. w.queue) (feed-packet_of (irq y (irq x m)) e valid2 idle (ready2 (ready1 ready)) hx hy)
  where
    twice : (i : ℕ) → i < 3 → skip_to (skip_to i) ≡ 0
    twice zero h = refl
    twice (suc zero) h = refl
    twice (suc (suc n)) h = refl
