-- ===== src/Mouse/Tests.antt =====
-- src/mouse.rs: a packet after two stray bytes.
use macha_os.Prelude.{◌≡◌, refl, true, false, [], ◌∷◌, arith}
use macha_os.Mouse.{pos, negsuc, MouseEvent, Mouse, initial, push, irq}
use macha_os.Mouse.Packets.{feed, packet_of, feed_resync}

-- Left button, 3 to the left and 5 down.
abbrev drag : MouseEvent
drag = record { dx = negsuc 2; dy = pos 5; left = true; right = false; middle = false }

abbrev ready : Mouse
ready = record initial { skip_first = false }

abbrev stray : Mouse
stray = record ready { packet = record { bytes = 8 ∷ 0 ∷ 0 ∷ []; index = 1 } }

feed_resync_example :
    (feed (1 ∷ 2 ∷ packet_of drag) stray).queue ≡ push (irq 2 (irq 1 stray)).queue drag
feed_resync_example =
    feed_resync stray 1 2 drag (record { three = refl; within = omega arith }) refl refl refl
      (omega arith) (omega arith)
