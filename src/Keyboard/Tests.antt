-- ===== src/Keyboard/Tests.antt =====
-- src/keyboard.rs: the theorems on the new queue and on one with an event.
use macha_os.Prelude.{true, ◌+◌, ◌≡◌, arith, length-replicate}
use macha_os.Keyboard.{char, new_queue, push}
use macha_os.Keyboard.Scancodes.{irq}
use macha_os.Keyboard.Typing.{modifiers, irq-irq}
use macha_os.Keyboard.Ring.{IsValid}

new_queue-IsValid : IsValid new_queue
unfolding new_queue
new_queue-IsValid = record {
  full_size = length-replicate 256 (char 0);
  head_in = omega arith;
  tail_in = omega arith;
}

irq-irq_example :
    irq (30 + 128) (irq 30 (modifiers true, new_queue)) ≡ (modifiers true, push (char 65) new_queue)
irq-irq_example = irq-irq true 30 new_queue (omega arith) (λ e. ground arith)
