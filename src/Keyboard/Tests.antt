-- ===== src/Keyboard/Tests.antt =====
-- Runs of the keyboard of src/keyboard.c, and the theorems at them.
use muos.Common.{◌≡◌, refl, true, false, [], ◌∷◌}
use muos.Keyboard.{
  Keyboard, Sleeper, Console, proc_notify_console, proc_wake_readers, kbd_process_scancode, press,
  release, character, extended_key, function_key, kbd_buf_put,
}
use muos.Keyboard.Ring.{ring, typed}

-- One character waits, and the head is about to go round.
abbrev board : Keyboard
board = record {
  lshift = false;
  rshift = false;
  lctrl = false;
  rctrl = false;
  lalt = false;
  ralt = false;
  capslock = false;
  extended = false;
  buffer = λ i. 9;
  head = 255;
  tail = 254;
}

-- A process waits for a character.
abbrev sleeper : Sleeper
sleeper = record { asleep = true; blk_ptr = 0x08050000; blk_len = 5; eax = 0; mem = λ a. 0 }

abbrev desk : Console
desk = record { keyboard = board; sleepers = [] }

-- Shift is pressed, A is pressed, shift is released, A is pressed, and the cursor key "up".
types :
    typed
      (kbd_process_scancode 72 (
        kbd_process_scancode 224 (
          kbd_process_scancode 30 (
            kbd_process_scancode 170
              (kbd_process_scancode 30 (kbd_process_scancode 42 desk)))))).keyboard
    ≡ 9 ∷ b'A' ∷ b'a' ∷ 128 ∷ []
unfolding kbd_process_scancode press release character extended_key function_key kbd_buf_put
    proc_notify_console proc_wake_readers ring
types = refl
