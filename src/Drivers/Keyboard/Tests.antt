-- ===== src/Drivers/Keyboard/Tests.antt =====
-- The keyboard at a few keys.
use dosfs.Prelude.{◌-◌, ◌≡◌, refl, true, false, arith, if◌then◌else◌}
use dosfs.Drivers.Keyboard.{Keyboard, keyboard_handler, scancode_to_ascii}
use dosfs.Drivers.Keyboard.Letters.{differ, letter_typed}

abbrev idle : Keyboard
idle = record {
  key_buffer = 0;
  key_available = false;
  scancode_buffer = 0;
  scancode_available = false;
  scancode_extended_state = false;
  shift_pressed = true;
  ctrl_pressed = false;
  caps_lock = true;
  extended_prefix = false;
}

is_letter : (scancode_to_ascii 0x1E) ≡ b'a'
unfolding scancode_to_ascii
is_letter = refl

letter_typed_example :
    ((keyboard_handler 0x1E idle).key_available ≡ true)
    × ((keyboard_handler 0x1E idle).key_buffer
        ≡ (if differ true true then scancode_to_ascii 0x1E - 32 else scancode_to_ascii 0x1E))
unfolding scancode_to_ascii
letter_typed_example = letter_typed 0x1E idle (omega arith) refl refl refl
