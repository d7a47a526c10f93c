-- ===== src/Drivers/Keyboard/Letters.antt =====
-- The letters of the keyboard.
use dosfs.Prelude.{
  ℕ, zero, suc, ◌-◌, ◌<◌, ◌≤◌, inl, inr, Bool-cases, ◌≡◌, refl, Bool, true, false, not, ◌&&◌, ◌||◌,
  arith, ◌==◌, if◌then◌else◌,
}
use dosfs.Drivers.Keyboard.{
  Keyboard, scancode_to_ascii, scancode_to_shift, is_lower, translate, press, keyboard_handler,
}

-- A letter's key is no modifier, and stands for the capital in the table for shift.
letter_key : ℕ → Bool
letter_key sc =
    not (is_lower (scancode_to_ascii sc))
    || ((scancode_to_shift sc == scancode_to_ascii sc - 32)
        && not (sc == 0x1D)
        && not (sc == 0x2A)
        && not (sc == 0x36)
        && not (sc == 0x3A))

-- the same of the keys up to `top`
letter_keys : ℕ → Bool
letter_keys zero = letter_key 0
letter_keys (suc top) = letter_key (suc top) && letter_keys top

letter_keys_lem : (top sc : ℕ) → letter_keys top ≡ true → sc ≤ top → letter_key sc ≡ true
unfolding letter_keys
letter_keys_lem zero sc h lt = let first : 0 ≡ sc = omega arith in rw (← first) h
letter_keys_lem (suc top) sc h lt = elim (Bool-cases (sc == suc top)) [
  | inl e ↦ let last : suc top ≡ sc = ground arith in rw (← last) (ground (arith, h))
  | inr e ↦ letter_keys_lem top sc (ground (arith, h)) (ground arith)
]

all_keys : letter_keys 127 ≡ true
unfolding letter_keys letter_key scancode_to_ascii scancode_to_shift
all_keys = refl

-- whether exactly one is on
abbrev pub differ : Bool → Bool → Bool
differ a b = if a then not b else b

-- With neither Ctrl nor a prefix before it, the key of a letter offers the letter to the next
-- `keyboard_getchar`: the capital exactly when one of Shift and Caps Lock is on, and not both.
pub letter_typed :
    (sc : ℕ) (k : Keyboard)
    → sc < 128
    → is_lower (scancode_to_ascii sc) ≡ true
    → k.ctrl_pressed ≡ false
    → k.extended_prefix ≡ false
    → ((keyboard_handler sc k).key_available ≡ true)
      × ((keyboard_handler sc k).key_buffer ≡ (
          if differ k.shift_pressed k.caps_lock
          then scancode_to_ascii sc - 32
          else scancode_to_ascii sc))
unfolding keyboard_handler press translate letter_key
letter_typed sc k lt low ctrl prefix =
    let fact = letter_keys_lem 127 sc all_keys (omega arith) in ground (arith, fact)
