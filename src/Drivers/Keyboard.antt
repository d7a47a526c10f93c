-- ===== src/Drivers/Keyboard.antt =====
-- src/drivers/keyboard.c: the handler of the keyboard's interrupt, and what reads its one-key buffers.
-- A key is its byte. The tables end at their last entry that is not 0. The interrupt flag, the ports and
-- the registration of the handler are left out: an interrupt is a call of `keyboard_handler` with the
-- scancode that it reads.
mod Letters
mod Tests
use dosfs.Prelude.{
  ℕ, ◌+◌, ◌-◌, ◌%◌, Bool, true, false, not, ◌&&◌, ◌||◌, Option, none, some, List, [], ◌∷◌, ltb, leb,
  ◌==◌, if◌then◌else◌, get_or,
}

abbrev pub ascii_table : List ℕ
ascii_table =
    0 ∷ 0 ∷ b'1' ∷ b'2' ∷ b'3' ∷ b'4' ∷ b'5' ∷ b'6' ∷ b'7' ∷ b'8' ∷ b'9' ∷ b'0' ∷ b'-' ∷ b'=' ∷ 8
    ∷ 9 ∷ b'q' ∷ b'w' ∷ b'e' ∷ b'r' ∷ b't' ∷ b'y' ∷ b'u' ∷ b'i' ∷ b'o' ∷ b'p' ∷ b'[' ∷ b']' ∷ 10 ∷ 0
    ∷ b'a' ∷ b's' ∷ b'd' ∷ b'f' ∷ b'g' ∷ b'h' ∷ b'j' ∷ b'k' ∷ b'l' ∷ b';' ∷ 39 ∷ b'`' ∷ 0 ∷ 92
    ∷ b'z' ∷ b'x' ∷ b'c' ∷ b'v' ∷ b'b' ∷ b'n' ∷ b'm' ∷ b',' ∷ b'.' ∷ b'/' ∷ 0 ∷ b'*' ∷ 0 ∷ 32 ∷ 0
    ∷ 0 ∷ 0 ∷ 0 ∷ 0 ∷ 0 ∷ 0 ∷ 0 ∷ 0 ∷ 0 ∷ 0 ∷ 0 ∷ 0 ∷ 0 ∷ 0 ∷ 0 ∷ b'-' ∷ 0 ∷ 0 ∷ 0 ∷ b'+' ∷ []

abbrev pub shift_table : List ℕ
shift_table =
    0 ∷ 0 ∷ b'!' ∷ b'@' ∷ b'#' ∷ b'$' ∷ b'%' ∷ b'^' ∷ b'&' ∷ b'*' ∷ b'(' ∷ b')' ∷ b'_' ∷ b'+' ∷ 0
    ∷ 0 ∷ b'Q' ∷ b'W' ∷ b'E' ∷ b'R' ∷ b'T' ∷ b'Y' ∷ b'U' ∷ b'I' ∷ b'O' ∷ b'P' ∷ b'{' ∷ b'}' ∷ 10 ∷ 0
    ∷ b'A' ∷ b'S' ∷ b'D' ∷ b'F' ∷ b'G' ∷ b'H' ∷ b'J' ∷ b'K' ∷ b'L' ∷ b':' ∷ b'"' ∷ b'~' ∷ 0 ∷ b'|'
    ∷ b'Z' ∷ b'X' ∷ b'C' ∷ b'V' ∷ b'B' ∷ b'N' ∷ b'M' ∷ b'<' ∷ b'>' ∷ b'?' ∷ 0 ∷ b'*' ∷ 0 ∷ 32 ∷ 0
    ∷ 0 ∷ 0 ∷ 0 ∷ 0 ∷ 0 ∷ 0 ∷ 0 ∷ 0 ∷ 0 ∷ 0 ∷ 0 ∷ 0 ∷ 0 ∷ 0 ∷ 0 ∷ b'-' ∷ 0 ∷ 0 ∷ 0 ∷ b'+' ∷ []

pub scancode_to_ascii : ℕ → ℕ
scancode_to_ascii sc = get_or ascii_table sc 0

pub scancode_to_shift : ℕ → ℕ
scancode_to_shift sc = get_or shift_table sc 0

abbrev pub key_none : ℕ
key_none = 0

-- the key codes of the header, by the scancode behind 0xE0
pub extended_key : ℕ → ℕ
extended_key sc =
    if sc == 0x48
    then 0xF1
    else if sc == 0x50
    then 0xF2
    else if sc == 0x4B
    then 0xF3
    else if sc == 0x4D
    then 0xF4
    else if sc == 0x47
    then 0xF5
    else if sc == 0x4F
    then 0xF6
    else if sc == 0x49
    then 0xF7
    else if sc == 0x51
    then 0xF8
    else if sc == 0x53
    then 0xF9
    else if sc == 0x52
    then 0xFA
    else key_none

pub record Keyboard : Type 0 where
  pub key_buffer : ℕ
  pub key_available : Bool
  pub scancode_buffer : ℕ
  pub scancode_available : Bool
  pub scancode_extended_state : Bool
  pub shift_pressed : Bool
  pub ctrl_pressed : Bool
  pub caps_lock : Bool
  pub extended_prefix : Bool

abbrev pub is_lower : ℕ → Bool
is_lower c = leb b'a' c && leb c b'z'

abbrev pub is_upper : ℕ → Bool
is_upper c = leb b'A' c && leb c b'Z'

-- `key_buffer = c; key_available = true;`
abbrev pub offer : ℕ → Keyboard → Keyboard
offer c k = record k { key_buffer = c; key_available = true }

-- the character of a key, with the modifiers
pub translate : ℕ → Keyboard → ℕ
translate sc k =
    let c = if k.shift_pressed then scancode_to_shift sc else scancode_to_ascii sc in
    if k.ctrl_pressed && is_lower c
    then c % 32
    else if k.ctrl_pressed && is_upper c
    then c % 32
    else if not k.caps_lock
    then c
    else if is_lower c
    then c - b'a' + b'A'
    else if is_upper c
    then c - b'A' + b'a'
    else c

-- a key that is pressed and no modifier
pub press : ℕ → Bool → Keyboard → Keyboard
press sc is_extended k =
    let k' = record k {
      scancode_buffer = sc;
      scancode_available = true;
      scancode_extended_state = is_extended;
    } in
    let ext = extended_key sc in
    let c = translate sc k in
    if is_extended
    then (if ext == key_none then k' else offer ext k')
    else (if c == 0 then k' else offer c k')

pub keyboard_handler : ℕ → Keyboard → Keyboard
keyboard_handler sc k0 =
    let k = record k0 { extended_prefix = false } in
    if sc == 0xE0
    then record k0 { extended_prefix = true }
    else if sc == 0x1D
    then record k { ctrl_pressed = true }
    else if sc == 0x9D
    then record k { ctrl_pressed = false }
    else if (sc == 0x2A) || (sc == 0x36)
    then record k { shift_pressed = true }
    else if (sc == 0xAA) || (sc == 0xB6)
    then record k { shift_pressed = false }
    else if sc == 0x3A
    then record k { caps_lock = not k.caps_lock }
    else if leb 128 sc
    then k
    else press sc k0.extended_prefix k

-- `none` while there is no key: the source waits for an interrupt.
pub keyboard_getchar : Keyboard → Option (ℕ × Keyboard)
keyboard_getchar k =
    if k.key_available then some (k.key_buffer, record k { key_available = false }) else none

pub keyboard_get_scancode : Keyboard → Option (ℕ × Keyboard)
keyboard_get_scancode k =
    if k.scancode_available
    then some (k.scancode_buffer, record k { scancode_available = false })
    else none

pub keyboard_get_extended : Keyboard → ℕ × Keyboard
keyboard_get_extended k =
    if not k.scancode_available
    then (key_none, k)
    else if not k.scancode_extended_state
    then (key_none, record k { scancode_available = true })
    else (
      extended_key k.scancode_buffer,
      record k { scancode_available = false; scancode_extended_state = false },
    )

pub keyboard_flush : Keyboard → Keyboard
keyboard_flush k = record k {
  key_available = false;
  scancode_available = false;
  scancode_extended_state = false;
}
