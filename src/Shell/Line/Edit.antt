-- ===== src/Shell/Line/Edit.antt =====
-- Typing a line.
use dosfs.Prelude.{
  ℕ, zero, suc, ◌-◌, ◌≤◌, ◌<◌, ◌≡◌, ◌∙◌, refl, ap, inl, inr, none, some, List, [], ◌∷◌, ◌++◌, ◌&&◌,
  min, take-take, arith, ltb, ◌==◌, if◌then◌else◌, set, take, length, length-set, take-set,
  length-take, Bool-cases,
}
use dosfs.Libc.Text.{text}
use dosfs.Libc.Copy.{length-memset}
use dosfs.Shell.Line.{Shell, shell_key}

pub record HasLine (s : Shell) : Type 0 where
  pub room : length s.cmd_buf ≡ 256
  pub short : s.cmd_len ≤ 255

-- the bytes typed so far
abbrev pub line : Shell → List ℕ
line s = take s.cmd_len s.cmd_buf

-- What a key makes of a line: a backspace takes its last byte away, any other key but Enter is put
-- behind a line of less than 255 bytes, and Enter ends it.
pub pressed : ℕ → List ℕ → List ℕ
pressed c l =
    if c == 10
    then []
    else if c == 8
    then take (length l - 1) l
    else if ltb (length l) 255
    then l ++ (c ∷ [])
    else l

take-set_behind : (xs : List ℕ) (n i v : ℕ) → n ≤ i → take n (set xs i v) ≡ take n xs
take-set_behind xs zero i v h = refl
take-set_behind [] (suc n) i v h = refl
take-set_behind (x ∷ xs) (suc n) zero v h = absurd (omega arith)
take-set_behind (x ∷ xs) (suc n) (suc i) v h =
    ap (λ y. x ∷ y) (take-set_behind xs n i v (omega arith))

text_closed : (xs : List ℕ) (i : ℕ) → i < length xs → text (set xs i 0) ≡ text (take i xs)
unfolding text
text_closed [] i h = absurd (omega arith)
text_closed (x ∷ xs) zero h = refl
text_closed (x ∷ xs) (suc i) h = ground (arith, text_closed xs i)

-- Each key does to the line what `pressed` says, and only Enter hands a line over: the text of what was typed, when there is any.
pub shell_key-pressed :
    (c : ℕ) (s : Shell)
    → HasLine s
    → HasLine (shell_key c s).1
      × (line (shell_key c s).1 ≡ pressed c (line s))
      × ((shell_key c s).0
          ≡ (if (c == 10) && ltb 0 (length (line s)) then some (text (line s)) else none))
unfolding shell_key pressed
shell_key-pressed c s v =
    let n : length (line s) ≡ s.cmd_len =
      omega (arith, length-take s.cmd_len s.cmd_buf, v.room, v.short) in
    let inside : s.cmd_len < length s.cmd_buf = omega (arith, v.room, v.short) in
    elim (Bool-cases (c == 10)) [
      | inl enter ↦
          rw (enter, n, text_closed s.cmd_buf s.cmd_len inside)
            (
              record { room = length-memset s.cmd_buf 0 256 ∙ v.room; short = omega arith },
              refl,
              refl,
            )
      | inr other ↦ elim (Bool-cases (c == 8)) [
        | inl back ↦ elim (Bool-cases (ltb 0 s.cmd_len)) [
          | inl more ↦
              let nonempty : 0 < s.cmd_len = ground arith in
              let one_less : min (s.cmd_len - 1) s.cmd_len ≡ s.cmd_len - 1 = omega arith in
              let shorter : take (s.cmd_len - 1) (set s.cmd_buf (s.cmd_len - 1) 0)
                  ≡ take (length (line s) - 1) (line s) =
                take-set_behind s.cmd_buf (s.cmd_len - 1) (s.cmd_len - 1) 0 (omega arith)
                ∙ rw (n, take-take (s.cmd_len - 1) s.cmd_len s.cmd_buf, one_less) refl in
              rw (other, back, more)
                (
                  record {
                    room = length-set s.cmd_buf (s.cmd_len - 1) 0 ∙ v.room;
                    short = omega (arith, v.short);
                  },
                  shorter,
                  refl,
                )
          | inr empty ↦
              let none_typed : s.cmd_len ≡ 0 = ground arith in
              let same : line s ≡ take (length (line s) - 1) (line s) = rw (n, none_typed) refl in
              rw (other, back, empty) (v, same, refl)
        ]
        | inr key ↦ elim (Bool-cases (ltb s.cmd_len 255)) [
          | inl fits ↦
              rw (other, key, n, fits)
                (
                  record {
                    room = length-set s.cmd_buf s.cmd_len c ∙ v.room;
                    short = ground (arith, v.short);
                  },
                  take-set s.cmd_buf s.cmd_len c inside,
                  refl,
                )
          | inr full ↦ rw (other, key, n, full) (v, refl, refl)
        ]
      ]
    ]
