-- ===== src/Libc/Number/RoundTrip.antt =====
-- `atoi` reads back what `itoa` and `uitoa` write in base 10.
use mathlib.Core.List.{reverse, reverse-cons, reverse-append, append-nil}
use native.Mathlib.Numerals.{unary_clauses}
use dosfs.Prelude.{
  Option, none, some, ltb, true, false, ◌&&◌, if◌then◌else◌, ℕ, zero, suc, ◌+◌, ◌-◌, ◌*◌, ◌/◌, ◌%◌,
  ◌^◌, ◌<◌, ◌≤◌, ◌≡◌, ◌∙◌, refl, List, [], ◌∷◌, ◌++◌, arith, leb, ◌==◌, Bool-cases, inl, inr,
}
use dosfs.Libc.Number.{digit, digits, uitoa, itoa, skip_blanks, scan, signed, atoi, negate}

abbrev AllDigits : List ℕ → Type 0
AllDigits [] = Unit
AllDigits (c ∷ s) = (b'0' ≤ c) × (c ≤ b'9') × AllDigits s

AllDigits-append : (s t : List ℕ) → AllDigits s → AllDigits t → AllDigits (s ++ t)
AllDigits-append [] t h k = k
AllDigits-append (c ∷ s) t h k = (h.0, h.1, AllDigits-append s t h.2 k)

-- the rest of a scan, where it has come to a number
then_scan : List ℕ → Option ℕ → Option ℕ
then_scan t none = none
then_scan t (some n) = scan t n

scan-append : (s t : List ℕ) (res : ℕ) → AllDigits s → scan (s ++ t) res ≡ then_scan t (scan s res)
unfolding scan then_scan
scan-append [] t res h = refl
scan-append (c ∷ s) t res h =
    let digit_c : (leb b'0' c && leb c b'9') ≡ true = ground (arith, h.0, h.1) in
    elim (Bool-cases (leb (2 ^ 31) (res * 10 + (c - b'0')))) [
      | inl over ↦ rw (digit_c, over) refl
      | inr fits ↦ rw (digit_c, fits) (scan-append s t (res * 10 + (c - b'0')) h.2)
    ]

-- the number, if it is an `int`
abbrev pub as_int : ℕ → Option ℕ
as_int v = if ltb v (2 ^ 31) then some v else none

scan-last :
    (d q v : ℕ)
    → (b'0' ≤ d) × (d ≤ b'9') × (d ≡ b'0' + v % 10)
    → q ≡ v / 10
    → scan (d ∷ []) q ≡ as_int v
unfolding scan
scan-last d q v h e =
    let digit_d : (leb b'0' d && leb d b'9') ≡ true = ground (arith, h.0, h.1) in
    let next : q * 10 + (d - b'0') ≡ v = omega (arith, e, h.2) in
    elim (Bool-cases (ltb v (2 ^ 31))) [
      | inl fits ↦
          let small : leb (2 ^ 31) v ≡ false = ground arith in rw (digit_d, next, fits, small) refl
      | inr over ↦
          let big : leb (2 ^ 31) v ≡ true = ground arith in rw (digit_d, next, over, big) refl
    ]

pow_room : (n : ℕ) → 2 ^ suc n ≡ 2 * 2 ^ n
pow_room n = simp unary_clauses (omega arith)

-- What the loop writes, turned round, are digits, and they spell the number.
digits-scan :
    (n v : ℕ)
    → v < 2 ^ n
    → v < 2 ^ 32
    → AllDigits (reverse (digits n v 10)) × (scan (reverse (digits n v 10)) 0 ≡ as_int v)
unfolding digits scan then_scan
digits-scan zero v h k = let nothing : v ≡ 0 = omega (arith, h) in (tt, rw nothing refl)
digits-scan (suc n) v h k = elim (Bool-cases (v == 0)) [
  | inl e ↦ let nothing : v ≡ 0 = ground arith in rw (digits, e) (tt, rw nothing refl)
  | inr e ↦
      let q : ℕ = v / 10 in
      let (all, ih) = digits-scan n q (omega (arith, pow_room n, h)) (omega arith) in
      let small : ltb q (2 ^ 31) ≡ true = ground (arith, k) in
      let d : ℕ = digit (v % 10) in
      let d_lem : (b'0' ≤ d) × (d ≤ b'9') × (d ≡ b'0' + v % 10) = ground arith in
      let turned = reverse-cons d (digits n q 10) in
      let apart = scan-append (reverse (digits n q 10)) (d ∷ []) 0 all in
      let last : scan (d ∷ []) q ≡ as_int v = scan-last d q v d_lem refl in
      rw (digits, e, turned)
        (
          AllDigits-append (reverse (digits n q 10)) (d ∷ []) all (d_lem.0, d_lem.1, tt),
          rw (apart, ih, small) last,
        )
]

-- Text that starts with a digit has no blanks and no sign to skip.
atoi-digits : (s : List ℕ) → AllDigits s → atoi s ≡ scan s 0
unfolding atoi skip_blanks signed scan
atoi-digits [] h = refl
atoi-digits (c ∷ s) h = ground arith

atoi-minus :
    (s : List ℕ) → atoi (b'-' ∷ s) ≡ elim (scan s 0) [ none ↦ none | some n ↦ some (negate n) ]
unfolding atoi skip_blanks signed
atoi-minus s = refl

spelled : (v : ℕ) → v < 2 ^ 32 → atoi (reverse (digits 32 v 10)) ≡ as_int v
spelled v h = let (all, s) = digits-scan 32 v h h in atoi-digits (reverse (digits 32 v 10)) all ∙ s

-- `atoi` gives back every `int` but the least, as its pattern, that `itoa` writes in base 10; the digits
-- of the least are too large for an `int`. Of the 32-bit numbers that `uitoa` writes in base 10 it
-- gives back those that are an `int`; for the others it overflows.
pub atoi-itoa :
    (v : ℕ)
    → v < 2 ^ 32
    → (atoi (uitoa v 10) ≡ (if ltb v (2 ^ 31) then some v else none))
      × (atoi (itoa v 10) ≡ (if v == 2 ^ 31 then none else some v))
unfolding uitoa itoa scan
atoi-itoa v h = elim (Bool-cases (v == 0)) [
  | inl e ↦
      let nothing : v ≡ 0 = ground arith in
      let read : atoi (b'0' ∷ []) ≡ some 0 = atoi-digits (b'0' ∷ []) (omega arith) ∙ read_zero in
      rw (uitoa, itoa, nothing, read) (refl, refl)
  | inr e ↦
      let plain = spelled v h in
      (
        rw (uitoa, e) plain,
        elim (Bool-cases (leb (2 ^ 31) v)) [
          | inr small ↦
              let fits : ltb v (2 ^ 31) ≡ true = ground arith in
              let not_least : (v == 2 ^ 31) ≡ false = ground arith in
              rw (itoa, e, small, append-nil, plain, fits, not_least) refl
          | inl big ↦
              let w : ℕ = 2 ^ 32 - v in
              let high : 2 ^ 31 ≤ v = ground arith in
              let (all, s) = digits-scan 32 w (omega arith) (omega arith) in
              let turned = reverse-append (digits 32 w 10) (b'-' ∷ []) in
              let minus = atoi-minus (reverse (digits 32 w 10)) in
              elim (Bool-cases (v == 2 ^ 31)) [
                | inl least ↦
                    let over : ltb w (2 ^ 31) ≡ false = ground arith in
                    rw (itoa, e, big, turned, minus, s, over, least) refl
                | inr other ↦
                    let fits : ltb w (2 ^ 31) ≡ true = ground (arith, high) in
                    let back : negate w ≡ v = omega (arith, high, h) in
                    rw (itoa, e, big, turned, minus, s, fits, other, back) refl
              ]
        ],
      )
]
  where
    read_zero : scan (b'0' ∷ []) 0 ≡ some 0
    read_zero = refl
