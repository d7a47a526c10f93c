-- ===== src/Net/Dns/Names.antt =====
-- A name that is encoded is skipped.
use mathlib.Core.List.{append_assoc}
use dosfs.Prelude.{
  ◌||◌, drop_front, ℕ, zero, suc, ◌<◌, ◌≤◌, ◌≡◌, ◌≢◌, refl, ap, false, some, List, [], ◌∷◌, ◌++◌,
  arith, ltb, leb, ◌==◌, length, drop, length-append,
}
use dosfs.Net.Dns.{label, encode, dns_enc_name, skip_name, dns_skip_name}

-- A label: bytes that are neither a dot nor a NUL.
abbrev pub IsPlain : List ℕ → Type 0
IsPlain [] = Unit
IsPlain (c ∷ l) = ((c ≢ 0) × (c ≢ b'.')) × IsPlain l

-- labels of 1 to 63 bytes
abbrev pub AreLabels : List (List ℕ) → Type 0
AreLabels [] = Unit
AreLabels (l ∷ ls) = IsPlain l × (0 < length l) × (length l < 64) × AreLabels ls

-- the labels `l ∷ ls` with a dot between two of them
abbrev pub joined : List ℕ → List (List ℕ) → List ℕ
joined l [] = l
joined l (m ∷ ms) = l ++ (b'.' ∷ joined m ms)

-- each label behind its length, and the 0 at the end
abbrev pub coded : List (List ℕ) → List ℕ
coded [] = 0 ∷ []
coded (l ∷ ls) = length l ∷ (l ++ coded ls)

label-end : (l : List ℕ) → IsPlain l → label l ≡ (l, [])
unfolding label
label-end [] h = refl
label-end (c ∷ l) h =
    let plain : ((c == 0) || (c == b'.')) ≡ false = ground (arith, h.0) in
    rw (plain, label-end l h.1) refl

label-dot : (l rest : List ℕ) → IsPlain l → label (l ++ (b'.' ∷ rest)) ≡ (l, b'.' ∷ rest)
unfolding label
label-dot [] rest h = refl
label-dot (c ∷ l) rest h =
    let plain : ((c == 0) || (c == b'.')) ≡ false = ground (arith, h.0) in
    rw (plain, label-dot l rest h.1) refl

encode-joined :
    (n : ℕ) (l : List ℕ) (ls : List (List ℕ))
    → AreLabels (l ∷ ls)
    → length (joined l ls) < n
    → encode n (joined l ls) ≡ some (coded (l ∷ ls))
unfolding encode
encode-joined zero l ls p h = absurd (omega arith)
encode-joined (suc n) [] ls p h = absurd (omega (arith, p.1))
encode-joined (suc zero) (c ∷ l) [] p h = absurd (omega arith)
encode-joined (suc (suc n)) (c ∷ l) [] p h =
    let more : (c == 0) ≡ false = ground (arith, p.0.0.0) in
    let short : ltb 63 (length (c ∷ l)) ≡ false = ground (arith, p.2) in
    let word : (label (c ∷ l)).0 ≡ c ∷ l = ap (λ x. x.0) (label-end (c ∷ l) p.0) in
    let after : (label (c ∷ l)).1 ≡ [] = ap (λ x. x.1) (label-end (c ∷ l) p.0) in
    rw (encode, after, word, short, more) refl
encode-joined (suc n) (c ∷ l) (m ∷ ms) p h =
    let more : (c == 0) ≡ false = ground (arith, p.0.0.0) in
    let short : ltb 63 (length (c ∷ l)) ≡ false = ground (arith, p.2) in
    let ih = encode-joined n m ms p.3 (omega (arith, length-append (c ∷ l) (b'.' ∷ joined m ms))) in
    let rest = joined m ms in
    let word : (label (c ∷ (l ++ (b'.' ∷ rest)))).0 ≡ c ∷ l =
      ap (λ x. x.0) (label-dot (c ∷ l) rest p.0) in
    let after : (label (c ∷ (l ++ (b'.' ∷ rest)))).1 ≡ b'.' ∷ rest =
      ap (λ x. x.1) (label-dot (c ∷ l) rest p.0) in
    rw (encode, after, ih, word, short, more) refl

skip_name-coded :
    (n : ℕ) (ls : List (List ℕ)) (rest : List ℕ)
    → AreLabels ls
    → length (coded ls ++ rest) ≤ n
    → skip_name n (coded ls ++ rest) ≡ some rest
unfolding skip_name
skip_name-coded zero [] rest p h = absurd (omega arith)
skip_name-coded (suc n) [] rest p h = refl
skip_name-coded zero (l ∷ ls) rest p h = absurd (omega arith)
skip_name-coded (suc n) (l ∷ ls) rest p h =
    let ih = skip_name-coded n ls rest p.3 (
      omega (
        arith,
        length-append (l ++ coded ls) rest,
        length-append l (coded ls),
        length-append (coded ls) rest,
      )) in
    let full : (length l == 0) ≡ false = ground (arith, p.1) in
    let plain : leb 64 (length l) ≡ false = ground (arith, p.2) in
    let behind : drop (length l) ((l ++ coded ls) ++ rest) ≡ coded ls ++ rest =
      rw (append_assoc l (coded ls) rest) (drop_front l (coded ls ++ rest)) in
    rw (skip_name, full, plain, behind) ih

-- A name of labels of 1 to 63 bytes, none of them a NUL or a dot, with a dot between two of them is encoded, each label behind its length and a 0 at the end, and `dns_skip_name` passes over exactly that, whatever follows it.
pub dns_skip-enc :
    (l : List ℕ) (ls : List (List ℕ)) (rest : List ℕ)
    → AreLabels (l ∷ ls)
    → (dns_enc_name (joined l ls) ≡ some (coded (l ∷ ls)))
      × (dns_skip_name (coded (l ∷ ls) ++ rest) ≡ some rest)
unfolding dns_enc_name dns_skip_name
dns_skip-enc l ls rest p = (
  encode-joined (suc (length (joined l ls))) l ls p (omega arith),
  skip_name-coded (length (coded (l ∷ ls) ++ rest)) (l ∷ ls) rest p (omega arith),
)
