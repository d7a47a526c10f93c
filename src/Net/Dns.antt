-- ===== src/Net/Dns.antt =====
-- src/net/net.c: names in the messages of the domain name system, and the reading of a reply.
-- A host name and a message are lists of bytes, and a place in a message is what is left of it.
mod Names
mod Tests
use dosfs.Prelude.{
  ℕ, zero, suc, ◌+◌, ◌-◌, ◌*◌, ◌/◌, ◌%◌, ◌^◌, Bool, true, false, not, ◌&&◌, ◌||◌, Option, none,
  some, List, [], ◌∷◌, ◌++◌, ltb, leb, ◌==◌, if◌then◌else◌, get_or, length, take, drop,
}

-- `while (*dot && *dot != '.') dot++;`: the bytes up to a dot or a NUL, and what follows
pub label : List ℕ → List ℕ × List ℕ
label [] = ([], [])
label (c ∷ name) =
    let (l, rest) = label name in if (c == 0) || (c == b'.') then ([], c ∷ name) else (c ∷ l, rest)

-- `if (*name == '.') name++;`
abbrev pub skip_dot : List ℕ → List ℕ
skip_dot [] = []
skip_dot (c ∷ name) = if c == b'.' then name else c ∷ name

-- The loop of `dns_enc_name`, of at most `n` rounds: the bytes written, unless a label has more than 63.
pub encode : ℕ → List ℕ → Option (List ℕ)
encode zero name = none
encode (suc n) [] = some (0 ∷ [])
encode (suc n) (c ∷ name) =
    let (l, rest) = label (c ∷ name) in
    let coded : Option (List ℕ) = elim (encode n (skip_dot rest)) [
      | none ↦ none
      | some bytes ↦ some (length l ∷ (l ++ bytes))
    ] in
    if c == 0 then some (0 ∷ []) else if ltb 63 (length l) then none else coded

-- Each round takes a byte of the name, or its dot.
pub dns_enc_name : List ℕ → Option (List ℕ)
unfolding encode
dns_enc_name name = encode (suc (length name)) name

-- `dns_skip_name`, of at most `n` rounds; there is no result where it runs out of the message.
pub skip_name : ℕ → List ℕ → Option (List ℕ)
skip_name zero p = none
skip_name (suc n) [] = none
skip_name (suc n) (c ∷ p) =
    let rest = skip_name n (drop c p) in
    if c == 0 then some p else if leb 64 c then (elim p [ [] ↦ none | d ∷ p' ↦ some p' ]) else rest

-- Each round takes a byte of the message.
pub dns_skip_name : List ℕ → Option (List ℕ)
unfolding skip_name
dns_skip_name p = skip_name (length p) p

-- the reply for the query with the number 0x1234: the error returned, or the address
pub data Answer : Type 0 where
  ignored : Answer
  refused : ℕ → Answer
  found : List ℕ → Answer

abbrev pub word_at : List ℕ → ℕ → ℕ
word_at p i = get_or p i 0 * 256 + get_or p (i + 1) 0

-- The answer's record behind its name; `refused 4` is the return of -4. There is no result where the
-- record does not end in the buffer.
pub read_record : List ℕ → Option Answer
read_record p =
    if ltb (length p) 2
    then none
    else if not (word_at p 0 == 1)
    then some (refused 4)
    else if ltb (length p) 10
    then none
    else if not (word_at p 8 == 4)
    then some (refused 4)
    else if ltb (length p) 14
    then none
    else some (found (take 4 (drop 10 p)))

-- What `dns_resolve` does with a reply of `n` bytes in its buffer. There is no result where a name in
-- it does not end in the buffer.
pub read_reply : ℕ → List ℕ → Option Answer
unfolding read_record dns_skip_name
read_reply n reply =
    let names : Option Answer = elim (dns_skip_name (drop 12 reply)) [
      | none ↦ none
      | some p ↦ elim (dns_skip_name (drop 4 p)) [ none ↦ none | some q ↦ read_record q ]
    ] in
    if not (ltb 12 n && (get_or reply 0 0 == 0x12) && (get_or reply 1 0 == 0x34))
    then some ignored
    else if not (leb 128 (get_or reply 2 0) && (get_or reply 3 0 % 16 == 0))
    then some (refused 2)
    else if word_at reply 6 == 0
    then some (refused 3)
    else names

-- the query for a host name: its header, the name, and the type and the class 1
pub dns_query : List ℕ → Option (List ℕ)
unfolding dns_enc_name
dns_query name = elim (dns_enc_name name) [
  | none ↦ none
  | some enc ↦
      some (0x12 ∷ 0x34 ∷ 1 ∷ 0 ∷ 0 ∷ 1 ∷ 0 ∷ 0 ∷ 0 ∷ 0 ∷ 0 ∷ 0 ∷ (enc ++ (0 ∷ 1 ∷ 0 ∷ 1 ∷ [])))
]
