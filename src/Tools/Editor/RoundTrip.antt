-- ===== src/Tools/Editor/RoundTrip.antt =====
-- What is saved is opened again: the lines as a file, and the file as lines.
use mathlib.Core.List.{append_assoc, append-nil}
use dosfs.Prelude.{
  ℕ, suc, ◌+◌, ◌-◌, ◌*◌, ◌<◌, ◌≤◌, ◌≡◌, ◌≢◌, ◌∙◌, sym, ap, refl, true, false, List, [], ◌∷◌, ◌++◌,
  ltb, leb, ◌==◌, length, get_or, set, replicate, arith, length-append,
}
use dosfs.Tools.Editor.{Editor, line_at, collect, finish, parse_from}

-- a line as the editor holds it
abbrev pub IsLine : List ℕ → Type 0
IsLine [] = Unit
IsLine (c ∷ l) = (c ≢ b'\n') × IsLine l

abbrev pub AreLines : List (List ℕ) → Type 0
AreLines [] = Unit
AreLines (l ∷ ls) = IsLine l × (length l < 80) × AreLines ls

-- the lines `l ∷ ls` with a line feed between two of them
abbrev pub joined : List ℕ → List (List ℕ) → List ℕ
joined l [] = l
joined l (m ∷ ms) = l ++ b'\n' ∷ joined m ms

abbrev pub last_of : List ℕ → List (List ℕ) → List ℕ
last_of l [] = l
last_of l (m ∷ ms) = last_of m ms

-- A line is read byte by byte.
parse_from-line :
    (l file so_far : List ℕ) (line : ℕ) (ls : List (List ℕ))
    → IsLine l
    → line < 256
    → length so_far + length l < 80
    → parse_from (l ++ file) line so_far ls ≡ parse_from file line (so_far ++ l) ls
unfolding parse_from
parse_from-line [] file so_far line ls p h k = rw (append-nil so_far) refl
parse_from-line (c ∷ l) file so_far line ls p h k =
    let ih =
      parse_from-line l file (so_far ++ c ∷ []) line ls p.1 h
        (omega (arith, length-append so_far (c ∷ []))) in
    let go : leb 256 line ≡ false = ground arith in
    let plain : (c == b'\n') ≡ false = ground arith in
    let room : ltb (length so_far) 79 ≡ true = ground arith in
    rw (parse_from, go, plain, room)
      (ih ∙ ap (λ x. parse_from file line x ls) (append_assoc so_far (c ∷ []) l))

parse_from-break :
    (file so_far : List ℕ) (line : ℕ) (ls : List (List ℕ))
    → line < 256
    → parse_from (b'\n' ∷ file) line so_far ls ≡ parse_from file (line + 1) [] (set ls line so_far)
unfolding parse_from
parse_from-break file so_far line ls h =
    let go : leb 256 line ≡ false = ground arith in rw (parse_from, go) refl

set-behind :
    (before after : List (List ℕ)) (x y : List ℕ)
    → set (before ++ x ∷ after) (length before) y ≡ before ++ y ∷ after
set-behind [] after x y = refl
set-behind (b ∷ before) after x y = ap (λ x. b ∷ x) (set-behind before after x y)

finish-line :
    (line : ℕ) (l : List ℕ) (ls : List (List ℕ))
    → 0 < length l
    → finish line l ls ≡ (set ls line l, line + 1)
unfolding finish
finish-line line l ls h =
    let some_byte : ltb 0 (length l) ≡ true = ground arith in rw some_byte refl

parse_from-end :
    (line : ℕ) (l : List ℕ) (ls : List (List ℕ)) → parse_from [] line l ls ≡ finish line l ls
unfolding parse_from
parse_from-end line l ls = refl

-- The result with the first line moved to those before it.
abbrev pub opened : List (List ℕ) → List (List ℕ) → List (List ℕ) → List (List ℕ) × ℕ
opened before ls rest = ((before ++ ls) ++ rest, length before + length ls)

one_more :
    (l m : List ℕ) (ms before rest : List (List ℕ))
    → opened (before ++ l ∷ []) (m ∷ ms) rest ≡ opened before (l ∷ m ∷ ms) rest
one_more l m ms before rest =
    let n : length before + 1 + suc (length ms) ≡ length before + suc (suc (length ms)) =
      omega arith in
    rw (length-append before (l ∷ []), n, append_assoc before (l ∷ []) (m ∷ ms)) refl

-- The loop of `editor_open` behind the lines `before`.
pub parse_from-lines :
    (l : List ℕ) (ls before : List (List ℕ)) (k : ℕ)
    → AreLines (l ∷ ls)
    → length before + length ls < 256
    → 0 < length (last_of l ls)
    → parse_from (joined l ls) (length before) [] (before ++ replicate (suc (length ls) + k) [])
      ≡ opened before (l ∷ ls) (replicate k [])
parse_from-lines l [] before k p h q =
    let rest = replicate k [] in
    let whole =
      parse_from-line l [] [] (length before) (before ++ [] ∷ rest) p.0 (omega arith)
        (omega (arith, p.1)) in
    let put : set (before ++ [] ∷ rest) (length before) l ≡ (before ++ l ∷ []) ++ rest =
      set-behind before rest [] l ∙ sym (append_assoc before (l ∷ []) rest) in
    let n : length before + 1 ≡ length before + suc 0 = omega arith in
    let more : 1 + k ≡ suc k = omega arith in
    rw (more) (
      ap (λ x. parse_from x (length before) [] (before ++ [] ∷ rest)) (sym (append-nil l))
      ∙ whole
      ∙ parse_from-end (length before) l (before ++ [] ∷ rest)
      ∙ finish-line (length before) l (before ++ [] ∷ rest) q
      ∙ rw (put, n) refl)
parse_from-lines l (m ∷ ms) before k p h q =
    let rest = replicate (suc (length ms) + k) [] in
    let X = before ++ [] ∷ rest in
    let at : length (before ++ l ∷ []) ≡ length before + 1 = length-append before (l ∷ []) in
    let put : set X (length before) l ≡ (before ++ l ∷ []) ++ rest =
      set-behind before rest [] l ∙ sym (append_assoc before (l ∷ []) rest) in
    let ih = parse_from-lines m ms (before ++ l ∷ []) k p.2 (omega arith) q in
    let same = one_more l m ms before (replicate k []) in
    let more : suc (suc (length ms)) + k ≡ suc (suc (length ms) + k) = omega arith in
    rw (more) (
      parse_from-line l (b'\n' ∷ joined m ms) [] (length before) X p.0 (omega arith)
        (omega (arith, p.1))
      ∙ parse_from-break (joined m ms) l (length before) X (omega arith)
      ∙ rw (put, ← at) (ih ∙ same))

get_or-behind :
    (before after : List (List ℕ)) (x : List ℕ)
    → get_or (before ++ x ∷ after) (length before) [] ≡ x
get_or-behind [] after x = refl
get_or-behind (b ∷ before) after x = get_or-behind before after x

-- The loop of `editor_save` behind the lines `before`.
pub collect-lines :
    (l : List ℕ) (ls before rest : List (List ℕ)) (e : Editor) (out : List ℕ)
    → AreLines (l ∷ ls)
    → e.lines ≡ before ++ l ∷ (ls ++ rest)
    → e.line_count ≡ length before + suc (length ls)
    → e.line_count ≤ 256
    → length out ≤ 80 * length before
    → collect (suc (length ls)) (length before) e out ≡ out ++ joined l ls
unfolding collect
collect-lines l [] before rest e out p x n h b =
    let here : line_at e (length before) ≡ l = rw x (get_or-behind before ([] ++ rest) l) in
    let fits : ltb 20480 (length out + length l + 1) ≡ false = ground (arith, p.1) in
    let final : ltb (length before) (e.line_count - 1) ≡ false = ground arith in
    rw (here, fits, final, append-nil) refl
collect-lines l (m ∷ ms) before rest e out p x n h b =
    let here : line_at e (length before) ≡ l = rw x (get_or-behind before ((m ∷ ms) ++ rest) l) in
    let fits : ltb 20480 (length out + length l + 1) ≡ false = ground (arith, p.1) in
    let more : ltb (length before) (e.line_count - 1) ≡ true = ground arith in
    let at : length (before ++ l ∷ []) ≡ length before + 1 = length-append before (l ∷ []) in
    let longer : length (out ++ l ++ b'\n' ∷ []) ≡ length out + length l + 1 =
      length-append (out ++ l) (b'\n' ∷ []) ∙ ap (λ y. y + 1) (length-append out l) in
    let ih =
      collect-lines m ms (before ++ l ∷ []) rest e (out ++ l ++ b'\n' ∷ []) p.2
        (x ∙ sym (append_assoc before (l ∷ []) (m ∷ (ms ++ rest)))) (omega (arith, at, n)) h
        (omega (arith, longer, at, p.1)) in
    rw (here, fits, more, ← at)
      (ih
        ∙ append_assoc (out ++ l) (b'\n' ∷ []) (joined m ms)
        ∙ append_assoc out l (b'\n' ∷ joined m ms))
