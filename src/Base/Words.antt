-- ===== src/Base/Words.antt =====
-- Python's `str` as a sequence: `+`, `len`, slices, `split`, `join`, and `str` of an integer.
use Prim.Native.Nat.{ℕ, zero, suc, ◌+◌, ◌/◌, ◌%◌, ◌≤◌}
use Prim.Native.Char.{code}
use Prim.Native.String.{String}
use mathlib.Core.Path.{◌≡◌, refl}
use mathlib.Core.List.{List, [], ◌∷◌}
use native.Mathlib.Omega.{arith}
use gen_ql.Base.Tests.{eqb, ltb, if◌then◌else◌}
use gen_ql.Base.Text.{is_empty, is_space}

-- `s + t`
abbrev pub concat : String → String → String
concat String.[] t = t
concat (String.◌∷◌ c s) t = String.◌∷◌ c (concat s t)

-- `len(s)`
abbrev pub text_length : String → ℕ
text_length String.[] = 0
text_length (String.◌∷◌ c s) = suc (text_length s)

-- `s[:n]`
abbrev pub text_take : ℕ → String → String
text_take zero s = String.[]
text_take (suc n) String.[] = String.[]
text_take (suc n) (String.◌∷◌ c s) = String.◌∷◌ c (text_take n s)

-- `separator.join(texts)`
abbrev pub join : String → List String → String
join separator [] = String.[]
join separator (s ∷ []) = s
join separator (s ∷ t ∷ rest) = concat s (concat separator (join separator (t ∷ rest)))

abbrev push_word : String → List String → List String
push_word w ws = if is_empty w then ws else w ∷ ws

-- The word that a text starts with, and the words after it.
leading_word : String → String × List String
unfolding is_space
leading_word String.[] = (String.[], [])
leading_word (String.◌∷◌ c s) =
    let (w, ws) = leading_word s in
    if is_space (code c) then (String.[], push_word w ws) else (String.◌∷◌ c w, ws)

-- `s.split()`
unfoldable pub split : String → List String
unfolding leading_word
split s = let (w, ws) = leading_word s in push_word w ws

digit : ℕ → String
digit n =
    if eqb n 0
    then "0"
    else if eqb n 1
    then "1"
    else if eqb n 2
    then "2"
    else if eqb n 3
    then "3"
    else if eqb n 4
    then "4"
    else if eqb n 5
    then "5"
    else if eqb n 6
    then "6"
    else if eqb n 7
    then "7"
    else if eqb n 8
    then "8"
    else "9"

-- A number below `2 ^ fuel` has at most `fuel` digits.
digits : ℕ → ℕ → String
unfolding digit
digits zero n = digit n
digits (suc fuel) n =
    let before = digits fuel (n / 10) in
    if ltb n 10 then digit n else concat before (digit (n % 10))

-- `str(n)`
unfoldable pub str : ℕ → String
unfolding digits
str n = digits n n

str_digits : str 407 ≡ "407"
unfolding str digits digit
str_digits = refl

split_collapses : split " a  bc " ≡ "a" ∷ "bc" ∷ []
unfolding split leading_word is_space
split_collapses = refl

pub text_length-concat : (s t : String) → text_length (concat s t) ≡ text_length s + text_length t
text_length-concat String.[] t = omega arith
text_length-concat (String.◌∷◌ c s) t = omega (arith, text_length-concat s t)

pub text_length-text_take : (n : ℕ) (s : String) → text_length (text_take n s) ≤ n
text_length-text_take zero s = omega arith
text_length-text_take (suc n) String.[] = omega arith
text_length-text_take (suc n) (String.◌∷◌ c s) = omega (arith, text_length-text_take n s)
