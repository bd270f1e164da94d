-- ===== src/Base/Text.antt =====
-- Python's `str`: equality, `in` on a sequence of texts, `strip`, `lower`, and substrings.
-- `lower` maps the ASCII letters, and `strip` drops the white space of the Unicode standard.
use Prim.Native.Nat.{ℕ, ◌+◌}
use Prim.Native.Char.{code}
use Prim.Native.String.{String}
use mathlib.Core.Path.{◌≡◌, refl}
use mathlib.Core.Bool.{Bool, true, false, ◌&&◌, ◌||◌}
use mathlib.Core.List.{List, [], ◌∷◌, ◌++◌}
use native.Mathlib.Omega.{arith}
use gen_ql.Base.Tests.{eqb, leb, if◌then◌else◌}
use gen_ql.Base.Lists.{Elem}
unfoldable pub use text.Mathlib.Text.{◌==◌}
pub use text.Mathlib.TextEquality.{eq_iff}
pub use text.Mathlib.TextPositions.{eq_refl}

-- The truth value of a text is `not (is_empty s)`.
abbrev pub is_empty : String → Bool
is_empty String.[] = true
is_empty (String.◌∷◌ _ _) = false

-- `x in xs`
abbrev pub contains : List String → String → Bool
contains [] x = false
contains (y ∷ ys) x = y == x || contains ys x

pub contains-Elem : (xs : List String) (x : String) → contains xs x ≡ true → Elem x xs
contains-Elem [] x h = ground arith
contains-Elem (y ∷ ys) x h = ground (arith, eq_iff y x, contains-Elem ys x)

pub Elem-contains : (xs : List String) (x : String) → Elem x xs → contains xs x ≡ true
Elem-contains [] x h = absurd h
Elem-contains (y ∷ ys) x h = ground (arith, eq_iff y x, Elem-contains ys x)

pub contains-false : (xs : List String) (x : String) → contains xs x ≡ false → ¬ Elem x xs
contains-false xs x h e = cc (Elem-contains xs x e)

-- `str.isspace` of one code point.
unfoldable pub is_space : ℕ → Bool
is_space c =
    leb 9 c && leb c 13
    || leb 28 c && leb c 32
    || leb 8192 c && leb c 8202
    || eqb c 133
    || eqb c 160
    || eqb c 5760
    || eqb c 8232
    || eqb c 8233
    || eqb c 8239
    || eqb c 8287
    || eqb c 12288

lstrip : String → String
unfolding is_space
lstrip String.[] = String.[]
lstrip (String.◌∷◌ c s) = if is_space (code c) then lstrip s else String.◌∷◌ c s

rstrip : String → String
unfolding is_space
rstrip String.[] = String.[]
rstrip (String.◌∷◌ c s) =
    let rest = rstrip s in
    if is_empty rest && is_space (code c) then String.[] else String.◌∷◌ c rest

unfoldable pub strip : String → String
unfolding lstrip rstrip
strip s = rstrip (lstrip s)

-- A text as its code points in lower case.
unfoldable pub lower : String → List ℕ
lower String.[] = []
lower (String.◌∷◌ c s) = let n = code c in (if leb 65 n && leb n 90 then n + 32 else n) ∷ lower s

is_prefix : List ℕ → List ℕ → Bool
is_prefix [] s = true
is_prefix (c ∷ p) [] = false
is_prefix (c ∷ p) (d ∷ s) = eqb c d && is_prefix p s

-- `marker in text`
unfoldable pub has_substring : List ℕ → List ℕ → Bool
unfolding is_prefix
has_substring m [] = is_prefix m []
has_substring m (c ∷ s) = is_prefix m (c ∷ s) || has_substring m s

pub contains-append :
    (xs ys : List String) (x : String) → contains (xs ++ ys) x ≡ (contains xs x || contains ys x)
contains-append [] ys x = refl
contains-append (z ∷ zs) ys x = ground (arith, contains-append zs ys x)
