-- ===== src/Base/Lists.antt =====
-- Python's sequences: `len`, indexing, slices, comprehensions, `any` and `all`.
use Prim.Native.Nat.{ℕ, zero, suc, ◌+◌, ◌≤◌, ◌<◌}
use mathlib.Core.Path.{◌≡◌, refl, sym, subst}
use mathlib.Core.Logic.{◌⊎◌, inl, inr}
use mathlib.Core.Bool.{Bool, true, false, ◌&&◌, ◌||◌}
use mathlib.Core.Option.{Option, none, some}
use mathlib.Core.List.{List, [], ◌∷◌, ◌++◌, map}
use native.Mathlib.Omega.{arith}
use gen_ql.Base.Tests.{if◌then◌else◌}

module _ {ℓ} {A : Type ℓ} where
  abbrev pub length : List A → ℕ
  length [] = 0
  length (x ∷ xs) = suc (length xs)

  -- `xs[i]`, with `none` for an IndexError.
  abbrev pub get_elem? : List A → ℕ → Option A
  get_elem? [] i = none
  get_elem? (x ∷ xs) zero = some x
  get_elem? (x ∷ xs) (suc i) = get_elem? xs i

  -- `xs[:n]`
  abbrev pub take : ℕ → List A → List A
  take zero xs = []
  take (suc n) [] = []
  take (suc n) (x ∷ xs) = x ∷ take n xs

  -- Python's truth value of a sequence.
  abbrev pub is_nonempty : List A → Bool
  is_nonempty [] = false
  is_nonempty (_ ∷ _) = true

  -- `[x for x in xs if p(x)]`
  abbrev pub keep : (A → Bool) → List A → List A
  keep p [] = []
  keep p (x ∷ xs) = if p x then x ∷ keep p xs else keep p xs

  abbrev pub any : (A → Bool) → List A → Bool
  any p [] = false
  any p (x ∷ xs) = p x || any p xs

  abbrev pub all : (A → Bool) → List A → Bool
  all p [] = true
  all p (x ∷ xs) = p x && all p xs

  pub length-append : (xs ys : List A) → length (xs ++ ys) ≡ length xs + length ys
  length-append [] ys = omega arith
  length-append (x ∷ xs) ys = omega (arith, length-append xs ys)

  pub length-take-le : (n : ℕ) (xs : List A) → length (take n xs) ≤ n
  length-take-le zero xs = omega arith
  length-take-le (suc n) [] = omega arith
  length-take-le (suc n) (x ∷ xs) = omega (arith, length-take-le n xs)

  pub length-keep-le : (p : A → Bool) (xs : List A) → length (keep p xs) ≤ length xs
  length-keep-le p [] = omega arith
  length-keep-le p (x ∷ xs) = ground (arith, length-keep-le p xs)

module _ {A : Type 0} where
  -- `x` is an element of the list.
  abbrev pub Elem : A → List A → Type 0
  Elem x [] = ⊥
  Elem x (y ∷ ys) = (x ≡ y) ⊎ Elem x ys

  -- A kept element passes the test and stood in the list.
  pub Elem-keep :
      (p : A → Bool) (x : A) (xs : List A) → Elem x (keep p xs) → Elem x xs × (p x ≡ true)
  Elem-keep p x [] h = absurd h
  Elem-keep p x (y ∷ ys) h = ground (arith, Elem-keep p x ys)

  pub keep-Elem : (p : A → Bool) (x : A) (xs : List A) → Elem x xs → p x ≡ true → Elem x (keep p xs)
  keep-Elem p x [] h e = absurd h
  keep-Elem p x (y ∷ ys) h e = ground (arith, keep-Elem p x ys)

  pub if-Elem :
      (b : Bool) (x y : A) (xs : List A)
      → (b ≡ true → Elem x xs)
      → Elem y xs
      → Elem (if b then x else y) xs
  if-Elem true x y xs hx hy = hx refl
  if-Elem false x y xs hx hy = hy

  pub length-keep_mono :
      (p q : A → Bool) (xs : List A)
      → ((y : A) → q y ≡ true → p y ≡ true)
      → length (keep q xs) ≤ length (keep p xs)
  length-keep_mono p q [] sub = omega arith
  length-keep_mono p q (x ∷ xs) sub = ground (arith, length-keep_mono p q xs sub, sub x)

  -- A test that fails at one more element keeps fewer.
  pub length-keep-lt :
      (p q : A → Bool) (x : A) (xs : List A)
      → ((y : A) → q y ≡ true → p y ≡ true)
      → Elem x xs
      → p x ≡ true
      → q x ≡ false
      → length (keep q xs) < length (keep p xs)
  length-keep-lt p q x [] sub h e f = absurd h
  length-keep-lt p q x (y ∷ ys) sub (inl same) e f =
      rw (← same, e, f) omega (arith, length-keep_mono p q ys sub)
  length-keep-lt p q x (y ∷ ys) sub (inr later) e f =
      ground (arith, length-keep-lt p q x ys sub later e f, sub y)

  -- Where a weaker test keeps nothing, neither does a stronger one.
  pub keep-nil :
      (p q : A → Bool) (xs : List A)
      → ((y : A) → q y ≡ true → p y ≡ true)
      → keep p xs ≡ []
      → keep q xs ≡ []
  keep-nil p q [] sub e = refl
  keep-nil p q (x ∷ xs) sub e = ground (arith, keep-nil p q xs sub, sub x)

  pub keep-none :
      (p : A → Bool) (xs : List A) → ((x : A) → Elem x xs → p x ≡ false) → keep p xs ≡ []
  keep-none p [] h = refl
  keep-none p (x ∷ xs) h = rw (h x (inl refl)) (keep-none p xs (λ y m. h y (inr m)))

  pub Elem-append_left : (x : A) (xs ys : List A) → Elem x xs → Elem x (xs ++ ys)
  Elem-append_left x [] ys h = absurd h
  Elem-append_left x (y ∷ xs) ys (inl e) = inl e
  Elem-append_left x (y ∷ xs) ys (inr h) = inr (Elem-append_left x xs ys h)

  pub Elem-append_right : (x : A) (xs ys : List A) → Elem x ys → Elem x (xs ++ ys)
  Elem-append_right x [] ys h = h
  Elem-append_right x (y ∷ xs) ys h = inr (Elem-append_right x xs ys h)

  pub nonempty-keep :
      (p : A → Bool) (x : A) (xs : List A) → Elem x xs → p x ≡ true → is_nonempty (keep p xs) ≡ true
  nonempty-keep p x [] m e = absurd m
  nonempty-keep p x (y ∷ ys) m e = ground (arith, nonempty-keep p x ys)

-- `all(P(x) for x in xs)`, as a type.
abbrev pub All {κ} : {Item : Type 0} → (Item → Type κ) → List Item → Type κ
All Holds (first ∷ rest) = Holds first × All Holds rest
All Holds [] = Unit

pub All-map {κ μ} :
    {A : Type 0} (P : A → Type κ) (Q : A → Type μ) (xs : List A)
    → ((x : A) → P x → Q x)
    → All P xs
    → All Q xs
All-map P Q [] f h = tt
All-map P Q (x ∷ xs) f h = (f x h.0, All-map P Q xs f h.1)

pub All-Elem {κ} :
    {A : Type 0} (P : A → Type κ) (xs : List A) → ((x : A) → Elem x xs → P x) → All P xs
All-Elem P [] h = tt
All-Elem P (x ∷ xs) h = (h x (inl refl), All-Elem P xs (λ y m. h y (inr m)))

pub All-of_map {κ} :
    {A B : Type 0} (P : B → Type κ) (f : A → B) (xs : List A)
    → All P (map f xs)
    → All (λ x. P (f x)) xs
All-of_map P f [] h = tt
All-of_map P f (x ∷ xs) h = (h.0, All-of_map P f xs h.1)

pub All-to_map {κ} :
    {A B : Type 0} (P : B → Type κ) (f : A → B) (xs : List A)
    → All (λ x. P (f x)) xs
    → All P (map f xs)
All-to_map P f [] h = tt
All-to_map P f (x ∷ xs) h = (h.0, All-to_map P f xs h.1)

pub Elem-All {κ} : {A : Type 0} (P : A → Type κ) (x : A) (xs : List A) → Elem x xs → All P xs → P x
Elem-All P x [] m h = absurd m
Elem-All P x (y ∷ ys) (inl same) h = subst P (sym same) h.0
Elem-All P x (y ∷ ys) (inr later) h = Elem-All P x ys later h.1

pub All-take {κ} :
    {A : Type 0} (P : A → Type κ) (n : ℕ) (xs : List A) → All P xs → All P (take n xs)
All-take P zero xs h = tt
All-take P (suc n) [] h = tt
All-take P (suc n) (x ∷ xs) h = (h.0, All-take P n xs h.1)
