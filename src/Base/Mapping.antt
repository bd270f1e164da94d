-- ===== src/Base/Mapping.antt =====
-- Python's `dict` with text keys, in insertion order: an assignment to a known key keeps its place.
use Prim.Native.String.{String}
use mathlib.Core.Path.{◌≡◌, refl}
use mathlib.Core.Bool.{Bool, true, false}
use mathlib.Core.Option.{Option, none, some}
use mathlib.Core.List.{List, [], ◌∷◌}
use native.Mathlib.Omega.{arith}
use gen_ql.Base.Tests.{if◌then◌else◌}
use gen_ql.Base.Text.{◌==◌, eq_iff}

abbrev pub Dict {ℓ} : Type ℓ → Type ℓ
Dict V = List (String × V)

module _ {ℓ} {V : Type ℓ} where
  -- `d.get(k)`
  unfoldable pub lookup : Dict V → String → Option V
  lookup [] k = none
  lookup ((j, v) ∷ d) k = if j == k then some v else lookup d k

  -- `k in d`
  abbrev pub has_key : Dict V → String → Bool
  has_key d k = elim (lookup d k) [ none ↦ false | some _ ↦ true ]

  -- `d[k] = v`
  unfoldable pub insert : String → V → Dict V → Dict V
  insert k v [] = (k, v) ∷ []
  insert k v ((j, w) ∷ d) = if j == k then (j, v) ∷ d else (j, w) ∷ insert k v d

  -- `d.setdefault(k, v)`
  unfoldable pub set_default : String → V → Dict V → Dict V
  set_default k v d = if has_key d k then d else insert k v d

  pub lookup-nil : (k : String) → lookup [] k ≡ none
  unfolding lookup
  lookup-nil k = refl

  pub lookup-cons :
      (j k : String) (v : V) (d : Dict V)
      → lookup ((j, v) ∷ d) k ≡ (if j == k then some v else lookup d k)
  unfolding lookup
  lookup-cons j k v d = refl

  pub lookup-insert :
      (k j : String) (v : V) (d : Dict V)
      → lookup (insert k v d) j ≡ (if k == j then some v else lookup d j)
  unfolding lookup insert
  lookup-insert k j v [] = refl
  lookup-insert k j v ((i, w) ∷ d) =
      ground (arith, eq_iff k j, eq_iff i k, eq_iff i j, lookup-insert k j v d)

  pub lookup-set_default :
      (k j : String) (v : V) (d : Dict V)
      → lookup (set_default k v d) j
        ≡ (if k == j then (elim (lookup d k) [ none ↦ some v | some w ↦ some w ]) else lookup d j)
  unfolding set_default
  lookup-set_default k j v d = ground (arith, eq_iff k j, lookup-insert k j v d)

pub ruleset dict_laws = (lookup-nil, lookup-cons, lookup-insert, lookup-set_default)

module _ {ℓ} {V : Type ℓ} where
  pub has_key-insert :
      (k j : String) (v : V) (d : Dict V)
      → has_key (insert k v d) j ≡ (if k == j then true else has_key d j)
  has_key-insert k j v d = ground (arith, lookup-insert k j v d)

  pub has_key-set_default :
      (k j : String) (v : V) (d : Dict V)
      → has_key (set_default k v d) j ≡ (if k == j then true else has_key d j)
  has_key-set_default k j v d = ground (arith, lookup-set_default k j v d)
