-- ===== src/Datasource/Merge.antt =====
-- What an edit leaves (genql/services/datasource/datasource_merge.py).
use gen_ql.Base.{
  String, true, not, ◌&&◌, Option, none, some, is_nonempty, is_empty, if◌then◌else◌, ◌≡◌, refl, sym,
  ap, ◌∙◌, Bool-cases, Option-cases, ok, arith, inl, inr, ◌⊎◌,
}
use gen_ql.Datasource.{
  Datasource, DatasourceUpdate, changed, touches_endpoint, has_text, has_number, relocated,
  with_password, missing_fields, require_connectable, merge,
}

abbrev pub NoEndpoint : Datasource → Type 0
NoEndpoint d = (d.host ≡ none) × (d.port ≡ none) × (d.database ≡ none) × (d.username ≡ none)

-- Not both an environment variable and an endpoint.
abbrev pub IsExclusive : Datasource → Type 0
IsExclusive d = (d.dsn_env_var ≡ none) ⊎ NoEndpoint d

-- Exactly one of the two: an environment variable, or a whole endpoint.
abbrev pub IsLocated : Datasource → Type 0
IsLocated d =
    ((has_text d.dsn_env_var ≡ true) × NoEndpoint d)
    ⊎ ((d.dsn_env_var ≡ none)
        × (has_text d.host ≡ true)
        × (has_number d.port ≡ true)
        × (has_text d.database ≡ true)
        × (has_text d.username ≡ true))

relocated-IsExclusive :
    (p : DatasourceUpdate) (d : Datasource)
    → IsExclusive d
    → IsExclusive (relocated p (changed p d))
unfolding relocated touches_endpoint
relocated-IsExclusive p d h = ground arith

with_password-IsExclusive :
    (encrypt : String → String) (password : Option String) (d : Datasource)
    → IsExclusive d
    → IsExclusive (with_password encrypt password d)
unfolding with_password
with_password-IsExclusive encrypt none d h = h
with_password-IsExclusive encrypt (some password) d h = h

require_connectable-IsLocated :
    (d m : Datasource) → require_connectable d ≡ ok m → IsExclusive d → IsLocated m
unfolding require_connectable missing_fields
require_connectable-IsLocated d m e h = ground arith

-- An edit that is accepted leaves a datasource that says where its warehouse is in exactly one way,
-- whatever the edit mentions, where the datasource did not have both ways before: it has an
-- environment variable and no part of an endpoint, or it has a whole endpoint and no variable.
pub merge-IsLocated :
    (encrypt : String → String) (d : Datasource) (p : DatasourceUpdate) {m : Datasource}
    → IsExclusive d
    → merge encrypt d p ≡ ok m
    → IsLocated m
unfolding merge
merge-IsLocated encrypt d p {m} h e =
    require_connectable-IsLocated _ m e
      (with_password-IsExclusive encrypt p.password _ (relocated-IsExclusive p d h))

-- The stored password after an edit.
abbrev pub password_after : (String → String) → Datasource → DatasourceUpdate → Option String
password_after encrypt d p = elim p.password [
  | some password ↦ if is_empty password then none else some (encrypt password)
  | none ↦
      if has_text p.dsn_env_var && not (touches_endpoint p) then none else d.password_ciphertext
]

require_connectable-eq : (d m : Datasource) → require_connectable d ≡ ok m → d ≡ m
unfolding require_connectable missing_fields
require_connectable-eq d m e = elim (Bool-cases (has_text d.dsn_env_var)) [
  | inl named ↦ ground arith
  | inr unnamed ↦ elim (Bool-cases (is_nonempty (missing_fields d))) [
    | inl missing ↦ ground arith
    | inr whole ↦ ground arith
  ]
]

relocated-after :
    (p : DatasourceUpdate) (d : Datasource)
    → ((relocated p d).name ≡ d.name)
      × ((relocated p d).password_ciphertext ≡ (
          if has_text p.dsn_env_var && not (touches_endpoint p)
          then none
          else d.password_ciphertext))
unfolding relocated
relocated-after p d = elim (Bool-cases (touches_endpoint p)) [
  | inl endpoint ↦ elim (Bool-cases (has_text p.dsn_env_var)) [
    | inl variable ↦ rw (endpoint, variable) (refl, refl)
    | inr other ↦ rw (endpoint, other) (refl, refl)
  ]
  | inr untouched ↦ elim (Bool-cases (has_text p.dsn_env_var)) [
    | inl variable ↦ rw (untouched, variable) (refl, refl)
    | inr other ↦ rw (untouched, other) (refl, refl)
  ]
]

with_password-name :
    (encrypt : String → String) (password : Option String) (d : Datasource)
    → (with_password encrypt password d).name ≡ d.name
unfolding with_password
with_password-name encrypt none d = refl
with_password-name encrypt (some password) d = refl

with_password-after :
    (encrypt : String → String) (p : DatasourceUpdate) (d : Datasource)
    → (with_password encrypt p.password (relocated p (changed p d))).password_ciphertext
      ≡ password_after encrypt d p
unfolding with_password relocated touches_endpoint
with_password-after encrypt p d = elim (Option-cases p.password) [
  | inl silent ↦ rw silent (relocated-after p (changed p d)).1
  | inr (password, said) ↦ rw said refl
]

-- An accepted edit stores the password that it mentions, encrypted, and forgets the stored one when
-- it mentions the empty password. An edit that says nothing of the password keeps it, but for an
-- edit that names an environment variable and no part of an endpoint, which forgets it. Where such
-- an edit mentions a password as well, that one is stored. The name never changes.
pub merge_password :
    (encrypt : String → String) (d : Datasource) (p : DatasourceUpdate) {m : Datasource}
    → merge encrypt d p ≡ ok m
    → (m.password_ciphertext ≡ password_after encrypt d p) × (m.name ≡ d.name)
unfolding merge
merge_password encrypt d p {m} e =
    let same : with_password encrypt p.password (relocated p (changed p d)) ≡ m =
      require_connectable-eq _ m e in
    (
      ap (λ (x : Datasource). x.password_ciphertext) (sym same) ∙ with_password-after encrypt p d,
      ap (λ (x : Datasource). x.name) (sym same)
          ∙ with_password-name encrypt p.password _
          ∙ (relocated-after p (changed p d)).0,
    )
