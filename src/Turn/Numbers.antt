-- ===== src/Turn/Numbers.antt =====
-- The numbers of the turns of a thread (genql/api/query_turn.py, `sequence`).
use gen_ql.Base.{
  ℕ, suc, ◌+◌, String, Bool, true, false, ◌&&◌, List, [], ◌∷◌, ◌++◌, ◌≡◌, refl, ap, inl, inr, keep,
  any, length, eqb, arith, Bool-cases, is_nonempty, if◌then◌else◌,
}
use gen_ql.Turn.History.{TurnRecord, Tables, is_thread, is_turn_of, by_sequence, list_for_thread}

-- The turns are numbered from `k` on, in their order.
abbrev pub AreNumbered : ℕ → List TurnRecord → Type 0
AreNumbered k [] = Unit
AreNumbered k (r ∷ rs) = (r.sequence ≡ k) × AreNumbered (suc k) rs

-- Every turn's thread is there, and the turns of a thread are numbered from 0 on.
pub record AreWhole (tables : Tables) : Type 0 where
  pub threaded :
      (thread_id : String)
      → is_nonempty (keep (is_turn_of thread_id) tables.turns) ≡ true
      → any (is_thread thread_id) tables.threads ≡ true
  pub numbered : (thread_id : String) → AreNumbered 0 (keep (is_turn_of thread_id) tables.turns)

pub by_sequence-numbered : (k : ℕ) (rs : List TurnRecord) → AreNumbered k rs → by_sequence rs ≡ rs
by_sequence-numbered k [] h = refl
by_sequence-numbered k (r ∷ []) h = refl
by_sequence-numbered k (r ∷ x ∷ xs) (h, (i, j)) =
    rw (by_sequence-numbered (suc k) (x ∷ xs) (i, j)) (ground arith)

pub list-eq :
    (thread_id : String) (tables : Tables)
    → AreWhole tables
    → list_for_thread thread_id tables ≡ keep (is_turn_of thread_id) tables.turns
unfolding list_for_thread
list-eq thread_id tables whole = by_sequence-numbered 0 _ (whole.numbered thread_id)

pub keep-append :
    (p : TurnRecord → Bool) (xs : List TurnRecord) (r : TurnRecord)
    → keep p (xs ++ r ∷ []) ≡ keep p xs ++ (if p r then r ∷ [] else [])
keep-append p [] r = refl
keep-append p (x ∷ xs) r = ground (arith, keep-append p xs r)

pub append_nil : (xs : List TurnRecord) → xs ++ [] ≡ xs
append_nil [] = refl
append_nil (x ∷ xs) = ap (λ ys. x ∷ ys) (append_nil xs)

pub AreNumbered-append :
    (k : ℕ) (xs : List TurnRecord) (r : TurnRecord)
    → AreNumbered k xs
    → r.sequence ≡ k + length xs
    → AreNumbered k (xs ++ r ∷ [])
AreNumbered-append k [] r h e = (omega arith, tt)
AreNumbered-append k (x ∷ xs) r (h, i) e = (h, AreNumbered-append (suc k) xs r i (omega arith))

-- No turn of the thread stands at the next place.
pub place_free :
    (thread_id : String) (n k : ℕ) (xs : List TurnRecord)
    → AreNumbered k (keep (is_turn_of thread_id) xs)
    → n ≡ k + length (keep (is_turn_of thread_id) xs)
    → any (λ x. is_turn_of thread_id x && eqb x.sequence n) xs ≡ false
place_free thread_id n k [] h e = refl
place_free thread_id n k (x ∷ xs) h e = elim (Bool-cases (is_turn_of thread_id x)) [
  | inl mine ↦
      let (first, rest) = rw mine at h in
      let size : n ≡ k + suc (length (keep (is_turn_of thread_id) xs)) = rw mine at e in
      rw mine (ground (arith, place_free thread_id n (suc k) xs rest (omega arith)))
  | inr other ↦ rw other (place_free thread_id n k xs (rw other at h) (rw other at e))
]
