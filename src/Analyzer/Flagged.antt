-- ===== src/Analyzer/Flagged.antt =====
-- The offsets that have the flag 1 of the analyzer, which is set when an offset is first met.
use lama_sm_interpreter.Prelude.{
  ℕ, zero, suc, ◌+◌, ◌%◌, ◌≤◌, ◌≡◌, refl, Bool, true, false, ◌==◌, if◌then◌else◌, List, [], ◌∷◌,
  ◌++◌, get_elem?, set, length, length-set, some, arith, Option-cases, inl, inr, ◌⊎◌,
}
use lama_sm_interpreter.Result.{ok}
use lama_sm_interpreter.Analyzer.{has_flag, with_flag, test_flag, set_flag}

-- How many times `x` stands in a list.
unfoldable pub times : ℕ → List ℕ → ℕ
times x [] = 0
times x (y ∷ ys) = (if x == y then 1 else 0) + times x ys

-- 1 for an offset with the flag 1, and 0 for another.
unfoldable pub flagged : List ℕ → ℕ → ℕ
flagged [] x = 0
flagged (flags ∷ visited) zero = flags % 2
flagged (flags ∷ visited) (suc x) = flagged visited x

-- The offsets without the flag 1.
unfoldable pub unflagged : List ℕ → ℕ
unflagged [] = 0
unflagged (flags ∷ visited) = (if flags % 2 == 0 then 1 else 0) + unflagged visited

pub times-append : (x : ℕ) (xs ys : List ℕ) → times x (xs ++ ys) ≡ times x xs + times x ys
unfolding times
times-append x [] ys = omega arith
times-append x (y ∷ xs) ys = omega (arith, times-append x xs ys)

pub flagged-le-one : (visited : List ℕ) (x : ℕ) → flagged visited x ≤ 1
unfolding flagged
flagged-le-one [] x = omega arith
flagged-le-one (flags ∷ visited) zero = omega arith
flagged-le-one (flags ∷ visited) (suc x) = flagged-le-one visited x

pub unflagged-le-length : (visited : List ℕ) → unflagged visited ≤ length visited
unfolding unflagged
unflagged-le-length [] = omega arith
unflagged-le-length (flags ∷ visited) = let rest = unflagged-le-length visited in ground arith

module _ (flags flags' : ℕ) where
  -- Other flags change nothing.
  flagged-set_same :
      (visited : List ℕ) (i x : ℕ)
      → get_elem? visited i ≡ some flags
      → flags' % 2 ≡ flags % 2
      → flagged (set visited i flags') x ≡ flagged visited x
  unfolding flagged
  flagged-set_same [] i x e same = cc
  flagged-set_same (f ∷ fs) zero zero e same = ground arith
  flagged-set_same (f ∷ fs) zero (suc x) e same = refl
  flagged-set_same (f ∷ fs) (suc i) zero e same = refl
  flagged-set_same (f ∷ fs) (suc i) (suc x) e same = flagged-set_same fs i x e same

  flagged-set_new :
      (visited : List ℕ) (i x : ℕ)
      → get_elem? visited i ≡ some flags
      → flags % 2 ≡ 0
      → flags' % 2 ≡ 1
      → flagged (set visited i flags') x ≡ flagged visited x + times x (i ∷ [])
  unfolding flagged times
  flagged-set_new [] i x e old new = cc
  flagged-set_new (f ∷ fs) zero zero e old new = ground arith
  flagged-set_new (f ∷ fs) zero (suc x) e old new = ground arith
  flagged-set_new (f ∷ fs) (suc i) zero e old new = ground arith
  flagged-set_new (f ∷ fs) (suc i) (suc x) e old new =
      let rest = flagged-set_new fs i x e old new in ground arith

  unflagged-set_same :
      (visited : List ℕ) (i : ℕ)
      → get_elem? visited i ≡ some flags
      → flags' % 2 ≡ flags % 2
      → unflagged (set visited i flags') ≡ unflagged visited
  unfolding unflagged
  unflagged-set_same [] i e same = cc
  unflagged-set_same (f ∷ fs) zero e same =
      let same' : flags' % 2 ≡ f % 2 = ground arith in rw same' refl
  unflagged-set_same (f ∷ fs) (suc i) e same = omega (arith, unflagged-set_same fs i e same)

  unflagged-set_new :
      (visited : List ℕ) (i : ℕ)
      → get_elem? visited i ≡ some flags
      → flags % 2 ≡ 0
      → flags' % 2 ≡ 1
      → unflagged (set visited i flags') + 1 ≡ unflagged visited
  unfolding unflagged
  unflagged-set_new [] i e old new = cc
  unflagged-set_new (f ∷ fs) zero e old new = ground arith
  unflagged-set_new (f ∷ fs) (suc i) e old new = omega (arith, unflagged-set_new fs i e old new)

-- `set_flag` where the flag 1 was not set.
module _ (visited visited' : List ℕ) (i : ℕ) (unseen : test_flag visited i 1 ≡ ok false)
    (sets : set_flag visited i 1 ≡ ok visited') where
  new_flags :
      (flags : ℕ) × (get_elem? visited i ≡ some flags)
      × (flags % 2 ≡ 0)
      × (visited' ≡ set visited i (flags + 1))
  unfolding test_flag set_flag
  new_flags = elim (Option-cases (get_elem? visited i)) [
    | inl out ↦ absurd (ground (arith, out))
    | inr (flags, inside) ↦
        let not_set : has_flag flags 1 ≡ false = ground (arith, inside) in
        (flags, inside, ground (arith, not_set), ground (arith, inside, not_set))
  ]

  pub set_flag-flagged : (x : ℕ) → flagged visited' x ≡ flagged visited x + times x (i ∷ [])
  set_flag-flagged x =
      let (flags, inside, even, e) = new_flags in
      rw e (flagged-set_new flags (flags + 1) visited i x inside even (omega arith))

  pub set_flag-unflagged : unflagged visited' + 1 ≡ unflagged visited
  set_flag-unflagged =
      let (flags, inside, even, e) = new_flags in
      rw e (unflagged-set_new flags (flags + 1) visited i inside even (omega arith))

-- The same flags 1 on as many offsets.
pub record Same (visited visited' : List ℕ) : Type 0 where
  pub size : length visited' ≡ length visited
  pub flags : (x : ℕ) → flagged visited' x ≡ flagged visited x
  pub left : unflagged visited' ≡ unflagged visited

same_parity :
    (flags bit : ℕ) → bit % 2 ≡ 0 → (c : Bool) → (if c then flags else flags + bit) % 2 ≡ flags % 2
same_parity flags bit even true = refl
same_parity flags bit even false = omega arith

-- The flags 2 and 4 are other flags.
pub set_flag-Same :
    (visited visited' : List ℕ) (i bit : ℕ)
    → (bit ≡ 2) ⊎ (bit ≡ 4)
    → set_flag visited i bit ≡ ok visited'
    → Same visited visited'
unfolding set_flag
set_flag-Same visited visited' i bit b h = elim (Option-cases (get_elem? visited i)) [
  | inl out ↦ absurd (ground (arith, out))
  | inr (flags, inside) ↦
      let even : with_flag flags bit % 2 ≡ flags % 2 =
        same_parity flags bit (omega arith) (has_flag flags bit) in
      let e : visited' ≡ set visited i (with_flag flags bit) = ground (arith, inside) in
      rw e (record {
        size = length-set visited i _;
        flags = λ x. flagged-set_same flags (with_flag flags bit) visited i x inside even;
        left = unflagged-set_same flags (with_flag flags bit) visited i inside even;
      })
]
