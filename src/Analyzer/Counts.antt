-- ===== src/Analyzer/Counts.antt =====
-- The counting of equal sequences ends, and counts each sequence once.
use lama_sm_interpreter.Prelude.{
  ℕ, zero, suc, ◌+◌, ◌*◌, ◌≤◌, ◌<◌, ◌≡◌, ◌≢◌, Bool, true, List, [], ◌∷◌, length, length-drop, drop,
  arith, ap, Bool-cases, inl, inr, Option, none, some, ◌==◌,
}
use lama_sm_interpreter.Result.{Result, ok, err, out_of_fuel, ◌>>=◌, >>=-eq-ok}
use lama_sm_interpreter.Word.{wrap32}
use lama_sm_interpreter.Bytefile.{Bytefile, code_byte}
use lama_sm_interpreter.Byterun.{general_byterun}
use lama_sm_interpreter.Fuel.{Finishes, Finishes-bind, Finishes-if, Finishes-ne, Finishes-code_byte}
use lama_sm_interpreter.Byterun.Ends.{general_byterun-Finishes}
use lama_sm_interpreter.Analyzer.{run_length, count_runs}
use lama_sm_interpreter.Analyzer.Order.{
  of_char, difference, least_length, compare_from, compare_bytes, cmp_single, cmp_pair,
}

-- The sum of the counts.
unfoldable pub total : List (ℕ × ℕ) → ℕ
total [] = 0
total ((count, s) ∷ counter) = count + total counter

module _ (cmp : ℕ → ℕ → Result Bool) where
  run_length-le-length : (x : ℕ) (xs : List ℕ) (n : ℕ) → run_length cmp x xs ≡ ok n → n ≤ length xs
  unfolding run_length
  run_length-le-length x [] n h = ground arith
  run_length-le-length x (y ∷ ys) n h =
      let (less, e, k) = >>=-eq-ok (cmp x y) _ n h in
      elim (Bool-cases less) [
        | inl stops ↦ let zero_run : ok 0 ≡ ok n = rw stops at k in ground arith
        | inr goes ↦
            let longer : (run_length cmp x ys >>= λ m. ok (m + 1)) ≡ ok n = rw goes at k in
            let (m, e', k') = >>=-eq-ok (run_length cmp x ys) _ n longer in
            let ih = run_length-le-length x ys m e' in ground (arith, k')
      ]

  -- Where the counting gives a result, whatever the comparison, the counts of the sequences that are
  -- equal add up to the number of sequences.
  pub total-count_runs :
      (fuel bit i : ℕ) (xs : List ℕ) (counter : List (ℕ × ℕ))
      → count_runs fuel cmp bit i xs ≡ ok counter
      → total counter ≡ length xs
  unfolding count_runs total
  total-count_runs fuel bit i [] counter h =
      let e : ◌≡◌ {A = List (ℕ × ℕ)} [] counter = ground arith in omega (arith, ap total e)
  total-count_runs zero bit i (x ∷ xs) counter h = cc
  total-count_runs (suc fuel) bit i (x ∷ xs) counter h =
      let (n, e, k) = >>=-eq-ok (run_length cmp x (x ∷ xs)) _ counter h in
      let (rest, e', k') =
        >>=-eq-ok (count_runs fuel cmp bit (i + n) (drop n (x ∷ xs))) _ counter k in
      let short = run_length-le-length x (x ∷ xs) n e in
      let ih = total-count_runs fuel bit (i + n) (drop n (x ∷ xs)) rest e' in
      let e'' : ◌≡◌ {A = List (ℕ × ℕ)} ((n, wrap32 (i * 2) + bit) ∷ rest) counter =
        ground (arith, k') in
      omega (arith, ap total e'', ih, length-drop n (x ∷ xs) short)

  -- With a comparison that ends and puts no element in front of itself, a unit of fuel for each
  -- element is enough.
  run_length-Finishes :
      ((a b : ℕ) → Finishes (cmp a b)) → (x : ℕ) (xs : List ℕ) → Finishes (run_length cmp x xs)
  unfolding run_length
  run_length-Finishes ends x [] = tt
  run_length-Finishes ends x (y ∷ ys) = Finishes-bind (cmp x y) _ (ends x y) λ less _.
      Finishes-if less _ _ tt
        (Finishes-bind (run_length cmp x ys) _ (run_length-Finishes ends x ys) λ n _. tt)

  run_length-pos :
      (x : ℕ) (xs : List ℕ) (n : ℕ) → cmp x x ≢ ok true → run_length cmp x (x ∷ xs) ≡ ok n → 0 < n
  unfolding run_length
  run_length-pos x xs n no_less h =
      let (less, e, k) = >>=-eq-ok (cmp x x) _ n h in
      elim (Bool-cases less) [
        | inl stops ↦ absurd (no_less (rw e (ap ok stops)))
        | inr goes ↦
            let longer : (run_length cmp x xs >>= λ m. ok (m + 1)) ≡ ok n = rw goes at k in
            let (m, e', k') = >>=-eq-ok (run_length cmp x xs) _ n longer in ground (arith, k')
      ]

  pub count_runs-Finishes :
      ((a b : ℕ) → Finishes (cmp a b))
      → ((a : ℕ) → cmp a a ≢ ok true)
      → (fuel bit i : ℕ) (xs : List ℕ) → length xs ≤ fuel
      → Finishes (count_runs fuel cmp bit i xs)
  unfolding count_runs
  count_runs-Finishes ends no_less zero bit i [] h = tt
  count_runs-Finishes ends no_less (suc fuel) bit i [] h = tt
  count_runs-Finishes ends no_less zero bit i (x ∷ xs) h = absurd (omega arith)
  count_runs-Finishes ends no_less (suc fuel) bit i (x ∷ xs) h =
      Finishes-bind (run_length cmp x (x ∷ xs)) _ (run_length-Finishes ends x (x ∷ xs)) λ n e.
        Finishes-bind (count_runs fuel cmp bit (i + n) (drop n (x ∷ xs))) _
          (count_runs-Finishes ends no_less fuel bit (i + n) (drop n (x ∷ xs)) (
            omega (
              arith,
              run_length-pos x xs n (no_less x) e,
              run_length-le-length x (x ∷ xs) n e,
              length-drop n (x ∷ xs),
            )))
          λ counter _. tt

compare_from-Finishes : (bf : Bytefile) (a b n : ℕ) → Finishes (compare_from bf a b n)
unfolding compare_from
compare_from-Finishes bf a b zero = tt
compare_from-Finishes bf a b (suc n) =
    Finishes-bind (code_byte bf a) _ (Finishes-code_byte bf a) λ c _.
      Finishes-bind (code_byte bf b) _ (Finishes-code_byte bf b) λ d _.
        Finishes-if (of_char c == of_char d) _ _ (compare_from-Finishes bf (a + 1) (b + 1) n) tt

-- Equal bytes never differ.
compare_from_self :
    (bf : Bytefile) (a n : ℕ) (r : Option ℕ) → compare_from bf a a n ≡ ok r → r ≡ none
unfolding compare_from
compare_from_self bf a zero r h = ground arith
compare_from_self bf a (suc n) r h =
    let (c, e, k) = >>=-eq-ok (code_byte bf a) _ r h in
    let (d, e', k') = >>=-eq-ok (code_byte bf a) _ r k in
    let one_byte : c ≡ d = ground (arith, e, e') in
    let same : (of_char c == of_char d) ≡ true = ground arith in
    compare_from_self bf (a + 1) n r (rw same at k')

compare_bytes-Finishes : (bf : Bytefile) (a m b n : ℕ) → Finishes (compare_bytes bf a m b n)
unfolding compare_bytes
compare_bytes-Finishes bf a m b n =
    Finishes-bind (compare_from bf a b (least_length (difference m a) (difference n b))) _
      (compare_from-Finishes bf a b _) λ r _. found_or r
  where
    found_or :
        (r : Option ℕ)
        → Finishes {A = ℕ}
            (elim r [ some d ↦ ok d | none ↦ ok (difference (difference m a) (difference n b)) ])
    found_or (some d) = tt
    found_or none = tt

compare_bytes_self : (bf : Bytefile) (a n c : ℕ) → compare_bytes bf a n a n ≡ ok c → c ≡ 0
unfolding compare_bytes
compare_bytes_self bf a n c h =
    let rounds : ℕ = least_length (difference n a) (difference n a) in
    let (r, e, k) = >>=-eq-ok (compare_from bf a a rounds) _ c h in
    let never = compare_from_self bf a rounds r e in
    let zero_length : ok (difference (difference n a) (difference n a)) ≡ ok c = rw never at k in
    ground arith

cmp_single-Finishes : (bf : Bytefile) (a b : ℕ) → Finishes (cmp_single bf a b)
unfolding cmp_single
cmp_single-Finishes bf a b =
    Finishes-bind (general_byterun bf a) _ (general_byterun-Finishes bf a) λ (m, _) _.
      Finishes-bind (general_byterun bf b) _ (general_byterun-Finishes bf b) λ (n, _) _.
        Finishes-bind (compare_bytes bf a m b n) _ (compare_bytes-Finishes bf a m b n) λ c _. tt

cmp_pair-Finishes : (bf : Bytefile) (a b : ℕ) → Finishes (cmp_pair bf a b)
unfolding cmp_pair
cmp_pair-Finishes bf a b =
    Finishes-bind (general_byterun bf a) _ (general_byterun-Finishes bf a) λ (m, _) _.
      Finishes-bind (general_byterun bf b) _ (general_byterun-Finishes bf b) λ (n, _) _.
        Finishes-bind (compare_bytes bf a m b n) _ (compare_bytes-Finishes bf a m b n)
          λ c _. Finishes-if (c == 0) _ _ (cmp_single-Finishes bf m n) tt

cmp_single_irrefl : (bf : Bytefile) (a : ℕ) → cmp_single bf a a ≢ ok true
unfolding cmp_single
cmp_single_irrefl bf a h =
    let ((m, t), e, k) = >>=-eq-ok (general_byterun bf a) _ true h in
    let ((n, u), e', k') = >>=-eq-ok (general_byterun bf a) _ true k in
    let same : m ≡ n = ground (arith, e, e') in
    let (c, e'', k'') = >>=-eq-ok (compare_bytes bf a m a n) _ true k' in
    let zero_difference = compare_bytes_self bf a n c (rw same at e'') in ground (arith, k'')

cmp_pair_irrefl : (bf : Bytefile) (a : ℕ) → cmp_pair bf a a ≢ ok true
unfolding cmp_pair
cmp_pair_irrefl bf a h =
    let ((m, t), e, k) = >>=-eq-ok (general_byterun bf a) _ true h in
    let ((n, u), e', k') = >>=-eq-ok (general_byterun bf a) _ true k in
    let same : m ≡ n = ground (arith, e, e') in
    let (c, e'', k'') = >>=-eq-ok (compare_bytes bf a m a n) _ true k' in
    let zero_difference = compare_bytes_self bf a n c (rw same at e'') in
    let test : (c == 0) ≡ true = ground arith in
    let single : cmp_single bf m n ≡ ok true = rw test at k'' in
    cmp_single_irrefl bf n (rw same at single)

-- The counting of equal instructions, and that of equal pairs, end on every list of offsets: the
-- comparisons never put a sequence in front of itself, so that each round counts one at least.
pub count_runs-ne-out_of_fuel :
    (bf : Bytefile) (bit i : ℕ) (offsets : List ℕ)
    → (count_runs (length offsets) (cmp_single bf) bit i offsets ≢ err out_of_fuel)
      × (count_runs (length offsets) (cmp_pair bf) bit i offsets ≢ err out_of_fuel)
count_runs-ne-out_of_fuel bf bit i offsets = (
  Finishes-ne _ (
      count_runs-Finishes (cmp_single bf) (cmp_single-Finishes bf) (cmp_single_irrefl bf)
        (length offsets) bit i offsets (omega arith)),
  Finishes-ne _ (
      count_runs-Finishes (cmp_pair bf) (cmp_pair-Finishes bf) (cmp_pair_irrefl bf) (length offsets)
        bit i offsets (omega arith)),
)
