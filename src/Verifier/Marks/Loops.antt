-- ===== src/Verifier/Marks/Loops.antt =====
-- The two loops of `collect_marks` check every instruction that they mark.
use lama_sm_interpreter.Prelude.{
  ℕ, zero, suc, ◌≡◌, ◌⊎◌, inl, inr, sym, ap, subst, List, [], ◌∷◌, get_elem?, Option, none, some,
  arith,
}
use lama_sm_interpreter.Result.{ok, >>=-eq-ok}
use lama_sm_interpreter.Word.{found}
use lama_sm_interpreter.Bytefile.{Bytefile}
use lama_sm_interpreter.Verifier.Marks.{Marks, Round, breaks, goes_on, visit, walk, drain}
use lama_sm_interpreter.Verifier.Marks.Grows.{Pending, Marked, Grows}
use lama_sm_interpreter.Verifier.Marks.Rounds.{
  Checked, Checked-mono, Keeps, marks_of, After, visit-Checked,
}

-- Every mark is queued, or is the one that is walked from, or is checked.
abbrev pub Inv : Bytefile → Option ℕ → Marks → Type 0
Inv bf cur m =
    (o s : ℕ)
    → Marked m.visited o s
    → Pending o m.labels ⊎ (cur ≡ some o) ⊎ Checked bf m.visited o s

-- The offset that the walk goes on from.
abbrev next_of : Round → Option ℕ
next_of (breaks m) = none
next_of (goes_on m n s) = some n

After-Grows : (m : Marks) (r : Round) → After m r → Grows (next_of r) m (marks_of r)
After-Grows m (breaks m') a = a
After-Grows m (goes_on m' n s) a = a.0

-- One round moves the invariant on.
round-Inv :
    (bf : Bytefile) (cur : Option ℕ) (m m' : Marks) (o s : ℕ)
    → get_elem? m.visited o ≡ some s
    → Inv bf (some o) m
    → Grows cur m m'
    → Checked bf m'.visited o s
    → Inv bf cur m'
round-Inv bf cur m m' o s at_o inv g checked x t k = new (g.fresh x t k)
  where
    old :
        Marked m.visited x t
        → Pending x m.labels ⊎ (some o ≡ some x) ⊎ Checked bf m.visited x t
        → Pending x m'.labels ⊎ (cur ≡ some x) ⊎ Checked bf m'.visited x t
    old mk (inl p) = inl (g.queue x p)
    old mk (inr (inl e)) =
        let ex : o ≡ x = ground arith in
        let es : s ≡ t = ground (arith, mk.entry) in
        inr (
          inr (
            subst (λ a. Checked bf m'.visited a t) ex
              (subst (λ b. Checked bf m'.visited o b) es checked)))
    old mk (inr (inr c)) = inr (inr (Checked-mono bf m.visited m'.visited x t g.keeps c))

    new :
        Marked m.visited x t ⊎ Pending x m'.labels ⊎ (cur ≡ some x)
        → Pending x m'.labels ⊎ (cur ≡ some x) ⊎ Checked bf m'.visited x t
    new (inl mk) = old mk (inv x t mk)
    new (inr (inl p)) = inl p
    new (inr (inr e)) = inr (inl e)

-- What the walk with this fuel keeps.
abbrev pub WalkInv : ℕ → Bytefile → Type 0
WalkInv fuel bf =
    (m m' : Marks) (o s : ℕ)
    → walk fuel bf m o s ≡ ok m'
    → get_elem? m.visited o ≡ some s
    → Inv bf (some o) m
    → Inv bf none m' × Keeps m.visited m'.visited

pub walk-Inv :
    (fuel : ℕ) (bf : Bytefile) (m m' : Marks) (o s : ℕ)
    → walk fuel bf m o s ≡ ok m'
    → get_elem? m.visited o ≡ some s
    → Inv bf (some o) m
    → Inv bf none m' × Keeps m.visited m'.visited
unfolding walk
walk-Inv zero bf m m' o s p at_o inv = cc
walk-Inv (suc fuel) bf m m' o s p at_o inv =
    let (r, e, q) = >>=-eq-ok (visit bf m o s) _ m' p in
    let (after, checked) = visit-Checked bf m o r s e in go (walk-Inv fuel bf) r after checked q
  where
    go :
        WalkInv fuel bf
        → (r : Round) → After m r
        → Checked bf (marks_of r).visited o s
        → (elim r [ breaks m₁ ↦ ok m₁ | goes_on m₁ nxt stack ↦ walk fuel bf m₁ nxt stack ]) ≡ ok m'
        → Inv bf none m' × Keeps m.visited m'.visited
    go ih (breaks m₁) g checked q =
        let e : m₁ ≡ m' = ground arith in
        rw (← e) (round-Inv bf none m m₁ o s at_o inv g checked, g.keeps)
    go ih (goes_on m₁ nxt stack) (g, mk) checked q =
        let (inv', k) =
          ih m₁ m' nxt stack q mk.entry (round-Inv bf (some nxt) m m₁ o s at_o inv g checked) in
        (inv', λ x t h. k x t (g.keeps x t h))

-- At the end nothing is queued, so every mark is checked.
pub drain-Inv :
    (fuel rounds : ℕ) (bf : Bytefile) (visited labels w : List ℕ)
    → drain fuel rounds bf (record { visited = visited; labels = labels }) ≡ ok w
    → Inv bf none (record { visited = visited; labels = labels })
    → ((o s : ℕ) → Marked w o s → Checked bf w o s) × Keeps visited w
unfolding drain
drain-Inv zero rounds bf visited labels w p inv = cc
drain-Inv (suc fuel) rounds bf visited [] w p inv =
    let e : visited ≡ w = ground arith in rw (← e) (λ o s h. checked o s (inv o s h), λ o s h. h)
  where
    checked :
        (o s : ℕ) → Pending o [] ⊎ (none ≡ some o) ⊎ Checked bf visited o s → Checked bf visited o s
    checked o s (inl h) = elim h [ ]
    checked o s (inr (inl e)) = cc
    checked o s (inr (inr c)) = c
drain-Inv (suc fuel) rounds bf visited (l ∷ labels) w p inv =
    let (t, e, q) = >>=-eq-ok (found (get_elem? visited l)) _ w p in
    let popped : Marks = record { visited = visited; labels = labels } in
    let (m', e', q') = >>=-eq-ok (walk rounds bf popped l t) _ w q in
    let (inv', k) = walk-Inv rounds bf popped m' l t e' (ground arith) moved in
    let (c, k') = drain-Inv fuel rounds bf m'.visited m'.labels w q' inv' in
    (c, λ o s h. k' o s (k o s h))
  where
    moved : Inv bf (some l) (record { visited = visited; labels = labels })
    moved o s h = at_front (inv o s h)
      where
        at_front :
            Pending o (l ∷ labels) ⊎ (none ≡ some o) ⊎ Checked bf visited o s
            → Pending o labels ⊎ (some l ≡ some o) ⊎ Checked bf visited o s
        at_front (inl (inl x)) = inr (inl (ap some (sym x)))
        at_front (inl (inr x)) = inl x
        at_front (inr (inl x)) = cc
        at_front (inr (inr x)) = inr (inr x)
