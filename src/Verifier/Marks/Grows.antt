-- ===== src/Verifier/Marks/Grows.antt =====
-- How `visited` and `labels` grow: marks stay, and each new one is queued or is the next to be
-- walked through.
use lama_sm_interpreter.Prelude.{
  ℕ, ◌≡◌, ◌≢◌, ◌⊎◌, inl, inr, refl, sym, ◌∙◌, ap, subst, List, [], ◌∷◌, ◌++◌, get_elem?,
  get_elem?-lt, get_elem?-set_self, get_elem?-set_ne, set, length, length-set, Option, none, some,
  arith, ℕ_discrete,
}
use lama_sm_interpreter.Result.{ok}
use lama_sm_interpreter.Word.{minus_one}
use lama_sm_interpreter.Verifier.Marks.{
  Marks, mark, push_label, perform_step, Round, breaks, goes_on, fall_through,
}

abbrev pub Pending : ℕ → List ℕ → Type 0
Pending o [] = ⊥
Pending o (l ∷ labels) = (o ≡ l) ⊎ Pending o labels

pub Pending-append : (o l : ℕ) (labels : List ℕ) → Pending o labels → Pending o (labels ++ l ∷ [])
Pending-append o l (k ∷ labels) (inl e) = inl e
Pending-append o l (k ∷ labels) (inr h) = inr (Pending-append o l labels h)
Pending-append o l [] h = elim h [ ]

pub Pending-last : (l : ℕ) (labels : List ℕ) → Pending l (labels ++ l ∷ [])
Pending-last l [] = inl refl
Pending-last l (k ∷ labels) = inr (Pending-last l labels)

-- `o` is marked with `s`.
pub record Marked (visited : List ℕ) (o s : ℕ) : Type 0 where
  pub entry : get_elem? visited o ≡ some s
  pub set_before : s ≢ minus_one

pub record Grows (cur : Option ℕ) (m m' : Marks) : Type 0 where
  pub size : length m.visited ≡ length m'.visited
  pub keeps : (o s : ℕ) → Marked m.visited o s → Marked m'.visited o s
  pub queue : (o : ℕ) → Pending o m.labels → Pending o m'.labels
  pub fresh :
      (o s : ℕ)
      → Marked m'.visited o s
      → Marked m.visited o s ⊎ Pending o m'.labels ⊎ (cur ≡ some o)

pub Grows-refl : (m : Marks) → Grows none m m
Grows-refl m = record { size = refl; keeps = λ o s h. h; queue = λ o h. h; fresh = λ o s h. inl h }

pub Grows-trans :
    (cur : Option ℕ) (m₁ m₂ m₃ : Marks) → Grows none m₁ m₂ → Grows cur m₂ m₃ → Grows cur m₁ m₃
Grows-trans cur m₁ m₂ m₃ g h = record {
  size = g.size ∙ h.size;
  keeps = λ o s k. h.keeps o s (g.keeps o s k);
  queue = λ o k. h.queue o (g.queue o k);
  fresh = λ o s k. earlier o s (h.fresh o s k);
}
  where
    at_first :
        (o s : ℕ)
        → Marked m₁.visited o s ⊎ Pending o m₂.labels ⊎ (none ≡ some o)
        → Marked m₁.visited o s ⊎ Pending o m₃.labels ⊎ (cur ≡ some o)
    at_first o s (inl k) = inl k
    at_first o s (inr (inl k)) = inr (inl (h.queue o k))
    at_first o s (inr (inr e)) = cc

    earlier :
        (o s : ℕ)
        → Marked m₂.visited o s ⊎ Pending o m₃.labels ⊎ (cur ≡ some o)
        → Marked m₁.visited o s ⊎ Pending o m₃.labels ⊎ (cur ≡ some o)
    earlier o s (inl k) = at_first o s (g.fresh o s k)
    earlier o s (inr k) = inr k

-- What a write of `s` at an unmarked offset does to the marks.
module _ (visited : List ℕ) (n s : ℕ) (unset : get_elem? visited n ≡ some minus_one)
    (h : s ≢ minus_one) where
  pub set-keeps : (o t : ℕ) → Marked visited o t → Marked (set visited n s) o t
  set-keeps o t k = elim (ℕ_discrete n o) [
    | yes e ↦ absurd (k.set_before (ground (arith, k.entry, unset)))
    | no d ↦ record {
      entry = get_elem?-set_ne visited n o s d ∙ k.entry;
      set_before = k.set_before;
    }
  ]

  pub set-Marked : Marked (set visited n s) n s
  set-Marked = record {
    entry = get_elem?-set_self visited n s (get_elem?-lt visited n minus_one unset);
    set_before = h;
  }

  pub set-fresh : (o t : ℕ) → Marked (set visited n s) o t → Marked visited o t ⊎ (o ≡ n)
  set-fresh o t k = elim (ℕ_discrete n o) [
    | yes e ↦ inr (sym e)
    | no d ↦ inl (record {
      entry = sym (get_elem?-set_ne visited n o s d) ∙ k.entry;
      set_before = k.set_before;
    })
  ]

pub push-Grows :
    (m : Marks) (n s : ℕ)
    → get_elem? m.visited n ≡ some minus_one
    → s ≢ minus_one
    → Grows none m (push_label (mark m n s) n)
unfolding push_label mark
push-Grows m n s unset h = record {
  size = sym (length-set m.visited n s);
  keeps = set-keeps m.visited n s unset h;
  queue = λ o k. Pending-append o n m.labels k;
  fresh = λ o t k. queued o t (set-fresh m.visited n s unset h o t k);
}
  where
    queued :
        (o t : ℕ)
        → Marked m.visited o t ⊎ (o ≡ n)
        → Marked m.visited o t ⊎ Pending o (m.labels ++ n ∷ []) ⊎ (none ≡ some o)
    queued o t (inl k) = inl k
    queued o t (inr e) =
        inr (inl (subst (λ x. Pending x (m.labels ++ n ∷ [])) (sym e) (Pending-last n m.labels)))

-- The two ways in which `perform_step` succeeds.
pub perform_step_cases :
    (m m' : Marks) (n s : ℕ)
    → perform_step m n s ≡ ok m'
    → (get_elem? m.visited n ≡ some minus_one) × (m' ≡ push_label (mark m n s) n)
      ⊎ (get_elem? m.visited n ≡ some s) × (m' ≡ m)
unfolding perform_step
perform_step_cases m m' n s p = ground arith

pub perform_step-Grows :
    (m m' : Marks) (n s : ℕ)
    → perform_step m n s ≡ ok m'
    → s ≢ minus_one
    → Grows none m m' × Marked m'.visited n s
unfolding mark push_label
perform_step-Grows m m' n s p h = elim (perform_step_cases m m' n s p) [
  | inl (unset, e) ↦ rw e (push-Grows m n s unset h, set-Marked m.visited n s unset h)
  | inr (same, e) ↦ rw e (Grows-refl m, record { entry = same; set_before = h })
]

-- The two ways in which control falls through.
pub fall_through_cases :
    (m : Marks) (n s : ℕ) (r : Round)
    → fall_through m n s ≡ ok r
    → (get_elem? m.visited n ≡ some minus_one) × (r ≡ goes_on (mark m n s) n s)
      ⊎ (get_elem? m.visited n ≡ some s) × (r ≡ breaks m)
unfolding fall_through
fall_through_cases m n s r p = ground arith

pub mark-Grows :
    (m : Marks) (n s : ℕ)
    → get_elem? m.visited n ≡ some minus_one
    → s ≢ minus_one
    → Grows (some n) m (mark m n s) × Marked (mark m n s).visited n s
unfolding mark
mark-Grows m n s unset h = (
  record {
    size = sym (length-set m.visited n s);
    keeps = set-keeps m.visited n s unset h;
    queue = λ o k. k;
    fresh = λ o t k. current o t (set-fresh m.visited n s unset h o t k);
  },
  set-Marked m.visited n s unset h,
)
  where
    current :
        (o t : ℕ)
        → Marked m.visited o t ⊎ (o ≡ n)
        → Marked m.visited o t ⊎ Pending o m.labels ⊎ (some n ≡ some o)
    current o t (inl k) = inl k
    current o t (inr e) = inr (inr (ap some (sym e)))
