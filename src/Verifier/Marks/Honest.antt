-- ===== src/Verifier/Marks/Honest.antt =====
-- What a round of `collect_marks` marks and queues is reached.
use lama_sm_interpreter.Prelude.{
  ℕ, ◌+◌, ◌<◌, ◌^◌, ◌≡◌, ◌≢◌, ◌⊎◌, inl, inr, refl, sym, subst, List, [], ◌∷◌, ◌++◌, set, get_elem?,
  some, ltb, arith,
}
use lama_sm_interpreter.Result.{ok, Error, ◌>>=◌, guard, >>=-eq-ok}
use lama_sm_interpreter.Word.{minus_one}
use lama_sm_interpreter.Bytefile.{Bytefile, code_u32}
use lama_sm_interpreter.Instruction.{InstructionType, cjmp_z, cjmp_nz, call, jmp, end, fail, ret}
use lama_sm_interpreter.Byterun.{general_byterun}
use lama_sm_interpreter.Verifier.Effect.{get_new_stack}
use lama_sm_interpreter.Verifier.Marks.{
  Marks, mark, push_label, perform_step, check_arguments, Round, breaks, goes_on, fall_through,
  follow, visit,
}
use lama_sm_interpreter.Verifier.Marks.Grows.{
  Pending, Marked, set-keeps, set-Marked, set-fresh, perform_step_cases, fall_through_cases,
}
use lama_sm_interpreter.Verifier.Marks.Paths.{Goes, Reach, step}

Pending-cases :
    (o n : ℕ) (labels : List ℕ) → Pending o (labels ++ n ∷ []) → Pending o labels ⊎ (o ≡ n)
Pending-cases o n [] (inl e) = inr e
Pending-cases o n [] (inr h) = elim h [ ]
Pending-cases o n (l ∷ labels) (inl e) = inl (inl e)
Pending-cases o n (l ∷ labels) (inr h) = elim (Pending-cases o n labels h) [
  | inl p ↦ inl (inr p)
  | inr e ↦ inr e
]

module _ (bf : Bytefile) where
  -- Each mark is reached, and each queued offset is marked.
  pub record Honest (m : Marks) : Type 0 where
    pub reached : (o s : ℕ) → Marked m.visited o s → Reach bf o s
    pub queued : (o : ℕ) → Pending o m.labels → (s : ℕ) × Marked m.visited o s

  module _ (m : Marks) (n s : ℕ) (unset : get_elem? m.visited n ≡ some minus_one)
      (h : s ≢ minus_one) (r : Reach bf n s) (honest : Honest m) where
    reached_then : (o t : ℕ) → Marked (set m.visited n s) o t → Reach bf o t
    reached_then o t k = elim (set-fresh m.visited n s unset h o t k) [
      | inl old ↦ honest.reached o t old
      | inr e ↦
          let at_o : get_elem? (set m.visited n s) o ≡ some s =
            subst (λ x. get_elem? (set m.visited n s) x ≡ some s) (sym e)
              (set-Marked m.visited n s unset h).entry in
          let es : t ≡ s = ground (arith, k.entry) in rw (e, es) r
    ]

    mark-Honest : Honest (mark m n s)
    unfolding mark
    mark-Honest = record {
      reached = reached_then;
      queued = λ o p. let (t, k) = honest.queued o p in (t, set-keeps m.visited n s unset h o t k);
    }

    pub push-Honest : Honest (push_label (mark m n s) n)
    unfolding mark push_label
    push-Honest = record {
      reached = reached_then;
      queued = λ o p. elim (Pending-cases o n m.labels p) [
        | inl q ↦ let (t, k) = honest.queued o q in (t, set-keeps m.visited n s unset h o t k)
        | inr e ↦ (
          s,
          subst (λ x. Marked (set m.visited n s) x s) (sym e) (set-Marked m.visited n s unset h),
        )
      ];
    }

  perform_step-Honest :
      (m m' : Marks) (n s : ℕ)
      → perform_step m n s ≡ ok m'
      → s ≢ minus_one
      → Reach bf n s
      → Honest m
      → Honest m'
  perform_step-Honest m m' n s p h r honest = elim (perform_step_cases m m' n s p) [
    | inl (unset, e) ↦ subst Honest (sym e) (push-Honest m n s unset h r honest)
    | inr (same, e) ↦ subst Honest (sym e) honest
  ]

  -- A round leaves the marks honest, and goes on at what is reached.
  abbrev pub HonestRound : Round → Type 0
  HonestRound (breaks m) = Honest m
  HonestRound (goes_on m n s) = Honest m × Reach bf n s

  module _ (m : Marks) (o s : ℕ) (r : Round) (honest : Honest m) where
    steps-Honest :
        (nxt a b : ℕ)
        → a ≢ minus_one
        → b ≢ minus_one
        → (do
          l ← code_u32 bf (o + 1)
          m₁ ← perform_step m l a
          m₂ ← perform_step m₁ nxt b
          ok (breaks m₂))
          ≡ ok r
        → ((l : ℕ) → code_u32 bf (o + 1) ≡ ok l → Reach bf l a)
        → Reach bf nxt b
        → HonestRound r
    steps-Honest nxt a b ha hb p target next =
        let (l, e, p₁) = >>=-eq-ok (code_u32 bf (o + 1)) _ r p in
        let (m₁, e₁, p₂) = >>=-eq-ok (perform_step m l a) _ r p₁ in
        let (m₂, e₂, p₃) = >>=-eq-ok (perform_step m₁ nxt b) _ r p₂ in
        let q : breaks m₂ ≡ r = ground arith in
        let first = perform_step-Honest m m₁ l a e₁ ha (target l e) honest in
        subst HonestRound q (perform_step-Honest m₁ m₂ nxt b e₂ hb next first)

    step-Honest :
        (a : ℕ)
        → a ≢ minus_one
        → (do l ← code_u32 bf (o + 1); m₁ ← perform_step m l a; ok (breaks m₁)) ≡ ok r
        → ((l : ℕ) → code_u32 bf (o + 1) ≡ ok l → Reach bf l a)
        → HonestRound r
    step-Honest a ha p target =
        let (l, e, p₁) = >>=-eq-ok (code_u32 bf (o + 1)) _ r p in
        let (m₁, e₁, p₂) = >>=-eq-ok (perform_step m l a) _ r p₁ in
        let q : breaks m₁ ≡ r = ground arith in
        subst HonestRound q (perform_step-Honest m m₁ l a e₁ ha (target l e) honest)

    fall-Honest :
        (nxt a : ℕ) → a ≢ minus_one → fall_through m nxt a ≡ ok r → Reach bf nxt a → HonestRound r
    fall-Honest nxt a ha p next = elim (fall_through_cases m nxt a r p) [
      | inl (unset, e) ↦ subst HonestRound (sym e) (mark-Honest m nxt a unset ha next honest, next)
      | inr (same, e) ↦ subst HonestRound (sym e) honest
    ]

    halt-Honest : ok (breaks m) ≡ ok r → HonestRound r
    halt-Honest p = let q : breaks m ≡ r = ground arith in subst HonestRound q honest

    module _ (reach : Reach bf o s) where
      follow-Honest :
          (nxt cur : ℕ) (ty : InstructionType)
          → general_byterun bf o ≡ ok (nxt, ty)
          → get_new_stack bf s o ty ≡ ok cur
          → cur ≢ minus_one
          → follow bf m o nxt ty cur ≡ ok r
          → HonestRound r
      unfolding follow
      follow-Honest nxt cur ty dec eff h p = by_type ty edge p
        where
          edge : (o' s' : ℕ) → Goes bf o nxt cur ty o' s' → Reach bf o' s'
          edge o' s' g =
              step reach
                (record { nxt = nxt; ty = ty; cur = cur; decodes = dec; effect = eff; goes = g })

          by_type :
              (ty : InstructionType)
              → ((o' s' : ℕ) → Goes bf o nxt cur ty o' s' → Reach bf o' s')
              → follow bf m o nxt ty cur ≡ ok r
              → HonestRound r
          by_type cjmp_z to p =
              steps-Honest nxt cur cur h h p (λ l e. to l cur (inl e, refl))
                (to nxt cur (inr refl, refl))
          by_type cjmp_nz to p =
              steps-Honest nxt cur cur h h p (λ l e. to l cur (inl e, refl))
                (to nxt cur (inr refl, refl))
          by_type call to p =
              steps-Honest nxt 0 cur (ground arith) h p (λ l e. to l 0 (inl (e, refl)))
                (to nxt cur (inr (refl, refl)))
          by_type jmp to p = step-Honest cur h p (λ l e. to l cur (e, refl))
          by_type end to p = halt-Honest p
          by_type fail to p = halt-Honest p
          by_type ret to p = halt-Honest p
          by_type _ to p = fall-Honest nxt cur h p (to nxt cur (refl, refl))

      pub visit-Honest : visit bf m o s ≡ ok r → HonestRound r
      unfolding visit
      visit-Honest p =
          let ((nxt, ty), d, p₁) = >>=-eq-ok (general_byterun bf o) _ r p in
          let (u, a, p₂) = >>=-eq-ok (check_arguments bf o s ty) _ r p₁ in
          let (cur, e, p₃) = >>=-eq-ok (get_new_stack bf s o ty) _ r p₂ in
          let (u', g, p₄) = >>=-eq-ok (guard (ltb cur (2 ^ 31)) (Error.stack_exhausted o)) _ r p₃ in
          let lt : cur < 2 ^ 31 = ground arith in follow-Honest nxt cur ty d e (omega arith) p₄
