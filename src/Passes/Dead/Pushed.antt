-- ===== src/Passes/Dead/Pushed.antt =====
-- What pushing adds to the live signals and to the stack.
use rtlzz.Base.{
  ℕ, ◌+◌, ◌≡◌, refl, subst, ◌∙◌, List, [], ◌∷◌, ◌++◌, Bool, true, false, not, ◌&&◌, ◌||◌, ◌==◌, ltb,
  leb, length, arith, Bool-cases, inl, inr, ◌⊎◌,
}
use rtlzz.Facts.Analysis.Steps.{contains, distinct}
use rtlzz.Facts.Order.Pending.{contains-append}
use rtlzz.Passes.Constant.{invalid_node_id}
use rtlzz.Passes.Dead.{Marks, push, push_all}

-- Whether an id may be pushed.
abbrev pub in_range : ℕ → ℕ → Bool
in_range size id = not (id == invalid_node_id) && ltb id size

module _ (size : ℕ) where
  pub record IsPushed (ids : List ℕ) (m n : Marks) : Type 0 where
    pub live :
        (v : ℕ) → contains v n.live ≡ (contains v m.live || contains v ids && in_range size v)
    pub fresh :
        (v : ℕ)
        → contains v n.live ≡ true
        → (contains v m.live ≡ true) ⊎ (contains v n.stack ≡ true)
    pub waiting : (v : ℕ) → contains v m.stack ≡ true → contains v n.stack ≡ true
    pub known :
        (v : ℕ)
        → contains v n.stack ≡ true
        → (contains v m.stack ≡ true) ⊎ (contains v n.live ≡ true)
    pub balance : length n.live + length m.stack ≡ length m.live + length n.stack
    pub once : distinct m.live ≡ true → distinct n.live ≡ true

  push-IsPushed : (id : ℕ) (m : Marks) → IsPushed (id ∷ []) m (push size id m)
  unfolding push
  push-IsPushed id m =
      elim (Bool-cases (id == invalid_node_id || leb size id || contains id m.live)) [
        | inl stays ↦ rw stays (record {
          live = λ v. elim (Bool-cases (id == v)) [
            | inl here ↦
                (let e : id ≡ v = ground arith in
                  let k =
                    subst (λ t. (t == invalid_node_id || leb size t || contains t m.live) ≡ true) e
                      stays in
                  ground arith)
            | inr there ↦ ground arith
          ];
          fresh = λ v h. inl h;
          waiting = λ v h. h;
          known = λ v h. inl h;
          balance = refl;
          once = λ h. h;
        })
        | inr new ↦ rw new (record {
          live = λ v. elim (Bool-cases (id == v)) [
            | inl here ↦
                (let e : id ≡ v = ground arith in
                  let k =
                    subst (λ t. (t == invalid_node_id || leb size t || contains t m.live) ≡ false) e
                      new in
                  ground arith)
            | inr there ↦ ground arith
          ];
          fresh = λ v h. ground arith;
          waiting = λ v h. ground arith;
          known = λ v h. ground arith;
          balance = ground arith;
          once = λ h. ground arith;
        })
      ]

  IsPushed-trans :
      (xs ys : List ℕ) (m n k : Marks) → IsPushed xs m n → IsPushed ys n k → IsPushed (xs ++ ys) m k
  IsPushed-trans xs ys m n k p q = record {
    live = λ v. q.live v ∙ ground (arith, p.live v, contains-append v xs ys);
    fresh = λ v h. elim (q.fresh v h) [
      | inl before ↦ elim (p.fresh v before) [
        | inl old ↦ inl old
        | inr waits ↦ inr (q.waiting v waits)
      ]
      | inr waits ↦ inr waits
    ];
    waiting = λ v h. q.waiting v (p.waiting v h);
    known = λ v h. elim (q.known v h) [
      | inl before ↦ elim (p.known v before) [
        | inl old ↦ inl old
        | inr live ↦ inr (q.live v ∙ ground arith)
      ]
      | inr live ↦ inr live
    ];
    balance = omega (arith, p.balance, q.balance);
    once = λ h. q.once (p.once h);
  }

  pub push_all-IsPushed : (ids : List ℕ) (m : Marks) → IsPushed ids m (push_all size ids m)
  unfolding push_all
  push_all-IsPushed [] m = record {
    live = λ v. ground arith;
    fresh = λ v h. inl h;
    waiting = λ v h. h;
    known = λ v h. inl h;
    balance = refl;
    once = λ h. h;
  }
  push_all-IsPushed (id ∷ ids) m =
      IsPushed-trans (id ∷ []) ids m (push size id m) (push_all size ids (push size id m))
        (push-IsPushed id m) (push_all-IsPushed ids (push size id m))
