-- ===== src/Passes/Dead/Marked.antt =====
-- The live signals are those that an observable signal reaches.
use rtlzz.Base.{
  ℕ, zero, suc, ◌+◌, ◌≤◌, ◌≡◌, refl, sym, ap, subst, ◌∙◌, List, [], ◌∷◌, true, ◌==◌, length, arith,
  Bool-cases, List-cases, inl, inr, ◌⊎◌, ◌↔◌,
}
use rtlzz.Ir.{Signal, find_signal}
use rtlzz.Facts.Analysis.Steps.{contains, distinct}
use rtlzz.Facts.Order.Pending.{length-distinct}
use rtlzz.Passes.Dead.{
  Marks, signal_nodes, observable_nodes, mark_signal, mark_from, first_marks, mark_live,
}
use rtlzz.Passes.Dead.Pushed.{in_range, push_all-IsPushed}

-- A signal is needed where it is observable or a driver of a needed signal names it.
pub data Needed (observable : List ℕ) (signals : List Signal) : ℕ → Type 0 where
  root :
      {v : ℕ}
      → contains v (observable_nodes observable signals) ≡ true
      → in_range (length signals) v ≡ true
      → Needed observable signals v
  named :
      {u v : ℕ}
      → Needed observable signals u
      → contains v (signal_nodes (find_signal signals u)) ≡ true
      → in_range (length signals) v ≡ true
      → Needed observable signals v

module _ (observable : List ℕ) (signals : List Signal) where
  abbrev nodes_of : ℕ → List ℕ
  nodes_of id = signal_nodes (find_signal signals id)

  record Inv (m : Marks) : Type 0 where
    sound : (v : ℕ) → contains v m.live ≡ true → Needed observable signals v
    waits : (v : ℕ) → contains v m.stack ≡ true → contains v m.live ≡ true
    closed :
        (u v : ℕ)
        → contains u m.live ≡ true
        → contains v (nodes_of u) ≡ true
        → in_range (length signals) v ≡ true
        → (contains u m.stack ≡ true) ⊎ (contains v m.live ≡ true)
    roots :
        (v : ℕ)
        → contains v (observable_nodes observable signals) ≡ true
        → in_range (length signals) v ≡ true
        → contains v m.live ≡ true
    once : distinct m.live ≡ true

  Needed-range : {v : ℕ} → Needed observable signals v → in_range (length signals) v ≡ true
  Needed-range (root h r) = r
  Needed-range (named n h r) = r

  Inv-first : Inv (first_marks observable signals)
  Inv-first =
      let p =
        push_all-IsPushed (length signals) (observable_nodes observable signals)
          (record { live = []; stack = [] }) in
      record {
        sound = λ v h. (let k = sym (p.live v) ∙ h in root (ground arith) (ground arith));
        waits = λ v h. elim (p.known v h) [ inl empty ↦ absurd (cc empty) | inr live ↦ live ];
        closed = λ u v h e r. elim (p.fresh u h) [
          | inl empty ↦ absurd (cc empty)
          | inr waiting ↦ inl waiting
        ];
        roots = λ v h r. p.live v ∙ ground arith;
        once = p.once refl;
      }

  Inv-mark_signal :
      (id : ℕ) (rest : List ℕ) (m : Marks)
      → m.stack ≡ id ∷ rest
      → Inv m
      → Inv (mark_signal signals id rest m)
  unfolding mark_signal
  Inv-mark_signal id rest m top inv =
      let p = push_all-IsPushed (length signals) (nodes_of id) (record m { stack = rest }) in
      let live : contains id m.live ≡ true = inv.waits id (ap (contains id) top ∙ ground arith) in
      record {
        sound = λ v h. elim (Bool-cases (contains v m.live)) [
          | inl old ↦ inv.sound v old
          | inr new ↦
              (let k = sym (p.live v) ∙ h in
                named (inv.sound id live) (ground arith) (ground arith))
        ];
        waits = λ v h. elim (p.known v h) [
          | inl below ↦
              (let old = inv.waits v (ap (contains v) top ∙ ground arith) in
                p.live v ∙ ground arith)
          | inr now ↦ now
        ];
        closed = λ u v h e r. elim (p.fresh u h) [
          | inl old ↦ elim (inv.closed u v old e r) [
            | inl waiting ↦ elim (Bool-cases (id == u)) [
              | inl here ↦
                  (let same : id ≡ u = ground arith in
                    let from_id = subst (λ t. contains v (nodes_of t) ≡ true) (sym same) e in
                    inr (p.live v ∙ ground arith))
              | inr there ↦
                  (let below = ap (contains u) (sym top) ∙ waiting in
                    inl (p.waiting u (ground arith)))
            ]
            | inr now ↦ inr (p.live v ∙ ground arith)
          ]
          | inr waiting ↦ inl waiting
        ];
        roots = λ v h r. (let old = inv.roots v h r in p.live v ∙ ground arith);
        once = p.once inv.once;
      }

  mark_signal-balance :
      (id : ℕ) (rest : List ℕ) (m : Marks)
      → length (mark_signal signals id rest m).live + length rest
        ≡ length m.live + length (mark_signal signals id rest m).stack
  unfolding mark_signal
  mark_signal-balance id rest m =
      (push_all-IsPushed (length signals) (nodes_of id) (record m { stack = rest })).balance

  -- With an empty stack the live signals are closed under what drivers name.
  Needed-live :
      (m : Marks)
      → Inv m
      → m.stack ≡ []
      → {v : ℕ} → Needed observable signals v
      → contains v m.live ≡ true
  Needed-live m inv ended (root {v} h r) = inv.roots v h r
  Needed-live m inv ended (named {u} {v} needed h r) =
      elim (inv.closed u v (Needed-live m inv ended needed) h r) [
        | inl waiting ↦ absurd (let k = ap (contains u) (sym ended) ∙ waiting in cc)
        | inr live ↦ live
      ]

  -- Every live signal is in range, and none is live twice.
  Inv-length : (m : Marks) → Inv m → length m.live ≤ length signals
  Inv-length m inv = omega (
    arith,
    length-distinct (length signals) m.live inv.once
        (λ v h. (let r = Needed-range (inv.sound v h) in ground arith)),
  )

  mark_from-ends :
      (fuel : ℕ) (m : Marks)
      → Inv m
      → length signals + length m.stack ≤ fuel + length m.live
      → Inv (mark_from fuel signals m) × ((mark_from fuel signals m).stack ≡ [])
  unfolding mark_from
  mark_from-ends zero m inv enough = elim (List-cases m.stack) [
    | inl empty ↦ (inv, empty)
    | inr (id, rest, e) ↦ absurd (omega (arith, Inv-length m inv, ap length e))
  ]
  mark_from-ends (suc fuel) m inv enough = elim (List-cases m.stack) [
    | inl empty ↦ rw (empty, mark_from) (inv, empty)
    | inr (id, rest, e) ↦
        let next = mark_signal signals id rest m in
        rw (e, mark_from)
          (mark_from-ends fuel next (Inv-mark_signal id rest m e inv)
            (omega (arith, mark_signal-balance id rest m, ap length e)))
  ]

-- The search ends with an empty stack, and a signal is then live exactly where it is needed.
pub mark_live-Needed :
    (observable : List ℕ) (signals : List Signal)
    → ((mark_live observable signals).stack ≡ [])
      × ((v : ℕ)
          → (contains v (mark_live observable signals).live ≡ true) ↔ Needed observable signals v)
unfolding mark_live
mark_live-Needed observable signals =
    let first = Inv-first observable signals in
    let p =
      push_all-IsPushed (length signals) (observable_nodes observable signals)
        (record { live = []; stack = [] }) in
    let (inv, ended) =
      mark_from-ends observable signals (length signals) (first_marks observable signals) first
        (omega (arith, p.balance)) in
    (
      ended,
      λ v. (inv.sound v, Needed-live observable signals (mark_live observable signals) inv ended),
    )
