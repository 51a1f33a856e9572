-- ===== src/Facts/Order/Loop.antt =====
-- The `while` loop: what it keeps, that it ends, and the order that it leaves.
use rtlzz.Base.{
  ℕ, zero, suc, ◌+◌, ◌≤◌, ◌<◌, ◌≡◌, refl, sym, ap, subst, ◌∙◌, List, [], ◌∷◌, ◌++◌, true, false,
  ◌||◌, ◌==◌, get_or, set, get_or-set, length, length-set, length-append, arith, Bool-cases,
  List-cases, inl, inr,
}
use mathlib.Core.List.{append_assoc}
use rtlzz.Facts.Order.Append.{contains-before}
use rtlzz.Facts.Analysis.Steps.{contains, distinct}
use rtlzz.Facts.Order.{Visit, release, release_all, visit_signal, visit_ready}
use rtlzz.Facts.Order.Pending.{
  count, uses, pending, contains-append, pending-visit, distinct-append, length-distinct,
}

nonzero-lt : (xs : List ℕ) (i k : ℕ) → get_or xs i 0 ≡ suc k → i < length xs
nonzero-lt [] i k h = omega (arith, h)
nonzero-lt (x ∷ xs) zero k h = omega arith
nonzero-lt (x ∷ xs) (suc i) k h = omega (arith, nonzero-lt xs i k h)

module _ (n : ℕ) (users : List (List ℕ)) where
  -- `vs` are the users still to be released; the signals queued or visited wait for nothing.
  pub record Inv (vs : List ℕ) (v : Visit) : Type 0 where
    pub held : (j : ℕ) → get_or v.indegree j 0 ≡ count j vs + pending n v.order (uses users j)
    pub settled : (j : ℕ) → contains j (v.order ++ v.ready) ≡ true → get_or v.indegree j 0 ≡ 0
    pub once : distinct (v.order ++ v.ready) ≡ true
    pub inside : (j : ℕ) → contains j (v.order ++ v.ready) ≡ true → j < n
    pub size : length v.indegree ≡ n

  -- A signal that still waits is in range and is not queued.
  record IsWaiting (j : ℕ) (vs : List ℕ) (v : Visit) : Type 0 where
    left : ℕ
    waits : get_or v.indegree j 0 ≡ suc left
    place : j < length v.indegree
    fresh : contains j (v.order ++ v.ready) ≡ false

  Inv-IsWaiting : (j : ℕ) (vs : List ℕ) (v : Visit) → Inv (j ∷ vs) v → IsWaiting j vs v
  Inv-IsWaiting j vs v inv =
      let k = count j vs + pending n v.order (uses users j) in
      let waits : get_or v.indegree j 0 ≡ suc k = ground (arith, inv.held j) in
      record {
        left = k;
        waits = waits;
        place = nonzero-lt v.indegree j k waits;
        fresh = elim (Bool-cases (contains j (v.order ++ v.ready))) [
          | inl seen ↦ absurd (omega (arith, inv.settled j seen, waits))
          | inr new ↦ new
        ];
      }

  held-release :
      (j : ℕ) (vs : List ℕ) (v : Visit) (k : ℕ)
      → Inv (j ∷ vs) v
      → get_or v.indegree j 0 ≡ suc k
      → j < length v.indegree
      → (i : ℕ) → get_or (set v.indegree j k) i 0 ≡ count i vs + pending n v.order (uses users i)
  held-release j vs v k inv waits place i = elim (Bool-cases (j == i)) [
    | inl here ↦
        (let e : j ≡ i = ground arith in
          ground (
            arith,
            get_or-set v.indegree j i k 0,
            inv.held i,
            subst (λ t. get_or v.indegree t 0 ≡ suc k) e waits,
          ))
    | inr there ↦ ground (arith, get_or-set v.indegree j i k 0, inv.held i)
  ]

  settled-release :
      (j : ℕ) (vs : List ℕ) (v : Visit) (k i : ℕ)
      → Inv (j ∷ vs) v
      → contains j (v.order ++ v.ready) ≡ false
      → contains i (v.order ++ v.ready) ≡ true
      → get_or (set v.indegree j k) i 0 ≡ 0
  settled-release j vs v k i inv fresh seen = elim (Bool-cases (j == i)) [
    | inl here ↦ absurd (
        let e : j ≡ i = ground arith in
        cc (subst (λ t. contains t (v.order ++ v.ready) ≡ false) e fresh, seen))
    | inr there ↦ ground (arith, get_or-set v.indegree j i k 0, inv.settled i seen)
  ]

  contains-queue :
      (i j : ℕ) (v : Visit)
      → contains i (v.order ++ (v.ready ++ j ∷ [])) ≡ (contains i (v.order ++ v.ready) || j == i)
  contains-queue i j v =
      ap (contains i) (sym (append_assoc v.order v.ready (j ∷ [])))
      ∙ contains-append i (v.order ++ v.ready) (j ∷ [])
      ∙ ground arith

  release-Inv : (j : ℕ) (vs : List ℕ) (v : Visit) → Inv (j ∷ vs) v → Inv vs (release j v)
  unfolding release
  release-Inv j vs v inv =
      let w = Inv-IsWaiting j vs v inv in
      let k = w.left in
      let held = held-release j vs v k inv w.waits w.place in
      rw w.waits (elim (Bool-cases (k == 0)) [
        | inl last ↦ rw last (record {
          held = held;
          settled = λ i seen. elim (Bool-cases (j == i)) [
            | inl here ↦ ground (arith, get_or-set v.indegree j i k 0, w.place)
            | inr there ↦
                settled-release j vs v k i inv w.fresh (ground (arith, contains-queue i j v))
          ];
          once =
              ap distinct (sym (append_assoc v.order v.ready (j ∷ [])))
              ∙ ground (arith, distinct-append j (v.order ++ v.ready), w.fresh, inv.once);
          inside = λ i seen. ground (arith, contains-queue i j v, inv.inside i, w.place, inv.size);
          size = length-set v.indegree j k ∙ inv.size;
        })
        | inr more ↦ rw more (record {
          held = held;
          settled = λ i seen. settled-release j vs v k i inv w.fresh seen;
          once = inv.once;
          inside = inv.inside;
          size = length-set v.indegree j k ∙ inv.size;
        })
      ])

  release_all-Inv : (vs : List ℕ) (v : Visit) → Inv vs v → Inv [] (release_all vs v)
  unfolding release_all
  release_all-Inv [] v inv = inv
  release_all-Inv (j ∷ vs) v inv = release_all-Inv vs (release j v) (release-Inv j vs v inv)

  popped-Inv :
      (id : ℕ) (rest : List ℕ) (v : Visit)
      → v.ready ≡ id ∷ rest
      → Inv [] v
      → Inv (get_or users id []) (record v { ready = rest; order = v.order ++ id ∷ [] })
  popped-Inv id rest v e inv =
      let line = append_assoc v.order (id ∷ []) rest ∙ ap (λ r. v.order ++ r) (sym e) in
      let once = subst (λ r. distinct (v.order ++ r) ≡ true) e inv.once in
      let here = subst (λ r. contains id (v.order ++ r) ≡ true → id < n) e (inv.inside id) in
      record {
        held = λ j.
            inv.held j
            ∙ ground (
              arith,
              pending-visit n v.order (uses users j) id (contains-before id v.order rest once)
                  (here (ground (arith, contains-append id v.order (id ∷ rest)))),
            );
        settled = λ j seen. inv.settled j (ap (contains j) (sym line) ∙ seen);
        once = ap distinct line ∙ inv.once;
        inside = λ j seen. inv.inside j (ap (contains j) (sym line) ∙ seen);
        size = inv.size;
      }

  pub visit_signal-Inv :
      (id : ℕ) (rest : List ℕ) (v : Visit)
      → v.ready ≡ id ∷ rest
      → Inv [] v
      → Inv [] (visit_signal users id rest v)
  unfolding visit_signal
  visit_signal-Inv id rest v e inv =
      release_all-Inv (get_or users id []) (record v { ready = rest; order = v.order ++ id ∷ [] })
        (popped-Inv id rest v e inv)

  release_all-order : (vs : List ℕ) (v : Visit) → (release_all vs v).order ≡ v.order
  unfolding release_all release
  release_all-order [] v = refl
  release_all-order (j ∷ vs) v = release_all-order vs (release j v)

  pub visit_signal-order :
      (id : ℕ) (rest : List ℕ) (v : Visit)
      → (visit_signal users id rest v).order ≡ v.order ++ id ∷ []
  unfolding visit_signal
  visit_signal-order id rest v =
      release_all-order (get_or users id []) (record v { ready = rest; order = v.order ++ id ∷ [] })

  -- Signals queued or visited are not repeated, so they are no more than `n`.
  Inv-length : (v : Visit) → Inv [] v → length v.order + length v.ready ≤ n
  Inv-length v inv = omega (
    arith,
    length-distinct n (v.order ++ v.ready) inv.once inv.inside,
    length-append v.order v.ready,
  )

  -- The loop ends with nothing queued, where there are as many rounds as signals to visit.
  pub visit_ready-ends :
      (fuel : ℕ) (v : Visit)
      → Inv [] v
      → n ≤ fuel + length v.order
      → (visit_ready fuel users v).ready ≡ []
  unfolding visit_ready
  visit_ready-ends zero v inv enough = elim (List-cases v.ready) [
    | inl empty ↦ empty
    | inr (id, rest, e) ↦ absurd (omega (arith, Inv-length v inv, ap length e))
  ]
  visit_ready-ends (suc fuel) v inv enough = elim (List-cases v.ready) [
    | inl empty ↦ simp (empty, visit_ready)
    | inr (id, rest, e) ↦
        let next = visit_signal users id rest v in
        let rest_ends = visit_ready-ends fuel next (visit_signal-Inv id rest v e inv) (
          omega (
            arith,
            enough,
            ap length (visit_signal-order id rest v),
            length-append v.order (id ∷ []),
          )) in
        rw (e, visit_ready) rest_ends
  ]

  -- What a round keeps holds where the loop stops.
  pub visit_ready_rule :
      (P : Visit → Type 0)
      → ((id : ℕ) (rest : List ℕ) (v : Visit)
          → v.ready ≡ id ∷ rest
          → P v
          → P (visit_signal users id rest v))
      → (fuel : ℕ) (v : Visit) → P v
      → P (visit_ready fuel users v)
  unfolding visit_ready
  visit_ready_rule P keep zero v p = p
  visit_ready_rule P keep (suc fuel) v p = elim (List-cases v.ready) [
    | inl empty ↦ rw (empty, visit_ready) p
    | inr (id, rest, e) ↦
        rw (e, visit_ready)
          (visit_ready_rule P keep fuel (visit_signal users id rest v) (keep id rest v e p))
  ]
