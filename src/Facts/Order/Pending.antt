-- ===== src/Facts/Order/Pending.antt =====
-- What the signals that are not visited yet still hold back.
use rtlzz.Base.{
  ℕ, zero, suc, ◌+◌, ◌≤◌, ◌<◌, ◌≡◌, refl, sym, subst, ap, ◌∙◌, List, [], ◌∷◌, ◌++◌, true, false,
  not, ◌&&◌, ◌||◌, if◌then◌else◌, ◌==◌, get_or, length, arith, Bool-cases, inl, inr,
}
use rtlzz.Facts.Analysis.Steps.{contains, distinct}

-- How often a number occurs.
abbrev pub count : ℕ → List ℕ → ℕ
count j [] = 0
count j (x ∷ xs) = (if x == j then 1 else 0) + count j xs

-- How many operands of `j` name `u`.
abbrev pub uses : List (List ℕ) → ℕ → ℕ → ℕ
uses users j u = count j (get_or users u [])

-- The sum over the numbers below `n` that are not in the list.
abbrev pub pending : ℕ → List ℕ → (ℕ → ℕ) → ℕ
pending zero order cost = 0
pending (suc n) order cost = (if contains n order then 0 else cost n) + pending n order cost

pub contains-append :
    (j : ℕ) (xs ys : List ℕ) → contains j (xs ++ ys) ≡ (contains j xs || contains j ys)
contains-append j [] ys = refl
contains-append j (x ∷ xs) ys = ground (arith, contains-append j xs ys)

pending-beyond :
    (n : ℕ) (order : List ℕ) (cost : ℕ → ℕ) (id : ℕ)
    → n ≤ id
    → pending n (order ++ id ∷ []) cost ≡ pending n order cost
pending-beyond zero order cost id h = refl
pending-beyond (suc n) order cost id h =
    ground (arith, pending-beyond n order cost id, contains-append n order (id ∷ []))

-- One more number in the list takes its share away.
pub pending-visit :
    (n : ℕ) (order : List ℕ) (cost : ℕ → ℕ) (id : ℕ)
    → contains id order ≡ false
    → id < n
    → pending n order cost ≡ cost id + pending n (order ++ id ∷ []) cost
pending-visit zero order cost id out h = absurd (omega arith)
pending-visit (suc n) order cost id out h = elim (Bool-cases (n == id)) [
  | inl here ↦
      (let e : n ≡ id = ground arith in
        let out_n = subst (λ k. contains k order ≡ false) (sym e) out in
        let beyond = pending-beyond n order cost id (omega arith) in
        ground (arith, ap cost e, beyond, contains-append n order (id ∷ [])))
  | inr there ↦ ground (arith, pending-visit n order cost id out, contains-append n order (id ∷ []))
]

-- Where nothing is held back, every number with a share is in the list.
pub pending-none :
    (n : ℕ) (order : List ℕ) (cost : ℕ → ℕ) (u : ℕ)
    → pending n order cost ≡ 0
    → u < n
    → contains u order ≡ false
    → cost u ≡ 0
pending-none zero order cost u h p out = absurd (omega arith)
pending-none (suc n) order cost u h p out = elim (Bool-cases (n == u)) [
  | inl here ↦
      (let e : n ≡ u = ground arith in
        let out_n = subst (λ k. contains k order ≡ false) (sym e) out in
        subst (λ k. cost k ≡ 0) e (ground arith))
  | inr there ↦ pending-none n order cost u (ground arith) (ground arith) out
]

pub pending-cong :
    (n : ℕ) (xs ys : List ℕ) (cost : ℕ → ℕ)
    → ((j : ℕ) → contains j xs ≡ contains j ys)
    → pending n xs cost ≡ pending n ys cost
pending-cong zero xs ys cost same = refl
pending-cong (suc n) xs ys cost same = rw (same n, pending-cong n xs ys cost same) refl

pub distinct-append :
    (x : ℕ) (xs : List ℕ) → distinct (xs ++ x ∷ []) ≡ (not (contains x xs) && distinct xs)
distinct-append x [] = refl
distinct-append x (y ∷ xs) = ground (arith, distinct-append x xs, contains-append y xs (x ∷ []))

all_pending : (n : ℕ) → pending n [] (λ u. 1) ≡ n
all_pending zero = refl
all_pending (suc n) = omega (arith, all_pending n)

-- Numbers below `n` without a repetition, and those that are missing, are `n` numbers.
pub length-distinct :
    (n : ℕ) (xs : List ℕ)
    → distinct xs ≡ true
    → ((j : ℕ) → contains j xs ≡ true → j < n)
    → length xs + pending n xs (λ u. 1) ≡ n
length-distinct n [] once inside = omega (arith, all_pending n)
length-distinct n (x ∷ xs) once inside =
    let rest = length-distinct n xs (ground arith) (λ j h. inside j (ground arith)) in
    let share = pending-visit n xs (λ u. 1) x (ground arith) (inside x (ground arith)) in
    let same =
      pending-cong n (xs ++ x ∷ []) (x ∷ xs) (λ u. 1)
        (λ j. contains-append j xs (x ∷ []) ∙ ground arith) in
    omega (arith, rest, share, same)
