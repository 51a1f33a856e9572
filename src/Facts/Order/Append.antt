-- ===== src/Facts/Order/Append.antt =====
-- An order in which operands come first, with one more signal at its end.
use rtlzz.Base.{
  ℕ, ◌≡◌, refl, List, [], ◌∷◌, ◌++◌, Bool, true, false, ◌||◌, Option, none, some, arith,
}
use rtlzz.Ir.{Operation, Signal, find_signal}
use rtlzz.Facts.Analysis.Steps.{contains, distinct}
use rtlzz.Facts.Order.Pending.{contains-append}
use rtlzz.Facts.Analysis.Total.{driver_of, next_before, operands_first}

next_before-rest :
    (before : List ℕ) (driver : Option (Option Operation)) (rest : Bool)
    → next_before before driver rest ≡ true
    → rest ≡ true
next_before-rest before none rest h = cc
next_before-rest before (some d) rest h = ground arith

next_before-other :
    (before : List ℕ) (driver : Option (Option Operation)) (rest other : Bool)
    → next_before before driver rest ≡ true
    → other ≡ true
    → next_before before driver other ≡ true
next_before-other before none rest other h k = cc
next_before-other before (some d) rest other h k = ground arith

-- Every operand of the signal's driver is in any list that holds these ids.
abbrev pub IsReadyAfter : List Signal → ℕ → (ℕ → Bool) → Type 0
IsReadyAfter signals id holds =
    (before : List ℕ)
    → ((u : ℕ) → holds u ≡ true → contains u before ≡ true)
    → next_before before (driver_of (find_signal signals id)) true ≡ true

pub operands_first-append :
    (signals : List Signal) (order before : List ℕ) (id : ℕ)
    → operands_first signals before order ≡ true
    → IsReadyAfter signals id (λ u. contains u before || contains u order)
    → operands_first signals before (order ++ id ∷ []) ≡ true
operands_first-append signals [] before id h ready = ready before (λ u p. ground arith)
operands_first-append signals (x ∷ order) before id h ready =
    let driver = driver_of (find_signal signals x) in
    let rest = operands_first signals (x ∷ before) order in
    next_before-other before driver rest (operands_first signals (x ∷ before) (order ++ id ∷ [])) h
      (operands_first-append signals order (x ∷ before) id (next_before-rest before driver rest h)
        (λ b p. ready b (λ u q. p u (ground arith))))

-- What stands behind a number in a list without repetitions is not before it.
pub contains-before :
    (x : ℕ) (xs ys : List ℕ) → distinct (xs ++ x ∷ ys) ≡ true → contains x xs ≡ false
contains-before x [] ys h = refl
contains-before x (y ∷ xs) ys h =
    ground (arith, contains-before x xs ys, contains-append y xs (x ∷ ys))
