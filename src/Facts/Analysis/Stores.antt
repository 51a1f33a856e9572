-- ===== src/Facts/Analysis/Stores.antt =====
-- Looking up signals and flags after a write.
use rtlzz.Base.{
  ℕ, zero, suc, ◌<◌, ◌≡◌, refl, ap, ◌∙◌, List, [], ◌∷◌, Bool, true, false, Option, none, some,
  if◌then◌else◌, ◌⊎◌, ◌==◌, replicate, get_elem?, get_or, set, length, arith, Bool-cases, inl, inr,
}
use rtlzz.Ir.{Signal, find_signal, with_id}

module _ {A : Type 0} where
  get_elem?-set :
      (xs : List A) (i j : ℕ) (x v : A)
      → get_elem? xs i ≡ some x
      → get_elem? (set xs i v) j ≡ (if i == j then some v else get_elem? xs j)
  get_elem?-set [] i j x v h = cc
  get_elem?-set (y ∷ xs) zero zero x v h = ground arith
  get_elem?-set (y ∷ xs) zero (suc j) x v h = ground arith
  get_elem?-set (y ∷ xs) (suc i) zero x v h = ground arith
  get_elem?-set (y ∷ xs) (suc i) (suc j) x v h = get_elem?-set xs i j x v h ∙ ground arith

pub with_id-some :
    (id : ℕ) (o : Option Signal) (s : Signal) → with_id id o ≡ some s → (o ≡ some s) × (s.id ≡ id)
with_id-some id none s h = (cc, cc)
with_id-some id (some t) s h = (ground arith, ground arith)

pub find_signal-id :
    (signals : List Signal) (id : ℕ) (s : Signal) → find_signal signals id ≡ some s → s.id ≡ id
unfolding find_signal
find_signal-id signals id s h = (with_id-some id (get_elem? signals id) s h).1

-- A signal written at its own place is found there, and the others as before.
pub find_signal-set :
    (signals : List Signal) (id j : ℕ) (s t : Signal)
    → find_signal signals id ≡ some s
    → t.id ≡ id
    → find_signal (set signals id t) j ≡ (if id == j then some t else find_signal signals j)
unfolding find_signal
find_signal-set signals id j s t h e =
    rw (get_elem?-set signals id j s t (with_id-some id (get_elem? signals id) s h).0)
      (elim (Bool-cases (id == j)) [
        | inl here ↦ rw here (ground arith)
        | inr there ↦ rw there refl
      ])

-- A flag that is set stays set, and only that one is new.
pub get_or-mark :
    (flags : List Bool) (i j : ℕ)
    → get_or (set flags i true) j false ≡ true
    → (i ≡ j) ⊎ (get_or flags j false ≡ true)
get_or-mark [] i j h = cc
get_or-mark (b ∷ flags) zero zero h = inl refl
get_or-mark (b ∷ flags) zero (suc j) h = inr h
get_or-mark (b ∷ flags) (suc i) zero h = inr h
get_or-mark (b ∷ flags) (suc i) (suc j) h = elim (get_or-mark flags i j h) [
  | inl same ↦ inl (ap suc same)
  | inr old ↦ inr old
]

pub get_or-mark_self :
    (flags : List Bool) (i : ℕ) → i < length flags → get_or (set flags i true) i false ≡ true
get_or-mark_self [] i h = absurd (omega arith)
get_or-mark_self (b ∷ flags) zero h = refl
get_or-mark_self (b ∷ flags) (suc i) h = get_or-mark_self flags i (omega arith)

pub get_or-mark_other :
    (flags : List Bool) (i j : ℕ)
    → get_or flags j false ≡ true
    → get_or (set flags i true) j false ≡ true
get_or-mark_other [] i j h = h
get_or-mark_other (b ∷ flags) zero zero h = refl
get_or-mark_other (b ∷ flags) zero (suc j) h = h
get_or-mark_other (b ∷ flags) (suc i) zero h = h
get_or-mark_other (b ∷ flags) (suc i) (suc j) h = get_or-mark_other flags i j h

pub get_or-all_false : (n j : ℕ) → get_or (replicate n false) j false ≡ false
get_or-all_false zero j = refl
get_or-all_false (suc n) zero = refl
get_or-all_false (suc n) (suc j) = get_or-all_false n j
