-- ===== src/Passes/Dead/Kept.antt =====
-- Compaction moves every live signal to its place among the live ones.
use rtlzz.Base.{
  ℕ, zero, suc, ◌+◌, ◌≤◌, ◌<◌, ◌≡◌, refl, sym, subst, ◌∙◌, List, [], ◌∷◌, ◌++◌, true, some,
  if◌then◌else◌, get_elem?, get_or, get_or-set, length, length-set, length-append, arith,
  Bool-cases, inl, inr,
}
use rtlzz.Ir.{Signal}
use rtlzz.Facts.Analysis.Steps.{contains}
use rtlzz.Facts.Order.Sound.{dense_from}
use rtlzz.Passes.Constant.{invalid_node_id}
use rtlzz.Passes.Dead.{Compacted, keep_signal, compact_signals}

-- How many of the `n` ids from `k` on are live.
abbrev pub live_between : List ℕ → ℕ → ℕ → ℕ
live_between live k zero = 0
live_between live k (suc n) = (if contains k live then 1 else 0) + live_between live (suc k) n

get_elem?-first :
    {A : Type 0} (xs ys : List A) (i : ℕ) → i < length xs → get_elem? (xs ++ ys) i ≡ get_elem? xs i
get_elem?-first [] ys i h = absurd (omega arith)
get_elem?-first (x ∷ xs) ys zero h = refl
get_elem?-first (x ∷ xs) ys (suc i) h = get_elem?-first xs ys i (omega arith)

get_elem?-last : {A : Type 0} (xs : List A) (x : A) → get_elem? (xs ++ x ∷ []) (length xs) ≡ some x
get_elem?-last [] x = refl
get_elem?-last (y ∷ xs) x = get_elem?-last xs x

module _ (live : List ℕ) where
  -- One signal keeps what is before it.
  pub record IsFrame (k : ℕ) (c d : Compacted) : Type 0 where
    pub remap_size : length d.remap ≡ length c.remap
    earlier : (i : ℕ) → i < k → get_or d.remap i invalid_node_id ≡ get_or c.remap i invalid_node_id
    longer : length c.kept ≤ length d.kept
    placed : (i : ℕ) → i < length c.kept → get_elem? d.kept i ≡ get_elem? c.kept i

  keep_signal-IsFrame :
      (s : Signal) (k : ℕ) (c : Compacted) → s.id ≡ k → IsFrame k c (keep_signal live s c)
  unfolding keep_signal
  keep_signal-IsFrame s k c e = elim (Bool-cases (contains s.id live)) [
    | inl kept ↦ rw kept (record {
      remap_size = length-set c.remap s.id (length c.kept);
      earlier =
          λ i h. get_or-set c.remap s.id i (length c.kept) invalid_node_id ∙ ground (arith, e);
      longer = omega (arith, length-append c.kept (record s { id = length c.kept } ∷ []));
      placed = λ i h. get_elem?-first c.kept (record s { id = length c.kept } ∷ []) i h;
    })
    | inr dropped ↦ rw dropped (record {
      remap_size = refl;
      earlier = λ i h. refl;
      longer = omega arith;
      placed = λ i h. refl;
    })
  ]

  IsFrame-trans : (k : ℕ) (c d e : Compacted) → IsFrame k c d → IsFrame (suc k) d e → IsFrame k c e
  IsFrame-trans k c d e p q = record {
    remap_size = q.remap_size ∙ p.remap_size;
    earlier = λ i h. q.earlier i (omega arith) ∙ p.earlier i h;
    longer = omega (arith, p.longer, q.longer);
    placed = λ i h. q.placed i (omega (arith, p.longer)) ∙ p.placed i h;
  }

  pub compact_signals-IsFrame :
      (signals : List Signal) (k : ℕ) (c : Compacted)
      → dense_from k signals ≡ true
      → IsFrame k c (compact_signals live signals c)
  unfolding compact_signals
  compact_signals-IsFrame [] k c dense = record {
    remap_size = refl;
    earlier = λ i h. refl;
    longer = omega arith;
    placed = λ i h. refl;
  }
  compact_signals-IsFrame (s ∷ signals) k c dense =
      IsFrame-trans k c (keep_signal live s c) (compact_signals live signals (keep_signal live s c))
        (keep_signal-IsFrame s k c (ground arith))
        (compact_signals-IsFrame signals (suc k) (keep_signal live s c) (ground arith))

  -- The signal `s` has gone to the place `r`.
  pub record IsMoved (id r : ℕ) (s : Signal) (c : Compacted) : Type 0 where
    pub mapped : get_or c.remap id invalid_node_id ≡ r
    pub moved : get_elem? c.kept r ≡ some (record s { id = r })

  keep_signal-length :
      (s : Signal) (c : Compacted)
      → length (keep_signal live s c).kept ≡ length c.kept + (if contains s.id live then 1 else 0)
  unfolding keep_signal
  keep_signal-length s c = elim (Bool-cases (contains s.id live)) [
    | inl kept ↦ rw kept (length-append c.kept (record s { id = length c.kept } ∷ []))
    | inr dropped ↦ rw dropped (omega arith)
  ]

  keep_signal-IsMoved :
      (s : Signal) (c : Compacted)
      → s.id < length c.remap
      → contains s.id live ≡ true
      → IsMoved s.id (length c.kept) s (keep_signal live s c)
  unfolding keep_signal
  keep_signal-IsMoved s c inside needed = rw needed (record {
    mapped = get_or-set c.remap s.id s.id (length c.kept) invalid_node_id ∙ ground (arith, inside);
    moved = get_elem?-last c.kept (record s { id = length c.kept });
  })

  IsMoved-later :
      (k id r : ℕ) (s : Signal) (c d : Compacted)
      → IsFrame k c d
      → id < k
      → r < length c.kept
      → IsMoved id r s c
      → IsMoved id r s d
  IsMoved-later k id r s c d frame inside small h = record {
    mapped = frame.earlier id inside ∙ h.mapped;
    moved = frame.placed r small ∙ h.moved;
  }

  pub compact_signals-IsMoved :
      (signals : List Signal) (k j id r : ℕ) (s : Signal) (c : Compacted)
      → dense_from k signals ≡ true
      → k + length signals ≤ length c.remap
      → get_elem? signals j ≡ some s
      → id ≡ k + j
      → r ≡ length c.kept + live_between live k j
      → contains id live ≡ true
      → IsMoved id r s (compact_signals live signals c)
  unfolding compact_signals
  compact_signals-IsMoved [] k j id r s c dense size at e place needed = cc
  compact_signals-IsMoved (t ∷ signals) k zero id r s c dense size at e place needed =
      let same : t ≡ s = cc in
      let next = keep_signal live t c in
      let here : t.id ≡ id = ground (arith, e) in
      let live_here = subst (λ i. contains i live ≡ true) (sym here) needed in
      let moved : IsMoved t.id (length c.kept) t next =
        keep_signal-IsMoved t c (ground (arith, e, size)) live_here in
      let spot : length c.kept ≡ r = omega (arith, place) in
      IsMoved-later (suc k) id r s next (compact_signals live signals next)
        (compact_signals-IsFrame signals (suc k) next (ground arith)) (omega (arith, e))
        (ground (arith, keep_signal-length t c, live_here, spot))
        (subst (λ i. IsMoved i r s next) here
          (subst (λ q. IsMoved t.id q s next) spot
            (subst (λ (u : Signal). IsMoved t.id (length c.kept) u next) same moved)))
  compact_signals-IsMoved (t ∷ signals) k (suc j) id r s c dense size at e place needed =
      let next = keep_signal live t c in
      let frame = keep_signal-IsFrame t k c (ground arith) in
      let own : t.id ≡ k = ground arith in
      let grown =
        subst (λ i. length next.kept ≡ length c.kept + (if contains i live then 1 else 0)) own
          (keep_signal-length t c) in
      compact_signals-IsMoved signals (suc k) j id r s next (ground arith)
        (omega (arith, frame.remap_size, size)) at (omega (arith, e)) (omega (arith, grown, place))
        needed
