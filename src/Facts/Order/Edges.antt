-- ===== src/Facts/Order/Edges.antt =====
-- The graph that is built: the number of operands that a signal waits for is how often it stands
-- among the users, and every operand that names a signal is there.
use rtlzz.Base.{
  ℕ, zero, suc, ◌+◌, ◌≤◌, ◌<◌, ◌≡◌, refl, ap, ◌∙◌, List, [], ◌∷◌, ◌++◌, true, ◌||◌, some,
  if◌then◌else◌, ◌==◌, leb, ltb, get_or, set, get_or-set, length, length-set, arith, Bool-cases,
  inl, inr,
}
use rtlzz.Ir.{Signal, find_signal}
use rtlzz.Facts.Order.{Graph, add_user, is_missing}
use rtlzz.Facts.Order.Pending.{count, uses, pending}

pending-add :
    (n : ℕ) (cost more : ℕ → ℕ) (node d : ℕ)
    → node < n
    → ((u : ℕ) → more u ≡ (if node == u then cost u + d else cost u))
    → pending n [] more ≡ pending n [] cost + d
pending-add zero cost more node d h e = absurd (omega arith)
pending-add (suc n) cost more node d h e = elim (Bool-cases (node == n)) [
  | inl here ↦ ground (arith, e n, pending-same n cost more node d (ground arith) e)
  | inr there ↦ ground (arith, e n, pending-add n cost more node d (ground arith) e)
]
  where
    pending-same :
        (n : ℕ) (cost more : ℕ → ℕ) (node d : ℕ)
        → n ≤ node
        → ((u : ℕ) → more u ≡ (if node == u then cost u + d else cost u))
        → pending n [] more ≡ pending n [] cost
    pending-same zero cost more node d h e = refl
    pending-same (suc n) cost more node d h e = ground (arith, e n, pending-same n cost more node d)

pub pending-empty : (n : ℕ) (cost : ℕ → ℕ) → ((u : ℕ) → cost u ≡ 0) → pending n [] cost ≡ 0
pending-empty zero cost e = refl
pending-empty (suc n) cost e = omega (arith, e n, pending-empty n cost e)

count-append :
    (j id : ℕ) (xs : List ℕ) → count j (xs ++ id ∷ []) ≡ count j xs + (if id == j then 1 else 0)
count-append j id [] = ground arith
count-append j id (x ∷ xs) = omega (arith, count-append j id xs)

module _ (n : ℕ) where
  pub record IsGraph (g : Graph) : Type 0 where
    pub users_size : length g.users ≡ n
    pub degree_size : length g.indegree ≡ n
    pub held : (j : ℕ) → get_or g.indegree j 0 ≡ pending n [] (uses g.users j)

  module _ (signals : List Signal) (size : length signals ≡ n) where
    -- What a user adds: one more user of the operand, and one more operand to wait for.
    pub record IsAdded (id node : ℕ) (g h : Graph) : Type 0 where
      pub inside : node < n
      new_users : h.users ≡ set g.users node (get_or g.users node [] ++ id ∷ [])
      new_degree : h.indegree ≡ set g.indegree id (get_or g.indegree id 0 + 1)

    pub add_user-IsAdded :
        (id node : ℕ) (g h : Graph) → add_user signals id node g ≡ some h → IsAdded id node g h
    unfolding add_user
    add_user-IsAdded id node g h e =
        elim (Bool-cases (leb (length signals) node || is_missing (find_signal signals node))) [
          | inl bad ↦ absurd (let k = rw bad at e in cc)
          | inr good ↦
              (let k = rw good at e in
                record { inside = ground (arith, size); new_users = cc; new_degree = cc })
        ]

    pub uses-add :
        (id node : ℕ) (g h : Graph)
        → IsGraph g
        → IsAdded id node g h
        → (j u : ℕ)
        → uses h.users j u
          ≡ (if node == u then uses g.users j u + (if id == j then 1 else 0) else uses g.users j u)
    uses-add id node g h graph added j u =
        ap (λ us. uses us j u) added.new_users
        ∙ ap (count j) (get_or-set g.users node u (get_or g.users node [] ++ id ∷ []) [])
        ∙ elim (Bool-cases (node == u)) [
          | inl here ↦
              (let e : node ≡ u = ground arith in
                let inside : ltb node (length g.users) ≡ true =
                  ground (arith, added.inside, graph.users_size) in
                rw (here, inside) (rw (← e) (count-append j id (get_or g.users node []))))
          | inr there ↦ rw there refl
        ]

    pub IsAdded-IsGraph :
        (id node : ℕ) (g h : Graph) → id < n → IsGraph g → IsAdded id node g h → IsGraph h
    IsAdded-IsGraph id node g h inside graph added = record {
      users_size =
          ap length added.new_users
          ∙ length-set g.users node (get_or g.users node [] ++ id ∷ [])
          ∙ graph.users_size;
      degree_size =
          ap length added.new_degree
          ∙ length-set g.indegree id (get_or g.indegree id 0 + 1)
          ∙ graph.degree_size;
      held = λ j.
          ap (λ xs. get_or xs j 0) added.new_degree
          ∙ get_or-set g.indegree id j (get_or g.indegree id 0 + 1) 0
          ∙ elim (Bool-cases (id == j)) [
            | inl here ↦
                (let e : id ≡ j = ground arith in
                  ground (
                    arith,
                    ap (λ k. get_or g.indegree k 0) e,
                    graph.held j,
                    graph.degree_size,
                    more j,
                    inside,
                  ))
            | inr there ↦ ground (arith, graph.held j, more j)
          ];
    }
      where
        more :
            (j : ℕ)
            → pending n [] (uses h.users j)
              ≡ pending n [] (uses g.users j) + (if id == j then 1 else 0)
        more j =
            pending-add n (uses g.users j) (uses h.users j) node (if id == j then 1 else 0)
              added.inside (uses-add id node g h graph added j)
