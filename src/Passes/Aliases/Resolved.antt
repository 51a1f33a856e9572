-- ===== src/Passes/Aliases/Resolved.antt =====
-- Following aliases ends and keeps the number of an operand.
use rtlzz.Base.{
  ℕ, zero, suc, ◌+◌, ◌≤◌, ◌≡◌, refl, sym, ap, subst, ◌∙◌, List, [], ◌∷◌, Bool, true, false, Option,
  none, some, if◌then◌else◌, ◌==◌, length, arith, Bool-cases, Option-cases, inl, inr,
}
use rtlzz.Ir.{Operand, OperandKind}
use rtlzz.Facts.Analysis.Operands.{operand_number, number_by_kind}
use rtlzz.Facts.Analysis.Steps.{contains}
use rtlzz.Passes.Aliases.{
  Chain, find_alias, follow, follow_alias, follow_all, follow_by_kind, resolve_operand,
  signed_by_kind, with_signed_view,
}

-- The aliases whose ids have not been followed.
abbrev pub unseen : List (ℕ × Operand) → List ℕ → ℕ
unseen [] seen = 0
unseen ((key, o) ∷ aliases) seen = (if contains key seen then 0 else 1) + unseen aliases seen

unseen-more :
    (aliases : List (ℕ × Operand)) (seen : List ℕ) (id : ℕ)
    → unseen aliases (id ∷ seen) ≤ unseen aliases seen
unseen-more [] seen id = omega arith
unseen-more ((key, o) ∷ aliases) seen id = ground (arith, unseen-more aliases seen id)

unseen-follow :
    (aliases : List (ℕ × Operand)) (seen : List ℕ) (id : ℕ) (next : Operand)
    → find_alias aliases id ≡ some next
    → contains id seen ≡ false
    → suc (unseen aliases (id ∷ seen)) ≤ unseen aliases seen
unfolding find_alias
unseen-follow [] seen id next h new = cc
unseen-follow ((key, o) ∷ aliases) seen id next h new = elim (Bool-cases (key == id)) [
  | inl here ↦
      (let e : key ≡ id = ground arith in
        let fresh = subst (λ k. contains k seen ≡ false) (sym e) new in
        ground (arith, unseen-more aliases seen id))
  | inr there ↦ ground (arith, unseen-follow aliases seen id next)
]

unseen-none : (aliases : List (ℕ × Operand)) → unseen aliases [] ≡ length aliases
unseen-none [] = refl
unseen-none ((key, o) ∷ aliases) = omega (arith, unseen-none aliases)

module _ (aliases : List (ℕ × Operand)) where
  -- A link of the chain: an alias of an id that is new.
  record IsLink (c d : Chain) : Type 0 where
    symbol_kind : c.operand.kind ≡ OperandKind.symbol
    alias : find_alias aliases c.operand.node ≡ some d.operand
    new : contains c.operand.node c.seen ≡ false
    seen : d.seen ≡ c.operand.node ∷ c.seen

  follow_alias-IsLink :
      (o : Option Operand) (c d : Chain)
      → c.operand.kind ≡ OperandKind.symbol
      → find_alias aliases c.operand.node ≡ o
      → follow_alias o c ≡ some d
      → IsLink c d
  follow_alias-IsLink none c d k e h = cc
  follow_alias-IsLink (some next) c d k e h = elim (Bool-cases (contains c.operand.node c.seen)) [
    | inl again ↦ absurd (let m = rw again at h in cc)
    | inr new ↦
        (let m = rw new at h in record { symbol_kind = k; alias = cc; new = new; seen = cc })
  ]

  follow_by_kind-IsLink :
      (kind : OperandKind) (c d : Chain)
      → c.operand.kind ≡ kind
      → follow_by_kind kind aliases c ≡ some d
      → IsLink c d
  follow_by_kind-IsLink OperandKind.symbol c d k h =
      follow_alias-IsLink (find_alias aliases c.operand.node) c d k refl h
  follow_by_kind-IsLink OperandKind.literal c d k h = cc
  follow_by_kind-IsLink OperandKind.port c d k h = cc

  follow-IsLink : (c d : Chain) → follow aliases c ≡ some d → IsLink c d
  unfolding follow
  follow-IsLink c d h = follow_by_kind-IsLink c.operand.kind c d refl h

  -- The loop stops by itself.
  follow_all-ends :
      (fuel : ℕ) (c : Chain)
      → unseen aliases c.seen ≤ fuel
      → follow aliases (follow_all fuel aliases c) ≡ none
  unfolding follow_all
  follow_all-ends zero c enough = elim (Option-cases (follow aliases c)) [
    | inl stops ↦ stops
    | inr (d, e) ↦
        (let link = follow-IsLink c d e in
          absurd (
            omega (
              arith,
              enough,
              unseen-follow aliases c.seen c.operand.node d.operand link.alias link.new,
            )))
  ]
  follow_all-ends (suc fuel) c enough = elim (Option-cases (follow aliases c)) [
    | inl stops ↦ rw (stops, follow_all) stops
    | inr (d, e) ↦
        (let link = follow-IsLink c d e in
          let less = unseen-follow aliases c.seen c.operand.node d.operand link.alias link.new in
          let same = ap (unseen aliases) link.seen in
          rw (e, follow_all) (follow_all-ends fuel d (omega (arith, enough, less, same))))
  ]

  module _ (numbers : ℕ → ℕ) (ports : Operand → ℕ)
      (keeps : (id : ℕ) (o : Operand)
        → find_alias aliases id ≡ some o
        → operand_number numbers ports o ≡ numbers id) where
    follow_all-number :
        (fuel : ℕ) (c : Chain)
        → operand_number numbers ports (follow_all fuel aliases c).operand
          ≡ operand_number numbers ports c.operand
    unfolding follow_all
    follow_all-number zero c = refl
    follow_all-number (suc fuel) c = elim (Option-cases (follow aliases c)) [
      | inl stops ↦ rw (stops, follow_all) refl
      | inr (d, e) ↦
          (let link = follow-IsLink c d e in
            rw (e, follow_all)
              (follow_all-number fuel d
                ∙ keeps c.operand.node d.operand link.alias
                ∙ sym (ap (λ k. number_by_kind k numbers ports c.operand) link.symbol_kind)))
    ]

-- An operand before any link is followed.
abbrev pub start : Operand → Chain
start o = record { operand = o; use_signed_view = o.signed_view; seen = [] }

signed_by_kind-number :
    (numbers : ℕ → ℕ) (ports : Operand → ℕ) (kind : OperandKind) (o : Operand)
    → o.kind ≡ kind
    → ((p : Operand) (flag : Bool) → ports (record p { signed_view = flag }) ≡ ports p)
    → operand_number numbers ports (signed_by_kind kind o) ≡ operand_number numbers ports o
signed_by_kind-number numbers ports OperandKind.symbol o e blind =
    ap (λ k. number_by_kind k numbers ports (record o { signed_view = true })) e
    ∙ sym (ap (λ k. number_by_kind k numbers ports o) e)
signed_by_kind-number numbers ports OperandKind.literal o e blind =
    ap
      (λ k.
        number_by_kind k numbers ports
          (record o { signed_view = true; constant = record o.constant { signed_view = true } }))
      e
    ∙ sym (ap (λ k. number_by_kind k numbers ports o) e)
signed_by_kind-number numbers ports OperandKind.port o e blind =
    ap (λ k. number_by_kind k numbers ports (record o { signed_view = true })) e
    ∙ blind o true
    ∙ sym (ap (λ k. number_by_kind k numbers ports o) e)

-- Where every alias has the number of the signal that it stands for, and the number of a port does not
-- depend on the signed view, the operand that is resolved has the number of the one that is given.
pub resolve_operand-number :
    (aliases : List (ℕ × Operand)) (numbers : ℕ → ℕ) (ports : Operand → ℕ) (o : Operand)
    → ((id : ℕ) (p : Operand)
        → find_alias aliases id ≡ some p
        → operand_number numbers ports p ≡ numbers id)
    → ((p : Operand) (flag : Bool) → ports (record p { signed_view = flag }) ≡ ports p)
    → operand_number numbers ports (resolve_operand aliases o) ≡ operand_number numbers ports o
unfolding resolve_operand with_signed_view
resolve_operand-number aliases numbers ports o keeps blind =
    let c = follow_all (length aliases) aliases (start o) in
    let kept = follow_all-number aliases numbers ports keeps (length aliases) (start o) in
    elim (Bool-cases c.use_signed_view) [
      | inl signed ↦
          rw signed (signed_by_kind-number numbers ports c.operand.kind c.operand refl blind ∙ kept)
      | inr plain ↦ rw plain kept
    ]

-- Following the aliases of an operand stops by itself within as many rounds as there are aliases.
pub resolve_operand_ends :
    (aliases : List (ℕ × Operand)) (o : Operand)
    → follow aliases (follow_all (length aliases) aliases (start o)) ≡ none
resolve_operand_ends aliases o =
    follow_all-ends aliases (length aliases) (start o) (omega (arith, unseen-none aliases))
