-- ===== src/Debug/Bounded.antt =====
-- The lists of debug metadata stay bounded and free of repetitions.
use Prim.Native.String.{String}
use rtlzz.Base.{
  ℕ, ◌≤◌, ◌<◌, ◌≡◌, refl, List, [], ◌∷◌, ◌++◌, Bool, true, false, not, ◌||◌, ◌⊎◌, Option, none,
  some, leb, length, length-append, arith, Bool-cases, inl, inr, if◌then◌else◌,
}
use rtlzz.Limbs.Value.{All}
use rtlzz.Debug.{
  DebugLoc, DebugInfo, same_text, is_empty, valid, same_debug_loc, has_same, add_unique_loc,
  add_legacy_loc, add_primary_debug_loc, add_related_debug_loc, set_decl_debug_loc, add_each,
  add_debug_message, message_stack, add_decl, has_valid, legacy_only, add_debug_info_locs,
  add_debug_info_as_related,
}

module _ {A : Type 0} (same : A → A → Bool) where
  -- No entry is the same as a later one.
  abbrev pub IsUnique : List A → Type 0
  IsUnique [] = Unit
  IsUnique (x ∷ xs) = All (λ y. same x y ≡ false) xs × IsUnique xs

  All-append : (P : A → Type 0) (xs : List A) (y : A) → All P xs → P y → All P (xs ++ (y ∷ []))
  All-append P [] y h p = (p, tt)
  All-append P (x ∷ xs) y h p = (h.0, All-append P xs y h.1 p)

  append-IsUnique :
      (xs : List A) (y : A) → IsUnique xs → has_same same xs y ≡ false → IsUnique (xs ++ (y ∷ []))
  unfolding has_same
  append-IsUnique [] y h e = (tt, tt)
  append-IsUnique (x ∷ xs) y h e = (
    All-append (λ z. same x z ≡ false) xs y h.0 (ground arith),
    append-IsUnique xs y h.1 (ground arith),
  )

-- At most `limit` entries, none repeated.
pub record IsBoundedList {A : Type 0} (same : A → A → Bool) (limit : ℕ) (xs : List A) : Type 0 where
  pub short : length xs ≤ limit
  pub unique : IsUnique same xs

append-IsBoundedList :
    {A : Type 0} (same : A → A → Bool) (limit : ℕ) (xs : List A) (x : A)
    → IsBoundedList same limit xs
    → length xs < limit
    → has_same same xs x ≡ false
    → IsBoundedList same limit (xs ++ (x ∷ []))
append-IsBoundedList same limit xs x h room new = record {
  short = omega (arith, length-append xs (x ∷ []));
  unique = append-IsUnique same xs x h.unique new;
}

add_unique_loc-cases :
    (limit : ℕ) (xs : List DebugLoc) (x : DebugLoc)
    → IsBoundedList same_debug_loc limit xs
    → (add_unique_loc xs x limit ≡ none)
      ⊎ ((more : List DebugLoc) × (add_unique_loc xs x limit ≡ some more)
          × IsBoundedList same_debug_loc limit more)
unfolding add_unique_loc
add_unique_loc-cases limit xs x h = elim (Bool-cases (not (valid x) || leb limit (length xs))) [
  | inl refused ↦ inl (rw refused refl)
  | inr room ↦ elim (Bool-cases (has_same same_debug_loc xs x)) [
    | inl known ↦ inl (rw (room, known) refl)
    | inr new ↦ inr (
      xs ++ (x ∷ []),
      rw (room, new) refl,
      append-IsBoundedList same_debug_loc limit xs x h (ground arith) new,
    )
  ]
]

-- The lists of debug metadata are within their bounds, with no entry twice.
pub record IsBounded (debug : DebugInfo) : Type 0 where
  pub primary : IsBoundedList same_debug_loc 4 debug.primary_locs
  pub related : IsBoundedList same_debug_loc 12 debug.related_locs
  pub flattened : IsBoundedList same_debug_loc 32 debug.source_locs
  pub texts : IsBoundedList same_text 64 debug.messages

add_legacy_loc-IsBounded :
    (debug : DebugInfo) (loc : DebugLoc) → IsBounded debug → IsBounded (add_legacy_loc debug loc)
unfolding add_legacy_loc
add_legacy_loc-IsBounded debug loc h =
    elim (add_unique_loc-cases 32 debug.source_locs loc h.flattened) [
      | inl same ↦ simp same h
      | inr grown ↦ simp grown.1 (record {
        primary = h.primary;
        related = h.related;
        flattened = grown.2;
        texts = h.texts;
      })
    ]

add_primary_debug_loc-IsBounded :
    (debug : DebugInfo) (loc : DebugLoc)
    → IsBounded debug
    → IsBounded (add_primary_debug_loc debug loc)
unfolding add_primary_debug_loc
add_primary_debug_loc-IsBounded debug loc h =
    elim (add_unique_loc-cases 4 debug.primary_locs loc h.primary) [
      | inl same ↦ simp same h
      | inr grown ↦ simp grown.1 (
          add_legacy_loc-IsBounded (record debug { primary_locs = grown.0 }) loc
            (record {
              primary = grown.2;
              related = h.related;
              flattened = h.flattened;
              texts = h.texts;
            }))
    ]

add_related_debug_loc-IsBounded :
    (debug : DebugInfo) (loc : DebugLoc)
    → IsBounded debug
    → IsBounded (add_related_debug_loc debug loc)
unfolding add_related_debug_loc
add_related_debug_loc-IsBounded debug loc h =
    elim (add_unique_loc-cases 12 debug.related_locs loc h.related) [
      | inl same ↦ simp same h
      | inr grown ↦ simp grown.1 (
          add_legacy_loc-IsBounded (record debug { related_locs = grown.0 }) loc
            (record {
              primary = h.primary;
              related = grown.2;
              flattened = h.flattened;
              texts = h.texts;
            }))
    ]

set_decl_debug_loc-IsBounded :
    (debug : DebugInfo) (loc : DebugLoc)
    → IsBounded debug
    → IsBounded (set_decl_debug_loc debug loc)
unfolding set_decl_debug_loc
set_decl_debug_loc-IsBounded debug loc h = elim (Bool-cases (valid loc)) [
  | inr invalid ↦ simp invalid h
  | inl fine ↦ simp fine (elim (Bool-cases (has_valid debug.decl_loc)) [
    | inl kept ↦ simp kept (add_legacy_loc-IsBounded debug loc h)
    | inr set ↦ simp set (
        add_legacy_loc-IsBounded (record debug { decl_loc = some loc }) loc
          (record {
            primary = h.primary;
            related = h.related;
            flattened = h.flattened;
            texts = h.texts;
          }))
  ])
]

add_debug_message-IsBounded :
    (debug : DebugInfo) (message : String)
    → IsBounded debug
    → IsBounded (add_debug_message debug message)
unfolding add_debug_message
add_debug_message-IsBounded debug message h =
    elim (Bool-cases (is_empty message || leb 64 (length debug.messages))) [
      | inl refused ↦ simp refused h
      | inr room ↦ simp room (elim (Bool-cases (has_same same_text debug.messages message)) [
        | inl known ↦ simp known h
        | inr new ↦ simp new (record {
          primary = h.primary;
          related = h.related;
          flattened = h.flattened;
          texts =
              append-IsBoundedList same_text 64 debug.messages message h.texts (ground arith) new;
        })
      ])
    ]

add_each-IsBounded :
    {A : Type 0} (add : DebugInfo → A → DebugInfo)
    → ((debug : DebugInfo) (x : A) → IsBounded debug → IsBounded (add debug x))
    → (xs : List A) (debug : DebugInfo) → IsBounded debug
    → IsBounded (add_each add debug xs)
unfolding add_each
add_each-IsBounded add keeps [] debug h = h
add_each-IsBounded add keeps (x ∷ xs) debug h =
    add_each-IsBounded add keeps xs (add debug x) (keeps debug x h)

add_decl-IsBounded :
    (add : DebugInfo → DebugLoc → DebugInfo)
    → ((debug : DebugInfo) (x : DebugLoc) → IsBounded debug → IsBounded (add debug x))
    → (decl : Option DebugLoc) (debug : DebugInfo) → IsBounded debug
    → IsBounded (add_decl add debug decl)
add_decl-IsBounded add keeps none debug h = h
add_decl-IsBounded add keeps (some loc) debug h = keeps debug loc h

if-IsBounded :
    (b : Bool) (d e : DebugInfo) → IsBounded d → IsBounded e → IsBounded (if b then d else e)
if-IsBounded true d e h k = h
if-IsBounded false d e h k = k

-- Taking over all debug metadata of another object keeps the lists within their bounds and free of
-- repetitions, whatever the other object holds.
pub add_debug_info_locs-IsBounded :
    (debug other : DebugInfo) → IsBounded debug → IsBounded (add_debug_info_locs debug other)
unfolding add_debug_info_locs
add_debug_info_locs-IsBounded debug other h =
    let p = add_each-IsBounded add_primary_debug_loc add_primary_debug_loc-IsBounded in
    let r = add_each-IsBounded add_related_debug_loc add_related_debug_loc-IsBounded in
    let m = add_each-IsBounded add_debug_message add_debug_message-IsBounded in
    let declared =
      add_decl-IsBounded set_decl_debug_loc set_decl_debug_loc-IsBounded other.decl_loc debug h in
    let located = r other.related_locs _ (p other.primary_locs _ declared) in
    m (message_stack other) _
      (if-IsBounded (legacy_only other) _ _ (p other.source_locs _ located) located)

-- Taking over the debug metadata of another object as related locations keeps the lists within their
-- bounds and free of repetitions, whatever the other object holds.
pub add_debug_info_as_related-IsBounded :
    (debug other : DebugInfo) → IsBounded debug → IsBounded (add_debug_info_as_related debug other)
unfolding add_debug_info_as_related
add_debug_info_as_related-IsBounded debug other h =
    let r = add_each-IsBounded add_related_debug_loc add_related_debug_loc-IsBounded in
    let m = add_each-IsBounded add_debug_message add_debug_message-IsBounded in
    let declared =
      add_decl-IsBounded add_related_debug_loc add_related_debug_loc-IsBounded other.decl_loc debug
        h in
    let located = r other.related_locs _ (r other.primary_locs _ declared) in
    m (message_stack other) _
      (if-IsBounded (legacy_only other) _ _ (r other.source_locs _ located) located)
