-- ===== src/Debug.antt =====
-- The debug metadata of the IR: the helpers at the top of src/backend/beir.cpp, which keep bounded
-- lists of distinct source locations and messages. Lines and columns are never negative.
pub mod Bounded
use Prim.Native.String.{String, compare}
use rtlzz.Base.{
  ℕ, List, [], ◌∷◌, ◌++◌, Bool, true, false, not, ◌&&◌, ◌||◌, Option, none, some, Ordering, ltb,
  leb, ◌==◌, if◌then◌else◌, length,
}
use rtlzz.Ir.{Operand, OperandKind}

pub record DebugLoc : Type 0 where
  pub file : String
  pub line : ℕ
  pub column : ℕ
  pub end_line : ℕ
  pub end_column : ℕ

pub data DebugOrigin : Type 0 where
  source generated : DebugOrigin

abbrev pub debug_origin_text : DebugOrigin → String
debug_origin_text DebugOrigin.source = "source"
debug_origin_text DebugOrigin.generated = "generated"

pub record DebugInfo : Type 0 where
  pub origin : DebugOrigin
  pub decl_loc : Option DebugLoc
  pub primary_locs : List DebugLoc
  pub related_locs : List DebugLoc
  pub messages : List String
  pub source_locs : List DebugLoc
  pub reason : String
  pub derived_nodes : List ℕ
  pub derived_names : List String

abbrev pub same_text : String → String → Bool
same_text a b = elim (compare a b) [ Ordering.eq ↦ true | _ ↦ false ]

abbrev pub is_empty : String → Bool
is_empty a = same_text a ""

unfoldable pub valid : DebugLoc → Bool
valid loc =
    not (is_empty loc.file)
    || ltb 0 loc.line
    || ltb 0 loc.column
    || ltb 0 loc.end_line
    || ltb 0 loc.end_column

unfoldable pub same_debug_loc : DebugLoc → DebugLoc → Bool
same_debug_loc lhs rhs =
    same_text lhs.file rhs.file
    && lhs.line == rhs.line
    && lhs.column == rhs.column
    && lhs.end_line == rhs.end_line
    && lhs.end_column == rhs.end_column

-- `for (existing : xs) if (same(existing, x)) return ...`
unfoldable pub has_same {ℓ} : {A : Type ℓ} → (A → A → Bool) → List A → A → Bool
has_same same [] x = false
has_same same (y ∷ ys) x = same y x || has_same same ys x

-- `none` where it returns false and leaves the list as it is.
unfoldable pub add_unique_loc : List DebugLoc → DebugLoc → ℕ → Option (List DebugLoc)
add_unique_loc locs loc limit =
    if not (valid loc) || leb limit (length locs)
    then none
    else if has_same same_debug_loc locs loc
    then none
    else some (locs ++ (loc ∷ []))

abbrev pub or_else : Option (List DebugLoc) → List DebugLoc → List DebugLoc
or_else none locs = locs
or_else (some more) locs = more

unfoldable pub add_legacy_loc : DebugInfo → DebugLoc → DebugInfo
add_legacy_loc debug loc = record debug {
  source_locs = or_else (add_unique_loc debug.source_locs loc 32) debug.source_locs;
}

-- `if (addUniqueLoc(debug.primary_locs, ...)) addLegacyLoc(debug, loc);`
abbrev pub with_primary : Option (List DebugLoc) → DebugInfo → DebugLoc → DebugInfo
with_primary none debug loc = debug
with_primary (some more) debug loc = add_legacy_loc (record debug { primary_locs = more }) loc

unfoldable pub add_primary_debug_loc : DebugInfo → DebugLoc → DebugInfo
add_primary_debug_loc debug loc = with_primary (add_unique_loc debug.primary_locs loc 4) debug loc

abbrev pub with_related : Option (List DebugLoc) → DebugInfo → DebugLoc → DebugInfo
with_related none debug loc = debug
with_related (some more) debug loc = add_legacy_loc (record debug { related_locs = more }) loc

unfoldable pub add_related_debug_loc : DebugInfo → DebugLoc → DebugInfo
add_related_debug_loc debug loc = with_related (add_unique_loc debug.related_locs loc 12) debug loc

abbrev pub has_valid : Option DebugLoc → Bool
has_valid none = false
has_valid (some loc) = valid loc

unfoldable pub set_decl_debug_loc : DebugInfo → DebugLoc → DebugInfo
set_decl_debug_loc debug loc =
    if not (valid loc)
    then debug
    else add_legacy_loc
        (if not (has_valid debug.decl_loc) then record debug { decl_loc = some loc } else debug) loc

-- `for (loc : locs) add(debug, loc);`
unfoldable pub add_each {ℓ} :
    {A : Type ℓ} → (DebugInfo → A → DebugInfo) → DebugInfo → List A → DebugInfo
add_each add debug [] = debug
add_each add debug (x ∷ xs) = add_each add (add debug x) xs

unfoldable pub add_debug_message : DebugInfo → String → DebugInfo
add_debug_message debug message =
    if is_empty message || leb 64 (length debug.messages)
    then debug
    else if has_same same_text debug.messages message
    then debug
    else record debug {
      messages = debug.messages ++ (message ∷ []);
      reason = if is_empty debug.reason then message else debug.reason;
    }

unfoldable pub message_stack : DebugInfo → List String
message_stack debug =
    if is_empty debug.reason
    then debug.messages
    else if has_same same_text debug.messages debug.reason
    then debug.messages
    else debug.messages ++ (debug.reason ∷ [])

abbrev pub no_locs : List DebugLoc → Bool
no_locs [] = true
no_locs (x ∷ xs) = false

abbrev pub no_decl : Option DebugLoc → Bool
no_decl none = true
no_decl (some loc) = false

-- Whether only the flattened view has locations.
abbrev pub legacy_only : DebugInfo → Bool
legacy_only other =
    no_locs other.primary_locs && no_locs other.related_locs && no_decl other.decl_loc

abbrev pub add_decl : (DebugInfo → DebugLoc → DebugInfo) → DebugInfo → Option DebugLoc → DebugInfo
add_decl add debug none = debug
add_decl add debug (some loc) = add debug loc

unfoldable pub add_debug_info_locs : DebugInfo → DebugInfo → DebugInfo
add_debug_info_locs debug other =
    let declared = add_decl set_decl_debug_loc debug other.decl_loc in
    let primary = add_each add_primary_debug_loc declared other.primary_locs in
    let related = add_each add_related_debug_loc primary other.related_locs in
    let located =
      if legacy_only other
      then add_each add_primary_debug_loc related other.source_locs
      else related in
    add_each add_debug_message located (message_stack other)

unfoldable pub add_debug_info_as_related : DebugInfo → DebugInfo → DebugInfo
add_debug_info_as_related debug other =
    let declared = add_decl add_related_debug_loc debug other.decl_loc in
    let primary = add_each add_related_debug_loc declared other.primary_locs in
    let related = add_each add_related_debug_loc primary other.related_locs in
    let located =
      if legacy_only other
      then add_each add_related_debug_loc related other.source_locs
      else related in
    add_each add_debug_message located (message_stack other)
