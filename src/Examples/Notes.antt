-- ===== src/Examples/Notes.antt =====
-- Instances of the theorems about debug metadata.
use rtlzz.Base.{[], ◌∷◌, some, none, arith}
use rtlzz.Debug.{DebugLoc, DebugInfo, DebugOrigin, add_debug_info_locs, add_debug_info_as_related}
use rtlzz.Debug.Bounded.{IsBounded}
use rtlzz.Debug.Bounded

abbrev here : DebugLoc
here = record { file = "a.cpp"; line = 3; column = 5; end_line = 3; end_column = 9 }

abbrev there : DebugLoc
there = record { file = "a.cpp"; line = 7; column = 1; end_line = 7; end_column = 4 }

abbrev note : DebugInfo
note = record {
  origin = DebugOrigin.source;
  decl_loc = none;
  primary_locs = here ∷ [];
  related_locs = [];
  messages = "folded" ∷ [];
  source_locs = here ∷ [];
  reason = "folded";
  derived_nodes = [];
  derived_names = [];
}

abbrev other_note : DebugInfo
other_note = record {
  origin = DebugOrigin.source;
  decl_loc = some there;
  primary_locs = here ∷ there ∷ [];
  related_locs = here ∷ [];
  messages = [];
  source_locs = here ∷ there ∷ [];
  reason = "merged";
  derived_nodes = [];
  derived_names = [];
}

note-IsBounded : IsBounded note
note-IsBounded = record {
  primary = record { short = omega arith; unique = (tt, tt) };
  related = record { short = omega arith; unique = tt };
  flattened = record { short = omega arith; unique = (tt, tt) };
  texts = record { short = omega arith; unique = (tt, tt) };
}

add_debug_info_locs-IsBounded_example : IsBounded (add_debug_info_locs note other_note)
add_debug_info_locs-IsBounded_example =
    Bounded.add_debug_info_locs-IsBounded note other_note note-IsBounded

add_debug_info_as_related-IsBounded_example : IsBounded (add_debug_info_as_related note other_note)
add_debug_info_as_related-IsBounded_example =
    Bounded.add_debug_info_as_related-IsBounded note other_note note-IsBounded
