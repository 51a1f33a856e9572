-- ===== src/Facts/Joins/Cases.antt =====
-- The facts of a case are true of the value that it takes.
use rtlzz.Base.{ℕ, ◌%◌, ◌^◌, ◌≡◌, List, length}
use rtlzz.Ir.{ValueFacts}
use rtlzz.Facts.Sound.{Describes}
use rtlzz.Facts.Joins.{facts_case, possible_values}
use rtlzz.Facts.Joins.Possible.{
  case_value, DescribeAll, possible_values-IsSound, possible_values-DescribesOne,
}
use rtlzz.Facts.Joins.Merge.{merge_possible-Describes}

-- The facts of a case with an odd number of operands, from facts that are true of each condition, each
-- value and the default, are true of the value that the case takes, modulo two to the result width:
-- that of the first condition that is not 0, else the default.
pub facts_case-Describes :
    (w : ℕ) (fs : List ValueFacts) (xs : List ℕ)
    → length fs % 2 ≡ 1
    → DescribeAll fs xs
    → Describes (facts_case w fs) (case_value xs % 2 ^ w)
unfolding facts_case
facts_case-Describes w fs xs odd h =
    merge_possible-Describes w (possible_values fs) (case_value xs)
      (possible_values-IsSound fs xs h) (possible_values-DescribesOne fs xs odd h)
