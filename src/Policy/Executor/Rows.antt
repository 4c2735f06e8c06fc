-- ===== src/Policy/Executor/Rows.antt =====
-- The row of an execution after MarkResult (internal/store/postgres/policy_store.go).
use oneops.Base.{
  ◌≡◌, refl, false, Option, none, some, List, [], ◌∷◌, Text, text_eq, text_eq_iff, find, map, arith,
  if◌then◌else◌,
}
use oneops.Policy.Types.{Execution}
use oneops.Policy.Tables.{
  PolicyTables, Mark, get_execution, is_execution, mark_execution, marked_execution,
}

abbrev pub changed : Text → (Execution → Execution) → Text → Option Execution → Option Execution
changed x g y none = none
changed x g y (some d) = some (if text_eq x y then g d else d)

find-map :
    (x y : Text) (g : Execution → Execution)
    → ((d : Execution) → (g d).id ≡ d.id)
    → (rows : List Execution)
    → find (is_execution y) (map (λ d. if is_execution x d then g d else d) rows)
      ≡ changed x g y (find (is_execution y) rows)
find-map x y g same [] = refl
find-map x y g same (d ∷ rows) = ground (
  arith,
  find-map x y g same rows,
  same d,
  text_eq_iff d.id x,
  text_eq_iff d.id y,
  text_eq_iff x y,
  text_eq_iff (g d).id y,
)

pub get_execution-mark_execution :
    (x y : Text) (m : Mark) (t : PolicyTables)
    → get_execution y (mark_execution x m t) ≡ changed x (marked_execution m) y (get_execution y t)
unfolding get_execution mark_execution
get_execution-mark_execution x y m t = find-map x y (marked_execution m) (λ d. refl) t.executions

pub changed-other :
    (x y : Text) (g : Execution → Execution) (o : Option Execution)
    → text_eq x y ≡ false
    → changed x g y o ≡ o
changed-other x y g none ne = refl
changed-other x y g (some d) ne = rw ne refl
