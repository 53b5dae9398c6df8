-- ===== src/Prelude/Sorting.antt =====
-- Go's `sort`.
use mathlib.Core.Bool.{Bool}
use mathlib.Core.List.{List, [], ◌∷◌}
use algo_vnode.Prelude.Tests.{if◌then◌else◌}

-- `sort.SliceStable` by the test `less`: an element is put in front of the first one that is less
-- than none of the elements before it.
module _ {A : Type 0} (less : A → A → Bool) where
  unfoldable pub insert_stable : A → List A → List A
  insert_stable x [] = x ∷ []
  insert_stable x (y ∷ ys) =
      let rest = insert_stable x ys in if less y x then y ∷ rest else x ∷ y ∷ ys

  unfoldable pub sort_stable : List A → List A
  unfolding insert_stable
  sort_stable [] = []
  sort_stable (x ∷ xs) = insert_stable x (sort_stable xs)
