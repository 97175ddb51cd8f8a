-- ===== src/Tests/Trees.antt =====
-- An entry at the address 1 with the child 5 and no free slot; the new memory holds 7 in each cell.
use ffprinter.Prelude.{ℕ, ◌≡◌, ◌⊎◌, refl, Option, some, [], ◌∷◌, arith, success, malloc_fail}
use ffprinter.Arrays.{Pointers, Tree, put_into_children_array, Files}
use ffprinter.Arrays.Slots.{IsSized}
use ffprinter.Arrays.Laws.{Refused}
use ffprinter.Arrays.Put.{Adopted, put_into_children_array-Adopted}

abbrev sevens : Option (ℕ → ℕ)
sevens = some (λ i. 7)

abbrev one_child : Pointers
one_child = record { arr = 5 ∷ []; num = 1; free_num = 0 }

one_child-IsSized : IsSized one_child
one_child-IsSized = record { sized = refl }

abbrev family : Tree
family = record { child = λ p. one_child; parent = λ p. 0; depth = λ p. 1 }

abbrev files : Files
files = record { sections = λ p. one_child; parent_file_data = λ p. 0 }

put_into_children_array-Adopted_example :
    (Refused sevens one_child
      × (put_into_children_array sevens family 1 6 ≡ some (malloc_fail, family)))
    ⊎ ((u : Tree) × (put_into_children_array sevens family 1 6 ≡ some (success, u))
        × Adopted family u 1 6)
put_into_children_array-Adopted_example =
    put_into_children_array-Adopted sevens family 1 6 (omega arith) (omega arith) one_child-IsSized
      (omega arith)
