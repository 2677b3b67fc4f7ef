-- ===== src/Python/Sorting.antt =====
-- `sorted` of numbers.
use wireless_boot_entropy_ze.Base.{ℕ, List, [], ◌∷◌, leb, if◌then◌else◌}

unfoldable pub insert_sorted : ℕ → List ℕ → List ℕ
insert_sorted k [] = k ∷ []
insert_sorted k (j ∷ l) = if leb k j then k ∷ j ∷ l else j ∷ insert_sorted k l

unfoldable pub sorted : List ℕ → List ℕ
unfolding insert_sorted
sorted [] = []
sorted (k ∷ l) = insert_sorted k (sorted l)
