-- ===== src/Utils/Tests.antt =====
-- Runs of the paging helpers.
use swat4stats.Base.{ℕ, ◌≡◌, refl, some, List, [], ◌∷◌, arith}
use swat4stats.Base.Keys.{UniqueKeys}
use swat4stats.Utils.Paging.{iterate_list, order_by_pk, iterate_queryset}
use swat4stats.Utils.Paging.Laws.{ArePages, iterate_queryset-ArePages}

abbrev rows : List ℕ
rows = 5 ∷ 2 ∷ 9 ∷ 4 ∷ []

rows-keys : UniqueKeys (λ x. x) rows
rows-keys = omega arith

two_pages : iterate_queryset (λ x. x) 5 rows 2 ≡ some ((2 ∷ 4 ∷ []) ∷ (5 ∷ 9 ∷ []) ∷ [] ∷ [])
unfolding iterate_queryset
two_pages = refl

list_pages : iterate_list rows 3 ≡ some ((5 ∷ 2 ∷ 9 ∷ []) ∷ (4 ∷ []) ∷ [])
unfolding iterate_list
list_pages = refl

iterate_queryset-ArePages_example :
    ArePages (λ x. x) 2 (order_by_pk (λ x. x) rows) (iterate_queryset (λ x. x) 5 rows 2)
iterate_queryset-ArePages_example =
    iterate_queryset-ArePages (λ x. x) rows 1 rows-keys (omega arith)
