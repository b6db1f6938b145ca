-- ===== src/Things/Tests.antt =====
-- Three things on pages of two.
use tio.Common.{ℕ, ◌-◌, ◌*◌, ap, ◌≡◌, true, [], ◌∷◌, List, Option, some, arith}
use tio.Store.{initial_app}
use tio.Things.{Page, update_things}
use tio.Things.Paging.{update_things-IsPaged, IsPaged, take, drop}

abbrev three : List ℕ
three = 7 ∷ 8 ∷ 9 ∷ []

abbrev pages : ℕ → Option (Page ℕ)
pages i = some (record { content = take 2 (drop ((i - 1) * 2) three); total = 3 })

pages-IsPaged : IsPaged 2 three pages
pages-IsPaged k =
    ap (λ n. some (record { content = take 2 (drop (n * 2) three); total = 3 })) (omega arith)

update_things-IsPaged_example :
    update_things 4 pages (initial_app {Thing = ℕ} {Shadow = ℕ})
    ≡ (record (initial_app {Thing = ℕ} {Shadow = ℕ}) { things = three }, true)
update_things-IsPaged_example =
    update_things-IsPaged 2 three pages 4 initial_app pages-IsPaged (omega arith) (omega arith)
