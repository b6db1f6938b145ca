-- ===== src/Tables/Logs.antt =====
-- The pages of the log of requests (web/src/components/tools/HttpLogs.vue).
use tio.Common.{ℕ, suc, zero, ◌-◌, ◌*◌, List, [], ◌∷◌}

abbrev pub page_size : ℕ
page_size = 50

module _ {ℓ} {A : Type ℓ} where
  abbrev pub take : ℕ → List A → List A
  take zero l = []
  take (suc n) [] = []
  take (suc n) (x ∷ l) = x ∷ take n l

  abbrev pub drop : ℕ → List A → List A
  drop zero l = l
  drop (suc n) [] = []
  drop (suc n) (x ∷ l) = drop n l

  -- `l.slice(start, end)`, for a start and an end that are not negative
  abbrev pub slice : (start end : ℕ) → List A → List A
  slice start end l = take (end - start) (drop start l)

  -- The first page has the number 1.
  abbrev pub logs : (current_page : ℕ) → List A → List A
  logs current_page all = slice (page_size * (current_page - 1)) (page_size * current_page) all
