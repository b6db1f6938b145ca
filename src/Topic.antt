-- ===== src/Topic.antt =====
-- Topic filters of the console: `matchTopicMethod` (web/src/utils/subs.js). A topic is split at its
-- slashes into levels; the loop over the levels of the filter is the recursion `match_from`.
pub mod Levels
pub mod Split
pub mod Laws
mod Tests
use tio.Common.{
  ℕ, ◌-◌, ◌≡◌, Bool, false, List, [], ◌∷◌, Option, none, some, String, length, nat_eq, leb, ◌==◌,
  includes, split, join, if◌then◌else◌,
}

-- `left === right`, false where the topic has no such level
abbrev pub level_eq : String → Option String → Bool
level_eq left none = false
level_eq left (some right) = left == right

abbrev pub head? : List String → Option String
head? [] = none
head? (t ∷ ts) = some t

abbrev pub tail : List String → List String
tail [] = []
tail (t ∷ ts) = ts

-- `parts.slice(2)`
abbrev pub drop2 : List String → List String
drop2 parts = tail (tail parts)

-- The loop; `n` and `m` are the lengths of the two arrays, and the lists are what is left of them.
unfoldable pub match_from : ℕ → ℕ → List String → List String → Bool
match_from n m [] ts = nat_eq n m
match_from n m (left ∷ fs) ts =
    let rest = match_from n m fs (tail ts) in
    if left == "#"
    then leb (n - 1) m
    else if level_eq left (head? ts)
    then rest
    else if left == "+"
    then rest
    else false

-- A shared subscription is written `$share/{ShareName}/{filter}`.
abbrev pub strip_share : String → String
strip_share filter = if includes filter "$share" then join (drop2 (split filter)) else filter

abbrev pub match_levels : List String → List String → Bool
match_levels fs ts = match_from (length fs) (length ts) fs ts

unfoldable pub match_topic_method : String → String → Bool
match_topic_method filter topic = match_levels (split (strip_share filter)) (split topic)
