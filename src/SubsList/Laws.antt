-- ===== src/SubsList/Laws.antt =====
-- What the list of subscriptions (web/src/components/mqtt/Subcriptions.vue) does to rows and to the
-- subscriptions of a configuration.
use tio.Common.{
  ◌≡◌, refl, ap, ◌∙◌, false, not, List, [], ◌∷◌, ◌++◌, String, ◌==◌, filter, any, if◌then◌else◌,
  eq_iff, arith,
}
use tio.Json.{Json}
use tio.Subs.{SubConfig}
use tio.UseMqtt.{has_topic}
use tio.UseMqtt.Subscribing.{DistinctTopics}
use tio.SubsForm.{Form}
use tio.SubsList.{Row, insert_row, sort_rows, has_sub_id, remove_sub, edit_sub, is_conflict}

-- The subscribed rows and then the others.
abbrev pub partitioned : List Row → List Row
partitioned rows = filter (λ r. r.subscribed) rows ++ filter (λ r. not r.subscribed) rows

insert_row-others :
    (r : Row) (rows : List Row)
    → insert_row r (filter (λ s. not s.subscribed) rows) ≡ r ∷ filter (λ s. not s.subscribed) rows
insert_row-others r [] = refl
insert_row-others r (s ∷ rows) = ground (arith, insert_row-others r rows)

insert_row-between :
    (r : Row) (rows others : List Row)
    → insert_row r (filter (λ s. s.subscribed) rows ++ filter (λ s. not s.subscribed) others) ≡ (
        if r.subscribed
        then r ∷ filter (λ s. s.subscribed) rows ++ filter (λ s. not s.subscribed) others
        else filter (λ s. s.subscribed) rows ++ r ∷ filter (λ s. not s.subscribed) others)
insert_row-between r [] others = rw (insert_row-others r others) (ground arith)
insert_row-between r (s ∷ rows) others = ground (arith, insert_row-between r rows others)

insert_row-partitioned :
    (r : Row) (rows : List Row) → insert_row r (partitioned rows) ≡ partitioned (r ∷ rows)
insert_row-partitioned r rows = insert_row-between r rows rows ∙ ground arith

-- The rows shown are the subscribed ones and then the others, each in the order of the configuration.
pub sort_rows-partitioned : (rows : List Row) → sort_rows rows ≡ partitioned rows
sort_rows-partitioned [] = refl
sort_rows-partitioned (r ∷ rows) =
    ap (insert_row r) (sort_rows-partitioned rows) ∙ insert_row-partitioned r rows

-- No identifier is there twice.
abbrev pub DistinctIds : List (SubConfig Json) → Type 0
DistinctIds [] = Unit
DistinctIds (s ∷ subs) = (any (has_sub_id s.id) subs ≡ false) × DistinctIds subs

remove_sub-absent :
    (id : String) (subs : List (SubConfig Json))
    → any (has_sub_id id) subs ≡ false
    → filter (λ s. not (has_sub_id id s)) subs ≡ subs
remove_sub-absent id [] h = refl
remove_sub-absent id (s ∷ subs) h = ground (arith, remove_sub-absent id subs)

-- Where no identifier is there twice, the subscription with an identifier goes and no other.
pub remove_sub-filter :
    (id : String) (subs : List (SubConfig Json))
    → DistinctIds subs
    → remove_sub id subs ≡ filter (λ s. not (has_sub_id id s)) subs
remove_sub-filter id [] h = refl
remove_sub-filter id (s ∷ subs) (n, h) =
    ground (arith, remove_sub-filter id subs h, remove_sub-absent id subs, eq_iff s.id id)

any-edit_sub :
    (id name topic k : String) (opts : Json) (subs : List (SubConfig Json))
    → any (has_topic k) subs ≡ false
    → (topic == k) ≡ false
    → any (has_topic k) (edit_sub id name topic opts subs) ≡ false
any-edit_sub id name topic k opts [] h n = refl
any-edit_sub id name topic k opts (s ∷ subs) h n =
    ground (arith, any-edit_sub id name topic k opts subs)

find-other :
    (f : Form) (subs : List (SubConfig Json))
    → any (has_sub_id f.id) subs ≡ false
    → is_conflict f subs ≡ false
    → any (has_topic f.topic) subs ≡ false
find-other f [] a c = refl
find-other f (s ∷ subs) a c = ground (arith, find-other f subs, eq_iff f.id s.id, eq_iff s.id f.id)

-- An edit that is no conflict leaves every topic configured once.
pub edit_sub-DistinctTopics :
    (f : Form) (opts : Json) (subs : List (SubConfig Json))
    → DistinctIds subs
    → DistinctTopics subs
    → is_conflict f subs ≡ false
    → DistinctTopics (edit_sub f.id f.name f.topic opts subs)
edit_sub-DistinctTopics f opts [] i t c = tt
edit_sub-DistinctTopics f opts (s ∷ subs) (i, is) (t, ts) c = ground (
  arith,
  edit_sub-DistinctTopics f opts subs is ts,
  find-other f subs,
  any-edit_sub f.id f.name f.topic s.topic opts subs,
  eq_iff f.id s.id,
  eq_iff s.id f.id,
  eq_iff s.topic f.topic,
  eq_iff f.topic s.topic,
)

any-edit_sub_id :
    (id name topic k : String) (opts : Json) (subs : List (SubConfig Json))
    → any (has_sub_id k) (edit_sub id name topic opts subs) ≡ any (has_sub_id k) subs
any-edit_sub_id id name topic k opts [] = refl
any-edit_sub_id id name topic k opts (s ∷ subs) =
    ground (arith, any-edit_sub_id id name topic k opts subs)

-- An edit leaves the identifiers as they are.
pub edit_sub-DistinctIds :
    (id name topic : String) (opts : Json) (subs : List (SubConfig Json))
    → DistinctIds subs
    → DistinctIds (edit_sub id name topic opts subs)
edit_sub-DistinctIds id name topic opts [] h = tt
edit_sub-DistinctIds id name topic opts (s ∷ subs) (n, h) = ground (
  arith,
  edit_sub-DistinctIds id name topic opts subs h,
  any-edit_sub_id id name topic s.id opts subs,
)
