-- ===== src/ListView/Laws.antt =====
-- What the list of shadows (web/src/components/views/List.vue) shows, in whichever order answers come.
use tio.Common.{
  ◌≡◌, refl, ℕ, Bool, true, false, ◌&&◌, ◌||◌, List, [], ◌∷◌, Option, none, String, ◌==◌, ltb,
  is_some, any, if◌then◌else◌, arith,
}
use tio.Json.{Json}
use tio.Viewer.{ThingEvent}
use tio.ListView.{
  State, Params, handle_clear, handle_search, handle_select, handle_page_index_change,
  handle_page_size_change, fetched, fetch_failed, refresh, on_status_change,
}

-- What happens to the list; `answered` and `failed` are the answers of requests.
pub data Event (A S : Type 0) : Type 0 where
  cleared : Event A S
  searched : (editor : Option String) → Event A S
  selected : (value : String) (auto_trigger : Bool) (editor : Option String) → Event A S
  focus_set : Bool → Event A S
  page_index_set : ℕ → Event A S
  page_size_set : ℕ → Event A S
  answered : (content : List S) (total : ℕ) → Event A S
  failed : Option Json → Event A S
  list_changed : Event A S
  thing_changed : ThingEvent A → Event A S

-- The page says that nothing was found only where the total is 0, and shows an error only without
-- a list.
pub record IsConsistent {S : Type 0} (st : State S) : Type 0 where
  pub of_empty : st.empty ≡ true → st.total ≡ 0
  pub of_error : is_some st.error ≡ true → (st.total ≡ 0) × (st.list ≡ []) × (st.empty ≡ false)

if-IsConsistent :
    {S : Type 0} (b : Bool) (x y : State S × Option Params)
    → IsConsistent x.0
    → IsConsistent y.0
    → IsConsistent (if b then x else y).0
if-IsConsistent true x y p q = p
if-IsConsistent false x y p q = q

refresh-IsConsistent : {S : Type 0} (st : State S) → IsConsistent st → IsConsistent (refresh st).0
refresh-IsConsistent st c =
    if-IsConsistent (ltb 0 st.total || st.empty) _ (st, none)
      (record { of_empty = c.of_empty; of_error = c.of_error }) c

module _ {A S : Type 0} (id_of : S → String) where
  abbrev pub handle : Event A S → State S → State S
  handle cleared st = handle_clear st
  handle (searched editor) st = (handle_search editor st).0
  handle (selected value auto editor) st = (handle_select value auto editor st).0
  handle (focus_set b) st = record st { focused = b }
  handle (page_index_set n) st = (handle_page_index_change n st).0
  handle (page_size_set n) st = (handle_page_size_change n st).0
  handle (answered content total) st = fetched content total st
  handle (failed err) st = fetch_failed err st
  handle list_changed st = (refresh st).0
  handle (thing_changed e) st = (on_status_change id_of e st).0

  abbrev pub run : List (Event A S) → State S → State S
  run [] st = st
  run (e ∷ es) st = run es (handle e st)

  handle-IsConsistent :
      (e : Event A S) (st : State S) → IsConsistent st → IsConsistent (handle e st)
  handle-IsConsistent cleared st c = record { of_empty = λ e. cc; of_error = λ e. cc }
  handle-IsConsistent (searched editor) st c = record {
    of_empty = c.of_empty;
    of_error = c.of_error;
  }
  handle-IsConsistent (selected value true editor) st c = record {
    of_empty = c.of_empty;
    of_error = c.of_error;
  }
  handle-IsConsistent (selected value false editor) st c =
      if-IsConsistent (ltb 0 st.total) _ _ (record { of_empty = c.of_empty; of_error = c.of_error })
        (record { of_empty = c.of_empty; of_error = c.of_error })
  handle-IsConsistent (focus_set b) st c = record { of_empty = c.of_empty; of_error = c.of_error }
  handle-IsConsistent (page_index_set n) st c = record {
    of_empty = c.of_empty;
    of_error = c.of_error;
  }
  handle-IsConsistent (page_size_set n) st c = record {
    of_empty = c.of_empty;
    of_error = c.of_error;
  }
  handle-IsConsistent (answered content total) st c = record {
    of_empty = λ e. ground (arith, e);
    of_error = λ e. cc;
  }
  handle-IsConsistent (failed err) st c = record {
    of_empty = λ e. cc;
    of_error = λ e. (refl, refl, refl);
  }
  handle-IsConsistent list_changed st c = refresh-IsConsistent st c
  handle-IsConsistent (thing_changed e) st c =
      if-IsConsistent
        (any (λ s. id_of s == e.thing_id) st.list
          && (e.type == "mqtt-connected" || e.type == "mqtt-disconnected"))
        (refresh st) (st, none) (refresh-IsConsistent st c) c

  -- From a page of this kind on, whatever searches are made and in whichever order their answers come:
  -- the page says that nothing was found only where the total is 0, and shows an error only with no
  -- list, a total of 0 and not saying so.
  pub run-IsConsistent :
      (es : List (Event A S)) (st : State S) → IsConsistent st → IsConsistent (run es st)
  run-IsConsistent [] st c = c
  run-IsConsistent (e ∷ es) st c = run-IsConsistent es (handle e st) (handle-IsConsistent e st c)
