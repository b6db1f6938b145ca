-- ===== src/Things.antt =====
-- Things and shadows (web/src/reactives/useThingsAndShadows.js). The server's answers enter as
-- arguments, `none` for a request that fails.
pub mod Paging
mod Tests
use tio.Common.{
  ℕ, zero, suc, ◌+◌, Bool, true, false, [], ◌∷◌, ◌++◌, List, Option, none, some, String, ◌==◌,
  length, ltb, if◌then◌else◌,
}
use tio.Store.{AppState}

pub record Page (T : Type 0) : Type 0 where
  pub content : List T
  pub total : ℕ

-- `out_of_fuel` is no outcome of the source: the loop would go on.
pub data Fetch (T : Type 0) : Type 0 where
  fetched : List T → Fetch T
  failed out_of_fuel : Fetch T

module _ {T : Type 0} where
  -- The loop of `updateThings`; the server takes the index of a page.
  unfoldable pub fetch_from : (fuel page_index : ℕ) → List T → (ℕ → Option (Page T)) → Fetch T
  fetch_from zero i things server = out_of_fuel
  fetch_from (suc fuel) i things server = elim (server i) [
    | none ↦ failed
    | some page ↦
        let all = things ++ page.content in
        let rest = fetch_from fuel (i + 1) all server in
        if ltb (length all) page.total then rest else fetched all
  ]

  module _ {S : Type 0} where
    abbrev with_fetched : Fetch T → AppState T S → AppState T S × Bool
    with_fetched (fetched things) st = (record st { things = things }, true)
    with_fetched failed st = (st, false)
    with_fetched out_of_fuel st = (st, false)

    -- `updateThings` and its answer.
    unfoldable pub update_things :
        (fuel : ℕ) → (ℕ → Option (Page T)) → AppState T S → AppState T S × Bool
    update_things fuel server st = with_fetched (fetch_from fuel 1 [] server) st

    unfoldable pub request_update_shadow_list : AppState T S → AppState T S
    request_update_shadow_list st = record st {
      shadow_list_update_tag = st.shadow_list_update_tag + 1;
    }

    -- `addThing` and `delThing`: `accepted` says whether the request succeeded. The third part says
    -- whether `updateThings` has been started, which goes on by itself.
    unfoldable pub add_thing : (accepted : Bool) → AppState T S → AppState T S × Bool × Bool
    unfolding request_update_shadow_list
    add_thing true st = (request_update_shadow_list st, true, true)
    add_thing false st = (st, false, false)

    unfoldable pub del_thing : (accepted : Bool) → AppState T S → AppState T S × Bool × Bool
    unfolding request_update_shadow_list
    del_thing true st = (request_update_shadow_list st, true, true)
    del_thing false st = (st, false, false)

    -- The empty shadow is `none`.
    abbrev pub set_current_shadow : Option S → AppState T S → AppState T S
    set_current_shadow shadow st = record st { current_shadow = shadow }

    -- `selected` is the thing that the route names.
    unfoldable pub update_current_shadow :
        (selected : Option String) → (String → Option S) → AppState T S → AppState T S
    update_current_shadow none server st = set_current_shadow none st
    update_current_shadow (some id) server st =
        if id == ""
        then set_current_shadow none st
        else elim (server id) [ none ↦ st | some shadow ↦ set_current_shadow (some shadow) st ]
