-- ===== src/Layout/Laws.antt =====
-- The tool area stays in step with the browser's storage and the page's style
-- (web/src/store/layout.ts, web/src/reactives/useLayout.js).
use tio.Common.{
  ◌≡◌, ◌≢◌, refl, ap, sym, subst, Bool, false, Option, none, some, String, ◌==◌, is_some, eq_iff,
  eq_refl, arith, Bool-cases, Option-cases, inl, inr,
}
use tio.Common.Dict.{put, get-put}
use tio.Json.{Json}
use tio.Config.{Config}
use tio.Subs.{SubConfig}
use tio.Store.{Storage, get_item}
use tio.Layout.{
  find_tool, Page, tool_key, load, link_of, height_of, first_gap, dispatch_switch,
  switch_active_tool, toggle_tool_area_size, show_mqtt_conn_form, hide_mqtt_conn_form,
  show_mqtt_subs_form, hide_mqtt_subs_form,
}

pub data Event : Type 0 where
  clicks : (key : String) → Event
  toggles hides_conn_form hides_subs_form reloads : Event
  shows_conn_form : (fresh : String) (conn_id thing_id : Option String) → Event
  shows_subs_form : Config → Option (SubConfig Json) → Event

unfoldable pub handle : Event → Page → Page
handle (clicks key) p = switch_active_tool key p
handle toggles p = toggle_tool_area_size p
handle hides_conn_form p = hide_mqtt_conn_form p
handle hides_subs_form p = hide_mqtt_subs_form p
handle reloads p = load p.storage
handle (shows_conn_form fresh conn_id thing_id) p = (show_mqtt_conn_form fresh conn_id thing_id p).0
handle (shows_subs_form config subscription) p = show_mqtt_subs_form config subscription p

-- The tool is a link, which the tool area cannot show.
abbrev pub is_link : String → Bool
is_link key = is_some (link_of (find_tool key))

-- What follows a load of the page.
pub data Reach (storage : Storage) : Page → Type 0 where
  loaded : Reach storage (load storage)
  next : {p : Page} (e : Event) → Reach storage p → Reach storage (handle e p)

pub record IsInStep (p : Page) : Type 0 where
  pub shows : is_link p.layout.active_tool_key ≡ false
  pub gap : p.layout.bottom_gap ≡ some (height_of (find_tool p.layout.active_tool_key))
  pub style : p.bottom_style ≡ p.layout.bottom_gap
  pub kept : get_item tool_key "" p.storage ≡ p.layout.active_tool_key

find_tool_lem :
    (key : String)
    → is_link key ≡ false
    → first_gap (find_tool key) ≡ some (height_of (find_tool key))
find_tool_lem key h = ground arith

load-IsInStep : (s : Storage) → is_link (get_item tool_key "" s) ≡ false → IsInStep (load s)
unfolding load
load-IsInStep s h = record {
  shows = h;
  gap = find_tool_lem (get_item tool_key "" s) h;
  style = refl;
  kept = refl;
}

get_item-put : (key : String) (m : Storage) → get_item tool_key "" (put tool_key key m) ≡ key
get_item-put key m =
    ground (arith, get-put tool_key tool_key key m, eq_refl tool_key, eq_iff key "")

dispatch_switch-IsInStep : (key : String) {p : Page} → IsInStep p → IsInStep (dispatch_switch key p)
unfolding dispatch_switch
dispatch_switch-IsInStep key {p} s = elim (Option-cases (link_of (find_tool key))) [
  | inl e ↦
      rw (dispatch_switch, e)
        (record {
          shows = ap is_some e;
          gap = refl;
          style = refl;
          kept = get_item-put key p.storage;
        })
  | inr (link, e) ↦
      rw (dispatch_switch, e)
        (record { shows = s.shows; gap = s.gap; style = s.style; kept = s.kept })
]

switch-IsInStep : (key : String) {p : Page} → IsInStep p → IsInStep (switch_active_tool key p)
unfolding switch_active_tool
switch-IsInStep key {p} s = elim (Bool-cases (key == p.layout.active_tool_key)) [
  | inl e ↦
      let t = dispatch_switch-IsInStep "" s in
      rw e (record { shows = t.shows; gap = t.gap; style = t.style; kept = t.kept })
  | inr e ↦ rw e (dispatch_switch-IsInStep key s)
]

handle-IsInStep : (e : Event) {p : Page} → IsInStep p → IsInStep (handle e p)
unfolding handle toggle_tool_area_size show_mqtt_conn_form hide_mqtt_conn_form show_mqtt_subs_form
    hide_mqtt_subs_form
handle-IsInStep (clicks key) s = switch-IsInStep key s
handle-IsInStep reloads s = load-IsInStep _ (subst (λ k. is_link k ≡ false) (sym s.kept) s.shows)
handle-IsInStep _ s = record { shows = s.shows; gap = s.gap; style = s.style; kept = s.kept }

-- Where the storage does not name a link as the open tool when the page is loaded, whatever the user
-- does then: the height that is kept for the area, in the store and in the page's style, is the one
-- that its tool asks for (the area itself is higher while it is maximised), no link is shown in it,
-- and a reload of the page finds the same tool.
pub Reach-IsInStep :
    (storage : Storage)
    → is_link (get_item tool_key "" storage) ≡ false
    → {p : Page} → Reach storage p
    → IsInStep p
Reach-IsInStep storage h loaded = load-IsInStep storage h
Reach-IsInStep storage h (next e r) = handle-IsInStep e (Reach-IsInStep storage h r)

shown : String → Page → Page
shown key p = record p {
  layout = record p.layout { active_tool_key = key; bottom_gap = some (height_of (find_tool key)) };
  storage = put tool_key key p.storage;
  bottom_style = some (height_of (find_tool key));
}

switch-other :
    (key : String) (p : Page)
    → link_of (find_tool key) ≡ none
    → key ≢ p.layout.active_tool_key
    → switch_active_tool key p ≡ shown key p
unfolding switch_active_tool dispatch_switch shown
switch-other key p e ne = elim (Bool-cases (key == p.layout.active_tool_key)) [
  | inl same ↦ absurd (ne ((eq_iff key p.layout.active_tool_key).0 same))
  | inr other ↦ rw (switch_active_tool, other, dispatch_switch, e) refl
]

switch-same :
    (key : String) (p : Page)
    → (switch_active_tool key (shown key p)).layout ≡ record p.layout {
      active_tool_key = "";
      bottom_gap = some 30;
      is_tool_area_max_size = false;
    }
unfolding switch_active_tool dispatch_switch shown
switch-same key p = rw (eq_refl key) refl

-- A click on a tool that is no link, while it is not the open one, opens it at the height that it asks
-- for; a second click closes the area, whatever its size was, and changes nothing else of the layout.
pub switch_active_tool_lem :
    (key : String) (p : Page)
    → link_of (find_tool key) ≡ none
    → key ≢ p.layout.active_tool_key
    → let p' = switch_active_tool key p in
      (p'.layout.active_tool_key ≡ key)
      × (p'.layout.bottom_gap ≡ some (height_of (find_tool key)))
      × ((switch_active_tool key p').layout ≡ record p.layout {
        active_tool_key = "";
        bottom_gap = some 30;
        is_tool_area_max_size = false;
      })
unfolding shown
switch_active_tool_lem key p e ne = rw (switch-other key p e ne) (refl, refl, switch-same key p)
