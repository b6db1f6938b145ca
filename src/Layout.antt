-- ===== src/Layout.antt =====
-- The tool area and the forms of the console (web/src/store/layout.ts,
-- web/src/reactives/useLayout.js, and the table `tools` of web/src/configs/tool.js).
pub mod Laws
mod Tests
use tio.Common.{
  ℕ, Bool, true, false, not, [], ◌∷◌, ◌++◌, List, Option, none, some, String, ◌==◌, find, or_else,
  if◌then◌else◌,
}
use tio.Common.Dict.{put}
use tio.Json.{Json}
use tio.Config.{Config}
use tio.Subs.{SubConfig}
use tio.Store.{Storage, get_item}

pub record Tool : Type 0 where
  pub key : String
  pub icon : String
  pub name : String
  pub height : Option ℕ
  pub link : Option String

abbrev pub tools : List Tool
tools =
    record {
      key = "mqtt";
      icon = "Connection";
      name = "MQTT Clients";
      height = some 450;
      link = none;
    }
    ∷ record { key = "logs"; icon = "Memo"; name = "HTTP Logs"; height = some 248; link = none }
    ∷ record {
      key = "apis";
      icon = "Compass";
      name = "Swagger (View API Definitions)";
      height = none;
      link = some "/docs";
    }
    ∷ []

abbrev pub find_tool : String → Option Tool
find_tool key = find (λ tool. tool.key == key) tools

pub record ConnForm : Type 0 where
  pub visible : Bool
  pub conn_id_to_edit : Option String
  pub thing_id_for_create : Option String
  pub connected_callback_token : String

pub record SubsForm : Type 0 where
  pub visible : Bool
  pub conn_config : Option Config
  pub subscription : Option (SubConfig Json)

-- The state of the store's module; `none` as the gap stands for undefined.
pub record LayoutState : Type 0 where
  pub active_tool_key : String
  pub top_gap : ℕ
  pub bottom_gap : Option ℕ
  pub is_tool_area_max_size : Bool
  pub mqtt_conn_form : ConnForm
  pub mqtt_subs_form : SubsForm

-- The state with what it changes outside: the browser's storage, the property
-- --layout-bottom-gap of the page's style, and the links that are opened.
pub record Page : Type 0 where
  pub layout : LayoutState
  pub storage : Storage
  pub bottom_style : Option ℕ
  pub opened : List String

abbrev pub tool_key : String
tool_key = "$tiopg/layout/activeToolKey"

abbrev hidden_conn_form : ConnForm
hidden_conn_form = record {
  visible = false;
  conn_id_to_edit = none;
  thing_id_for_create = some "";
  connected_callback_token = "";
}

abbrev pub hidden_subs_form : SubsForm
hidden_subs_form = record { visible = false; conn_config = none; subscription = none }

abbrev first_gap : Option Tool → Option ℕ
first_gap none = some 30
first_gap (some tool) = tool.height

-- The page as the function `state` leaves it.
unfoldable pub load : Storage → Page
load storage =
    let active_tool_key = get_item tool_key "" storage in
    let bottom_gap = first_gap (find_tool active_tool_key) in
    record {
      layout = record {
        active_tool_key = active_tool_key;
        top_gap = 50;
        bottom_gap = bottom_gap;
        is_tool_area_max_size = false;
        mqtt_conn_form = hidden_conn_form;
        mqtt_subs_form = hidden_subs_form;
      };
      storage = storage;
      bottom_style = bottom_gap;
      opened = [];
    }

abbrev link_of : Option Tool → Option String
link_of none = none
link_of (some tool) = tool.link

abbrev height_of : Option Tool → ℕ
height_of none = 30
height_of (some tool) = or_else tool.height 30

-- The action `switchActiveTool`.
unfoldable pub dispatch_switch : String → Page → Page
dispatch_switch key p = elim (link_of (find_tool key)) [
  | some link ↦ record p { opened = p.opened ++ link ∷ [] }
  | none ↦
      let bottom_gap = some (height_of (find_tool key)) in
      record p {
        layout = record p.layout { active_tool_key = key; bottom_gap = bottom_gap };
        storage = put tool_key key p.storage;
        bottom_style = bottom_gap;
      }
]

abbrev set_layout : LayoutState → Page → Page
set_layout layout p = record p { layout = layout }

abbrev leave_max_size : Page → Page
leave_max_size p = set_layout (record p.layout { is_tool_area_max_size = false }) p

-- `switchActiveTool` of the composable, with the key of a tool.
unfoldable pub switch_active_tool : String → Page → Page
unfolding dispatch_switch
switch_active_tool key p =
    if key == p.layout.active_tool_key
    then leave_max_size (dispatch_switch "" p)
    else dispatch_switch key p

unfoldable pub toggle_tool_area_size : Page → Page
toggle_tool_area_size p =
    set_layout (record p.layout { is_tool_area_max_size = not p.layout.is_tool_area_max_size }) p

-- `genConnectedCallbackToken()` gives `fresh`; the answer is the token.
unfoldable pub show_mqtt_conn_form :
    (fresh : String) (conn_id_to_edit thing_id_for_create : Option String) → Page → Page × String
show_mqtt_conn_form fresh conn_id thing_id p =
    let token = if or_else thing_id "" == "" then "" else fresh in
    (
      set_layout
          (record p.layout {
            mqtt_conn_form = record {
              visible = true;
              conn_id_to_edit = conn_id;
              thing_id_for_create = thing_id;
              connected_callback_token = token;
            };
          })
          p,
      token,
    )

unfoldable pub hide_mqtt_conn_form : Page → Page
hide_mqtt_conn_form p = set_layout (record p.layout { mqtt_conn_form = hidden_conn_form }) p

unfoldable pub show_mqtt_subs_form : Config → Option (SubConfig Json) → Page → Page
show_mqtt_subs_form config subscription p =
    set_layout
      (record p.layout {
        mqtt_subs_form = record {
          visible = true;
          conn_config = some config;
          subscription = subscription;
        };
      })
      p

unfoldable pub hide_mqtt_subs_form : Page → Page
hide_mqtt_subs_form p = set_layout (record p.layout { mqtt_subs_form = hidden_subs_form }) p
