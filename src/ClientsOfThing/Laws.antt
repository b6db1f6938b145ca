-- ===== src/ClientsOfThing/Laws.antt =====
-- What the view of a thing's connections (web/src/components/thing/MqttClientsOfThing.vue) shows.
use tio.Common.{
  ◌≡◌, refl, ap, ◌∙◌, Bool, true, false, not, ◌&&◌, List, [], ◌∷◌, map, Option, none, some, String,
  ◌==◌, find, if◌then◌else◌, Bool-cases, inl, inr, eq_iff,
}
use tio.Config.{Config}
use tio.UseMqtt.{World, get_conn_configs_by_client_id}
use tio.ClientsOfThing.{State, Row, row_of, shown_for, is_connected, rows_for, update_clients}

abbrev pub id_of : Option Config → String
id_of none = ""
id_of (some c) = c.id

opened_lem :
    (a : String) (b : Bool) (c : Config) (o : Option Config)
    → let o' = if a == "" && b then c.id else a in
      (if o' == "" then id_of o else o')
      ≡ (if a == "" then id_of (if b && not (c.id == "") then some c else o) else a)
opened_lem a true c o = elim (Bool-cases (a == "")) [
  | inl e ↦ rw e (elim (Bool-cases (c.id == "")) [ inl f ↦ rw f refl | inr f ↦ rw f refl ])
  | inr e ↦ rw (e, e) refl
]
opened_lem a false c o = elim (Bool-cases (a == "")) [
  | inl e ↦ rw (e, e) refl
  | inr e ↦ rw (e, e) refl
]

module _ {P : Type 0} where
  pub record IsShownBy (cs : List Config) (w : World P) (active : String)
      (result : List (Row P) × String) : Type 0 where
    pub rows : result.0 ≡ map (λ c. row_of c (shown_for c w)) cs
    pub name : result.1 ≡ (
        if active == ""
        then id_of (find (λ c. is_connected c w && not (c.id == "")) cs)
        else active)

  rows_for_lem :
      (cs : List Config) (w : World P) (active : String)
      → IsShownBy cs w active (rows_for cs w active)
  rows_for_lem [] w active = record {
    rows = refl;
    name = elim (Bool-cases (active == "")) [
      | inl e ↦ rw e ((eq_iff active "").0 e)
      | inr e ↦ rw e refl
    ];
  }
  rows_for_lem (c ∷ cs) w active =
      let rest = rows_for_lem cs w (if active == "" && is_connected c w then c.id else active) in
      record {
        rows = ap (λ l. row_of c (shown_for c w) ∷ l) rest.rows;
        name =
            rest.name
            ∙ opened_lem active (is_connected c w) c
                (find (λ k. is_connected k w && not (k.id == "")) cs);
      }

  -- After a change of the connections or their states, the rows are those of the connections of the
  -- thing, in their order; the panel that was open stays open, and where none was, the first
  -- connection that is connected (and has an identifier) is opened.
  pub update_clients-IsShownBy :
      (selected : String) (st : State P)
      → let st' = update_clients selected st in
        IsShownBy
          (get_conn_configs_by_client_id selected st.world)
          st.world
          st.active_name
          (st'.clients, st'.active_name)
  update_clients-IsShownBy selected st =
      rows_for_lem (get_conn_configs_by_client_id selected st.world) st.world st.active_name
