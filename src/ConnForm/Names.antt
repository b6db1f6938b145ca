-- ===== src/ConnForm/Names.antt =====
-- That the names of connections stay distinct (web/src/components/mqtt/MqttConnForm.vue), which the
-- form's check of the name is for.
use tio.Common.{
  ◌≡◌, refl, sym, ◌∙◌, Bool, true, false, not, ◌&&◌, ◌||◌, List, [], ◌∷◌, ◌++◌, Option, none, some,
  String, ◌==◌, any, find, Bool-cases, Option-cases, inl, inr, eq_iff, arith,
}
use tio.Config.{Config, Properties}
use tio.Store.{ConnectionsCodec, update_conn_configs}
use tio.Delegate.{Client}
use tio.UseMqtt.{World, update_configs, has_id, replace_config, set_conn_config, get_conn_config}
use tio.ConnForm.{is_duplicate}
use tio.ConnForm.Connect.{Outcome, set_outcome, created, updated, with_properties, handle_connect}

abbrev has_name : String → Config → Bool
has_name name c = c.name == name

-- No two connections have one name.
abbrev pub DistinctNames : List Config → Type 0
DistinctNames [] = Unit
DistinctNames (c ∷ cs) = (any (has_name c.name) cs ≡ false) × DistinctNames cs

is_duplicate-create :
    (old name : String) (cs : List Config) → is_duplicate true old name cs ≡ any (has_name name) cs
is_duplicate-create old name [] = refl
is_duplicate-create old name (c ∷ cs) = ground (arith, is_duplicate-create old name cs)

is_duplicate-edit :
    (old name : String) (cs : List Config)
    → is_duplicate false old name cs ≡ (not (name == old) && any (has_name name) cs)
is_duplicate-edit old name [] = ground arith
is_duplicate-edit old name (c ∷ cs) = ground (arith, is_duplicate-edit old name cs)

any-append :
    (name : String) (cs : List Config) (c : Config)
    → any (has_name name) (cs ++ c ∷ []) ≡ (any (has_name name) cs || c.name == name)
any-append name [] c = ground arith
any-append name (d ∷ cs) c = ground (arith, any-append name cs c)

append-DistinctNames :
    (cs : List Config) (c : Config)
    → any (has_name c.name) cs ≡ false
    → DistinctNames cs
    → DistinctNames (cs ++ c ∷ [])
append-DistinctNames [] c a h = (refl, tt)
append-DistinctNames (d ∷ cs) c a (n, h) = (
  any-append d.name cs c ∙ ground (arith, eq_iff c.name d.name, eq_iff d.name c.name),
  append-DistinctNames cs c (ground arith) h,
)

any-replace_config :
    (id name : String) (c : Config) (cs : List Config)
    → any (has_name name) cs ≡ false
    → (c.name == name) ≡ false
    → any (has_name name) (replace_config id c cs) ≡ false
unfolding replace_config
any-replace_config id name c [] a n = refl
any-replace_config id name c (d ∷ cs) a n = ground (arith, any-replace_config id name c cs)

any-found :
    (id name : String) (old : Config) (cs : List Config)
    → find (has_id id) cs ≡ some old
    → any (has_name name) cs ≡ false
    → (old.name == name) ≡ false
any-found id name old [] f a = cc
any-found id name old (e ∷ cs) f a = ground (arith, any-found id name old cs)

replace_config-DistinctNames :
    (id : String) (c old : Config) (cs : List Config)
    → find (has_id id) cs ≡ some old
    → not (c.name == old.name) && any (has_name c.name) cs ≡ false
    → DistinctNames cs
    → DistinctNames (replace_config id c cs)
unfolding replace_config
replace_config-DistinctNames id c old [] f d h = tt
replace_config-DistinctNames id c old (e ∷ cs) f d (n, h) = elim (Bool-cases (e.id == id)) [
  | inl s ↦ rw s (ground (arith, eq_iff c.name old.name), h)
  | inr s ↦ rw s (
    ground (
      arith,
      eq_iff c.name old.name,
      eq_iff c.name e.name,
      eq_iff e.name c.name,
      eq_iff old.name e.name,
      any-found id e.name old cs,
      any-replace_config id e.name c cs,
    ),
    replace_config-DistinctNames id c old cs (ground arith) (ground arith) h,
  )
]

replace_config-absent :
    (id : String) (c : Config) (cs : List Config)
    → find (has_id id) cs ≡ none
    → replace_config id c cs ≡ cs
unfolding replace_config
replace_config-absent id c [] f = refl
replace_config-absent id c (d ∷ cs) f = ground (arith, replace_config-absent id c cs)

replaced-DistinctNames :
    (id old_name : String) (c : Config) (cs : List Config)
    → ((d : Config) → find (has_id id) cs ≡ some d → d.name ≡ old_name)
    → is_duplicate false old_name c.name cs ≡ false
    → DistinctNames cs
    → DistinctNames (replace_config id c cs)
replaced-DistinctNames id old_name c cs o d h = elim (Option-cases (find (has_id id) cs)) [
  | inl e ↦ rw (replace_config-absent id c cs e) h
  | inr (old, e) ↦
      replace_config-DistinctNames id c old cs e
        (rw (o old e) (sym (is_duplicate-edit old_name c.name cs) ∙ d)) h
]

module _ {P : Type 0} (codec : ConnectionsCodec) (fresh : Client) (new_id old_name : String)
    (w : World P) where
  abbrev NamesAfter : Outcome → Type 0
  NamesAfter o = DistinctNames (set_outcome codec fresh new_id o w).0.mqtt.connection_configs

  created-DistinctNames :
      (c : Config)
      → is_duplicate true old_name c.name w.mqtt.connection_configs ≡ false
      → DistinctNames w.mqtt.connection_configs
      → NamesAfter (created c)
  unfolding set_outcome set_conn_config update_configs update_conn_configs
  created-DistinctNames c d h =
      append-DistinctNames w.mqtt.connection_configs (record c { id = new_id })
        (sym (is_duplicate-create old_name c.name w.mqtt.connection_configs) ∙ d) h

  updated-DistinctNames :
      (id : String) (c : Config)
      → (id == "") ≡ false
      → ((d : Config) → get_conn_config id w ≡ some d → d.name ≡ old_name)
      → is_duplicate false old_name c.name w.mqtt.connection_configs ≡ false
      → DistinctNames w.mqtt.connection_configs
      → NamesAfter (updated id c)
  unfolding set_outcome set_conn_config update_configs update_conn_configs
  updated-DistinctNames id c n o d h =
      rw n (replaced-DistinctNames id old_name c w.mqtt.connection_configs o d h)

  connected-DistinctNames :
      (is_for_create : Bool) (now : String) (form : Config) (m : Option Properties)
      → (is_for_create ≡ false
          → (d : Config) → get_conn_config form.id w ≡ some d
          → d.name ≡ old_name)
      → is_duplicate is_for_create old_name form.name w.mqtt.connection_configs ≡ false
      → DistinctNames w.mqtt.connection_configs
      → NamesAfter (with_properties false is_for_create now form m)
  unfolding set_outcome
  connected-DistinctNames b now form none o d h = h
  connected-DistinctNames true now form (some m) o d h = created-DistinctNames _ d h
  connected-DistinctNames false now form (some m) o d h = elim (Bool-cases (form.id == "")) [
    | inl e ↦ rw e h
    | inr e ↦ rw e (updated-DistinctNames form.id _ e (o refl) d h)
  ]

  -- Where the names of connections are distinct, they are so after the form is handed on whose name
  -- has been checked, be it for a new connection or for one that is edited, if the form's old name is
  -- then that of the configuration edited.
  pub handle_connect-DistinctNames :
      (is_for_create : Bool) (now : String) (form : Config)
      → (is_for_create ≡ false
          → (d : Config) → get_conn_config form.id w ≡ some d
          → d.name ≡ old_name)
      → is_duplicate is_for_create old_name form.name w.mqtt.connection_configs ≡ false
      → DistinctNames w.mqtt.connection_configs
      → DistinctNames
          (set_outcome codec fresh new_id
            (handle_connect false is_for_create now form)
            w).0.mqtt.connection_configs
  handle_connect-DistinctNames b now form = connected-DistinctNames b now form form.properties
