-- ===== src/ConnForm/Laws.antt =====
-- What comes of a configuration that is edited (web/src/components/mqtt/MqttConnForm.vue).
use tio.Common.{
  ◌≡◌, refl, ap, ◌∙◌, ℕ, Bool, true, false, none, some, String, ◌==◌, ◌+++◌, if◌then◌else◌, eq_iff,
  arith,
}
use tio.Config.{Config, Properties}
use tio.ConnForm.{
  edit_form, shown_username, server_client_id, watched, username_changed, userrole_changed,
  role_watched, name_watched,
}
use tio.ConnForm.Connect.{updated, handle_connect, with_properties, empty_to_null}

module _ (P : Config → Type 0) where
  if-case : (b : Bool) (x y : Config) → P x → P y → P (if b then x else y)
  if-case true x y p q = p
  if-case false x y p q = q

module _ (suffix : String) where
  -- The second watch writes the client's identifier alone.
  name_watched-fields :
      (old new : Config)
      → ((name_watched none suffix old new).username ≡ new.username)
        × ((name_watched none suffix old new).userrole ≡ new.userrole)
  unfolding name_watched username_changed
  name_watched-fields old new =
      let Same : Config → Type 0 = λ c. (c.username ≡ new.username) × (c.userrole ≡ new.userrole) in
      if-case Same (old.username == new.username) new _ (refl, refl)
        (if-case Same (new.username == "") _ _ (refl, refl)
          (if-case Same (new.userrole == "server") _ new (refl, refl) (refl, refl)))

  -- Once the role alone has been written, the form has this role, and its user name is not one that
  -- it has not had.
  role_written :
      (u role : String) (form : Config)
      → (form.username == u) ≡ false
      → (u == "") ≡ false
      → let form' = watched none suffix form (record form { userrole = role }) in
        (form'.userrole ≡ role) × ((form'.username == u) ≡ false)
  unfolding watched role_watched userrole_changed
  role_written u role form n e =
      let changed = role_watched none form (record form { userrole = role }) in
      let kept = name_watched-fields form changed in
      let written : (changed.userrole ≡ role) × ((changed.username == u) ≡ false) =
        if-case (λ c. (c.userrole ≡ role) × ((c.username == u) ≡ false)) (form.userrole == role)
          (record form { userrole = role }) _ (refl, n)
          (refl, ground (arith, eq_iff u "", eq_iff "" u)) in
      (kept.1 ∙ written.0, ap (λ t. t == u) kept.0 ∙ written.1)

  if-client_id :
      (b : Bool) (c : Config) (id : String)
      → (if b then record c { client_id = id } else c)
        ≡ record c { client_id = if b then id else c.client_id }
  if-client_id true c id = refl
  if-client_id false c id = refl

  if-true : (b : Bool) (c d : Config) → b ≡ true → (if b then c else d) ≡ c
  if-true true c d h = refl
  if-true false c d h = cc

  if-false : (b : Bool) (c d : Config) → b ≡ false → (if b then c else d) ≡ d
  if-false true c d h = cc
  if-false false c d h = refl

  role_watched-same :
      (old new : Config) → old.userrole ≡ new.userrole → role_watched none old new ≡ new
  unfolding role_watched
  role_watched-same old new r =
      if-true (old.userrole == new.userrole) new _ ((eq_iff old.userrole new.userrole).1 r)

  -- The watches after a form of one role has got another user name, which is not empty.
  watched-username :
      (old new : Config)
      → old.userrole ≡ new.userrole
      → (old.username == new.username) ≡ false
      → (new.username == "") ≡ false
      → watched none suffix old new ≡ record new {
        client_id =
            if new.userrole == "server"
            then server_client_id new.username suffix
            else new.client_id;
      }
  unfolding watched name_watched username_changed
  watched-username old new r n e =
      ap (name_watched none suffix old) (role_watched-same old new r)
      ∙ (if-false (old.username == new.username) new _ n
          ∙ (if-false (new.username == "") _ _ e
              ∙ if-client_id (new.userrole == "server") new (server_client_id new.username suffix)))

  -- The form for a configuration whose user name is another than the form's.
  edit_form-other :
      (port : ℕ) (config form : Config)
      → (shown_username config == "") ≡ false
      → (form.username == shown_username config) ≡ false
      → edit_form none suffix port config form ≡ record config {
        username = shown_username config;
        port = port;
        client_id =
            if config.userrole == "server"
            then server_client_id (shown_username config) suffix
            else config.client_id;
      }
  unfolding edit_form
  edit_form-other port config form e n =
      let written = role_written (shown_username config) config.userrole form n e in
      watched-username (watched none suffix form (record form { userrole = config.userrole }))
        (record config { username = shown_username config; port = port }) written.0 written.1 e

-- A configuration that is edited, in a form that shows another user name, and handed on as it is
-- shown, keeps its fields but for the time, the port, the texts of its properties that are empty,
-- and, for a server, the name and the client's identifier: `$` replaces the first character of the
-- user name, which is the same where it starts with `$`, and the identifier is a new one.
pub handle_connect-edit_form :
    (suffix now : String) (port : ℕ) (config form : Config) (m : Properties)
    → (shown_username config == "") ≡ false
    → (form.username == shown_username config) ≡ false
    → (config.id == "") ≡ false
    → config.properties ≡ some m
    → handle_connect false false now (edit_form none suffix port config form)
      ≡ updated config.id (record config {
        update_at = now;
        port = port;
        properties = some (empty_to_null m);
        username =
            if config.userrole == "server"
            then "$" +++ shown_username config
            else shown_username config;
        client_id =
            if config.userrole == "server"
            then server_client_id (shown_username config) suffix
            else config.client_id;
      })
handle_connect-edit_form suffix now port config form m e n i p =
    let shown : Config = record config {
      username = shown_username config;
      port = port;
      client_id =
          if config.userrole == "server"
          then server_client_id (shown_username config) suffix
          else config.client_id;
    } in
    ap (handle_connect false false now) (edit_form-other suffix port config form e n)
    ∙ (ap (with_properties false false now shown) p ∙ rw i refl)
