-- ===== src/Delegate/Publish.antt =====
-- Publishing and receiving messages (`pub` and `onmessage` of web/src/utils/MqttDelegate.js).
pub mod Laws
use tio.Common.{
  ℕ, Bool, true, false, not, ◌&&◌, ◌||◌, [], ◌∷◌, List, ◌++◌, Option, none, some, String, ◌==◌,
  nat_eq, includes, if◌then◌else◌,
}
use tio.Common.Dict.{Dict}
use tio.Notify.{notify_fail}
use tio.Client.{Codec, Payload, convert_payload_by_type}
use tio.Delegate.{
  Client, UserValue, one, many, MessageProps, PubOpts, Message, Delegate, Effect, notify, publish,
  callback, View, is_connected, push, Step,
}

abbrev truthy : UserValue → Bool
truthy (one s) = not (s == "")
truthy (many vs) = true

-- The user properties whose value is not empty.
unfoldable pub truthy_entries : Dict UserValue → Dict UserValue
truthy_entries [] = []
truthy_entries ((k, v) ∷ m) =
    let rest = truthy_entries m in if truthy v then (k, v) ∷ rest else rest

abbrev some_if_any : Dict UserValue → Option (Dict UserValue)
some_if_any [] = none
some_if_any (e ∷ m) = some (e ∷ m)

-- The copy of the options that `pub` makes; empty properties stay, since an array never equals 0.
unfoldable pub clean_user_properties : Option (Dict UserValue) → Option (Dict UserValue)
unfolding truthy_entries
clean_user_properties none = none
clean_user_properties (some m) = some_if_any (truthy_entries m)

abbrev pub clean_props : Option MessageProps → Option MessageProps
clean_props none = none
clean_props (some p) = some (record p { user_properties = clean_user_properties p.user_properties })

abbrev pub clean_opts : PubOpts → PubOpts
clean_opts opts = record opts { properties = clean_props opts.properties }

-- `opts.properties?.topicAlias` as a test
abbrev pub has_alias : Option MessageProps → Bool
has_alias none = false
has_alias (some p) = elim p.topic_alias [ none ↦ false | some a ↦ not (nat_eq a 0) ]

abbrev pub has_wildcard : String → Bool
has_wildcard topic = includes topic "+" || includes topic "#"

module _ (codec : Codec) where
  -- An exception of the conversion, `none`, ends the method.
  unfoldable pub pub_message :
      (topic : String) (paytype : Option String) (payload : Payload codec.Bytes)
      → PubOpts
      → Delegate (Payload codec.Bytes)
      → Step (Payload codec.Bytes)
  pub_message topic paytype payload opts d =
      let opts' = clean_opts opts in
      if not (is_connected d)
      then (d, notify (notify_fail "Client not connected") ∷ [])
      else if topic == "" && not (has_alias opts'.properties)
      then (d, notify (notify_fail "Topic Required!") ∷ [])
      else if not (topic == "") && has_wildcard topic
      then (d, notify (notify_fail "Topic Cannot Contain '+' or '#'!") ∷ [])
      else elim (convert_payload_by_type codec payload (elim paytype [ none ↦ "JSON" | some t ↦ t ])
          none) [ none ↦ (d, []) | some p ↦ (d, publish topic p opts' ∷ []) ]

  -- `onmessage`: `id` is the new identifier and `now` the time. `none` is an exception.
  unfoldable pub onmessage :
      View
      → (id now topic : String) → Payload codec.Bytes
      → PubOpts
      → Delegate (Payload codec.Bytes)
      → Option (Step (Payload codec.Bytes))
  onmessage v id now topic payload packet d =
      elim (convert_payload_by_type codec payload d.received_msg_type (some "receive")) [
        | none ↦ none
        | some p ↦ some (
            push v
              (record {
                id = some id;
                out = false;
                create_at = now;
                topic = topic;
                payload = p;
                opts = packet;
              })
              d)
      ]

module _ {P : Type 0} where
  -- The callback of the client's `publish`; `has_cb` says whether the caller gave a function.
  unfoldable pub on_published :
      View
      → (has_cb : Bool) (now topic : String) → P
      → PubOpts
      → (err : Option String) → Delegate P
      → Step P
  on_published v has_cb now topic payload opts (some err) d =
      (d, (if has_cb then callback (some err) else notify (notify_fail err)) ∷ [])
  on_published v has_cb now topic payload opts none d =
      let (d', effects) =
        push v
          (record {
            id = none;
            out = true;
            create_at = now;
            topic = topic;
            payload = payload;
            opts = opts;
          })
          d in
      (d', effects ++ (if has_cb then callback none ∷ [] else []))
