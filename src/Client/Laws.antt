-- ===== src/Client/Laws.antt =====
-- What the options of a client hold, and its address (web/src/utils/mqtt.js).
use tio.Common.{
  ℕ, ◌≡◌, ◌≢◌, refl, subst, Bool, true, false, [], ◌∷◌, Option, none, some, String, ◌==◌, ◌+++◌,
  starts_with, if◌then◌else◌, eq_iff, arith, starts_with-append, nil-append_text, Bool-cases, inl,
  inr,
}
use tio.Common.Dict.{Dict, get, Distinct}
use tio.Json.{Json, is_null}
use tio.Config.{Properties, Will, Config}
use tio.Client.{
  defined_entries, set_mqtt5_properties, set_will_mqtt5_properties, protocol_version, is_v5,
  if_not_empty, WillOptions, ClientOptions, get_client_options, get_url, get_mqtt_protocol,
  get_ssl_file, will_options,
}

-- No value is null.
abbrev pub NoNull : Dict Json → Type 0
NoNull [] = Unit
NoNull ((k, v) ∷ m) = (is_null v ≡ false) × NoNull m

-- Properties that may be sent in a version of the protocol.
abbrev pub IsSendable : Option ℕ → Option (Dict Json) → Type 0
IsSendable version none = Unit
IsSendable version (some m) = (version ≡ some 5) × (m ≢ []) × NoNull m

abbrev pub IsSendableWill : Option ℕ → Option WillOptions → Type 0
IsSendableWill version none = Unit
IsSendableWill version (some w) = (w.topic ≢ "") × IsSendable version w.properties

pub record IsAccepted (o : ClientOptions) : Type 0 where
  pub properties : IsSendable o.version o.properties
  pub will : IsSendableWill o.version o.will
  pub username : o.username ≢ some ""
  pub password : o.password ≢ some ""
  pub ca : o.ssl.ca ≢ some ""
  pub cert : o.ssl.cert ≢ some ""
  pub key : o.ssl.key ≢ some ""

defined_entries-NoNull : (m : Properties) → NoNull (defined_entries m)
unfolding defined_entries
defined_entries-NoNull [] = tt
defined_entries-NoNull ((k, none) ∷ m) = defined_entries-NoNull m
defined_entries-NoNull ((k, some v) ∷ m) = ground (arith, defined_entries-NoNull m)

if_not_empty-IsSendable : (m : Dict Json) → NoNull m → IsSendable (some 5) (if_not_empty (some m))
if_not_empty-IsSendable [] h = tt
if_not_empty-IsSendable (e ∷ m) h = (refl, λ e. cc, h)

is_v5_lem : (v : Option ℕ) → is_v5 v ≡ true → v ≡ some 5
is_v5_lem none h = cc
is_v5_lem (some n) h = ground arith

same_cleaning : (o : Option Properties) → set_mqtt5_properties o ≡ set_will_mqtt5_properties o
unfolding set_mqtt5_properties set_will_mqtt5_properties
same_cleaning none = refl
same_cleaning (some m) = refl

v5-IsSendable :
    (o : Option Properties) → IsSendable (some 5) (if_not_empty (set_mqtt5_properties o))
unfolding set_mqtt5_properties
v5-IsSendable none = tt
v5-IsSendable (some m) = if_not_empty-IsSendable (defined_entries m) (defined_entries-NoNull m)

sent-IsSendable :
    (v : Option ℕ) (o : Option Properties)
    → IsSendable v (if is_v5 v then if_not_empty (set_mqtt5_properties o) else none)
sent-IsSendable v o = elim (Bool-cases (is_v5 v)) [
  | inl e ↦ rw (is_v5_lem v e) (v5-IsSendable o)
  | inr e ↦ rw e tt
]

will-IsSendable : (v : Option ℕ) (w : Option Will) → IsSendableWill v (will_options (is_v5 v) w)
will-IsSendable v none = tt
will-IsSendable v (some w) = elim (Bool-cases (w.last_will_topic == "")) [
  | inl e ↦ rw e tt
  | inr e ↦ rw e (
    ground (arith, eq_iff w.last_will_topic ""),
    subst (λ sent. IsSendable v (if is_v5 v then if_not_empty sent else none))
        (same_cleaning w.properties) (sent-IsSendable v w.properties),
  )
]

-- Whatever a configuration says, the client's options hold properties only under version 5, and
-- then some, none of them null; the same goes for the will, which has a topic; and neither the name,
-- the password nor the texts of certificates are empty.
pub get_client_options-IsAccepted :
    (now : String) (auto_resub : Bool) (c : Config)
    → IsAccepted (get_client_options now auto_resub c)
unfolding get_client_options get_ssl_file
get_client_options-IsAccepted now auto_resub c = record {
  properties = sent-IsSendable (protocol_version c.mqtt_version) c.properties;
  will = will-IsSendable (protocol_version c.mqtt_version) c.will;
  username = ground (arith, eq_iff c.username "");
  password = ground (arith, eq_iff c.password "");
  ca = ground (arith, eq_iff c.ca "");
  cert = ground (arith, eq_iff c.cert "");
  key = ground (arith, eq_iff c.key "");
}

-- `m[k]` where it is neither null nor undefined.
abbrev pub if_defined : Option (Option Json) → Option Json
if_defined none = none
if_defined (some none) = none
if_defined (some (some v)) = if is_null v then none else some v

abbrev pub get_sent : String → Option (Dict Json) → Option Json
get_sent k none = none
get_sent k (some m) = get k m

get-defined_entries :
    (k : String) (m : Properties) → Distinct m → get k (defined_entries m) ≡ if_defined (get k m)
unfolding get defined_entries
get-defined_entries k [] h = refl
get-defined_entries k ((j, none) ∷ m) (n, h) = ground (arith, get-defined_entries k m h, eq_iff j k)
get-defined_entries k ((j, some v) ∷ m) (n, h) =
    ground (arith, get-defined_entries k m h, eq_iff j k)

get_sent-if_not_empty : (k : String) (m : Dict Json) → get_sent k (if_not_empty (some m)) ≡ get k m
unfolding get
get_sent-if_not_empty k [] = refl
get_sent-if_not_empty k (e ∷ m) = refl

-- Under version 5 the properties that are sent are those configured, less the null and undefined ones.
pub get_sent-get_client_options :
    (now : String) (auto_resub : Bool) (c : Config) (m : Properties) (k : String)
    → c.mqtt_version ≡ "5.0"
    → c.properties ≡ some m
    → Distinct m
    → get_sent k (get_client_options now auto_resub c).properties ≡ if_defined (get k m)
unfolding get_client_options set_mqtt5_properties
get_sent-get_client_options now auto_resub c m k v e h =
    rw (v, e, get_sent-if_not_empty k (defined_entries m)) (get-defined_entries k m h)

-- A path names the same address with and without its leading slash.
pub get_url-slash :
    (c : Config)
    → starts_with c.path "/" ≡ false
    → get_url (record c { path = "/" +++ c.path }) ≡ get_url c
unfolding get_url get_mqtt_protocol
get_url-slash c h = rw (starts_with-append "/" c.path, h, nil-append_text ("/" +++ c.path)) refl
