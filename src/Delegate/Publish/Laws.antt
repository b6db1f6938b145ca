-- ===== src/Delegate/Publish/Laws.antt =====
-- When `pub` (web/src/utils/MqttDelegate.js) hands a message to the client, and what it sends.
use tio.Common.{
  ◌≡◌, ◌∙◌, refl, ◌≢◌, ◌↔◌, ◌⊎◌, true, false, [], ◌∷◌, ◌++◌, Option, none, some, String, includes,
  starts_with, if◌then◌else◌, eq_iff, arith,
}
use tio.Common.Dict.{Dict, get, Distinct}
use tio.Client.{Codec, Payload, text, convert_payload_by_type}
use tio.Delegate.{UserValue, PubOpts, Delegate, publish, View, is_connected, push, Step}
use tio.Delegate.Publish.{
  truthy, some_if_any, truthy_entries, clean_user_properties, clean_opts, has_alias, pub_message,
  onmessage,
}

-- What the class asks of a message before it is sent.
abbrev pub IsPublishable : {P : Type 0} → String → PubOpts → Delegate P → Type 0
IsPublishable topic opts d =
    (is_connected d ≡ true)
    × ((topic ≢ "") ⊎ (has_alias opts.properties ≡ true))
    × (includes topic "+" ≡ false)
    × (includes topic "#" ≡ false)

includes_empty : (includes "" "+" ≡ false) × (includes "" "#" ≡ false)
unfolding includes starts_with
includes_empty = (refl, refl)

module _ (codec : Codec) where
  -- `pub` leaves the delegate as it is. It hands the message to the client exactly when the client is
  -- connected, the topic is not empty or a topic alias is given, and the topic holds no wildcard; and
  -- then the payload is the one that it was given, whatever the payload type.
  pub pub_message_lem :
      (topic : String) (paytype : Option String) (payload : Payload codec.Bytes) (opts : PubOpts)
      (d : Delegate (Payload codec.Bytes))
      → ((pub_message codec topic paytype payload opts d).0 ≡ d)
        × (((pub_message codec topic paytype payload opts d).1
              ≡ publish topic payload (clean_opts opts) ∷ [])
            ↔ IsPublishable topic opts d)
  unfolding pub_message convert_payload_by_type
  pub_message_lem topic paytype payload opts d = ground (arith, eq_iff topic "", includes_empty)

  -- Receiving never fails while messages are shown as plain text: the message, converted by the
  -- buffer's own text, is put behind the others.
  pub onmessage-plaintext :
      (v : View) (id now topic : String) (payload : codec.Bytes) (packet : PubOpts)
      (d : Delegate (Payload codec.Bytes))
      → d.received_msg_type ≡ "Plaintext"
      → (s : Step (Payload codec.Bytes)) × (onmessage codec v id now topic
            (Payload.bytes payload)
            packet
            d
          ≡ some s)
        × (s.0.messages
            ≡ d.messages
              ++ record {
                id = some id;
                out = false;
                create_at = now;
                topic = topic;
                payload = text (codec.to_string none payload);
                opts = packet;
              }
                ∷ [])
        × (s.0.subs ≡ d.subs)
  unfolding onmessage convert_payload_by_type push
  onmessage-plaintext v id now topic payload packet d h = (push v _ d, rw h refl, refl, refl)

abbrev pub get_user : String → Option (Dict UserValue) → Option UserValue
get_user k none = none
get_user k (some m) = get k m

abbrev pub if_truthy : Option UserValue → Option UserValue
if_truthy none = none
if_truthy (some v) = if truthy v then some v else none

get-truthy_entries :
    (k : String) (m : Dict UserValue) → Distinct m → get k (truthy_entries m) ≡ if_truthy (get k m)
unfolding truthy_entries get
get-truthy_entries k [] h = refl
get-truthy_entries k ((j, v) ∷ m) (n, h) = ground (arith, get-truthy_entries k m h, eq_iff j k)

user_at : (k : String) (m : Dict UserValue) → get_user k (some_if_any m) ≡ get k m
unfolding get
user_at k [] = refl
user_at k (e ∷ m) = refl

some_if_any_ne : (m : Dict UserValue) → some_if_any m ≢ some []
some_if_any_ne [] = cc
some_if_any_ne (e ∷ m) = λ h. cc

-- The user properties that are sent: a property of the given ones stays exactly when its value is not
-- the empty text, and where none stays the dictionary is left out.
pub get-clean_user_properties :
    (m : Dict UserValue)
    → Distinct m
    → ((k : String) → get_user k (clean_user_properties (some m)) ≡ if_truthy (get k m))
      × (clean_user_properties (some m) ≢ some [])
unfolding clean_user_properties get
get-clean_user_properties m h = (
  (λ k. user_at k (truthy_entries m) ∙ get-truthy_entries k m h),
  some_if_any_ne (truthy_entries m),
)
