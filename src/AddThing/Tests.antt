-- ===== src/AddThing/Tests.antt =====
-- The checks of the form that adds a thing at small inputs.
use mathlib.Core.List.{Memᴰ}
use tio.Common.{◌≡◌, refl, true, false, split, includes, starts_with, ◌+++◌}
use tio.Topic.{match_topic_method, match_from}
use tio.Subs.{init, get_suggested_topics_for_thing}
use tio.Subs.Own.{IsBelow}
use tio.AddThing.{is_thing_id_valid, is_password_valid}
use tio.AddThing.Laws.{thing_id_valid-own, password_minus-refused}

accepted : is_thing_id_valid "lamp-1_b" ≡ true
accepted = refl

refused : is_thing_id_valid "lamp/1" ≡ false
refused = refl

thing_id_valid-own_example : IsBelow "t1" (split "$iothub/things/t1/methods/reboot/req")
unfolding init get_suggested_topics_for_thing match_topic_method match_from includes split
    starts_with
thing_id_valid-own_example =
    thing_id_valid-own (λ n. "id") "t1"
      (record {
        id = "id";
        name = "Direct Method Request";
        keep = true;
        topic = "$iothub/things/t1/methods/+/req";
        opts = record { qos = 0 };
      })
      "$iothub/things/t1/methods/reboot/req" refl refl (Memᴰ.head refl) refl

password_minus-refused_example : is_password_valid ("a" +++ ("-" +++ "b")) ≡ false
password_minus-refused_example = password_minus-refused "a" "b"
