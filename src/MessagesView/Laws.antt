-- ===== src/MessagesView/Laws.antt =====
-- What the list of messages (web/src/components/mqtt/MqttMessage.vue) shows.
use tio.Common.{
  ◌≡◌, refl, Bool, true, false, not, ◌&&◌, ◌||◌, List, [], ◌∷◌, String, ◌==◌, filter, includes,
  split, All, arith, eq_iff, Bool-cases, inl, inr, if◌then◌else◌,
}
use tio.Topic.{match_topic_method}
use tio.Topic.Laws.{IsPlain, match_topic_method-plain}
use tio.Delegate.{Message}
use tio.UseMqtt.{World}
use tio.MessagesView.{Panel, is_shown, messages, all_messages}

-- A message's topic as a server sends it: without wildcards, and not of a shared subscription.
abbrev pub IsOrdinary : {P : Type 0} → Message P → Type 0
IsOrdinary m = (includes m.topic "$share" ≡ false) × All IsPlain (split m.topic)

-- What the list holds under a type and a topic, without the matching of topics: a received message
-- whose topic is the same text, or any where no topic is given.
abbrev pub is_wanted : {P : Type 0} → (type f : String) → Message P → Bool
is_wanted type f m =
    (if type == "in" then not m.out else if type == "out" then m.out else true)
    && (f == "" || not m.out && m.topic == f)

-- The tests of the two filters: of the type, on whether it is "in" or "out", and of the topic.
tests-agree :
    (is_in is_out out any_topic same : Bool)
    → is_in && is_out ≡ false
    → (if is_in && out
        then false
        else if is_out && not out
        then false
        else if any_topic
        then true
        else if out
        then false
        else same)
      ≡ ((if is_in then not out else if is_out then out else true)
          && (any_topic || not out && same))
tests-agree is_in is_out out any_topic same h = ground arith

in-out : (type : String) → (type == "in") && (type == "out") ≡ false
in-out type = elim (Bool-cases (type == "in")) [
  | inl e ↦ rw ((eq_iff type "in").0 e) refl
  | inr e ↦ rw e refl
]

match-same :
    {P : Type 0} (m : Message P) (f : String)
    → IsOrdinary m
    → match_topic_method m.topic f ≡ (m.topic == f)
match-same m f (s, h) = ground (arith, match_topic_method-plain m.topic f s h, eq_iff m.topic f)

is_shown-is_wanted :
    {P : Type 0} (type f : String) (m : Message P)
    → IsOrdinary m
    → is_shown type f m ≡ is_wanted type f m
is_shown-is_wanted type f m h =
    rw (match-same m f h)
      (tests-agree (type == "in") (type == "out") m.out (f == "") (m.topic == f) (in-out type))

filter-cong :
    {A : Type 0} (p q : A → Bool) (xs : List A)
    → All (λ x. p x ≡ q x) xs
    → filter p xs ≡ filter q xs
filter-cong p q [] h = refl
filter-cong p q (x ∷ xs) (e, h) = rw (e, filter-cong p q xs h) refl

All-is_wanted :
    {P : Type 0} (type f : String) (ms : List (Message P))
    → All IsOrdinary ms
    → All (λ m. is_shown type f m ≡ is_wanted type f m) ms
All-is_wanted type f [] h = tt
All-is_wanted type f (m ∷ ms) (o, h) = (is_shown-is_wanted type f m o, All-is_wanted type f ms h)

-- Where the topics of all messages are ordinary ones, the list under a topic holds the received
-- messages whose topic is the same text, in their order, even where that topic has wildcards; with no
-- topic it holds all, and the type keeps the received or the published ones.
pub messages-is_wanted :
    {P : Type 0} (f : String) (p : Panel) (w : World P)
    → All IsOrdinary (all_messages w)
    → messages f p w ≡ filter (is_wanted p.type f) (all_messages w)
messages-is_wanted f p w h =
    filter-cong (is_shown p.type f) (is_wanted p.type f) (all_messages w)
      (All-is_wanted p.type f (all_messages w) h)
