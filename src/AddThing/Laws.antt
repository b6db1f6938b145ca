-- ===== src/AddThing/Laws.antt =====
-- What the checks of the form that adds a thing let through
-- (web/src/components/layout/AddThingForm.vue).
use Prim.Native.Char.{Char}
use text.Mathlib.TextLemmas.{cons-append, nil-append}
use mathlib.Core.List.{Memᴰ}
use tio.Common.{
  ℕ, suc, ◌≡◌, refl, ap, ◌∙◌, Bool, true, false, not, ◌&&◌, List, String, ◌==◌, ◌+++◌, All, split,
  includes, starts_with, Bool-cases, inl, inr, eq_iff, arith,
}
use tio.Topic.{match_topic_method}
use tio.Topic.Split.{NoSlash}
use tio.Topic.Laws.{IsPlain}
use tio.Subs.{
  Grouped, SubConfig, QosOpts, suggest_from, get_suggested_topics_for_thing, topics, init,
}
use tio.Subs.Own.{IsBelow, suggested_own}
use tio.AddThing.{is_id_char, is_password_char, all_chars, is, is_thing_id_valid, is_password_valid}

all_chars-append :
    (p : Char → Bool) (s t : String) → all_chars p (s +++ t) ≡ (all_chars p s && all_chars p t)
all_chars-append p String.[] t = ap (all_chars p) (nil-append t)
all_chars-append p (String.◌∷◌ c s) t =
    rw (cons-append c s t) (ground (arith, all_chars-append p s t))

all_chars-imp :
    (p q : Char → Bool)
    → ((c : Char) → p c ≡ true → q c ≡ true)
    → (s : String) → all_chars p s ≡ true
    → all_chars q s ≡ true
all_chars-imp p q h String.[] a = refl
all_chars-imp p q h (String.◌∷◌ c s) a = ground (arith, h c, all_chars-imp p q h s)

abbrev not_dollar : Char → Bool
not_dollar c = not (is b'$' c)

id_char-not_dollar : (c : Char) → is_id_char c ≡ true → not_dollar c ≡ true
id_char-not_dollar c h = ground arith

valid-NoSlash : (s : String) → all_chars is_id_char s ≡ true → NoSlash s
valid-NoSlash String.[] h = tt
valid-NoSlash (String.◌∷◌ c s) h = (ground arith, valid-NoSlash s (ground arith))

valid-IsPlain : (s : String) → all_chars is_id_char s ≡ true → IsPlain s
valid-IsPlain s h = (
  λ e. let b : all_chars is_id_char s ≡ false = ap (all_chars is_id_char) e in cc,
  λ e. let b : all_chars is_id_char s ≡ false = ap (all_chars is_id_char) e in cc,
)

includes-not_dollar : (s : String) → all_chars not_dollar s ≡ true → includes s "$share" ≡ false
unfolding includes starts_with
includes-not_dollar String.[] h = refl
includes-not_dollar (String.◌∷◌ c s) h = ground (arith, includes-not_dollar s)

first-i : (x : String) → starts_with ("iothub/things/" +++ x) "share" ≡ false
unfolding starts_with
first-i x = rw (cons-append _ "othub/things/" x) refl

-- Below the things' prefix there is no share, as there is no other `$`.
no_share-things :
    (x : String)
    → all_chars not_dollar x ≡ true
    → includes ("$iothub/things/" +++ x) "$share" ≡ false
unfolding includes starts_with
no_share-things x h = rw (cons-append _ "iothub/things/" x) (
    ground (
      arith,
      includes-not_dollar ("iothub/things/" +++ x),
      all_chars-append not_dollar "iothub/things/" x,
      first-i x,
    ))

no_share-id :
    (id rest : String)
    → all_chars not_dollar id ≡ true
    → all_chars not_dollar rest ≡ true
    → includes ("$iothub/things/" +++ (id +++ rest)) "$share" ≡ false
no_share-id id rest h k =
    no_share-things (id +++ rest) (rw (all_chars-append not_dollar id rest) (ground arith))

suggested-no_share :
    (id : String)
    → all_chars not_dollar id ≡ true
    → All (λ g. includes (g.topic.topic_resolver id) "$share" ≡ false) topics.suggested_for_thing
unfolding init
suggested-no_share id h = (
  no_share-id id _ h refl,
  (
    no_share-id id _ h refl,
    (
      no_share-id id _ h refl,
      (
        no_share-id id _ h refl,
        (no_share-id id _ h refl, (no_share-id id _ h refl, (no_share-id id _ h refl, tt))),
      ),
    ),
  ),
)

from-no_share :
    (fresh : ℕ → String) (n : ℕ) (id : String) (gs : List Grouped) {sub : SubConfig QosOpts}
    → All (λ g. includes (g.topic.topic_resolver id) "$share" ≡ false) gs
    → Memᴰ sub (suggest_from fresh n id gs)
    → includes sub.topic "$share" ≡ false
unfolding suggest_from
from-no_share fresh n id List.[] h m = elim m [ ]
from-no_share fresh n id (List.◌∷◌ g gs) (b, h) (Memᴰ.head e) = rw e b
from-no_share fresh n id (List.◌∷◌ g gs) (b, h) (Memᴰ.tail m) =
    from-no_share fresh (suc n) id gs h m

-- The form lets no identifier of a thing through, but the empty one, for which a topic that matches
-- one of the suggested subscriptions is not below the thing's own prefix.
pub thing_id_valid-own :
    (fresh : ℕ → String) (id : String) (sub : SubConfig QosOpts) (topic : String)
    → is_thing_id_valid id ≡ true
    → (id == "") ≡ false
    → Memᴰ sub (get_suggested_topics_for_thing fresh id)
    → match_topic_method sub.topic topic ≡ true
    → IsBelow id (split topic)
unfolding get_suggested_topics_for_thing
thing_id_valid-own fresh id sub topic v n m e =
    let valid : all_chars is_id_char id ≡ true = ground arith in
    suggested_own fresh id sub topic (valid-NoSlash id valid) (valid-IsPlain id valid) m
      (from-no_share fresh 0 id topics.suggested_for_thing
        (suggested-no_share id (all_chars-imp is_id_char not_dollar id_char-not_dollar id valid)) m)
      e

minus-all_chars : (s t : String) → all_chars is_password_char (s +++ ("-" +++ t)) ≡ false
minus-all_chars s t =
    all_chars-append is_password_char s ("-" +++ t) ∙ rw (cons-append _ "" t) (ground arith)

-- A password with a minus is refused, though the message of the check allows it: in the class of the
-- expression `)-+` is a range.
pub password_minus-refused : (s t : String) → is_password_valid (s +++ ("-" +++ t)) ≡ false
password_minus-refused s t =
    let password = s +++ ("-" +++ t) in
    elim (Bool-cases (password == "")) [
      | inl e ↦
          let empty : all_chars is_password_char password ≡ true =
            ap (all_chars is_password_char) ((eq_iff password "").0 e) in
          absurd (let refused = minus-all_chars s t in cc)
      | inr e ↦ rw e (minus-all_chars s t)
    ]
