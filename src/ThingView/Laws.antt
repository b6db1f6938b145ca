-- ===== src/ThingView/Laws.antt =====
-- That the view of a thing (web/src/components/views/Thing.vue) follows the messages of connections.
use tio.Common.{
  ◌≡◌, refl, Bool, true, false, ◌&&◌, not, List, [], ◌∷◌, ◌++◌, String, ◌==◌, any, starts_with,
  if◌then◌else◌, Bool-cases, inl, inr, none, eq_refl, arith,
}
use tio.Delegate.{
  Delegate, Message, Effect, View, thing_event, is_client_of_thing, push, update_if_seen, is_active,
}
use tio.Delegate.State.{of_topic}
use tio.ThingView.{is_update, things_prefix}

-- An effect is an event that makes the view of the thing ask for its shadow.
abbrev pub updates : {P : Type 0} → (thing_id : String) → Effect P → Bool
updates thing_id (thing_event event_thing_id type about) =
    is_update thing_id event_thing_id type about
updates thing_id _ = false

any-last :
    {A : Type 0} (p : A → Bool) (xs : List A) (x : A) → p x ≡ true → any p (xs ++ x ∷ []) ≡ true
any-last p [] x h = ground arith
any-last p (y ∷ xs) x h = ground (arith, any-last p xs x h)

sent-update :
    (thing_id their topic : String) (own out : Bool)
    → out ≡ true
    → starts_with topic (things_prefix thing_id) ≡ true
    → (own ≡ true → their ≡ thing_id)
    → is_update thing_id
        (if own then their else "*")
        (if out then "message-out" else "message-in")
        (of_topic topic)
      ≡ true
sent-update thing_id their topic own false o t h = cc
sent-update thing_id their topic true true o t h = rw (h refl, eq_refl thing_id) refl
sent-update thing_id their topic false true o t h = elim (Bool-cases ("*" == thing_id)) [
  | inl e ↦ rw e refl
  | inr e ↦ rw e t
]

-- The view of a thing asks for the shadow again when a connection has sent a message on a topic of
-- the thing, be it the thing's own connection or a server's.
pub push-updates :
    {P : Type 0} (thing_id : String) (v : View) (m : Message P) (d : Delegate P)
    → m.out ≡ true
    → starts_with m.topic (things_prefix thing_id) ≡ true
    → (is_client_of_thing none d ≡ true → d.thing_id ≡ thing_id)
    → any (updates thing_id) (push v m d).1 ≡ true
unfolding push
push-updates thing_id v m d o t own =
    any-last (updates thing_id)
      (update_if_seen v (record d {
        messages = d.messages ++ m ∷ [];
        unread_message_count =
            if not (is_active v d) && not m.out then d.unread_message_count else 0;
      }))
      (thing_event (if is_client_of_thing none d then d.thing_id else "*")
        (if m.out then "message-out" else "message-in") (of_topic m.topic))
      (sent-update thing_id d.thing_id m.topic (is_client_of_thing none d) m.out o t own)
