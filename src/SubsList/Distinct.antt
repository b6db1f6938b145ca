-- ===== src/SubsList/Distinct.antt =====
-- That no topic is configured twice (web/src/components/mqtt/Subcriptions.vue, `submitForm`).
use tio.Common.{
  ◌≡◌, refl, sym, subst, Bool, true, false, ◌&&◌, List, [], Option, none, some, String, ◌==◌, find,
  if◌then◌else◌, or_else, Bool-cases, Option-cases, inl, inr,
}
use tio.Json.{Json}
use tio.Config.{Config}
use tio.Subs.{SubConfig}
use tio.Delegate.{Client, remove_topic as remove_topic_of}
use tio.Delegate.Subscribe.{Topics}
use tio.UseMqtt.{World, view, has_id, is_listed, get_conn_config, remove_topic}
use tio.UseMqtt.Frame.{Keeps, with_delegate-Keeps, run_method-Keeps}
use tio.UseMqtt.Calls.{subscribe}
use tio.UseMqtt.Subscribing.{DistinctTopics, find-replace_config}
use tio.SubsForm.{Form}
use tio.SubsList.{State, has_sub_id, edited, is_conflict, opts_of}
use tio.SubsList.Actions.{
  conn_config, submit, submit_to, submit_with, submit_edit, submit_form, remove_if_other, written,
}
use tio.SubsList.Laws.{DistinctIds, edit_sub-DistinctTopics, edit_sub-DistinctIds}
use tio.SubsList.Stored.{conn_config-listed}

abbrev pub subs_of : Option Config → List (SubConfig Json)
subs_of none = []
subs_of (some c) = or_else c.subscriptions []

-- No topic and no identifier is there twice.
pub record AllDistinct (subs : List (SubConfig Json)) : Type 0 where
  pub topics : DistinctTopics subs
  pub ids : DistinctIds subs

if-Distinct :
    (b : Bool) (c d : Option Config)
    → AllDistinct (subs_of c)
    → AllDistinct (subs_of d)
    → AllDistinct (subs_of (if b then c else d))
if-Distinct true c d h k = h
if-Distinct false c d h k = k

module _ {P : Type 0} where
  -- No connection has a topic or an identifier of subscriptions configured twice.
  pub record IsDistinct (w : World P) : Type 0 where
    pub subs : (j : String) → AllDistinct (subs_of (get_conn_config j w))

  Keeps-IsDistinct : (w w' : World P) → Keeps w w' → IsDistinct w → IsDistinct w'
  Keeps-IsDistinct w w' k h = record {
    subs = λ j. subst (λ cs. AllDistinct (subs_of (find (has_id j) cs))) (sym k.0) (h.subs j);
  }

  written-IsDistinct :
      (c : Config) (w : World P)
      → AllDistinct (or_else c.subscriptions [])
      → IsDistinct w
      → IsDistinct (written c w)
  written-IsDistinct c w d h = record {
    subs = λ j. rw (find-replace_config c.id j c w.mqtt.connection_configs refl) (
        if-Distinct (is_listed c.id w.mqtt.connection_configs && c.id == j) (some c)
          (get_conn_config j w) d (h.subs j));
  }

  module _ (fresh : Client) (tool : String) (thing : Option String) where
    remove_if_other-IsDistinct :
        (f : Form) (c : Config) (old : String) (w : World P)
        → IsDistinct w
        → IsDistinct (remove_if_other fresh tool thing f c old w)
    unfolding remove_topic
    remove_if_other-IsDistinct f c old w h = elim (Bool-cases (f.topic == old)) [
      | inl e ↦ rw e h
      | inr e ↦ rw e (
          Keeps-IsDistinct w (remove_topic fresh tool thing c old w)
            (run_method-Keeps c.id (remove_topic_of (view tool thing w) old) w) h)
    ]

    subscribe-IsDistinct :
        (c : Config) (topics : Topics) (opts : Option Json) (w : World P)
        → IsDistinct w
        → IsDistinct (subscribe fresh c topics opts w)
    unfolding subscribe
    subscribe-IsDistinct c topics opts w h =
        Keeps-IsDistinct w (subscribe fresh c topics opts w) (with_delegate-Keeps fresh c _ w) h

    submit_edit-IsDistinct :
        (f : Form) (c : Config) (subs : List (SubConfig Json)) (w : World P)
        → AllDistinct subs
        → is_conflict f subs ≡ false
        → IsDistinct w
        → IsDistinct (submit_edit fresh tool thing f c subs w)
    unfolding submit_edit
    submit_edit-IsDistinct f c subs w d n h = elim (Option-cases (find (has_sub_id f.id) subs)) [
      | inl e ↦ rw (e, submit_edit) h
      | inr (s, e) ↦
          rw (e, submit_edit)
            (remove_if_other-IsDistinct f (edited f c subs) s.topic _ (
              subscribe-IsDistinct (edited f c subs) (Topics.one f.topic) (some (opts_of f)) _ (
                written-IsDistinct (edited f c subs) w
                  (record {
                    topics = edit_sub-DistinctTopics f (opts_of f) subs d.ids d.topics n;
                    ids = edit_sub-DistinctIds f.id f.name f.topic (opts_of f) subs d.ids;
                  })
                  h)))
    ]

    submit-IsDistinct :
        (f : Form) (c : Config) (subs : List (SubConfig Json)) (st : State P)
        → AllDistinct subs
        → IsDistinct st.world
        → IsDistinct (submit fresh tool thing f c subs st).world
    unfolding submit
    submit-IsDistinct f c subs st d h = elim (Bool-cases (is_conflict f subs)) [
      | inl e ↦ rw e h
      | inr e ↦ elim (Bool-cases (f.id == "")) [
        | inl n ↦
            rw (e, n) (subscribe-IsDistinct c (Topics.one f.topic) (some (opts_of f)) st.world h)
        | inr n ↦ rw (e, n) (submit_edit-IsDistinct f c subs st.world d e h)
      ]
    ]

    submit_with-IsDistinct :
        (f : Form) (c : Config) (o : Option (List (SubConfig Json))) (st : State P)
        → AllDistinct (or_else o [])
        → IsDistinct st.world
        → IsDistinct (submit_with fresh tool thing f c o st).world
    submit_with-IsDistinct f c none st d h = h
    submit_with-IsDistinct f c (some subs) st d h = submit-IsDistinct f c subs st d h

    submit_to-IsDistinct :
        (f : Form) (o : Option Config) (st : State P)
        → conn_config st.world ≡ o
        → IsDistinct st.world
        → IsDistinct (submit_to fresh tool thing f o st).world
    submit_to-IsDistinct f none st e h = h
    submit_to-IsDistinct f (some c) st e h =
        submit_with-IsDistinct f c c.subscriptions st
          (subst (λ o. AllDistinct (subs_of o)) (conn_config-listed st.world c e).2 (h.subs c.id)) h

    -- Where no connection has a topic or an identifier of subscriptions configured twice, this is so
    -- after the form of a subscription is submitted: an edit that is written is no conflict, a refused
    -- form writes nothing, and a new subscription, which is written once the client has answered, is
    -- only asked for.
    pub submit_form-IsDistinct :
        (f : Form) (st : State P)
        → IsDistinct st.world
        → IsDistinct (submit_form fresh tool thing f st).world
    unfolding submit_form
    submit_form-IsDistinct f st h = submit_to-IsDistinct f (conn_config st.world) st refl h
