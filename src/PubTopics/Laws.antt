-- ===== src/PubTopics/Laws.antt =====
-- What becomes of the topics that are proposed for publishing
-- (web/src/components/mqtt/PublishTopicSuggestions.vue) where they are published to as they are.
use tio.Common.{
  ℕ, ◌≡◌, refl, sym, subst, true, false, List, [], ◌∷◌, Option, none, some, String, ◌==◌, All,
  includes, starts_with, if◌then◌else◌,
}
use tio.Config.{Config}
use tio.Client.{Codec, Payload}
use tio.Notify.{notify_fail}
use tio.Delegate.{Delegate, PubOpts, notify, is_connected}
use tio.Delegate.Publish.{has_wildcard, pub_message}
use tio.PubTopics.{
  PubTopic, is_thing, suggestions, handle_select, server_pub_topics, thing_pub_topics,
}

-- A topic that is not empty and has a wildcard.
abbrev IsPattern : String → Type 0
IsPattern topic = ((topic == "") ≡ false) × (has_wildcard topic ≡ true)

patterns : All (λ t. IsPattern (t.suggestion.topic_resolver "+")) server_pub_topics
unfolding includes starts_with
patterns = ((refl, refl), ((refl, refl), ((refl, refl), ((refl, refl), ((refl, refl), tt)))))

module _ (codec : Codec) (opts : PubOpts) (payload : Payload codec.Bytes)
    (d : Delegate (Payload codec.Bytes)) where
  abbrev pub IsRefused : (topic : String) (t : PubTopic) → Type 0
  IsRefused topic t =
      pub_message codec topic (some t.payload_type) payload opts d
      ≡ (d, notify (notify_fail "Topic Cannot Contain '+' or '#'!") ∷ [])

  IsPattern-IsRefused :
      (topic : String) (t : PubTopic) → is_connected d ≡ true → IsPattern topic → IsRefused topic t
  unfolding pub_message
  IsPattern-IsRefused topic t c (n, w) = rw (c, n, w) refl

  All-IsRefused :
      (ts : List PubTopic)
      → is_connected d ≡ true
      → All (λ t. IsPattern (t.suggestion.topic_resolver "+")) ts
      → All (λ t. IsRefused (t.suggestion.topic_resolver "+") t) ts
  All-IsRefused [] c h = tt
  All-IsRefused (t ∷ ts) c (h, hs) =
      (IsPattern-IsRefused (t.suggestion.topic_resolver "+") t c h, All-IsRefused ts c hs)

  -- For a connection that is no thing's, none of the topics that are proposed can be published to as
  -- it is: once connected, the delegate refuses each with a notice, since `+` stands for the thing.
  pub handle_select-pub_message :
      (now : ℕ) (client_token : String) (conn_config : Option Config)
      → is_thing conn_config ≡ false
      → is_connected d ≡ true
      → All
          (λ t. IsRefused (handle_select now client_token conn_config t).topic t)
          (suggestions conn_config)
  handle_select-pub_message now client_token none e c = All-IsRefused server_pub_topics c patterns
  handle_select-pub_message now client_token (some config) e c =
      subst
        (λ b.
          All (λ t. IsRefused (t.suggestion.topic_resolver (if b then config.username else "+")) t)
            (if b then thing_pub_topics else server_pub_topics))
        (sym e) (All-IsRefused server_pub_topics c patterns)
