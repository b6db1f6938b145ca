-- ===== src/Delegate/Events/Laws.antt =====
-- What holds of a delegate (web/src/utils/MqttDelegate.js) whatever happens to it.
use tio.Common.{
  ℕ, zero, suc, ◌+◌, ◌-◌, ◌≤◌, ◌≡◌, sym, subst, inl, inr, Option-cases, min, ltb, Bool, false, [],
  ◌∷◌, ◌++◌, List, Option, none, some, String, ◌==◌, if◌then◌else◌, arith,
}
use tio.Config.{Config}
use tio.Client.{Codec, Payload, convert_payload_by_type}
use tio.Delegate.{
  Client, PubOpts, Message, After, Delegate, Effect, View, client_end, new_delegate, remove_topic,
  run_after, on_ended, disconnect, onconnect, onreconnect, onerror, onclose, onend, push, clear,
}
use tio.Delegate.Publish.{onmessage, on_published}
use tio.Delegate.Publish.Laws.{pub_message_lem, onmessage-plaintext}
use tio.Delegate.Subscribe.{Topics, sub, on_subscribed, unsub, on_unsubscribed}
use tio.Delegate.Events.{Event, or_same, handle, Reach, created, next}

-- What every delegate of a configuration keeps.
pub record IsSound {P : Type 0} (c : Config) (d : Delegate P) : Type 0 where
  pub id : d.id ≡ c.id
  pub role : d.role ≡ c.userrole
  pub thing_id : d.thing_id ≡ (if c.userrole == "thing" then c.username else "+")
  pub retries : d.retry_times ≤ 3
  pub unread : d.unread_message_count ≡ 0
  pub shown_as : d.received_msg_type ≡ "Plaintext"

module _ {P : Type 0} {c : Config} {d : Delegate P} (s : IsSound c d) where
  run_after-IsSound :
      (fresh : Client) (a : After) (err : Option String) → IsSound c (run_after fresh a err d).0
  unfolding run_after
  run_after-IsSound fresh a err = ground arith

  on_ended-IsSound :
      (fresh : Client) (a : After) (err : Option String) → IsSound c (on_ended fresh a err d).0
  unfolding on_ended
  on_ended-IsSound fresh a err = ground arith

  disconnect-IsSound : (fresh : Client) (a : After) → IsSound c (disconnect fresh a d).0
  unfolding disconnect
  disconnect-IsSound fresh a = ground arith

  onreconnect-IsSound : (fresh : Client) → IsSound c (onreconnect fresh d).0
  unfolding onreconnect
  onreconnect-IsSound fresh = ground arith

  push-IsSound : (v : View) (m : Message P) → IsSound c (push v m d).0
  unfolding push
  push-IsSound v m = ground arith

  on_published-IsSound :
      (v : View) (has_cb : Bool) (now topic : String) (p : P) (o : PubOpts) (err : Option String)
      → IsSound c (on_published v has_cb now topic p o err d).0
  unfolding on_published
  on_published-IsSound v has_cb now topic p o none = push-IsSound v _
  on_published-IsSound v has_cb now topic p o (some err) = s

  on_subscribed-IsSound :
      (t : Topics) (has_cb : Bool) (err : Option String) (g : Option (List ℕ))
      → IsSound c (on_subscribed t has_cb err g d).0
  unfolding on_subscribed
  on_subscribed-IsSound t has_cb err g = ground arith

  on_unsubscribed-IsSound :
      (t : List String) (has_cb : Bool) (err : Option String)
      → IsSound c (on_unsubscribed t has_cb err d).0
  unfolding on_unsubscribed
  on_unsubscribed-IsSound t has_cb err = ground arith

onmessage-IsSound :
    (codec : Codec) (fresh : Client) {c : Config} {d : Delegate (Payload codec.Bytes)}
    → IsSound c d
    → (v : View) (id now topic : String) (payload : Payload codec.Bytes) (packet : PubOpts)
    → IsSound c (or_same codec fresh d (onmessage codec v id now topic payload packet d)).0
unfolding onmessage
onmessage-IsSound codec fresh {c} {d} s v id now topic payload packet =
    elim (Option-cases
      (convert_payload_by_type codec payload d.received_msg_type (some "receive"))) [
        | inl failed ↦ rw (failed, or_same) s
        | inr (p, e) ↦ rw (e, or_same) (push-IsSound s v _)
      ]

module _ (codec : Codec) (fresh : Client) (c : Config) where
  new-IsSound : IsSound c (new_delegate {P = Payload codec.Bytes} c)
  unfolding new_delegate
  new-IsSound = ground arith

  handle-IsSound :
      {d : Delegate (Payload codec.Bytes)} (v : View) (e : Event codec.Bytes)
      → IsSound c d
      → IsSound c (handle codec fresh v e d).0
  unfolding handle sub unsub onconnect onerror onclose onend clear remove_topic
  handle-IsSound {d} v (Event.call_connect config token) s = disconnect-IsSound s fresh _
  handle-IsSound {d} v Event.call_destroy s = disconnect-IsSound s fresh _
  handle-IsSound {d} v Event.call_cancel s = disconnect-IsSound s fresh _
  handle-IsSound {d} v (Event.call_pub topic paytype payload opts) s =
      subst (IsSound c) (sym (pub_message_lem codec topic paytype payload opts d).0) s
  handle-IsSound {d} v (Event.ended after err) s = on_ended-IsSound s fresh after err
  handle-IsSound {d} v Event.reconnect_event s = onreconnect-IsSound s fresh
  handle-IsSound {d} v (Event.message_event id now topic payload packet) s =
      onmessage-IsSound codec fresh s v id now topic payload packet
  handle-IsSound {d} v (Event.published has_cb now topic payload opts err) s =
      on_published-IsSound s v has_cb now topic payload opts err
  handle-IsSound {d} v (Event.subscribed topics has_cb err granted) s =
      on_subscribed-IsSound s topics has_cb err granted
  handle-IsSound {d} v (Event.unsubscribed topics has_cb err) s =
      on_unsubscribed-IsSound s topics has_cb err
  handle-IsSound {d} v _ s = ground arith

  -- Whatever methods are called and whatever the client answers, in any order: a delegate keeps the
  -- identity of its configuration, has counted at most three retries, counts no unread message, and
  -- shows messages as plain text.
  pub Reach-IsSound : {d : Delegate (Payload codec.Bytes)} → Reach codec fresh c d → IsSound c d
  Reach-IsSound created = new-IsSound
  Reach-IsSound (next v e r) = handle-IsSound v e (Reach-IsSound r)

  -- Whatever has happened to a delegate, a message from the broker is received: it is converted by the
  -- buffer's own text and put behind the others.
  pub onmessage_received :
      {d : Delegate (Payload codec.Bytes)} (v : View) (id now topic : String)
      (payload : codec.Bytes) (packet : PubOpts)
      → Reach codec fresh c d
      → (handle codec fresh v
          (Event.message_event id now topic (Payload.bytes payload) packet)
          d).0.messages
        ≡ d.messages
          ++ record {
            id = some id;
            out = false;
            create_at = now;
            topic = topic;
            payload = Payload.text (codec.to_string none payload);
            opts = packet;
          }
            ∷ []
  unfolding handle
  onmessage_received {d} v id now topic payload packet r =
      let (s, e, m, _) =
        onmessage-plaintext codec v id now topic payload packet d (Reach-IsSound r).shown_as in
      rw e m

-- How often the effects ask the client to end.
abbrev pub count_ends : {P : Type 0} → List (Effect P) → ℕ
count_ends [] = 0
count_ends (client_end after ∷ es) = suc (count_ends es)
count_ends (e ∷ es) = count_ends es

-- The client reports `k` reconnections one after another.
pub reconnects : {P : Type 0} → Client → ℕ → Delegate P → Delegate P × List (Effect P)
reconnects fresh zero d = (d, [])
reconnects fresh (suc k) d =
    let (d', es) = onreconnect fresh d in let (d'', es') = reconnects fresh k d' in (d'', es ++ es')

count_ends-append :
    {P : Type 0} (es fs : List (Effect P)) → count_ends (es ++ fs) ≡ count_ends es + count_ends fs
count_ends-append [] fs = omega arith
count_ends-append (client_end after ∷ es) fs = omega (arith, count_ends-append es fs)
count_ends-append (e ∷ es) fs = count_ends-append es fs

module _ {P : Type 0} (fresh c : Client) where
  onreconnect_lem :
      (d : Delegate P)
      → d.client ≡ some c
      → ((onreconnect fresh d).0.client ≡ some c)
        × ((onreconnect fresh d).0.retry_times
            ≡ (if ltb d.retry_times 3 then suc d.retry_times else d.retry_times))
        × (count_ends (onreconnect fresh d).1 ≡ (if ltb d.retry_times 3 then 0 else 1))
  unfolding onreconnect
  onreconnect_lem d h = ground arith

  -- However often the client reports a reconnection in a row, the class counts up to three retries,
  -- and from the fourth report on asks the client to end each time.
  pub reconnects_bounded :
      (k : ℕ) (d : Delegate P)
      → d.client ≡ some c
      → d.retry_times ≤ 3
      → ((reconnects fresh k d).0.retry_times ≡ min (d.retry_times + k) 3)
        × (count_ends (reconnects fresh k d).1 ≡ k - (3 - d.retry_times))
  unfolding reconnects
  reconnects_bounded zero d h r = ground arith
  reconnects_bounded (suc k) d h r =
      let (same, count, ends) = onreconnect_lem d h in
      let (n, e) = reconnects_bounded k (onreconnect fresh d).0 same (ground arith) in
      (
        ground arith,
        ground (
          arith,
          count_ends-append (onreconnect fresh d).1 (reconnects fresh k (onreconnect fresh d).0).1,
        ),
      )
