-- ===== src/UseMqtt/Life/Laws.antt =====
-- What holds of every registered delegate (web/src/reactives/useMqtt.js, web/src/utils/MqttDelegate.js).
use mathlib.Core.List.{Memᴰ}
use tio.Common.{
  refl, subst, ◌≡◌, Bool, true, false, [], ◌∷◌, List, some, String, ◌==◌, if◌then◌else◌, Bool-cases,
  inl, inr,
}
use tio.Common.Dict.{Dict, get}
use tio.Config.{Config}
use tio.Client.{Codec, Payload}
use tio.Store.{ConnectionsCodec}
use tio.Delegate.{Client, Delegate, destroy, cancel, connect as connect_client}
use tio.Delegate.Events.{Event, Reach, handle}
use tio.Delegate.Publish.{pub_message}
use tio.Delegate.Subscribe.{sub, unsub}
use tio.UseMqtt.{
  World, get_conn_configs_by_client_id, view, clear_messages, remove_topic,
  remove_connections_by_client_id, published_config, subscribed_config, disconn, connect,
  select_connection, select_first, read_and_show, set_conn_config, update_configs, splice,
  remove_connection, remove_all, with_delegate,
}
use tio.UseMqtt.Calls.{publish, subscribe, unsubscribe, opts_for}
use tio.Delegate.Events.Laws.{IsSound, Reach-IsSound}
use tio.UseMqtt.Remove.{removed_lem}
use tio.UseMqtt.{remove_first, drop_last, is_listed}
use tio.UseMqtt.Life.{
  HasBeen, IsHanded, writes, restored, Action, disconns, selects, connects, clears, removes_topic,
  sets_config, removes, removes_client, publishes, published, subscribes, subscribed, unsubscribes,
  happens, act, Life, loaded, next,
}
use tio.UseMqtt.Life.Registry.{
  AllOwn, none-some, reached, destroy-IsCovered, run_method-AllOwn, create_delegates-AllOwn,
  with_delegate-AllOwn,
}

if-Mem :
    (c : Config) (b : Bool) (x y z : List Config)
    → (Memᴰ c x → Memᴰ c z)
    → (Memᴰ c y → Memᴰ c z)
    → Memᴰ c (if b then x else y)
    → Memᴰ c z
if-Mem c true x y z f g m = f m
if-Mem c false x y z f g m = g m

cons-Mem :
    (c d : Config) (xs ys : List Config)
    → (Memᴰ c xs → Memᴰ c ys)
    → Memᴰ c (d ∷ xs)
    → Memᴰ c (d ∷ ys)
cons-Mem c d xs ys f (Memᴰ.head e) = Memᴰ.head e
cons-Mem c d xs ys f (Memᴰ.tail m) = Memᴰ.tail (f m)

remove_first-Mem :
    (id : String) (c : Config) (cs : List Config) → Memᴰ c (remove_first id cs) → Memᴰ c cs
unfolding remove_first
remove_first-Mem id c [] m = m
remove_first-Mem id c (d ∷ cs) m =
    if-Mem c (d.id == id) cs (d ∷ remove_first id cs) (d ∷ cs) (λ n. Memᴰ.tail n)
      (cons-Mem c d (remove_first id cs) cs (remove_first-Mem id c cs)) m

drop_last-Mem : (c : Config) (cs : List Config) → Memᴰ c (drop_last cs) → Memᴰ c cs
drop_last-Mem c [] m = m
drop_last-Mem c (d ∷ []) m = Memᴰ.tail m
drop_last-Mem c (d ∷ e ∷ cs) m =
    cons-Mem c d (drop_last (e ∷ cs)) (e ∷ cs) (drop_last-Mem c (e ∷ cs)) m

splice-Mem : (id : String) (c : Config) (cs : List Config) → Memᴰ c (splice id cs) → Memᴰ c cs
unfolding splice
splice-Mem id c cs m =
    if-Mem c (is_listed id cs) (remove_first id cs) (drop_last cs) cs (remove_first-Mem id c cs)
      (drop_last-Mem c cs) m

module _ (codec : Codec) (fresh : Client) (Been : Config → Type 0) where
  either-AllOwn :
      (b : Bool) (v w : World (Payload codec.Bytes))
      → AllOwn codec fresh Been v.delegates
      → AllOwn codec fresh Been w.delegates
      → AllOwn codec fresh Been (if b then v else w).delegates
  either-AllOwn true v w all all' = all
  either-AllOwn false v w all all' = all'

  disconn-AllOwn :
      (c : Config) (w : World (Payload codec.Bytes))
      → Been c
      → AllOwn codec fresh Been w.delegates
      → AllOwn codec fresh Been (disconn fresh c w).delegates
  unfolding disconn handle
  disconn-AllOwn c w been all =
      either-AllOwn w.mqtt.connecting w (with_delegate fresh c (cancel fresh) w) all (
        with_delegate-AllOwn codec fresh Been c (cancel fresh) w been
          (λ c d r. reached codec fresh Event.call_cancel r) all)

  connect-AllOwn :
      (c : Config) (token : String) (w : World (Payload codec.Bytes))
      → Been c
      → AllOwn codec fresh Been w.delegates
      → AllOwn codec fresh Been (connect fresh c token w).delegates
  unfolding connect handle
  connect-AllOwn c token w been all =
      either-AllOwn w.mqtt.connecting w (with_delegate fresh c (connect_client fresh c token) w) all
        (with_delegate-AllOwn codec fresh Been c (connect_client fresh c token) w been
          (λ c' d r. reached codec fresh (Event.call_connect c token) r) all)

  select_connection-AllOwn :
      (c : Config) (w : World (Payload codec.Bytes))
      → Been c
      → AllOwn codec fresh Been w.delegates
      → AllOwn codec fresh Been (select_connection fresh c w).delegates
  unfolding select_connection handle
  select_connection-AllOwn c w been all =
      with_delegate-AllOwn codec fresh Been c read_and_show w been
        (λ c' d r. reached codec fresh Event.call_read r) all

  set_conn_config-AllOwn :
      (stored : ConnectionsCodec) (new_id id : String) (c : Config)
      (w : World (Payload codec.Bytes))
      → Been (record c { id = new_id })
      → AllOwn codec fresh Been w.delegates
      → AllOwn codec fresh Been (set_conn_config stored fresh new_id id c w).0.delegates
  unfolding set_conn_config update_configs
  set_conn_config-AllOwn stored new_id id c w been all = elim (Bool-cases (id == "")) [
    | inl e ↦ rw (set_conn_config, e) (disconn-AllOwn (record c { id = new_id }) w been all)
    | inr e ↦ rw (set_conn_config, e) all
  ]

  select_first-AllOwn :
      (cs : List Config) (w : World (Payload codec.Bytes))
      → ((c : Config) → Memᴰ c cs → Been c)
      → AllOwn codec fresh Been w.delegates
      → AllOwn codec fresh Been (select_first fresh cs w).delegates
  select_first-AllOwn [] w been all = all
  select_first-AllOwn (c ∷ cs) w been all =
      select_connection-AllOwn c w (been c (Memᴰ.head refl)) all

  remove_connection-AllOwn :
      (stored : ConnectionsCodec) (id : String) (w : World (Payload codec.Bytes))
      → ((c : Config) → Memᴰ c w.mqtt.connection_configs → Been c)
      → AllOwn codec fresh Been w.delegates
      → AllOwn codec fresh Been (remove_connection stored fresh id w).delegates
  unfolding remove_connection update_configs
  remove_connection-AllOwn stored id w been all =
      run_method-AllOwn codec fresh Been id (destroy fresh) _ (destroy-IsCovered codec fresh) (
        select_first-AllOwn (splice id w.mqtt.connection_configs) w
          (λ c m. been c (splice-Mem id c w.mqtt.connection_configs m)) all)

  remove_all-AllOwn :
      (stored : ConnectionsCodec) (cs : List Config) (w : World (Payload codec.Bytes))
      → ((c : Config) → Memᴰ c w.mqtt.connection_configs → Been c)
      → AllOwn codec fresh Been w.delegates
      → AllOwn codec fresh Been (remove_all stored fresh cs w).delegates
  unfolding remove_all
  remove_all-AllOwn stored [] w been all = all
  remove_all-AllOwn stored (c ∷ cs) w been all =
      remove_all-AllOwn stored cs (remove_connection stored fresh c.id w)
        (λ k m. been k (
          splice-Mem c.id k w.mqtt.connection_configs
            (subst (λ l. Memᴰ k l) (removed_lem stored fresh c.id w).0 m)))
        (remove_connection-AllOwn stored c.id w been all)

  act-AllOwn :
      (stored : ConnectionsCodec) (a : Action codec.Bytes) (w : World (Payload codec.Bytes))
      → ((c : Config) → Memᴰ c w.mqtt.connection_configs → Been c)
      → ((c : Config) → IsHanded codec stored fresh a c → Been c)
      → AllOwn codec fresh Been w.delegates
      → AllOwn codec fresh Been (act codec stored fresh a w).delegates
  unfolding act handle clear_messages remove_topic remove_connections_by_client_id published_config
      subscribed_config publish subscribe unsubscribe
  act-AllOwn stored (disconns c) w been handed all = disconn-AllOwn c w (handed c refl) all
  act-AllOwn stored (selects c) w been handed all = select_connection-AllOwn c w (handed c refl) all
  act-AllOwn stored (connects c token) w been handed all =
      connect-AllOwn c token w (handed c refl) all
  act-AllOwn stored (clears tool thing c) w been handed all =
      with_delegate-AllOwn codec fresh Been c
        (handle codec fresh (view tool thing w) Event.call_clear) w (handed c refl)
        (λ c' d r. Reach.next (view tool thing w) Event.call_clear r) all
  act-AllOwn stored (removes_topic tool thing c topic) w been handed all =
      run_method-AllOwn codec fresh Been c.id
        (handle codec fresh (view tool thing w) (Event.call_remove_topic topic)) w
        (λ c' d r. Reach.next (view tool thing w) (Event.call_remove_topic topic) r) all
  act-AllOwn stored (sets_config new_id id c) w been handed all =
      set_conn_config-AllOwn stored new_id id c w (handed _ refl) all
  act-AllOwn stored (removes id) w been handed all = remove_connection-AllOwn stored id w been all
  act-AllOwn stored (removes_client client_id) w been handed all =
      remove_all-AllOwn stored (get_conn_configs_by_client_id client_id w) w been all
  act-AllOwn stored (publishes c topic paytype payload opts) w been handed all =
      with_delegate-AllOwn codec fresh Been c (pub_message codec topic paytype payload opts) w
        (handed c refl)
        (λ c' d r. reached codec fresh (Event.call_pub topic paytype payload opts) r) all
  act-AllOwn stored (published new_id props c) w been handed all =
      set_conn_config-AllOwn stored new_id c.id _ w (handed _ refl) all
  act-AllOwn stored (subscribes c topics opts) w been handed all =
      with_delegate-AllOwn codec fresh Been c (sub topics (opts_for topics opts)) w (handed c refl)
        (λ c' d r. reached codec fresh (Event.call_sub topics (opts_for topics opts)) r) all
  act-AllOwn stored (subscribed new_id fresh_id topics configs c) w been handed all =
      set_conn_config-AllOwn stored new_id c.id _ w (handed _ refl) all
  act-AllOwn stored (unsubscribes c []) w been handed all = all
  act-AllOwn stored (unsubscribes c (t ∷ topics)) w been handed all =
      with_delegate-AllOwn codec fresh Been c (unsub (t ∷ topics)) w (handed c refl)
        (λ c' d r. reached codec fresh (Event.call_unsub (t ∷ topics)) r) all
  act-AllOwn stored (writes c) w been handed all = all
  act-AllOwn stored (happens id v e) w been handed all =
      run_method-AllOwn codec fresh Been id (handle codec fresh v e) w (λ c d r. Reach.next v e r)
        all

AllOwn-more :
    (codec : Codec) (fresh : Client) (P Q : Config → Type 0)
    (ds : Dict (Delegate (Payload codec.Bytes)))
    → ((c : Config) → P c → Q c)
    → AllOwn codec fresh P ds
    → AllOwn codec fresh Q ds
unfolding AllOwn
AllOwn-more codec fresh P Q ds more all id d e =
    let (c, same, been, r) = all id d e in (c, same, more c been, r)

Life-AllOwn :
    (codec : Codec) (stored : ConnectionsCodec) (fresh : Client) {w : World (Payload codec.Bytes)}
    (l : Life codec stored fresh w)
    → AllOwn codec fresh (HasBeen codec stored fresh l) w.delegates
unfolding AllOwn get
Life-AllOwn codec stored fresh (loaded storage) =
    create_delegates-AllOwn codec fresh (HasBeen codec stored fresh (loaded storage))
      (restored codec stored fresh storage).mqtt.connection_configs
      (restored codec stored fresh storage) (λ c m. m) (λ id d e. absurd (none-some e))
Life-AllOwn codec stored fresh (next {w} a l) =
    act-AllOwn codec fresh (HasBeen codec stored fresh (next a l)) stored a w (λ c m. inl m)
      (λ c h. inr (inl h))
      (AllOwn-more codec fresh (HasBeen codec stored fresh l)
        (HasBeen codec stored fresh (next a l)) w.delegates (λ c b. inr (inr b))
        (Life-AllOwn codec stored fresh l))

-- Whatever components do with connections and whatever happens to them, in any order since the page was
-- loaded: a delegate that is registered under an identifier has the identity, the role and the thing of
-- a configuration with that identifier which has been in the store, or which a call was handed; it has
-- counted three retries at most and no unread message, and shows messages as plain text.
pub Life-IsSound :
    (codec : Codec) (stored : ConnectionsCodec) (fresh : Client) {w : World (Payload codec.Bytes)}
    (id : String) (d : Delegate (Payload codec.Bytes)) (l : Life codec stored fresh w)
    → get id w.delegates ≡ some d
    → (c : Config) × (c.id ≡ id) × HasBeen codec stored fresh l c × IsSound c d
unfolding AllOwn
Life-IsSound codec stored fresh id d l e =
    let (c, same, been, r) = Life-AllOwn codec stored fresh l id d e in
    (c, same, been, Reach-IsSound codec fresh c r)
