-- ===== src/UseMqtt/Calls/Laws.antt =====
-- Whom the calls of the composable reach (web/src/reactives/useMqtt.js, and the registry of
-- web/src/utils/MqttDelegate.js).
use tio.Common.{
  ◌≡◌, refl, ap, Bool, true, false, [], ◌∷◌, ◌++◌, List, Option, none, some, String, ◌==◌, or_else,
  if◌then◌else◌, eq_iff, eq_refl, arith, Option-cases, Bool-cases, inl, inr,
}
use tio.Common.Dict.{get, put, get-put}
use tio.Json.{Json}
use tio.Config.{Config}
use tio.Notify.{notify_fail}
use tio.Delegate.{
  Client, Delegate, Effect, Step, notify, new_delegate, is_connected, PubOpts,
  publish as client_publish, unsubscribe as client_unsubscribe,
}
use tio.Delegate.Publish.{pub_message, clean_opts}
use tio.Delegate.Publish.Laws.{IsPublishable, pub_message_lem}
use tio.Client.{Codec, Payload}
use tio.Delegate.Subscribe.{Topics, request, sub, unsub}
use tio.UseMqtt.{
  World, run_effect, run_effects, run_method, ensure_delegate, create_delegate,
  delete_delegate_by_id, with_delegate,
}
use tio.UseMqtt.Calls.{publish, opts_for, unsubscribe, subscribe}

module _ {P : Type 0} (fresh : Client) (config : Config) (w : World P) where
  -- The delegate that a call reaches: the registered one, or else a new one of the configuration.
  abbrev pub reached : Delegate P
  reached = or_else (get config.id w.delegates) (new_delegate config)

  ensure_delegate-unknown :
      get config.id w.delegates ≡ none
      → ensure_delegate fresh config w
        ≡ record w { delegates = put config.id (new_delegate config) w.delegates }
  unfolding ensure_delegate create_delegate delete_delegate_by_id
  ensure_delegate-unknown e =
      rw (ensure_delegate, e, create_delegate, delete_delegate_by_id, e) refl

  ensure_delegate-known :
      {d : Delegate P} → get config.id w.delegates ≡ some d → ensure_delegate fresh config w ≡ w
  unfolding ensure_delegate
  ensure_delegate-known e = rw (ensure_delegate, e) refl

  get-ensure_delegate :
      (j : String)
      → get j (ensure_delegate fresh config w).delegates
        ≡ (if config.id == j then some reached else get j w.delegates)
  get-ensure_delegate j = elim (Option-cases (get config.id w.delegates)) [
    | inl e ↦
        rw (ensure_delegate-unknown e)
          (ground (arith, get-put config.id j (new_delegate {P = P} config) w.delegates))
    | inr (d, e) ↦ rw (ensure_delegate-known e) (ground (arith, eq_iff config.id j))
  ]

  ensure_delegate-rest :
      ((ensure_delegate fresh config w).mqtt ≡ w.mqtt)
      × ((ensure_delegate fresh config w).storage ≡ w.storage)
      × ((ensure_delegate fresh config w).log ≡ w.log)
  ensure_delegate-rest = elim (Option-cases (get config.id w.delegates)) [
    | inl e ↦ rw (ensure_delegate-unknown e) (refl, refl, refl)
    | inr (d, e) ↦ rw (ensure_delegate-known e) (refl, refl, refl)
  ]

  -- A call that has reached its delegate, which it leaves as it is, and has had one effect outside.
  pub record HasReached (e : Effect P) (w' : World P) : Type 0 where
    pub delegates :
        (j : String)
        → get j w'.delegates ≡ (if config.id == j then some reached else get j w.delegates)
    pub mqtt : w'.mqtt ≡ w.mqtt
    pub storage : w'.storage ≡ w.storage
    pub log : w'.log ≡ w.log ++ e ∷ []

branches :
    {P : Type 0} (b : Bool) (d : Delegate P) (x y : Effect P)
    → ◌≡◌ {A = Step P} (if b then (d, x ∷ []) else (d, y ∷ [])) (d, (if b then x else y) ∷ [])
branches true d x y = refl
branches false d x y = refl

-- The effect is not one on the store or the registry.
abbrev IsOutside : {P : Type 0} → Effect P → Type 0
IsOutside {P} e = (w : World P) → run_effect e w ≡ record w { log = w.log ++ e ∷ [] }

module _ {P : Type 0} (fresh : Client) (config : Config) (w : World P) where
  abbrev ready : World P
  ready = ensure_delegate fresh config w

  abbrev after : Effect P → World P
  after e = record ready {
    delegates = put config.id (reached fresh config w) ready.delegates;
    log = ready.log ++ e ∷ [];
  }

  run_method-reached :
      (method : Delegate P → Step P) (e : Effect P)
      → IsOutside e
      → method (reached fresh config w) ≡ (reached fresh config w, e ∷ [])
      → run_method config.id method ready ≡ after e
  unfolding run_method run_effects
  run_method-reached method e out m =
      rw (run_method, get-ensure_delegate fresh config w config.id, eq_refl config.id, m)
        (out (record ready { delegates = put config.id (reached fresh config w) ready.delegates }))

  after-HasReached : (e : Effect P) → HasReached fresh config w e (after e)
  after-HasReached e =
      let (m, s, l) = ensure_delegate-rest fresh config w in
      record {
        delegates = λ j. ground (
          arith,
          get-put config.id j (reached fresh config w) ready.delegates,
          get-ensure_delegate fresh config w j,
        );
        mqtt = m;
        storage = s;
        log = ap (λ effects. effects ++ e ∷ []) l;
      }

  with_delegate-HasReached :
      (method : Delegate P → Step P) (e : Effect P)
      → IsOutside e
      → method (reached fresh config w) ≡ (reached fresh config w, e ∷ [])
      → HasReached fresh config w e (with_delegate fresh config method w)
  unfolding with_delegate
  with_delegate-HasReached method e out m =
      rw (with_delegate, run_method-reached method e out m) (after-HasReached e)

module _ {P : Type 0} (fresh : Client) (config : Config) (w : World P) where
  -- What the client is asked for, or the notice instead.
  abbrev pub if_connected : Effect P → Effect P
  if_connected e =
      if is_connected (reached fresh config w)
      then e
      else notify (notify_fail "Client not connected")

  if_connected-IsOutside : (e : Effect P) → IsOutside e → IsOutside (if_connected e)
  unfolding run_effect
  if_connected-IsOutside e out = elim (Bool-cases (is_connected (reached fresh config w))) [
    | inl c ↦ rw c out
    | inr c ↦ rw c (λ v. refl)
  ]

  request-IsOutside :
      (topics : Topics) (opts : Option Json) → IsOutside (request {P = P} topics opts)
  unfolding run_effect
  request-IsOutside (Topics.one t) opts v = refl
  request-IsOutside (Topics.many ts) opts v = refl
  request-IsOutside (Topics.map m) opts v = refl

  -- Subscribing reaches one delegate: the one that is registered for the configuration, or a new one,
  -- made from the configuration, that is registered from then on; no other delegate, configuration or
  -- stored text changes. The one effect is the request to the client if the delegate reached is
  -- connected, and otherwise, so for every new one, the notice that it is not.
  pub subscribe-HasReached :
      (topics : Topics) (opts : Option Json)
      → HasReached fresh config w
          (if_connected (request topics (opts_for topics opts)))
          (subscribe fresh config topics opts w)
  unfolding subscribe sub
  subscribe-HasReached topics opts =
      with_delegate-HasReached fresh config w (sub topics (opts_for topics opts))
        (if_connected (request topics (opts_for topics opts)))
        (if_connected-IsOutside _ (request-IsOutside topics (opts_for topics opts)))
        (branches (is_connected (reached fresh config w)) _ _ _)

  -- The same for giving up topics, of which there is at least one.
  pub unsubscribe-HasReached :
      (t : String) (topics : List String)
      → HasReached fresh config w
          (if_connected (client_unsubscribe (t ∷ topics)))
          (unsubscribe fresh config (t ∷ topics) w)
  unfolding unsubscribe unsub run_effect
  unsubscribe-HasReached t topics =
      with_delegate-HasReached fresh config w (unsub (t ∷ topics))
        (if_connected (client_unsubscribe (t ∷ topics))) (if_connected-IsOutside _ (λ v. refl))
        (branches (is_connected (reached fresh config w)) _ _ _)

pair_eq : {A B : Type 0} (p : A × B) (a : A) (b : B) → p.0 ≡ a → p.1 ≡ b → p ≡ (a, b)
pair_eq p a b e f = cc

-- Publishing a message that the class accepts reaches one delegate, the registered one or a new one that
-- is registered from then on; no other delegate, configuration or stored text changes, and the one
-- effect is the client's publication of the payload as it was given.
pub publish-HasReached :
    (codec : Codec) (fresh : Client) (config : Config) (w : World (Payload codec.Bytes))
    (topic : String) (paytype : Option String) (payload : Payload codec.Bytes) (opts : PubOpts)
    → IsPublishable topic opts (reached fresh config w)
    → HasReached fresh config w
        (client_publish topic payload (clean_opts opts))
        (publish codec fresh config topic paytype payload opts w)
unfolding publish run_effect
publish-HasReached codec fresh config w topic paytype payload opts h =
    let (same, sent) = pub_message_lem codec topic paytype payload opts (reached fresh config w) in
    with_delegate-HasReached fresh config w (pub_message codec topic paytype payload opts)
      (client_publish topic payload (clean_opts opts)) (λ v. refl) (pair_eq _ _ _ same (sent.1 h))
