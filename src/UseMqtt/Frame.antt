-- ===== src/UseMqtt/Frame.antt =====
-- What the methods of a delegate leave alone in the store (web/src/reactives/useMqtt.js): the
-- configurations, the stored copy of them, and the current connection.
use tio.Common.{◌≡◌, ◌∙◌, refl, [], ◌∷◌, List, none, some, String, Option-cases, inl, inr, arith}
use tio.Common.Dict.{get, put}
use tio.Config.{Config}
use tio.Store.{update_delegate_states}
use tio.Delegate.{Client, Delegate, Effect, Step, update_states, set_connecting, destroy}
use tio.UseMqtt.{
  World, run_effect, run_effects, run_method, delete_delegate_by_id, ensure_delegate, with_delegate,
}

abbrev pub Keeps : {P : Type 0} → World P → World P → Type 0
Keeps w w' =
    (w'.mqtt.connection_configs ≡ w.mqtt.connection_configs)
    × (w'.mqtt.current_conn_id ≡ w.mqtt.current_conn_id)
    × (w'.storage ≡ w.storage)

Keeps-trans : {P : Type 0} (u v w : World P) → Keeps u v → Keeps v w → Keeps u w
Keeps-trans u v w (a, b, c) (a', b', c') = (a' ∙ a, b' ∙ b, c' ∙ c)

module _ {P : Type 0} where
  run_effect-Keeps : (e : Effect P) (w : World P) → Keeps w (run_effect e w)
  unfolding run_effect update_delegate_states
  run_effect-Keeps (update_states id none) w = (refl, refl, refl)
  run_effect-Keeps (update_states id (some s)) w = (refl, refl, refl)
  run_effect-Keeps (set_connecting n) w = (refl, refl, refl)
  run_effect-Keeps _ w = (refl, refl, refl)

  run_effects-Keeps : (es : List (Effect P)) (w : World P) → Keeps w (run_effects es w)
  unfolding run_effects
  run_effects-Keeps [] w = (refl, refl, refl)
  run_effects-Keeps (e ∷ es) w =
      Keeps-trans w (run_effect e w) (run_effects es (run_effect e w)) (run_effect-Keeps e w)
        (run_effects-Keeps es (run_effect e w))

  pub run_method-Keeps :
      (id : String) (method : Delegate P → Step P) (w : World P) → Keeps w (run_method id method w)
  unfolding run_method
  run_method-Keeps id method w = elim (Option-cases (get id w.delegates)) [
    | inl absent ↦ rw (absent, run_method) (refl, refl, refl)
    | inr (d, found) ↦
        rw (found, run_method)
          (run_effects-Keeps (method d).1
            (record w { delegates = put id (method d).0 w.delegates }))
  ]

module _ {P : Type 0} (fresh : Client) where
  pub delete_delegate_by_id-Keeps :
      (id : String) (w : World P) → Keeps w (delete_delegate_by_id fresh id w)
  unfolding delete_delegate_by_id run_method
  delete_delegate_by_id-Keeps id w = ground (arith, run_method-Keeps id (destroy fresh) w)

  ensure_delegate-Keeps : (c : Config) (w : World P) → Keeps w (ensure_delegate fresh c w)
  unfolding ensure_delegate
  ensure_delegate-Keeps c w = ground (arith, delete_delegate_by_id-Keeps c.id w)

  pub with_delegate-Keeps :
      (c : Config) (method : Delegate P → Step P) (w : World P)
      → Keeps w (with_delegate fresh c method w)
  unfolding with_delegate
  with_delegate-Keeps c method w =
      Keeps-trans w (ensure_delegate fresh c w) (with_delegate fresh c method w)
        (ensure_delegate-Keeps c w) (run_method-Keeps c.id method (ensure_delegate fresh c w))
