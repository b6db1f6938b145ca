-- ===== src/UseMqtt/Life/Registry.antt =====
-- The registry of delegates (web/src/utils/MqttDelegate.js) holds what its own functions put there.
use mathlib.Core.List.{Memᴰ}
use tio.Common.{
  ◌≡◌, ◌≢◌, ◌⊎◌, ◌∙◌, refl, sym, subst, Bool, true, false, [], ◌∷◌, List, Option, none, some,
  String, ◌==◌, if◌then◌else◌, eq_iff, Option-cases, inl, inr,
}
use tio.Common.Dict.{Dict, get, put, del, get-put, get-del}
use tio.Config.{Config}
use tio.Client.{Codec, Payload}
use tio.Delegate.{
  Client, Delegate, Effect, Step, delete_delegate, update_states, set_connecting, new_delegate,
  destroy, View,
}
use tio.Delegate.Events.{Event, Reach, created, handle}
use tio.UseMqtt.{
  World, run_effect, run_effects, run_method, delete_delegate_by_id, create_delegate,
  ensure_delegate, create_delegates, with_delegate,
}

chosen :
    {A : Type 0} (b : Bool) (x y : Option A) (a : A)
    → (if b then x else y) ≡ some a
    → ((b ≡ true) × (x ≡ some a)) ⊎ ((b ≡ false) × (y ≡ some a))
chosen true x y a e = inl (refl, e)
chosen false x y a e = inr (refl, e)

some_injective : {A : Type 0} {a b : A} → some a ≡ some b → a ≡ b
some_injective e = cc

pub none-some : {A : Type 0} {a : A} → none ≢ some a
none-some e = cc

module _ (codec : Codec) (fresh : Client) where
  abbrev any_view : View
  any_view = record { active_tool_key = ""; current_conn_id = none; current_thing_id = none }

  -- What happens whatever the store shows.
  pub reached :
      {c : Config} {d : Delegate (Payload codec.Bytes)} (e : Event codec.Bytes)
      → Reach codec fresh c d
      → Reach codec fresh c (handle codec fresh any_view e d).0
  reached e r = Reach.next any_view e r

  -- A method that only does what may happen to a delegate.
  abbrev pub IsCovered : (Delegate (Payload codec.Bytes) → Step (Payload codec.Bytes)) → Type 0
  IsCovered method =
      (c : Config) (d : Delegate (Payload codec.Bytes))
      → Reach codec fresh c d
      → Reach codec fresh c (method d).0

  pub destroy-IsCovered : IsCovered (destroy fresh)
  unfolding handle
  destroy-IsCovered c d r = reached Event.call_destroy r

module _ (codec : Codec) (fresh : Client) (HasBeen : Config → Type 0) where
  -- A delegate that has come to be for a configuration of this identifier that
  -- has been there.
  abbrev pub IsOwn : String → Delegate (Payload codec.Bytes) → Type 0
  IsOwn id d = (c : Config) × (c.id ≡ id) × HasBeen c × Reach codec fresh c d

  unfoldable pub AllOwn : Dict (Delegate (Payload codec.Bytes)) → Type 0
  AllOwn ds = (id : String) (d : Delegate (Payload codec.Bytes)) → get id ds ≡ some d → IsOwn id d

  put-AllOwn :
      (k : String) (d : Delegate (Payload codec.Bytes)) (ds : Dict (Delegate (Payload codec.Bytes)))
      → IsOwn k d
      → AllOwn ds
      → AllOwn (put k d ds)
  unfolding AllOwn
  put-AllOwn k d ds own all id d' e =
      elim (chosen (k == id) (some d) (get id ds) d' (sym (get-put k id d ds) ∙ e)) [
        | inl (same, e') ↦
            subst (λ x. IsOwn id x) (some_injective e')
              (subst (λ j. IsOwn j d) ((eq_iff k id).0 same) own)
        | inr (other, e') ↦ all id d' e'
      ]

  del-AllOwn :
      (k : String) (ds : Dict (Delegate (Payload codec.Bytes))) → AllOwn ds → AllOwn (del k ds)
  unfolding AllOwn
  del-AllOwn k ds all id d e =
      elim (chosen (k == id) none (get id ds) d (sym (get-del k id ds) ∙ e)) [
        | inl (same, e') ↦ absurd (none-some e')
        | inr (other, e') ↦ all id d e'
      ]

  run_effect-AllOwn :
      (e : Effect (Payload codec.Bytes)) (w : World (Payload codec.Bytes))
      → AllOwn w.delegates
      → AllOwn (run_effect e w).delegates
  unfolding run_effect
  run_effect-AllOwn (delete_delegate id) w all = del-AllOwn id w.delegates all
  run_effect-AllOwn (update_states id none) w all = all
  run_effect-AllOwn (update_states id (some s)) w all = all
  run_effect-AllOwn (set_connecting n) w all = all
  run_effect-AllOwn _ w all = all

  run_effects-AllOwn :
      (es : List (Effect (Payload codec.Bytes))) (w : World (Payload codec.Bytes))
      → AllOwn w.delegates
      → AllOwn (run_effects es w).delegates
  unfolding run_effects
  run_effects-AllOwn [] w all = all
  run_effects-AllOwn (e ∷ es) w all =
      run_effects-AllOwn es (run_effect e w) (run_effect-AllOwn e w all)

  pub run_method-AllOwn :
      (id : String) (method : Delegate (Payload codec.Bytes) → Step (Payload codec.Bytes))
      (w : World (Payload codec.Bytes))
      → IsCovered codec fresh method
      → AllOwn w.delegates
      → AllOwn (run_method id method w).delegates
  unfolding run_method AllOwn
  run_method-AllOwn id method w covered all = elim (Option-cases (get id w.delegates)) [
    | inl e ↦ rw (run_method, e) all
    | inr (d, e) ↦
        let (c, same, been, r) = all id d e in
        rw (run_method, e)
          (run_effects-AllOwn (method d).1
            (record w { delegates = put id (method d).0 w.delegates })
            (put-AllOwn id (method d).0 w.delegates (c, same, been, covered c d r) all))
  ]

  delete_delegate_by_id-AllOwn :
      (id : String) (w : World (Payload codec.Bytes))
      → AllOwn w.delegates
      → AllOwn (delete_delegate_by_id fresh id w).delegates
  unfolding delete_delegate_by_id
  delete_delegate_by_id-AllOwn id w all = elim (Option-cases (get id w.delegates)) [
    | inl e ↦ rw (delete_delegate_by_id, e) all
    | inr (d, e) ↦
        rw (delete_delegate_by_id, e)
          (del-AllOwn id (run_method id (destroy fresh) w).delegates
            (run_method-AllOwn id (destroy fresh) w (destroy-IsCovered codec fresh) all))
  ]

  create_delegate-AllOwn :
      (c : Config) (w : World (Payload codec.Bytes))
      → HasBeen c
      → AllOwn w.delegates
      → AllOwn (create_delegate fresh c w).delegates
  unfolding create_delegate
  create_delegate-AllOwn c w been all =
      put-AllOwn c.id (new_delegate c) (delete_delegate_by_id fresh c.id w).delegates
        (c, refl, been, created) (delete_delegate_by_id-AllOwn c.id w all)

  pub create_delegates-AllOwn :
      (cs : List Config) (w : World (Payload codec.Bytes))
      → ((c : Config) → Memᴰ c cs → HasBeen c)
      → AllOwn w.delegates
      → AllOwn (create_delegates fresh cs w).delegates
  unfolding create_delegates
  create_delegates-AllOwn [] w been all = all
  create_delegates-AllOwn (c ∷ cs) w been all =
      create_delegates-AllOwn cs (create_delegate fresh c w) (λ k m. been k (Memᴰ.tail m))
        (create_delegate-AllOwn c w (been c (Memᴰ.head refl)) all)

  ensure_delegate-AllOwn :
      (c : Config) (w : World (Payload codec.Bytes))
      → HasBeen c
      → AllOwn w.delegates
      → AllOwn (ensure_delegate fresh c w).delegates
  unfolding ensure_delegate
  ensure_delegate-AllOwn c w been all = elim (Option-cases (get c.id w.delegates)) [
    | inl e ↦ rw (ensure_delegate, e) (create_delegate-AllOwn c w been all)
    | inr (d, e) ↦ rw (ensure_delegate, e) all
  ]

  pub with_delegate-AllOwn :
      (c : Config) (method : Delegate (Payload codec.Bytes) → Step (Payload codec.Bytes))
      (w : World (Payload codec.Bytes))
      → HasBeen c
      → IsCovered codec fresh method
      → AllOwn w.delegates
      → AllOwn (with_delegate fresh c method w).delegates
  unfolding with_delegate
  with_delegate-AllOwn c method w been covered all =
      run_method-AllOwn c.id method (ensure_delegate fresh c w) covered
        (ensure_delegate-AllOwn c w been all)
