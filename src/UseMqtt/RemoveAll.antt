-- ===== src/UseMqtt/RemoveAll.antt =====
-- Removing the connections of a client (`removeConnectionsByClientId` of
-- web/src/reactives/useMqtt.js).
use tio.Common.{
  ◌≡◌, ◌∙◌, refl, sym, ap, subst, Bool, true, false, not, ◌&&◌, [], ◌∷◌, List, String, ◌==◌, filter,
  All, eq_iff, eq_refl, arith,
}
use tio.Config.{Config}
use tio.Store.{ConnectionsCodec}
use tio.Delegate.{Client}
use tio.UseMqtt.{World, is_listed, remove_connection, remove_all, remove_connections_by_client_id}
use tio.UseMqtt.Remove.{DistinctIds, without, remove_connection-listed}

abbrev outside : List Config → List Config → List Config
outside cs = filter (λ c. not (is_listed c.id cs))

abbrev AllListed : List Config → List Config → Type 0
AllListed cs l = All (λ c. is_listed c.id l ≡ true) cs

outside_nil : (l : List Config) → outside [] l ≡ l
outside_nil [] = refl
outside_nil (c ∷ l) = ap (c ∷◌) (outside_nil l)

is_listed-without :
    (i j : String) (l : List Config) → is_listed i (without j l) ≡ (not (i == j) && is_listed i l)
is_listed-without i j [] = ground arith
is_listed-without i j (c ∷ l) =
    ground (arith, is_listed-without i j l, eq_iff c.id j, eq_iff c.id i, eq_iff i j)

DistinctIds-without : (j : String) (l : List Config) → DistinctIds l → DistinctIds (without j l)
DistinctIds-without j [] h = tt
DistinctIds-without j (c ∷ l) (n, h) =
    ground (arith, DistinctIds-without j l h, is_listed-without c.id j l)

outside-without :
    (c : Config) (cs l : List Config) → outside cs (without c.id l) ≡ outside (c ∷ cs) l
outside-without c cs [] = refl
outside-without c cs (e ∷ l) =
    ground (arith, outside-without c cs l, eq_iff e.id c.id, eq_iff c.id e.id)

AllListed-without :
    (i : String) (cs l : List Config)
    → is_listed i cs ≡ false
    → AllListed cs l
    → AllListed cs (without i l)
AllListed-without i [] l n h = tt
AllListed-without i (c ∷ cs) l n (p, h) = (
  is_listed-without c.id i l ∙ ground (arith, eq_iff c.id i),
  AllListed-without i cs l (ground (arith, eq_iff c.id i)) h,
)

module _ {P : Type 0} (codec : ConnectionsCodec) (fresh : Client) where
  remove_all-outside :
      (cs : List Config) (w : World P)
      → DistinctIds w.mqtt.connection_configs
      → DistinctIds cs
      → AllListed cs w.mqtt.connection_configs
      → (remove_all codec fresh cs w).mqtt.connection_configs ≡ outside cs w.mqtt.connection_configs
  unfolding remove_all
  remove_all-outside [] w h d a = sym (outside_nil w.mqtt.connection_configs)
  remove_all-outside (c ∷ cs) w h (n, d) (p, a) =
      let l = w.mqtt.connection_configs in
      let e = (remove_connection-listed codec fresh c.id w h p).0 in
      remove_all-outside cs (remove_connection codec fresh c.id w)
        (subst DistinctIds (sym e) (DistinctIds-without c.id l h)) d
        (subst (AllListed cs) (sym e) (AllListed-without c.id cs l n a))
      ∙ ap (outside cs) e
      ∙ outside-without c cs l

module _ (p : Config → Bool) where
  filter-unlisted :
      (i : String) (l : List Config) → is_listed i l ≡ false → is_listed i (filter p l) ≡ false
  filter-unlisted i [] h = refl
  filter-unlisted i (c ∷ l) h = ground (arith, filter-unlisted i l)

  DistinctIds-filter : (l : List Config) → DistinctIds l → DistinctIds (filter p l)
  DistinctIds-filter [] h = tt
  DistinctIds-filter (c ∷ l) (n, h) =
      ground (arith, DistinctIds-filter l h, filter-unlisted c.id l n)

  AllListed-cons : (c : Config) (cs l : List Config) → AllListed cs l → AllListed cs (c ∷ l)
  AllListed-cons c [] l h = tt
  AllListed-cons c (e ∷ cs) l (q, h) = (ground arith, AllListed-cons c cs l h)

  AllListed-filter : (l : List Config) → AllListed (filter p l) l
  AllListed-filter [] = tt
  AllListed-filter (c ∷ l) =
      ground (arith, AllListed-cons c (filter p l) l (AllListed-filter l), eq_refl c.id)

  outside-cons :
      (c : Config) (cs l : List Config)
      → is_listed c.id l ≡ false
      → outside (c ∷ cs) l ≡ outside cs l
  outside-cons c cs [] h = refl
  outside-cons c cs (e ∷ l) h =
      ground (arith, outside-cons c cs l, eq_iff c.id e.id, eq_iff e.id c.id)

  outside-filter :
      (l : List Config) → DistinctIds l → outside (filter p l) l ≡ filter (λ c. not (p c)) l
  outside-filter [] h = refl
  outside-filter (c ∷ l) (n, h) = ground (
    arith,
    outside-filter l h,
    outside-cons c (filter p l) l n,
    filter-unlisted c.id l n,
    eq_refl c.id,
  )

-- Where no two configurations have the same identifier, removing the connections of a client leaves
-- exactly the configurations of other clients, in their order.
pub remove_connections_by_client_id_lem :
    {P : Type 0} (codec : ConnectionsCodec) (fresh : Client) (client_id : String) (w : World P)
    → DistinctIds w.mqtt.connection_configs
    → (remove_connections_by_client_id codec fresh client_id w).mqtt.connection_configs
      ≡ filter (λ c. not (c.client_id == client_id)) w.mqtt.connection_configs
unfolding remove_connections_by_client_id
remove_connections_by_client_id_lem codec fresh client_id w h =
    let l = w.mqtt.connection_configs in
    let p = λ (c : Config). c.client_id == client_id in
    remove_all-outside codec fresh (filter p l) w h (DistinctIds-filter p l h)
      (AllListed-filter p l)
    ∙ outside-filter p l h
