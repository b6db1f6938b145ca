-- ===== src/Tables/Laws.antt =====
-- That the pages of the log are the log, and what deleting a thing in a table leaves.
use tio.Common.{
  ℕ, suc, zero, ◌+◌, ◌-◌, ◌*◌, ◌≤◌, ◌≡◌, refl, sym, ap, subst, ◌∙◌, Bool, true, false, not, List,
  [], ◌∷◌, ◌++◌, filter, length, length-append, String, ◌==◌, if◌then◌else◌, arith,
}
use tio.Store.{ConnectionsCodec}
use tio.Things.{del_thing}
use tio.Delegate.{Client}
use tio.UseMqtt.Remove.{DistinctIds}
use tio.UseMqtt.RemoveAll.{remove_connections_by_client_id_lem}
use tio.Tables.{Screen, delete_thing, thing_deleted}
use tio.Tables.Logs.{take, drop, logs}

module _ {ℓ} {A : Type ℓ} where
  take-nil : (n : ℕ) → take {A = A} n [] ≡ []
  take-nil zero = refl
  take-nil (suc n) = refl

  take-add : (a b : ℕ) (l : List A) → take (a + b) l ≡ take a l ++ take b (drop a l)
  take-add zero b l = ap (λ n. take n l) (omega arith)
  take-add (suc a) b [] = take-nil (suc a + b) ∙ sym (take-nil b)
  take-add (suc a) b (x ∷ l) =
      ap (λ n. take n (x ∷ l)) {x = suc a + b} {y = suc (a + b)} (omega arith)
      ∙ ap (λ r. x ∷ r) (take-add a b l)

  take-all : (n : ℕ) (l : List A) → length l ≤ n → take n l ≡ l
  take-all zero [] h = refl
  take-all zero (x ∷ l) h = absurd (omega arith)
  take-all (suc n) [] h = refl
  take-all (suc n) (x ∷ l) h = ap (λ r. x ∷ r) (take-all n l (omega arith))

  -- The first `n` pages, one after the other.
  abbrev pub pages : ℕ → List A → List A
  pages zero all = []
  pages (suc n) all = pages n all ++ logs (suc n) all

  logs-suc : (n : ℕ) (all : List A) → logs (suc n) all ≡ take 50 (drop (50 * n) all)
  logs-suc n all =
      ap (λ k. take k (drop (50 * (suc n - 1)) all)) {x = 50 * suc n - 50 * (suc n - 1)} {y = 50}
        (omega arith)
      ∙ ap (λ k. take 50 (drop k all)) {x = 50 * (suc n - 1)} {y = 50 * n} (omega arith)

  pages-take : (n : ℕ) (all : List A) → pages n all ≡ take (50 * n) all
  pages-take zero all = ap (λ k. take k all) {x = 0} {y = 50 * 0} (omega arith)
  pages-take (suc n) all =
      ap (λ l. l ++ logs (suc n) all) (pages-take n all)
      ∙ ap (λ l. take (50 * n) all ++ l) (logs-suc n all)
      ∙ sym (take-add (50 * n) 50 all)
      ∙ ap (λ k. take k all) {x = 50 * n + 50} {y = 50 * suc n} (omega arith)

  length-take : (n : ℕ) (l : List A) → length (take n l) ≤ n
  length-take zero l = omega arith
  length-take (suc n) [] = omega arith
  length-take (suc n) (x ∷ l) = let h = length-take n l in omega arith

  -- No page of the log has more than fifty entries, and where there are pages for all entries, the
  -- pages are together the log, in its order.
  pub pages-all :
      (n : ℕ) (all : List A)
      → length all ≤ 50 * n
      → (pages n all ≡ all) × ((p : ℕ) → length (logs p all) ≤ 50)
  pages-all n all h = (
    pages-take n all ∙ take-all (50 * n) all h,
    λ p.
        let l = drop (50 * (p - 1)) all in
        let b = length-take (50 * p - 50 * (p - 1)) l in omega arith,
  )

-- What is left of the connections and the notices.
pub record IsLeft {P T S : Type 0} (thing_id : String) (accepted : Bool) (st st' : Screen P T S)
    : Type 0 where
  pub connections : st'.world.mqtt.connection_configs ≡ (
      if accepted
      then filter (λ c. not (c.client_id == thing_id)) st.world.mqtt.connection_configs
      else st.world.mqtt.connection_configs)
  pub notices : length st'.notices ≡ length st.notices + (if accepted then 1 else 0)

-- Where an identifier is given and no two connections have the same one, deleting a thing in a table
-- leaves exactly the connections of other clients if the server deletes it, with a notice more, and
-- every connection and no notice more if the server refuses.
pub delete_thing-connections :
    {P T S : Type 0} (codec : ConnectionsCodec) (fresh : Client) (thing_id : String)
    (accepted : Bool) (st : Screen P T S)
    → (thing_id == "") ≡ false
    → DistinctIds st.world.mqtt.connection_configs
    → IsLeft thing_id accepted st (delete_thing codec fresh thing_id accepted st)
unfolding delete_thing del_thing
delete_thing-connections codec fresh thing_id true st e h =
    subst
      (λ b.
        IsLeft thing_id true st
          (if b then st else thing_deleted codec fresh thing_id (del_thing true st.app) st))
      (sym e)
      (record {
        connections = remove_connections_by_client_id_lem codec fresh thing_id st.world h;
        notices = length-append st.notices _;
      })
delete_thing-connections codec fresh thing_id false st e h =
    subst
      (λ b.
        IsLeft thing_id false st
          (if b then st else thing_deleted codec fresh thing_id (del_thing false st.app) st))
      (sym e) (record { connections = refl; notices = omega arith })
