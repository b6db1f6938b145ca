-- ===== src/JsonEditor/Laws.antt =====
-- What becomes of a value that is typed (web/src/components/common/JSONEditor.vue) once the model it
-- is emitted as comes back.
use Prim.Native.String.{String}
use tio.Common.{
  sym, Bool-cases, inl, inr, eq_iff, ◌≡◌, refl, ap, ◌∙◌, Bool, true, false, Option, none, some,
  ◌==◌, if◌then◌else◌, eq_refl,
}
use tio.Json.{Json}
use tio.JsonEditor.{
  Bound, same_model, taken, handle_change, Updated, changed_to, value_of, State, json, empty,
  is_truthy, or_empty, parsed, model_changed,
}

same_model-eq : (m n : Option String) → same_model m n ≡ true → m ≡ n
same_model-eq none none e = refl
same_model-eq none (some n) e = cc
same_model-eq (some m) none e = cc
same_model-eq (some m) (some n) e = ap some ((eq_iff m n).0 e)

module _ (parse : String → Option Json) (print print_two : Json → String) where
  read_back :
      (model : String) (w : Json) (st : State)
      → (model == "") ≡ false
      → parse model ≡ some w
      → model_changed parse print print_two (some model) st
        ≡ parsed parse print print_two model (some w) st
  read_back model w st n h =
      ap (λ t. parsed parse print print_two model t st)
        (ap (λ b. parse (if b then "\"\"" else model)) n ∙ h)

  fed_lem :
      (b : Bool) (v : Json) (st : State)
      → let w = if b then v else empty in
        (print_two w == "") ≡ false
        → parse (print_two w) ≡ some w
        → (b ≡ false → (print v == print empty) ≡ false)
        → let st' = record st { error = false; content = print v } in
          model_changed parse print print_two (some (print_two w)) st'
          ≡ (record st' { object = if b then st.object else json empty; content = print w }, false)
  fed_lem true v st n h d =
      let st' = record st { error = false; content = print v } in
      read_back (print_two v) v st' n h
      ∙ ap (λ b. (if b then st' else record st' { object = json v; content = print v }, false))
          (eq_refl (print v))
  fed_lem false v st n h d =
      let st' = record st { error = false; content = print v } in
      read_back (print_two empty) empty st' n h
      ∙ ap
          (λ b.
            (if b then st' else record st' { object = json empty; content = print empty }, false))
          (d refl)

  -- What the parent and the editor hold after a value is typed.
  abbrev pub after_change : Json → Option String → State → Bound
  after_change v model st =
      let text = print_two (or_empty v) in
      let same = same_model (some text) model in
      record {
        model = some text;
        editor = record {
          error = false;
          object = if same then st.object else if is_truthy v then st.object else json empty;
          content = if same then print v else print (or_empty v);
        };
        has_error = false;
      }

  changed_lem :
      (v : Json) (model : Option String) (st : State) (err : Bool)
      → (print_two (or_empty v) == "") ≡ false
      → parse (print_two (or_empty v)) ≡ some (or_empty v)
      → (is_truthy v ≡ false → (print v == print empty) ≡ false)
      → taken parse print print_two
          (changed_to parse print print_two (some v) st)
          (record { model = model; editor = st; has_error = err })
        ≡ some (after_change v model st)
  changed_lem v model st err n h d =
      elim (Bool-cases (same_model (some (print_two (or_empty v))) model)) [
        | inl s ↦ rw s (
            ap
              (λ m. some (record {
                model = m;
                editor = record st { error = false; content = print v };
                has_error = false;
              }))
              (sym (same_model-eq (some (print_two (or_empty v))) model s)))
        | inr s ↦ rw s (
            ap
              (λ p.
                some
                  (record { model = some (print_two (or_empty v)); editor = p.0; has_error = p.1 }))
              (fed_lem (is_truthy v) v st n h d))
      ]

  -- A value that is typed without an error, as a value or as a text that reads as it: the parent gets
  -- the text of the value, or that of the empty object where it is null, false, 0 or the empty text;
  -- what is typed stays if it is none of these, or if the parent had this text before; else it is
  -- replaced by the empty object. The text is not empty and reads as what it was printed from, and
  -- those values print otherwise than the empty object.
  pub handle_change_lem :
      (updated : Updated) (v : Json) (b : Bound)
      → value_of parse print print_two updated ≡ some v
      → (print_two (or_empty v) == "") ≡ false
      → parse (print_two (or_empty v)) ≡ some (or_empty v)
      → (is_truthy v ≡ false → (print v == print empty) ≡ false)
      → handle_change parse print print_two updated false b ≡ some (after_change v b.model b.editor)
  handle_change_lem updated v b e n h d =
      ap (λ o. taken parse print print_two (changed_to parse print print_two o b.editor) b) e
      ∙ changed_lem v b.model b.editor b.has_error n h d
