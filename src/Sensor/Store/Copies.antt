-- ===== src/Sensor/Store/Copies.antt =====
-- The parts of a model come back from JSON as they were, whatever the order of the keys.
use pothole_detection_server.Prelude.{
  ℕ, ◌≡◌, refl, subst, false, Option, none, some, List, [], ◌∷◌, arith, Text, codes, dec_text, same,
  inl, inr, Bool-cases, str, int-str, ◌≢◌, same_refl,
}
use pothole_detection_server.Json.{
  Json, number, text, array, object, Items, Fields, no_fields, field, get, at_key, as_number,
  as_text, Agrees, numbers, arrays, AgreeItems, nothing, items, AgreeOptions, absent, present,
  AgreeOptions-some, Agrees-object, Agrees-text, HasDistinctKeys, at_key-Agrees, at_key-number,
}
use pothole_detection_server.Sensor.{
  Standardization, SeverityCalibration, Component, ClassMap, class_of,
}
use pothole_detection_server.Sensor.Store.{
  number_at, standardization_to_jsonb, standardization_from_jsonb, severity_to_jsonb,
  severity_from_jsonb, row_to_items, rows_to_items, component_to_jsonb, components_to_items,
  items_to_row, as_row, items_to_rows, as_rows, component_from_jsonb, items_to_components,
  components_from_jsonb, class_map_to_fields, class_map_from_fields, class_map_from_jsonb,
}

str-ne : (i j : ℕ) → i ≢ j → same (str i) (str j) ≡ false
str-ne i j n = ground (arith, int-str i, int-str j)

module _ {F : Type 0} where
  number_at-Agrees :
      (k : Text) {v w : Json F} {x : F}
      → Agrees v w
      → at_key k v ≡ some (number x)
      → number_at k w ≡ some x
  unfolding number_at as_number
  number_at-Agrees k r e = let found = at_key-number k r e in rw (found, number_at)

  pub standardization_copy :
      (s : Standardization F) {w : Json F}
      → Agrees (standardization_to_jsonb s) w
      → standardization_from_jsonb w ≡ some s
  unfolding standardization_to_jsonb standardization_from_jsonb at_key dec_text
  standardization_copy s {w = w} r =
      let (ratio, e1, r1) = at_key-Agrees (codes "ratio") {v = standardization_to_jsonb s} r refl in
      let (gbar, e2, r2) = at_key-Agrees (codes "gbar") {v = standardization_to_jsonb s} r refl in
      let m1 = number_at-Agrees (codes "mean") r1 refl in
      let s1 = number_at-Agrees (codes "std") r1 refl in
      let m2 = number_at-Agrees (codes "mean") r2 refl in
      let s2 = number_at-Agrees (codes "std") r2 refl in
      rw (standardization_from_jsonb, e1, m1, s1, e2, m2, s2)

  pub severity_copy :
      (c : SeverityCalibration F) {w : Json F}
      → Agrees (severity_to_jsonb c) w
      → severity_from_jsonb w ≡ some c
  unfolding severity_to_jsonb severity_from_jsonb at_key dec_text
  severity_copy c {w = w} r =
      let e1 = number_at-Agrees (codes "speed_ref") {v = severity_to_jsonb c} r refl in
      let e2 = number_at-Agrees (codes "scale") {v = severity_to_jsonb c} r refl in
      rw (severity_from_jsonb, e1, e2)

  as_number-Agrees : {x : F} {v : Json F} → Agrees (number x) v → as_number v ≡ some x
  unfolding as_number
  as_number-Agrees (numbers x) = refl

  row_copy :
      (xs : List F) {ys : Items F} → AgreeItems (row_to_items xs) ys → items_to_row ys ≡ some xs
  unfolding row_to_items items_to_row as_number
  row_copy [] nothing = refl
  row_copy (x ∷ xs) (items v r) =
      let same_head = as_number-Agrees v in rw (items_to_row, same_head, row_copy xs r)

  as_row-Agrees :
      (xs : List F) {v : Json F} → Agrees (array (row_to_items xs)) v → as_row v ≡ some xs
  unfolding as_row
  as_row-Agrees xs (arrays r) = row_copy xs r

  rows_copy :
      (xs : List (List F)) {ys : Items F}
      → AgreeItems (rows_to_items xs) ys
      → items_to_rows ys ≡ some xs
  unfolding rows_to_items items_to_rows
  rows_copy [] nothing = refl
  rows_copy (x ∷ xs) (items v r) =
      let head = as_row-Agrees x v in rw (items_to_rows, head, rows_copy xs r)

  as_rows-Agrees :
      (xs : List (List F)) {v : Json F} → Agrees (array (rows_to_items xs)) v → as_rows v ≡ some xs
  unfolding as_rows
  as_rows-Agrees xs (arrays r) = rows_copy xs r

  component_copy :
      (c : Component F) {w : Json F}
      → Agrees (component_to_jsonb c) w
      → component_from_jsonb w ≡ some c
  unfolding component_to_jsonb component_from_jsonb at_key dec_text
  component_copy c {w = w} r =
      let (mu, e1, r1) = at_key-Agrees (codes "mu") {v = component_to_jsonb c} r refl in
      let (sigma, e2, r2) = at_key-Agrees (codes "sigma") {v = component_to_jsonb c} r refl in
      let e3 = number_at-Agrees (codes "weight") {v = component_to_jsonb c} r refl in
      let mus = as_row-Agrees c.mu r1 in
      let sigmas = as_rows-Agrees c.sigma r2 in rw (component_from_jsonb, e1, mus, e2, sigmas, e3)

  items_copy :
      (cs : List (Component F)) {ys : Items F}
      → AgreeItems (components_to_items cs) ys
      → items_to_components ys ≡ some cs
  unfolding components_to_items items_to_components
  items_copy [] nothing = refl
  items_copy (c ∷ cs) (items v r) =
      let head = component_copy c v in rw (items_to_components, head, items_copy cs r)

  pub components_copy :
      (cs : List (Component F)) {w : Json F}
      → Agrees (array (components_to_items cs)) w
      → components_from_jsonb w ≡ some cs
  unfolding components_from_jsonb
  components_copy cs (arrays r) = items_copy cs r

  -- A class as the value of a field.
  abbrev class_text : Option Text → Option (Json F)
  class_text none = none
  class_text (some c) = some (text c)

  -- Under the key of a component, its class.
  get-class_map_to_fields :
      (i : ℕ) (m : ClassMap)
      → get {F = F} (str i) (class_map_to_fields m) ≡ class_text (class_of i m)
  unfolding get class_map_to_fields class_of
  get-class_map_to_fields i [] = refl
  get-class_map_to_fields i ((j, c) ∷ m) =
      ground (arith, get-class_map_to_fields i m, str-ne j i, same_refl (str i))

  -- A field of a class map: its key is a number and its value a text.
  abbrev IsClass : Text → Json F → Type 0
  IsClass k v = (i : ℕ) × (c : Text) × (k ≡ str i) × (v ≡ text c)

  get-IsClass :
      (k : Text) (m : ClassMap) {v : Json F} → get k (class_map_to_fields m) ≡ some v → IsClass k v
  unfolding get class_map_to_fields
  get-IsClass k [] e = absurd (cc)
  get-IsClass k ((j, c) ∷ m) {v = v} e = elim (Bool-cases (same (str j) k)) [
    | inl here ↦ (j, c, ground arith, ground arith)
    | inr there ↦ get-IsClass k m {v = v} (ground arith)
  ]

  AgreeOptions-back :
      {o p : Option (Json F)} {y : Json F}
      → AgreeOptions o p
      → p ≡ some y
      → (x : Json F) × (o ≡ some x) × Agrees x y
  AgreeOptions-back absent e = absurd (cc)
  AgreeOptions-back {y = y} (present {x = a} {y = b} r) e =
      (a, refl, subst (λ t. Agrees a t) {x = b} {y = y} (cc) r)

  IsClass-Agrees : (k : Text) {v w : Json F} → IsClass k v → Agrees v w → IsClass k w
  IsClass-Agrees k {v = v} {w = w} (i, c, e, et) r =
      (i, c, e, Agrees-text (subst (λ t. Agrees t w) et r))

  get_later :
      (k l : Text) (v w : Json F) (gs : Fields F)
      → get k gs ≡ none
      → get l gs ≡ some w
      → get l (field k v gs) ≡ some w
  unfolding get
  get_later k l v w gs new h = ground arith

  -- Fields that are all of that kind are read, and the class of a component is the text under its
  -- key.
  class_map_from_fields_lem :
      (gs : Fields F)
      → HasDistinctKeys gs
      → ((k : Text) (v : Json F) → get k gs ≡ some v → IsClass k v)
      → (m : ClassMap) × (class_map_from_fields gs ≡ some m)
        × ((i : ℕ) → get (str i) gs ≡ class_text (class_of i m))
  unfolding class_map_from_fields get class_of as_text
  class_map_from_fields_lem no_fields d p = ([], refl, λ i. refl)
  class_map_from_fields_lem (field k v gs) (new, d) p =
      let (j, c, ek, ev) = p k v (rw (same_refl k)) in
      let (m, e, q) =
        class_map_from_fields_lem gs d
          (λ (l : Text) (w : Json F) (h : get l gs ≡ some w). p l w (get_later k l v w gs new h)) in
      (
        (j, c) ∷ m,
        rw (ek, ev, int-str j, e),
        λ i. rw (ek, ev) (ground (arith, q i, str-ne j i, same_refl (str i))),
      )

  absent-ne-present : {y : Json F} → ¬ AgreeOptions none (some y)
  absent-ne-present r = let (x, e, q) = AgreeOptions-back r refl in cc

  present-ne-absent : {x : Json F} → ¬ AgreeOptions (some x) none
  present-ne-absent r = let (y, e, q) = AgreeOptions-some r refl in cc

  class_text_same : (a b : Option Text) → AgreeOptions (class_text a) (class_text b) → b ≡ a
  class_text_same none none r = refl
  class_text_same (some c) (some c') (present r) = let e = Agrees-text r in cc
  class_text_same none (some c) r = absurd (absent-ne-present r)
  class_text_same (some c) none r = absurd (present-ne-absent r)

  pub class_map_copy :
      (m : ClassMap) {w : Json F}
      → Agrees (object (class_map_to_fields m)) w
      → (m' : ClassMap) × (class_map_from_jsonb w ≡ some m')
        × ((i : ℕ) → class_of i m' ≡ class_of i m)
  unfolding class_map_from_jsonb
  class_map_copy m {w = w} r =
      let (gs, ew, d, agree) = Agrees-object r in
      let (m', e, q) =
        class_map_from_fields_lem gs d (λ (k : Text) (v : Json F) (h : get k gs ≡ some v).
          let (x, ex, rx) = AgreeOptions-back {y = v} (agree k) h in
          IsClass-Agrees k (get-IsClass k m {v = x} ex) rx) in
      (
        m',
        rw (ew, e),
        λ i. class_text_same (class_of i m) (class_of i m') (
            subst (λ p. AgreeOptions (class_text (class_of i m)) p) (q i)
              (subst (λ o. AgreeOptions o (get (str i) gs)) (get-class_map_to_fields i m)
                (agree (str i)))),
      )
