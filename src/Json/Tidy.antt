-- ===== src/Json/Tidy.antt =====
-- The JSON values in which no object has a key twice, and a transport that keeps those and refuses
-- the others.
use pothole_detection_server.Prelude.{
  ◌≡◌, refl, subst, Bool, true, false, ◌&&◌, Option, none, some, if◌then◌else◌, arith, Text, same,
  inl, inr, Bool-cases,
}
use pothole_detection_server.Json.{
  Json, number, text, array, object, Items, no_items, item, Fields, no_fields, field, get,
  HasDistinctKeys, Agrees, numbers, texts, arrays, objects, AgreeItems, nothing, items,
  AgreeOptions, absent, present,
}

module _ {F : Type 0} where
  abbrev lacks : Text → Fields F → Bool
  lacks k no_fields = true
  lacks k (field j v fs) = if same j k then false else lacks k fs

  get-lacks : (k : Text) (fs : Fields F) → lacks k fs ≡ true → get k fs ≡ none
  unfolding get
  get-lacks k no_fields e = refl
  get-lacks k (field j v fs) e = elim (Bool-cases (same j k)) [
    | inl here ↦ absurd (ground arith)
    | inr other ↦ ground (arith, get-lacks k fs)
  ]

mutual
  is_tidy : {F : Type 0} → Json F → Bool
  is_tidy (number x) = true
  is_tidy (text t) = true
  is_tidy (array xs) = are_tidy xs
  is_tidy (object fs) = have_tidy fs

  are_tidy : {F : Type 0} → Items F → Bool
  are_tidy no_items = true
  are_tidy (item v vs) = is_tidy v && are_tidy vs

  have_tidy : {F : Type 0} → Fields F → Bool
  have_tidy no_fields = true
  have_tidy (field k v fs) = lacks k fs && (is_tidy v && have_tidy fs)

module _ {F : Type 0} where
  have_tidy-HasDistinctKeys : (fs : Fields F) → have_tidy fs ≡ true → HasDistinctKeys fs
  unfolding is_tidy
  have_tidy-HasDistinctKeys no_fields e = tt
  have_tidy-HasDistinctKeys (field k v fs) e =
      (get-lacks k fs (ground arith), have_tidy-HasDistinctKeys fs (ground arith))

mutual
  unfolding is_tidy get

  is_tidy-Agrees : {F : Type 0} (v : Json F) → is_tidy v ≡ true → Agrees v v
  is_tidy-Agrees (number x) e = numbers x
  is_tidy-Agrees (text t) e = texts t
  is_tidy-Agrees (array xs) e = arrays (are_tidy-AgreeItems xs e)
  is_tidy-Agrees (object fs) e =
      objects (have_tidy-HasDistinctKeys fs e) (λ k. have_tidy-AgreeOptions k fs e)

  are_tidy-AgreeItems : {F : Type 0} (vs : Items F) → are_tidy vs ≡ true → AgreeItems vs vs
  are_tidy-AgreeItems no_items e = nothing
  are_tidy-AgreeItems (item v vs) e =
      items (is_tidy-Agrees v (ground arith)) (are_tidy-AgreeItems vs (ground arith))

  have_tidy-AgreeOptions :
      {F : Type 0} (k : Text) (fs : Fields F)
      → have_tidy fs ≡ true
      → AgreeOptions (get k fs) (get k fs)
  have_tidy-AgreeOptions k no_fields e = absent
  have_tidy-AgreeOptions k (field j v fs) e = elim (Bool-cases (same j k)) [
    | inl here ↦ rw (get, here) (present (is_tidy-Agrees v (ground arith)))
    | inr other ↦ rw (get, other) (have_tidy-AgreeOptions k fs (ground arith))
  ]

module _ {F : Type 0} where
  unfoldable pub keep : Json F → Option (Json F)
  unfolding is_tidy
  keep v = if is_tidy v then some v else none

  pub keep-Agrees : (v w : Json F) → keep v ≡ some w → Agrees v w
  unfolding keep
  keep-Agrees v w e = elim (Bool-cases (is_tidy v)) [
    | inl tidy ↦
        let same_value : v ≡ w = ground arith in
        subst (Agrees v) {x = v} {y = w} same_value (is_tidy-Agrees v tidy)
    | inr other ↦ absurd (ground arith)
  ]
