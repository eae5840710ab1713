-- ===== src/Json.antt =====
-- The JSON values that the columns of sensor_model hold, and what JSONB keeps of them.
pub mod Tidy
use pothole_detection_server.Prelude.{
  ◌≡◌, refl, subst, Option, none, some, List, [], ◌∷◌, if◌then◌else◌, Text, same,
}

mutual
  pub data Json (F : Type 0) : Type 0 where
    number : F → Json F
    text : Text → Json F
    array : Items F → Json F
    object : Fields F → Json F

  pub data Items (F : Type 0) : Type 0 where
    no_items : Items F
    item : Json F → Items F → Items F

  pub data Fields (F : Type 0) : Type 0 where
    no_fields : Fields F
    field : Text → Json F → Fields F → Fields F

module _ {F : Type 0} where
  unfoldable pub get : Text → Fields F → Option (Json F)
  get k no_fields = none
  get k (field j v fs) = if same j k then some v else get k fs

  -- `value[k]`, where `none` is a KeyError or a TypeError
  unfoldable pub at_key : Text → Json F → Option (Json F)
  unfolding get
  at_key k (object fs) = get k fs
  at_key k (number x) = none
  at_key k (text t) = none
  at_key k (array xs) = none

  -- A value that is used as a number, or as a text.
  unfoldable pub as_number : Json F → Option F
  as_number (number x) = some x
  as_number (text t) = none
  as_number (array xs) = none
  as_number (object fs) = none

  unfoldable pub as_text : Json F → Option Text
  as_text (text t) = some t
  as_text (number x) = none
  as_text (array xs) = none
  as_text (object fs) = none

module _ {F : Type 0} where
  -- No key stands twice.
  abbrev pub HasDistinctKeys : Fields F → Type 0
  HasDistinctKeys no_fields = Unit
  HasDistinctKeys (field k v fs) = (get k fs ≡ none) × HasDistinctKeys fs

mutual
  -- The same value, where the object on the right may list its keys in another order.
  pub data Agrees {F : Type 0} : Json F → Json F → Type 0 where
    numbers : (x : F) → Agrees (number x) (number x)
    texts : (t : Text) → Agrees (text t) (text t)
    arrays : {xs ys : Items F} → AgreeItems xs ys → Agrees (array xs) (array ys)
    objects :
        {fs gs : Fields F}
        → HasDistinctKeys gs
        → ((k : Text) → AgreeOptions (get k fs) (get k gs))
        → Agrees (object fs) (object gs)

  pub data AgreeItems {F : Type 0} : Items F → Items F → Type 0 where
    nothing : AgreeItems no_items no_items
    items :
        {x y : Json F} {xs ys : Items F}
        → Agrees x y
        → AgreeItems xs ys
        → AgreeItems (item x xs) (item y ys)

  pub data AgreeOptions {F : Type 0} : Option (Json F) → Option (Json F) → Type 0 where
    absent : AgreeOptions none none
    present : {x y : Json F} → Agrees x y → AgreeOptions (some x) (some y)

module _ {F : Type 0} where
  pub AgreeOptions-some :
      {o p : Option (Json F)} {x : Json F}
      → AgreeOptions o p
      → o ≡ some x
      → (y : Json F) × (p ≡ some y) × Agrees x y
  AgreeOptions-some absent e = absurd (cc)
  AgreeOptions-some {x = x} (present {x = a} {y = b} r) e =
      (b, refl, subst (λ t. Agrees t b) {x = a} {y = x} (cc) r)

  pub Agrees-object :
      {fs : Fields F} {v : Json F}
      → Agrees (object fs) v
      → (gs : Fields F) × (v ≡ object gs)
        × HasDistinctKeys gs
        × ((k : Text) → AgreeOptions (get k fs) (get k gs))
  Agrees-object (objects {gs = gs} d r) = (gs, refl, d, r)

  pub Agrees-number : {x : F} {v : Json F} → Agrees (number x) v → v ≡ number x
  Agrees-number (numbers x) = refl

  pub Agrees-text : {t : Text} {v : Json F} → Agrees (text t) v → v ≡ text t
  Agrees-text (texts t) = refl

  -- Under a key, the values agree.
  pub at_key-Agrees :
      (k : Text) {v w x : Json F}
      → Agrees v w
      → at_key k v ≡ some x
      → (y : Json F) × (at_key k w ≡ some y) × Agrees x y
  unfolding at_key
  at_key-Agrees k (numbers x) e = absurd (cc)
  at_key-Agrees k (texts t) e = absurd (cc)
  at_key-Agrees k (arrays r) e = absurd (cc)
  at_key-Agrees k (objects d r) e = AgreeOptions-some (r k) e

  -- Under a key that has a number, the number.
  pub at_key-number :
      (k : Text) {v w : Json F} {x : F}
      → Agrees v w
      → at_key k v ≡ some (number x)
      → at_key k w ≡ some (number x)
  at_key-number k {w = w} r e =
      let (y, found, s) = at_key-Agrees k r e in
      subst (λ t. at_key k w ≡ some t) (Agrees-number s) found
