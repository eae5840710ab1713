-- ===== src/Cluster/Lists.antt =====
-- What WHERE and ORDER BY keep of a list, and lists in which no text stands twice.
use pothole_detection_server.Prelude.{
  ◌≡◌, refl, Bool, true, false, ◌||◌, List, [], ◌∷◌, ◌++◌, arith, Text, same, map, ◌⊎◌, inl, inr,
  Bool-cases, All,
}
use pothole_detection_server.Fusion.{filter, sort_by, insert_by, any_of}

-- No text stands twice.
abbrev pub HasNoRepeat : List Text → Type 0
HasNoRepeat [] = Unit
HasNoRepeat (k ∷ ks) = (any_of k ks ≡ false) × HasNoRepeat ks

-- The predicate holds of some element.
abbrev pub Has {ℓ} : {A : Type ℓ} → (A → Type 0) → List A → Type 0
Has P [] = ⊥
Has P (x ∷ xs) = P x ⊎ Has P xs

pub any_of-append :
    (k : Text) (xs ys : List Text) → any_of k (xs ++ ys) ≡ (any_of k xs || any_of k ys)
unfolding any_of
any_of-append k [] ys = refl
any_of-append k (x ∷ xs) ys = ground (arith, any_of-append k xs ys)

pub append-HasNoRepeat :
    (xs : List Text) (k : Text)
    → HasNoRepeat xs
    → any_of k xs ≡ false
    → HasNoRepeat (xs ++ (k ∷ []))
unfolding any_of
append-HasNoRepeat [] k h e = (refl, tt)
append-HasNoRepeat (x ∷ xs) k (hx, h) e =
    (ground (arith, any_of-append x xs (k ∷ [])), append-HasNoRepeat xs k h (ground arith))

module _ {ℓ} {A : Type ℓ} where
  pub All-map : {P Q : A → Type 0} (xs : List A) → ((x : A) → P x → Q x) → All P xs → All Q xs
  All-map [] f h = tt
  All-map (x ∷ xs) f (hx, h) = (f x hx, All-map xs f h)

  pub All-Has : (P Q : A → Type 0) (xs : List A) → All P xs → Has Q xs → Has (λ x. P x × Q x) xs
  All-Has P Q [] h none_has = elim none_has [ ]
  All-Has P Q (x ∷ xs) (hx, h) (inl q) = inl (hx, q)
  All-Has P Q (x ∷ xs) (hx, h) (inr hs) = inr (All-Has P Q xs h hs)

  pub Has-map : {P Q : A → Type 0} (xs : List A) → ((x : A) → P x → Q x) → Has P xs → Has Q xs
  Has-map [] f none_has = elim none_has [ ]
  Has-map (x ∷ xs) f (inl h) = inl (f x h)
  Has-map (x ∷ xs) f (inr h) = inr (Has-map xs f h)

  pub filter-All :
      (P : A → Type 0) (p : A → Bool) (xs : List A)
      → All P xs
      → All (λ x. P x × (p x ≡ true)) (filter p xs)
  unfolding filter
  filter-All P p [] h = tt
  filter-All P p (x ∷ xs) (hx, h) = elim (Bool-cases (p x)) [
    | inl yes_p ↦ rw (filter, yes_p) ((hx, yes_p), filter-All P p xs h)
    | inr no_p ↦ rw (filter, no_p) (filter-All P p xs h)
  ]

  insert_by-All :
      (P : A → Type 0) (before : A → A → Bool) (x : A) (ys : List A)
      → P x
      → All P ys
      → All P (insert_by before x ys)
  unfolding insert_by
  insert_by-All P before x [] hx h = (hx, tt)
  insert_by-All P before x (y ∷ ys) hx (hy, h) = elim (Bool-cases (before x y)) [
    | inl first ↦ rw (insert_by, first) (hx, (hy, h))
    | inr later ↦ rw (insert_by, later) (hy, insert_by-All P before x ys hx h)
  ]

  pub sort_by-All :
      (P : A → Type 0) (before : A → A → Bool) (xs : List A) → All P xs → All P (sort_by before xs)
  unfolding sort_by
  sort_by-All P before [] h = tt
  sort_by-All P before (x ∷ xs) (hx, h) =
      insert_by-All P before x (sort_by before xs) hx (sort_by-All P before xs h)

  module _ (key : A → Text) where
    any_of-filter :
        (p : A → Bool) (k : Text) (xs : List A)
        → any_of k (map key xs) ≡ false
        → any_of k (map key (filter p xs)) ≡ false
    unfolding filter any_of
    any_of-filter p k [] e = refl
    any_of-filter p k (x ∷ xs) e = ground (arith, any_of-filter p k xs)

    pub filter-HasNoRepeat :
        (p : A → Bool) (xs : List A)
        → HasNoRepeat (map key xs)
        → HasNoRepeat (map key (filter p xs))
    unfolding filter
    filter-HasNoRepeat p [] h = tt
    filter-HasNoRepeat p (x ∷ xs) (hx, h) = elim (Bool-cases (p x)) [
      | inl yes_p ↦ rw (filter, yes_p) (any_of-filter p (key x) xs hx, filter-HasNoRepeat p xs h)
      | inr no_p ↦ rw (filter, no_p) (filter-HasNoRepeat p xs h)
    ]

    any_of-insert_by :
        (before : A → A → Bool) (k : Text) (x : A) (ys : List A)
        → any_of k (map key (insert_by before x ys)) ≡ (same (key x) k || any_of k (map key ys))
    unfolding insert_by any_of
    any_of-insert_by before k x [] = refl
    any_of-insert_by before k x (y ∷ ys) = ground (arith, any_of-insert_by before k x ys)

    insert_by-HasNoRepeat :
        (before : A → A → Bool) (x : A) (ys : List A)
        → any_of (key x) (map key ys) ≡ false
        → HasNoRepeat (map key ys)
        → HasNoRepeat (map key (insert_by before x ys))
    unfolding insert_by any_of
    insert_by-HasNoRepeat before x [] e h = (refl, tt)
    insert_by-HasNoRepeat before x (y ∷ ys) e (hy, h) = elim (Bool-cases (before x y)) [
      | inl first ↦ rw (insert_by, first) (e, (hy, h))
      | inr later ↦
          rw (insert_by, later)
            (
              ground (arith, any_of-insert_by before (key y) x ys),
              insert_by-HasNoRepeat before x ys (ground arith) h,
            )
    ]

    pub any_of-sort_by :
        (before : A → A → Bool) (k : Text) (xs : List A)
        → any_of k (map key (sort_by before xs)) ≡ any_of k (map key xs)
    unfolding sort_by any_of
    any_of-sort_by before k [] = refl
    any_of-sort_by before k (x ∷ xs) =
        ground (arith, any_of-insert_by before k x (sort_by before xs), any_of-sort_by before k xs)

    pub sort_by-HasNoRepeat :
        (before : A → A → Bool) (xs : List A)
        → HasNoRepeat (map key xs)
        → HasNoRepeat (map key (sort_by before xs))
    unfolding sort_by
    sort_by-HasNoRepeat before [] h = tt
    sort_by-HasNoRepeat before (x ∷ xs) (hx, h) =
        insert_by-HasNoRepeat before x (sort_by before xs)
          (ground (arith, any_of-sort_by before (key x) xs)) (sort_by-HasNoRepeat before xs h)
