-- ===== src/Fusion/Backlog.antt =====
-- The backlog of frames: a run that ends well takes as many frames off it as the batch holds.
use pothole_detection_server.Prelude.{
  ℕ, zero, suc, ◌+◌, ◌-◌, ◌≤◌, ◌≡◌, ◌∙◌, refl, ap, sym, subst, Bool, true, false, List, [], ◌∷◌,
  arith, Text, same, same_refl, length, take, map, inl, inr, All, Bool-cases, if◌then◌else◌,
}
use pothole_detection_server.Schema.{Frame}
use pothole_detection_server.Fusion.{
  filter, sort_by, insert_by, any_of, is_null, received_before, select_frame_batch,
}
use pothole_detection_server.Fusion.Run.{mark_processed}
use pothole_detection_server.Cluster.Lists.{
  HasNoRepeat, filter-HasNoRepeat, sort_by-HasNoRepeat, any_of-sort_by,
}

-- How many of the texts are in the list.
abbrev count_in : List Text → List Text → ℕ
count_in ks [] = 0
count_in ks (w ∷ ws) = (if any_of w ks then 1 else 0) + count_in ks ws

count_in-nil : (ws : List Text) → count_in [] ws ≡ 0
unfolding any_of
count_in-nil [] = refl
count_in-nil (w ∷ ws) = ground (arith, count_in-nil ws)

any_of-same : (w k : Text) (ks : List Text) → same w k ≡ true → any_of w ks ≡ any_of k ks
any_of-same w k ks e = let equal : w ≡ k = ground arith in ap (λ x. any_of x ks) equal

-- A text that is nowhere adds nothing, and one that stands once adds one.
count_in-cons_absent :
    (k : Text) (ks ws : List Text) → any_of k ws ≡ false → count_in (k ∷ ks) ws ≡ count_in ks ws
unfolding any_of
count_in-cons_absent k ks [] e = refl
count_in-cons_absent k ks (w ∷ ws) e = ground (arith, count_in-cons_absent k ks ws)

count_in-cons :
    (k : Text) (ks ws : List Text)
    → any_of k ks ≡ false
    → any_of k ws ≡ true
    → HasNoRepeat ws
    → count_in (k ∷ ks) ws ≡ suc (count_in ks ws)
unfolding any_of
count_in-cons k ks [] e f h = absurd (cc)
count_in-cons k ks (w ∷ ws) e f (hw, h) = elim (Bool-cases (same w k)) [
  | inl here ↦
      let equal : w ≡ k = ground arith in
      let gone : any_of k ws ≡ false = subst (λ x. any_of x ws ≡ false) equal hw in
      let out : any_of w ks ≡ false = any_of-same w k ks here ∙ e in
      ground (arith, count_in-cons_absent k ks ws gone, same_refl k)
  | inr other ↦ ground (arith, count_in-cons k ks ws e (ground arith) h)
]

count_in_distinct :
    (ks ws : List Text)
    → HasNoRepeat ks
    → HasNoRepeat ws
    → All (λ k. any_of k ws ≡ true) ks
    → count_in ks ws ≡ length ks
count_in_distinct [] ws hk hw h = count_in-nil ws
count_in_distinct (k ∷ ks) ws (ek, hk) hw (hin, h) =
    omega (arith, count_in-cons k ks ws ek hin hw, count_in_distinct ks ws hk hw h)

any_of-take :
    (n : ℕ) (k : Text) (ks : List Text) → any_of k ks ≡ false → any_of k (take n ks) ≡ false
unfolding any_of
any_of-take zero k ks e = refl
any_of-take (suc n) k [] e = refl
any_of-take (suc n) k (j ∷ ks) e = ground (arith, any_of-take n k ks)

take-HasNoRepeat : (n : ℕ) (ks : List Text) → HasNoRepeat ks → HasNoRepeat (take n ks)
take-HasNoRepeat zero ks h = tt
take-HasNoRepeat (suc n) [] h = tt
take-HasNoRepeat (suc n) (k ∷ ks) (hk, h) = (any_of-take n k ks hk, take-HasNoRepeat n ks h)

take-All : (P : Text → Type 0) (n : ℕ) (ks : List Text) → All P ks → All P (take n ks)
take-All P zero ks h = tt
take-All P (suc n) [] h = tt
take-All P (suc n) (k ∷ ks) (hk, h) = (hk, take-All P n ks h)

length-take : (n : ℕ) (ks : List Text) → length ks - length (take n ks) ≡ length ks - n
length-take zero ks = refl
length-take (suc n) [] = omega arith
length-take (suc n) (k ∷ ks) = omega (arith, length-take n ks)

length-take-le : (n : ℕ) (ks : List Text) → length (take n ks) ≤ length ks
length-take-le zero ks = omega arith
length-take-le (suc n) [] = omega arith
length-take-le (suc n) (k ∷ ks) = omega (arith, length-take-le n ks)

self_any_of : (ks : List Text) → All (λ k. any_of k ks ≡ true) ks
unfolding any_of
self_any_of [] = tt
self_any_of (k ∷ ks) = (ground (arith, same_refl k), weaken ks (self_any_of ks))
  where
    weaken :
        (js : List Text) → All (λ j. any_of j ks ≡ true) js → All (λ j. any_of j (k ∷ ks) ≡ true) js
    weaken [] h = tt
    weaken (j ∷ js) (hj, h) = (ground arith, weaken js h)

transfer :
    (xs ys : List Text)
    → ((k : Text) → any_of k xs ≡ any_of k ys)
    → (ks : List Text) → All (λ k. any_of k xs ≡ true) ks
    → All (λ k. any_of k ys ≡ true) ks
transfer xs ys e [] h = tt
transfer xs ys e (k ∷ ks) (hk, h) = (sym (e k) ∙ hk, transfer xs ys e ks h)

module _ {A : Type 0} (before : A → A → Bool) (key : A → Text) where
  length-insert_by :
      (x : A) (ys : List A) → length (map key (insert_by before x ys)) ≡ suc (length (map key ys))
  unfolding insert_by
  length-insert_by x [] = refl
  length-insert_by x (y ∷ ys) = ground (arith, length-insert_by x ys)

  length-sort_by : (xs : List A) → length (map key (sort_by before xs)) ≡ length (map key xs)
  unfolding sort_by
  length-sort_by [] = refl
  length-sort_by (x ∷ xs) = omega (arith, length-insert_by x (sort_by before xs), length-sort_by xs)

module _ {F : Type 0} where
  -- The ids of the frames that are not processed.
  abbrev pub waiting : List (Frame F) → List Text
  waiting fs = map (λ f. f.client_id) (filter (λ f. is_null f.processed_at) fs)

  waiting-mark_processed :
      (ids : List Text) (now : ℕ) (fs : List (Frame F))
      → length (waiting (mark_processed ids now fs)) + count_in ids (waiting fs)
        ≡ length (waiting fs)
  unfolding mark_processed filter
  waiting-mark_processed ids now [] = refl
  waiting-mark_processed ids now (f ∷ fs) = ground (arith, waiting-mark_processed ids now fs)

  pub mark_processed-nil : (now : ℕ) (fs : List (Frame F)) → mark_processed [] now fs ≡ fs
  unfolding mark_processed any_of
  mark_processed-nil now [] = refl
  mark_processed-nil now (f ∷ fs) = ap (λ gs. f ∷ gs) (mark_processed-nil now fs)

  -- Marking the batch takes `limit` frames off the backlog, or all of them.
  pub waiting-select_frame_batch :
      (precedes : Text → Text → Bool) (limit now : ℕ) (fs : List (Frame F))
      → HasNoRepeat (map (λ f. f.client_id) fs)
      → length (waiting (mark_processed (select_frame_batch precedes limit fs) now fs))
        ≡ length (waiting fs) - limit
  unfolding select_frame_batch
  waiting-select_frame_batch precedes limit now fs distinct =
      let order : Frame F → Frame F → Bool =
        λ f g. received_before precedes (f.received_at, f.client_id) (g.received_at, g.client_id) in
      let open_frames = filter (λ f. is_null f.processed_at) fs in
      let sorted = map (λ f. f.client_id) (sort_by order open_frames) in
      let unique =
        filter-HasNoRepeat (λ f. f.client_id) (λ f. is_null f.processed_at) fs distinct in
      let known =
        transfer sorted (waiting fs) (λ k. any_of-sort_by (λ f. f.client_id) order k open_frames)
          sorted (self_any_of sorted) in
      let all =
        count_in_distinct (take limit sorted) (waiting fs)
          (take-HasNoRepeat limit sorted
            (sort_by-HasNoRepeat (λ f. f.client_id) order open_frames unique))
          unique (take-All (λ k. any_of k (waiting fs) ≡ true) limit sorted known) in
      omega (
        arith,
        waiting-mark_processed (take limit sorted) now fs,
        all,
        length-take limit sorted,
        length-take-le limit sorted,
        length-sort_by order (λ f. f.client_id) open_frames,
      )
