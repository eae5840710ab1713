-- ===== src/Fusion/Pairs.antt =====
-- The table fusion_pair: the upsert, and what the candidates of a run leave there.
use pothole_detection_server.Prelude.{
  ◌≡◌, refl, true, false, Option, none, some, List, [], ◌∷◌, arith, if◌then◌else◌, Text, same_refl,
  inl, inr, Bool-cases, All, ℕ,
}
use pothole_detection_server.Float.{Float}
use pothole_detection_server.Schema.{Observation, Frame}
use pothole_detection_server.Engine.{Engine, FusionInput, FusionOutput, fuse}
use pothole_detection_server.Fusion.{FusionPair}
use pothole_detection_server.Fusion.Run.{
  same_pair, upsert_pair, fusion_input, fused_pair, fuse_pairs,
}

module _ {F : Type 0} where
  unfoldable pub lookup_pair : Text → Text → List (FusionPair F) → Option (FusionPair F)
  lookup_pair event frame [] = none
  lookup_pair event frame (q ∷ qs) =
      if same_pair q event frame then some q else lookup_pair event frame qs

  -- No pair of an event and a frame stands twice.
  abbrev pub NoPair : Text → Text → List (FusionPair F) → Type 0
  NoPair event frame = All (λ q. same_pair q event frame ≡ false)

  abbrev pub IsKeyed : List (FusionPair F) → Type 0
  IsKeyed [] = Unit
  IsKeyed (q ∷ qs) = NoPair q.event_client_id q.frame_client_id qs × IsKeyed qs

  same_pair_self : (p : FusionPair F) → same_pair p p.event_client_id p.frame_client_id ≡ true
  same_pair_self p = ground (arith, same_refl p.event_client_id, same_refl p.frame_client_id)

  same_pair_sym :
      (p q : FusionPair F)
      → same_pair q p.event_client_id p.frame_client_id ≡ false
      → same_pair p q.event_client_id q.frame_client_id ≡ false
  same_pair_sym p q h = ground arith

  pub lookup_pair-upsert_pair :
      (event frame : Text) (p : FusionPair F) (qs : List (FusionPair F))
      → lookup_pair event frame (upsert_pair p qs)
        ≡ (if same_pair p event frame then some p else lookup_pair event frame qs)
  unfolding lookup_pair upsert_pair
  lookup_pair-upsert_pair event frame p [] = refl
  lookup_pair-upsert_pair event frame p (q ∷ qs) =
      ground (arith, lookup_pair-upsert_pair event frame p qs)

  NoPair-upsert_pair :
      (event frame : Text) (p : FusionPair F) (qs : List (FusionPair F))
      → NoPair event frame qs
      → same_pair p event frame ≡ false
      → NoPair event frame (upsert_pair p qs)
  unfolding upsert_pair
  NoPair-upsert_pair event frame p [] n h = (h, tt)
  NoPair-upsert_pair event frame p (q ∷ qs) (nq, n) h =
      elim (Bool-cases (same_pair q p.event_client_id p.frame_client_id)) [
        | inl here ↦ rw (here, upsert_pair) (h, n)
        | inr there ↦ rw (there, upsert_pair) (nq, NoPair-upsert_pair event frame p qs n h)
      ]

  NoPair-same_pair :
      (p q : FusionPair F) (qs : List (FusionPair F))
      → same_pair q p.event_client_id p.frame_client_id ≡ true
      → NoPair q.event_client_id q.frame_client_id qs
      → NoPair p.event_client_id p.frame_client_id qs
  NoPair-same_pair p q [] h n = tt
  NoPair-same_pair p q (r ∷ qs) h (nr, n) = (ground arith, NoPair-same_pair p q qs h n)

  pub upsert_pair-IsKeyed :
      (p : FusionPair F) (qs : List (FusionPair F)) → IsKeyed qs → IsKeyed (upsert_pair p qs)
  unfolding upsert_pair
  upsert_pair-IsKeyed p [] k = (tt, tt)
  upsert_pair-IsKeyed p (q ∷ qs) (n, k) =
      elim (Bool-cases (same_pair q p.event_client_id p.frame_client_id)) [
        | inl here ↦ rw (here, upsert_pair) (NoPair-same_pair p q qs here n, k)
        | inr there ↦
            rw (there, upsert_pair)
              (
                NoPair-upsert_pair q.event_client_id q.frame_client_id p qs n
                    (same_pair_sym p q there),
                upsert_pair-IsKeyed p qs k,
              )
      ]

  -- The pair of an event and a frame is there, and is that of the run.
  abbrev pub HasRun : Text → List (FusionPair F) → Text → Text → Type 0
  HasRun run_id pairs event frame =
      (p : FusionPair F) × (lookup_pair event frame pairs ≡ some p) × (p.fusion_run_id ≡ run_id)

  upsert_pair-HasRun :
      (run_id event frame : Text) (p : FusionPair F) (qs : List (FusionPair F))
      → p.fusion_run_id ≡ run_id
      → HasRun run_id qs event frame
      → HasRun run_id (upsert_pair p qs) event frame
  upsert_pair-HasRun run_id event frame p qs h (q, found, e) =
      elim (Bool-cases (same_pair p event frame)) [
        | inl here ↦ (p, rw (lookup_pair-upsert_pair event frame p qs, here), h)
        | inr there ↦ (q, rw (lookup_pair-upsert_pair event frame p qs, there) found, e)
      ]

module _ {F : Type 0} ⦃d : Float F⦄ (distance : F × F → F × F → F) (to_ms : ℕ → ℕ → F)
    (runtime_ms : F) (engine : Engine F) (run_id : Text)
    (answers : (inp : FusionInput F)
      → (out : FusionOutput F) × (fuse engine runtime_ms inp ≡ some out)) where
  -- What the loop over the candidates gives.
  abbrev pub IsFused :
      List (Frame F × Observation F) → List (FusionPair F) → List (FusionPair F) → Type 0
  IsFused candidates before after =
      (IsKeyed before → IsKeyed after)
      × ((event frame : Text) → HasRun run_id before event frame → HasRun run_id after event frame)
      × All (λ x. HasRun run_id after x.1.client_id x.0.client_id) candidates

  -- If the engine answers every input, the loop over the candidates ends, keeps the key of the
  -- table, and leaves a pair of this run for every candidate.
  pub fuse_pairs_total :
      (candidates : List (Frame F × Observation F)) (before : List (FusionPair F))
      → (after : List (FusionPair F)) × (fuse_pairs distance to_ms runtime_ms engine run_id
            candidates before
          ≡ some after)
        × IsFused candidates before after
  unfolding fuse_pairs fused_pair
  fuse_pairs_total [] before = (before, refl, (λ k. k, λ e f h. h, tt))
  fuse_pairs_total ((f, o) ∷ candidates) before =
      let (out, e) = answers (fusion_input distance to_ms f o) in
      let p = fused_pair distance to_ms run_id f o out in
      let (after, done, (keyed, kept, fused)) =
        fuse_pairs_total candidates (upsert_pair p before) in
      (
        after,
        rw (fuse_pairs, e) done,
        (
          λ k. keyed (upsert_pair-IsKeyed p before k),
          λ event frame h. kept event frame (upsert_pair-HasRun run_id event frame p before refl h),
          (
            kept o.client_id f.client_id (
              p,
              rw (lookup_pair-upsert_pair o.client_id f.client_id p before, same_pair_self p),
              refl,
            ),
            fused,
          ),
        ),
      )
