-- ===== src/System/Sound.antt =====
-- The data of the server stay well-formed, whatever happens at the workers and in whatever order.
use pothole_detection_server.Prelude.{
  Text, true, some, refl, ℕ, ◌≡◌, ap, sym, subst, Option, List, [], ◌∷◌, arith, Text, inl, inr,
  Bool-cases,
}
use pothole_detection_server.Float.{Float}
use pothole_detection_server.Events.{EventPayload, validate_batch}
use pothole_detection_server.Files.{Bytes, Disk}
use pothole_detection_server.Routes.{Clock}
use pothole_detection_server.Routes.Ids.{post_events-Changes, post_frames-Grows}
use pothole_detection_server.Schema.{Observation, lookup_observation}
use pothole_detection_server.Fusion.{any_of}
use pothole_detection_server.Events.Changes.{Reads, Changes-Reads, Changes-eq}
use pothole_detection_server.Fusion.Ids.{Grows-eq, frame_ids}
use pothole_detection_server.System.{
  Data, Outside, System, Move, sends_events, sends_frame, starts_fusion, runs_fusion, starts_fit,
  runs_fit, starts_clustering, counts, clusters, restarts, server_at, put_server, enter_fusion,
  enter_cluster, enter_fit, start_fusion, start_clustering, restart, count_members, step, run_moves,
}
use pothole_detection_server.System.Evolves.{
  IsSound, Evolves, Evolves-refl, Evolves-trans, Evolves-rows,
}
use pothole_detection_server.System.Turns.{
  run_fusion-Evolves, run_fit-Evolves, run_clustering-Evolves,
}

module _ {F G I J R : Type 0} ⦃d : Float F⦄ (env : Outside F G I J R) where
  send_events-Evolves :
      (w : ℕ) (clock : Clock) (x v : Option Text) (events : List (EventPayload F))
      (s : System F G I R)
      → IsSound s.data_of
      → Evolves s.data_of (step env (sends_events w clock x v events) s).data_of
  unfolding step put_server server_at
  send_events-Evolves w clock x v events s h =
      let (frames, g) =
        post_events-Changes env.fromisoformat env.refuses env.settings clock x v events
          (server_at w s) in
      elim (Bool-cases (validate_batch env.fromisoformat events)) [
        | inl valid ↦
            rw (step, valid)
              (Evolves-rows _ _ h g (Grows-eq (ap (λ fs. frame_ids fs.asset_frame) frames)))
        | inr refused ↦ rw (step, refused) (Evolves-refl h)
      ]

  send_frame-Evolves :
      (w : ℕ) (clock : Clock) (disk : Disk) (x v : Option Text) (metadata jpeg : Bytes)
      (s : System F G I R)
      → IsSound s.data_of
      → Evolves s.data_of (step env (sends_frame w clock disk x v metadata jpeg) s).data_of
  unfolding step put_server server_at
  send_frame-Evolves w clock disk x v metadata jpeg s h =
      let (rows, g) =
        post_frames-Grows env.fromisoformat env.dumps env.loads env.upload env.frame_refuses
          env.settings clock disk x v metadata jpeg (server_at w s) in
      Evolves-rows _ _ h (Changes-eq rows) g

module _ {F G I R : Type 0} (w : ℕ) (s : System F G I R) where
  -- What leaves the data alone.
  start_fusion_data : (start_fusion w s).data_of ≡ s.data_of
  unfolding start_fusion enter_fusion
  start_fusion_data = ground arith

  start_clustering_data : (start_clustering w s).data_of ≡ s.data_of
  unfolding start_clustering enter_cluster
  start_clustering_data = ground arith

  count_members_data : (now : ℕ) → (count_members w now s).data_of ≡ s.data_of
  unfolding count_members enter_cluster
  count_members_data now = ground arith

module _ {F G I J R : Type 0} ⦃d : Float F⦄ (env : Outside F G I J R) where
  start_fit_data : (w : ℕ) (s : System F G I R) → (step env (starts_fit w) s).data_of ≡ s.data_of
  unfolding step enter_fit
  start_fit_data w s = ground arith

  Evolves-same : {x y : Data F R} → y ≡ x → IsSound x → Evolves x y
  Evolves-same {x = x} e h = subst (Evolves x) (sym e) (Evolves-refl h)

  -- Whatever happens to well-formed data, no observation and no frame gets lost, and they stay
  -- well-formed.
  pub step-Evolves :
      (m : Move F J) (s : System F G I R)
      → IsSound s.data_of
      → Evolves s.data_of (step env m s).data_of
  unfolding step restart
  step-Evolves (sends_events w clock x v events) s h =
      send_events-Evolves env w clock x v events s h
  step-Evolves (sends_frame w clock disk x v metadata jpeg) s h =
      send_frame-Evolves env w clock disk x v metadata jpeg s h
  step-Evolves (starts_fusion w) s h = Evolves-same (start_fusion_data w s) h
  step-Evolves (runs_fusion w run) s h = run_fusion-Evolves env w run s h
  step-Evolves (starts_fit w) s h = Evolves-same (start_fit_data w s) h
  step-Evolves (runs_fit w hex) s h = run_fit-Evolves env w hex s h
  step-Evolves (starts_clustering w) s h = Evolves-same (start_clustering_data w s) h
  step-Evolves (counts w now) s h = Evolves-same (count_members_data w s now) h
  step-Evolves (clusters w run_id at now uuid) s h =
      run_clustering-Evolves env w run_id at now uuid s h
  step-Evolves (restarts w) s h = Evolves-refl h

  pub run_moves-Evolves :
      (ms : List (Move F J)) (s : System F G I R)
      → IsSound s.data_of
      → Evolves s.data_of (run_moves env ms s).data_of
  unfolding run_moves
  run_moves-Evolves [] s h = Evolves-refl h
  run_moves-Evolves (m ∷ ms) s h =
      let one = step-Evolves m s h in
      Evolves-trans one (run_moves-Evolves ms (step env m s) one.sound)

  -- If no client id stands twice in asset_observation or in asset_frame, no pair twice in
  -- fusion_pair and no cluster id twice in asset_cluster, if every pair is of an observation and a
  -- frame that are stored, and if at most one model is active, then all of this is true again after
  -- any sequence of requests, ticks, transactions of jobs and restarts at any workers.
  pub run_moves-IsSound :
      (ms : List (Move F J)) (s : System F G I R)
      → IsSound s.data_of
      → IsSound (run_moves env ms s).data_of
  run_moves-IsSound ms s h = (run_moves-Evolves ms s h).sound

  -- On well-formed data, whatever happens and in whatever order, an observation that is stored stays
  -- stored under its client id with all that its phone has sent of it, and a frame that is stored
  -- stays stored.
  pub run_moves_keeps :
      (ms : List (Move F J)) (s : System F G I R) (k j : Text) (r : Observation F)
      → IsSound s.data_of
      → lookup_observation k s.data_of.asset_observation ≡ some r
      → any_of j (frame_ids s.data_of.frames.asset_frame) ≡ true
      → let x = (run_moves env ms s).data_of in
        Reads k r x.asset_observation × (any_of j (frame_ids x.frames.asset_frame) ≡ true)
  run_moves_keeps ms s k j r h stored known =
      let whole = run_moves-Evolves ms s h in
      (Changes-Reads k r whole.observations (r, stored, refl), whole.frames.stays j known)
