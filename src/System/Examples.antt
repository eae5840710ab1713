-- ===== src/System/Examples.antt =====
-- Two workers, over two observations and one frame.
use pothole_detection_server.Prelude.{
  ◌≡◌, refl, true, false, none, some, List, [], ◌∷◌, arith, Text, codes, dec_text, All,
}
use pothole_detection_server.Http.{ok}
use pothole_detection_server.Headers.{
  is_space, strip, lower, lower_char, require_device_id, require_version_v1,
}
use pothole_detection_server.Frames.{frame_row}
use pothole_detection_server.Sensor.Store.Table.{load_active_model, active_row}
use pothole_detection_server.Fusion.Job.{score_with, has_run, all_finite}
use pothole_detection_server.Fusion.Run.{weights}
use pothole_detection_server.Engine.{get_engine}
use pothole_detection_server.Float.Fixed.{Fixed, fixed_float, Fixed-IsFloat}
use pothole_detection_server.Schema.{lookup_observation}
use pothole_detection_server.RateLimit.Log.{replay}
use pothole_detection_server.Events.Insert.{IsStored}
use pothole_detection_server.Events.{
  EventPayload, event_row, validate_batch, validate_all, validate_event, validate_timestamp,
  normalize_ts,
}
use pothole_detection_server.Files.{healthy}
use pothole_detection_server.Routes.{post_events}
use pothole_detection_server.Fusion.{any_of}
use pothole_detection_server.Fusion.Ids.{frame_ids}
use pothole_detection_server.Events.Changes.{Reads}
use pothole_detection_server.Samples.{iso, refuses, event, stamp, phone, jpeg}
use pothole_detection_server.Fusion.Samples as Fuse
use pothole_detection_server.System.{
  System, Move, sends_events, sends_frame, starts_fusion, runs_fusion, starts_clustering, restarts,
  fusion_idle, run_moves, step, server_at,
}
use pothole_detection_server.System.Evolves.{IsSound}
use pothole_detection_server.System.Sound.{run_moves-IsSound, run_moves_keeps}
use pothole_detection_server.System.Locks.{holds, IsExclusive}
use pothole_detection_server.System.Exclusive.{run_moves-IsExclusive}
use pothole_detection_server.System.Release.{run_moves_releases}
use pothole_detection_server.System.Pairing.{Pairs, run_moves-Pairs}
use pothole_detection_server.System.Durable.{run_moves-Accepts}
use pothole_detection_server.System.Samples.{env, start, clock, start-IsSound}

-- A batch at worker 1, while worker 0 runs its jobs and worker 1 is restarted.
abbrev history : List (Move Fixed Text)
history =
    starts_fusion 0
    ∷ sends_events 1 clock (some phone) (some (codes "v1")) (event (codes "e3") ∷ [])
    ∷ runs_fusion 0 Fuse.run
    ∷ starts_fusion 1
    ∷ runs_fusion 0 Fuse.run
    ∷ sends_frame 1 clock healthy (some phone) (some (codes "v1")) (1 ∷ []) jpeg
    ∷ starts_clustering 1
    ∷ restarts 1
    ∷ runs_fusion 0 Fuse.run
    ∷ []

start-IsExclusive : IsExclusive start
start-IsExclusive w = (refl, refl)

run_moves-IsSound_example : IsSound (run_moves env history start).data_of
run_moves-IsSound_example = run_moves-IsSound env history start start-IsSound

run_moves-IsExclusive_example : IsExclusive (run_moves env history start)
run_moves-IsExclusive_example = run_moves-IsExclusive env history start start-IsExclusive

run_moves_keeps_example :
    let x = (run_moves env history start).data_of in
    Reads (codes "e1") Fuse.first x.asset_observation
    × (any_of (codes "f1") (frame_ids x.frames.asset_frame) ≡ true)
unfolding lookup_observation dec_text event_row any_of frame_row
run_moves_keeps_example =
    run_moves_keeps env history start (codes "e1") (codes "f1") Fuse.first start-IsSound refl refl

-- Worker 0 has the lock.
abbrev locked : System Fixed Text Text (List Text)
locked = run_moves env (starts_fusion 0 ∷ []) start

abbrev rest : List (Move Fixed Text)
rest =
    runs_fusion 0 Fuse.run ∷ starts_fusion 1 ∷ runs_fusion 0 Fuse.run ∷ runs_fusion 0 Fuse.run ∷ []

run_moves_releases_example :
    let s' = run_moves env rest locked in
    ((s'.workers 0).fusion ≡ fusion_idle) × (holds 0 s'.fusion_lock ≡ false)
unfolding run_moves step
run_moves_releases_example =
    run_moves_releases env rest locked 0
      (run_moves-IsExclusive env (starts_fusion 0 ∷ []) start start-IsExclusive) refl (omega arith)

-- Worker 0 has loaded the model, of which there is none, and has scored.
abbrev until_scored : List (Move Fixed Text)
until_scored = starts_fusion 0 ∷ runs_fusion 0 Fuse.run ∷ runs_fusion 0 Fuse.run ∷ []

run_moves-Pairs_example : Pairs Fixed-IsFloat env Fuse.run none 0 (run_moves env until_scored start)
unfolding run_moves step load_active_model active_row score_with has_run all_finite weights
    get_engine
run_moves-Pairs_example =
    run_moves-Pairs Fixed-IsFloat env until_scored start 0 Fuse.run none start-IsSound refl
      (refl, refl) refl

abbrev batch : List (EventPayload Fixed)
batch = event (codes "e3") ∷ []

run_moves-Accepts_example :
    ((post_events iso refuses env.settings clock
        (some phone)
        (some (codes "v1"))
        batch
        (server_at 1 start)).0
      ≡ ok (record { accepted = codes "e3" ∷ []; rejected = [] }))
    × All
        (λ e.
          IsStored e.client_id
            (run_moves env
              (sends_events 1 clock (some phone) (some (codes "v1")) batch ∷ history)
              start).data_of.asset_observation)
        batch
unfolding validate_batch validate_all validate_event validate_timestamp normalize_ts dec_text
    require_device_id require_version_v1 strip lower lower_char is_space event_row replay
run_moves-Accepts_example =
    run_moves-Accepts env 1 clock (some phone) (some (codes "v1")) phone (codes "v1") batch [] []
      history start start-IsSound refl refl refl (omega arith) refl tt (omega arith)
      (stamp, refl, refl, tt)
