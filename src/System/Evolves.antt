-- ===== src/System/Evolves.antt =====
-- Well-formed data of the server, and what no step may lose of them.
use pothole_detection_server.Prelude.{◌≤◌, List}
use pothole_detection_server.Schema.{Observation}
use pothole_detection_server.Frames.{FrameStore}
use pothole_detection_server.Sensor.Store.Active.{count_active}
use pothole_detection_server.Events.Changes.{Changes, Changes-trans, untouched}
use pothole_detection_server.Events.Ids.{Changes-Grows}
use pothole_detection_server.Fusion.Refers.{AreOf-Grows}
use pothole_detection_server.Fusion.Ids.{Grows, Grows-refl, Grows-trans, observation_ids, frame_ids}
use pothole_detection_server.Fusion.Job.Keeps.{ArePaired}
use pothole_detection_server.Cluster.{ids}
use pothole_detection_server.Cluster.Lists.{HasNoRepeat}
use pothole_detection_server.System.{Data, tables_of}

-- No client id stands twice, nor a pair, nor the id of a cluster; every pair is of an observation
-- and a frame that are stored; at most one model is active.
pub record IsSound {F R : Type 0} (x : Data F R) : Type 0 where
  pub observed_once : HasNoRepeat (observation_ids x.asset_observation)
  pub framed_once : HasNoRepeat (frame_ids x.frames.asset_frame)
  pub paired : ArePaired (tables_of x)
  pub one_active : count_active x.sensor_model ≤ 1
  pub clustered_once : HasNoRepeat (ids x.clusters.asset_cluster)

-- Observations are inserted and scored and no frame gets lost, and the data afterwards are
-- well-formed.
pub record Evolves {F R : Type 0} (x y : Data F R) : Type 0 where
  pub observations : Changes x.asset_observation y.asset_observation
  pub frames : Grows (frame_ids x.frames.asset_frame) (frame_ids y.frames.asset_frame)
  pub sound : IsSound y

module _ {F R : Type 0} where
  pub Evolves-refl : {x : Data F R} → IsSound x → Evolves x x
  Evolves-refl {x = x} h = record {
    observations = untouched;
    frames = Grows-refl (frame_ids x.frames.asset_frame);
    sound = h;
  }

  pub Evolves-trans : {x y z : Data F R} → Evolves x y → Evolves y z → Evolves x z
  Evolves-trans e f = record {
    observations = Changes-trans e.observations f.observations;
    frames = Grows-trans e.frames f.frames;
    sound = f.sound;
  }

  -- New rows in the two tables that requests write.
  pub Evolves-rows :
      {x : Data F R} (rows : List (Observation F)) (stored : FrameStore F R)
      → IsSound x
      → Changes x.asset_observation rows
      → Grows (frame_ids x.frames.asset_frame) (frame_ids stored.asset_frame)
      → Evolves x (record x { asset_observation = rows; frames = stored })
  Evolves-rows {x = x} rows stored s c h =
      let g = Changes-Grows c in
      record {
        observations = c;
        frames = h;
        sound = record {
          observed_once = g.distinct s.observed_once;
          framed_once = h.distinct s.framed_once;
          paired = (s.paired.0, AreOf-Grows x.fusion_pair g h s.paired.1);
          one_active = s.one_active;
          clustered_once = s.clustered_once;
        };
      }
