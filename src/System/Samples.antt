-- ===== src/System/Samples.antt =====
-- A server over two observations and one frame.
use pothole_detection_server.Prelude.{
  refl, arith, dec_text, ℕ, ◌*◌, true, false, Option, none, List, [], Text, codes,
}
use pothole_detection_server.Float.{zero_f}
use pothole_detection_server.Float.Fixed.{Fixed, plus, unit, fixed_float}
use pothole_detection_server.Json.Tidy.{keep}
use pothole_detection_server.RateLimit.{second}
use pothole_detection_server.Routes.{Clock, MetadataPart, fields}
use pothole_detection_server.Sensor.Fit.{Toolkit}
use pothole_detection_server.Cluster.{Database}
use pothole_detection_server.Samples.{iso, refuses, frame, dumps, upload, frame_refuses}
use pothole_detection_server.System.Evolves.{IsSound}
use pothole_detection_server.Fusion.{any_of}
use pothole_detection_server.Events.{event_row}
use pothole_detection_server.Defaults.{endpoints, fit, fusion_windows, fusion_engines, clustering}
use pothole_detection_server.Fusion.Samples as Fuse
use pothole_detection_server.System.{Outside, System, fresh_worker}

abbrev pub kit : Toolkit Fixed Text Text
kit = record {
  mean = λ xc. (plus unit, zero_f);
  std = λ xc. (plus unit, zero_f);
  no_variance = λ zc. false;
  norm = λ x. zero_f;
  argsort = λ xs. [];
  fit_gmm = λ k zc. none;
  fit_forest = λ xo. none;
  sklearn_version = codes "1.4";
  dump = λ g i. g;
}

abbrev pub db : Database Fixed
db = record {
  precedes = λ a b. false;
  within = λ a b m. true;
  distance = λ a b. zero_f;
  greatest = λ a b. a;
  avg = λ xs. plus unit;
  sum = λ xs. plus unit;
  median = λ xs. zero_f;
  dbscan = λ eps n points. [];
}

abbrev pub loads : List ℕ → MetadataPart Fixed Text
loads part = fields (frame (codes "f2"))

abbrev pub unpickle : Text → Option (Text × Text)
unpickle blob = none

abbrev pub env : Outside Fixed Text Text Text (List Text)
env = record {
  settings = endpoints;
  fromisoformat = iso;
  refuses = refuses;
  dumps = dumps;
  loads = loads;
  upload = upload;
  frame_refuses = frame_refuses;
  transport = keep;
  unpickle = unpickle;
  kit = kit;
  fit_cfg = fit;
  pdf = Fuse.pdf;
  predict = Fuse.predict;
  precedes = Fuse.precedes;
  distance = Fuse.distance;
  within = Fuse.within;
  to_ms = Fuse.to_ms;
  fusion_cfg = fusion_windows;
  engines = fusion_engines;
  db = db;
  cos_radians = λ x. plus unit;
  cluster_cfg = clustering;
}

abbrev pub start : System Fixed Text Text (List Text)
start = record {
  workers = λ w. fresh_worker;
  data_of = record {
    asset_observation = Fuse.tables.asset_observation;
    frames = record { files = []; remote = []; asset_frame = Fuse.tables.asset_frame };
    fusion_pair = [];
    fusion_run = [];
    sensor_model = [];
    clusters = record { asset_cluster = []; observation_cluster_link = []; cluster_run = [] };
  };
  fusion_lock = none;
  cluster_lock = none;
}

abbrev pub clock : Clock
clock = record { time = 500 * second; db_now = 9 }

pub start-IsSound : IsSound start.data_of
unfolding any_of dec_text event_row
start-IsSound = record {
  observed_once = (refl, (refl, tt));
  framed_once = (refl, tt);
  paired = (tt, tt);
  one_active = omega arith;
  clustered_once = tt;
}
