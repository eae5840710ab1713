-- ===== src/Defaults.antt =====
-- app/config.py: the defaults of the settings.
pub mod Limits
mod Examples
use pothole_detection_server.Prelude.{true, codes}
use pothole_detection_server.Float.{Float, one_f}
use pothole_detection_server.RateLimit as Rate
use pothole_detection_server.Frames.{StorageSettings}
use pothole_detection_server.Routes as Routes
use pothole_detection_server.Engine.{FusionSettings}
use pothole_detection_server.Fusion.{JobSettings}
use pothole_detection_server.FitJob.{FitSettings}
use pothole_detection_server.Cluster.{ClusterSettings}
use pothole_detection_server.App.{SchedulerSettings}

abbrev storage : StorageSettings
storage = record {
  storage_backend = codes "local";
  storage_local_path = codes "./storage/frames";
  supabase_storage_bucket = codes "frames";
}

abbrev rate_limits : Rate.Settings
rate_limits = record { rate_limit_events_per_hour = 100; rate_limit_frames_per_hour = 100 }

abbrev pub endpoints : Routes.Settings
endpoints = record {
  rate_limits = rate_limits;
  max_batch_size = 100;
  max_frame_size_bytes = 10_485_760;
  storage = storage;
}

abbrev pub schedule : SchedulerSettings
schedule = record {
  fusion_enabled = true;
  fusion_interval_minutes = 5;
  sensor_fit_enabled = true;
  sensor_fit_interval_minutes = 60;
  clustering_enabled = true;
  clustering_interval_minutes = 15;
}

module _ {F : Type 0} ⦃d : Float F⦄ where
  abbrev pub fusion_windows : JobSettings F
  fusion_windows = record {
    fusion_batch_size = 500;
    fusion_window_ms = 3000;
    fusion_window_m = d.of_nat 25;
  }

  abbrev pub fusion_engines : FusionSettings F
  fusion_engines = record {
    fusion_engine_version = codes "fusion.matlab_port_v1";
    fusion_w_s = d.half;
    fusion_w_v = d.half;
    fallback_ratio_mean = d.of_nat 3;
    fallback_ratio_std = one_f;
    severity_speed_ref = d.of_nat 5;
    severity_scale = d.of_nat 2;
  }

  abbrev pub fit : FitSettings F
  fit = record {
    sensor_fit_min_observations = 200;
    sensor_fit_k_default = 3;
    severity_speed_ref = d.of_nat 5;
    severity_scale = d.of_nat 2;
  }

  abbrev pub clustering : ClusterSettings F
  clustering = record {
    cluster_window_days = 30;
    cluster_member_min_confidence = d.half;
    cluster_eps_m = d.of_nat 25;
    cluster_min_points = 3;
  }
