-- ===== src/App/Examples.antt =====
-- A server that starts and serves.
use pothole_detection_server.Prelude.{refl, Text, codes, dec_text}
use pothole_detection_server.App.{
  SchedulerSettings, Process, alive, create_pool, set_pool, start_scheduler,
}
use pothole_detection_server.Defaults.{schedule}
use pothole_detection_server.App.Lifespan.{
  idle, serving, creates, publishes, skips_migrations, starts, Reach, here, next, fresh_process,
  IsOrderly,
}
use pothole_detection_server.App.Orderly.{AreUsable, Reach-AreUsable}

abbrev cfg : SchedulerSettings
cfg = schedule

abbrev env : Text
env = codes "production"

abbrev with_pool : Process
with_pool = (create_pool alive fresh_process).1

abbrev server : Process
server = start_scheduler cfg 0 (set_pool 0 with_pool)

server_serves : Reach cfg env (idle, fresh_process) (serving, server)
unfolding create_pool dec_text
server_serves =
    next (next (next (next here (creates alive refl)) publishes) (skips_migrations refl)) starts

Reach-AreUsable_example : IsOrderly cfg (serving, server) × AreUsable server
Reach-AreUsable_example = Reach-AreUsable cfg env (serving, server) server_serves
