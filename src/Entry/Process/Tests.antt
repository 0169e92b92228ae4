-- ===== src/Entry/Process/Tests.antt =====
-- A process that serves a request, is signalled and returns.
use redis_replication_contro.Base.{◌≡◌, refl, true, some, [], All}
use redis_replication_contro.Base.Bytes.{codes}
use redis_replication_contro.Controller.Run.{new_controller}
use redis_replication_contro.Controller.Run.Loop.{Loop, entering, returned}
use redis_replication_contro.Controller.Run.Loop
use redis_replication_contro.Controller.Samples.{test_config, listing_env}
use redis_replication_contro.Entry.{Launch, elected, serve_health, handle}
use redis_replication_contro.Entry.Process.{
  Process, Reach, signal, run, listen, answer, begun, onwards,
}
use redis_replication_contro.Entry.Process.Standby.{standby_is_ready}

abbrev launch : Launch
launch = elected test_config

health_addr : serve_health test_config.health_probe_addr ≡ some test_config.health_probe_addr
unfolding serve_health
health_addr = refl

abbrev asked : (p : Process) × Reach launch listing_env new_controller [] p
asked = (
  _,
  onwards (onwards begun (listen test_config.health_probe_addr refl health_addr))
      (answer (codes "/readyz") 7 refl),
)

standby_is_ready_example : All (λ a. a.1 ≡ handle true a.0) asked.0.answers
standby_is_ready_example = standby_is_ready launch listing_env new_controller [] asked.1 refl refl

abbrev ended_process : (p : Process) × Reach launch listing_env new_controller [] p
ended_process = (
  _,
  onwards
      (onwards (onwards (onwards asked.1 signal) (run (Loop.enter refl) (λ x. refl)))
        (run Loop.cancel (λ x. refl)))
      (run (Loop.stop refl refl) (λ x. refl)),
)
