-- ===== src/Config/Runtime/Examples.antt =====
-- A runtime whose Redis cannot be reached.
use wego.Prelude.{none, some, [], codes}
use wego.Config.Options.{Options}
use wego.Config.Validation.Accepted.{zero_options}
use wego.Config.Runtime.{Clients, new_runtime}
use wego.Config.Runtime.Releasing.{Holds, new_runtime-Holds}

abbrev opts : Options
opts = record zero_options {
  dsn = codes "postgres:";
  redis = record zero_options.redis { addr = codes "r:6379" };
}

abbrev no_redis : Clients
no_redis = record {
  telemetry = none;
  postgres = none;
  redis = some (codes "connection refused");
  etcd = none;
}

new_runtime-Holds_example : Holds [] opts (new_runtime [] opts no_redis)
new_runtime-Holds_example = new_runtime-Holds [] opts no_redis
