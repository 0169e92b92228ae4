-- ===== src/Controller/Wire/Tests.antt =====
-- Two pods, of which one can be reached.
use redis_replication_contro.Base.{
  ◌≡◌, refl, Option, none, some, [], ◌∷◌, ◌++◌, inl, inr, keep_if, if◌then◌else◌,
}
use redis_replication_contro.Base.Bytes.{Bytes, codes, bytes_eq}
use redis_replication_contro.Redis.Resp.{write_bulk}
use redis_replication_contro.Redis.Info.{ReplicationInfo}
use redis_replication_contro.Redis.Info.RoundTrip.{info_text, entries_of}
use redis_replication_contro.Redis.Samples.{
  test_report, test_report-IsPrintable, test_times, open_socket, open_socket-IsOpen, report_Fits,
}
use redis_replication_contro.Kube.Pods.{Pod}
use redis_replication_contro.Controller.Samples.{test_config, test_env, first_pod, second_pod}
use redis_replication_contro.Controller.Failover.{address}
use redis_replication_contro.Controller.Reconcile.{is_probed, probe}
use redis_replication_contro.Controller.Wire.{Network, over_tcp}
use redis_replication_contro.Controller.Wire.Probes.{reported, Answers, probe-reported}
use redis_replication_contro.Strconv.{format_int, format_nat}

abbrev sent : Bytes
sent = write_bulk (info_text (entries_of test_report))

abbrev network : Network
network = record {
  reaches = λ t addr. bytes_eq addr (codes "10.0.0.1:6379");
  times = λ t. test_times;
  socket = λ t addr. open_socket (sent ++ []);
}

abbrev reports : Pod → Option ReplicationInfo
reports pod = if bytes_eq pod.ip (codes "10.0.0.1") then some test_report else none

first_pod-Answers : Answers network test_config reports first_pod
unfolding bytes_eq address format_int format_nat
first_pod-Answers = inl (
  test_report,
  (
    refl,
    record {
      reached = λ t. refl;
      opened = λ t. open_socket-IsOpen (sent ++ []);
      printable = test_report-IsPrintable;
      fits = report_Fits;
      rest = λ t. [];
      text = λ t. refl;
    },
  ),
)

second_pod-Answers : Answers network test_config reports second_pod
unfolding bytes_eq address format_int format_nat
second_pod-Answers = inr (refl, λ t. refl)

probe-reported_example :
    (probe test_config
      (first_pod ∷ second_pod ∷ [])
      (over_tcp network (test_env (codes "master")))
      []).0
    ≡ reported reports (keep_if is_probed (first_pod ∷ second_pod ∷ []))
probe-reported_example =
    probe-reported test_config network (test_env (codes "master")) reports
      (first_pod ∷ second_pod ∷ []) [] (first_pod-Answers, (second_pod-Answers, tt))
