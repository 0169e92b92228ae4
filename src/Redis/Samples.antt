-- ===== src/Redis/Samples.antt =====
-- A report, and a socket that is open.
use redis_replication_contro.Base.{refl, true, none, [], arith}
use redis_replication_contro.Base.Int.{pos}
use redis_replication_contro.Base.Bytes.{Bytes, codes}
use redis_replication_contro.Strconv.{format_nat, format_int}
use redis_replication_contro.Redis.Resp.RoundTrip.{Fits}
use redis_replication_contro.Redis.Info.{ReplicationInfo, role_master}
use redis_replication_contro.Redis.Info.RoundTrip.{IsPrintable, info_text, entries_of}
use redis_replication_contro.Redis.Client.{Socket, Times}
use redis_replication_contro.Redis.Client.Wire.{IsOpen}

abbrev pub test_report : ReplicationInfo
test_report = record {
  role = role_master;
  connected_slaves = pos 2;
  master_host = codes "h";
  master_port = pos 6379;
  master_link_status = codes "up";
  master_repl_offset = pos 40;
  slave_repl_offset = pos 0;
}

pub test_report-IsPrintable : IsPrintable test_report
test_report-IsPrintable = ground arith

abbrev pub test_times : Times
test_times = record { now = 5; cmd_timeout = 2; ctx_deadline = none }

abbrev pub open_socket : Bytes → Socket
open_socket incoming = record {
  takes_deadline = λ d. true;
  takes_write = λ b. true;
  sent = [];
  incoming = incoming;
}

pub open_socket-IsOpen : (incoming : Bytes) → IsOpen test_times (open_socket incoming)
open_socket-IsOpen incoming = record { deadline = refl; write = λ b. refl }

pub report_Fits : Fits (info_text (entries_of test_report))
unfolding format_int format_nat
report_Fits = ground arith
