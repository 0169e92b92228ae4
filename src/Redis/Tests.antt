-- ===== src/Redis/Tests.antt =====
-- The protocol and the INFO report on concrete bytes.
use redis_replication_contro.Base.{◌≤◌, ◌≡◌, ◌≢◌, refl, some, [], ◌∷◌, ◌++◌, arith, length}
use redis_replication_contro.Base.Result.{ok, err}
use redis_replication_contro.Base.Bytes.{Bytes, codes}
use redis_replication_contro.Strconv.{format_nat}
use redis_replication_contro.Redis.Resp.{arr, out_of_fuel, write_command, read_reply}
use redis_replication_contro.Redis.Resp.RoundTrip.{strings, read_reply-write_command}
use redis_replication_contro.Redis.Resp.Fuel.{read_reply_total}
use redis_replication_contro.Redis.Info.{parse_replication_info}
use redis_replication_contro.Redis.Info.RoundTrip.{info_text, entries_of, parse-info_text}
use redis_replication_contro.Redis.Samples.{test_report, test_report-IsPrintable}

abbrev ping_bytes : Bytes
ping_bytes = codes "*1\r\n$4\r\nPING\r\n"

ping_written : write_command (codes "PING" ∷ []) ≡ some ping_bytes
unfolding write_command format_nat
ping_written = refl

read_reply-write_command_example :
    read_reply 2 (ping_bytes ++ codes "x") ≡ (ok (arr (strings (codes "PING" ∷ []))), codes "x")
read_reply-write_command_example =
    read_reply-write_command 0 (codes "PING" ∷ []) ping_bytes (codes "x") (omega arith)
      (omega arith, tt) ping_written

read_reply_total_example :
    ((read_reply 40 ping_bytes).0 ≢ err out_of_fuel)
    × (length (read_reply 40 ping_bytes).1 ≤ length ping_bytes)
read_reply_total_example = read_reply_total 40 ping_bytes (omega arith)

parse-info_text_example : parse_replication_info (info_text (entries_of test_report)) ≡ test_report
parse-info_text_example = parse-info_text test_report test_report-IsPrintable
