-- ===== src/Lib.antt =====
-- The verification library of redis-replication-controller.
--
-- The controller watches the Redis pods of one or more namespaces, groups them into replication sets, and
-- keeps exactly one master in each set: it asks every pod for `INFO replication`, labels the master's pod
-- for the write service, points stray masters to the kept one, and promotes a replica when no master has
-- been seen for a threshold. Its parts, and the files that model them:
--
-- * internal/redis/resp.go, Redis/Resp.antt: the RESP writer (`writeCommand`) and reader (`readReply`,
--   `readLine`). A buffered reader is the list of the bytes to come. `read_reply` takes fuel for the
--   nesting of arrays; each level reads at least one byte, so more fuel than bytes is enough, and the
--   client gives that much. A `make` above what the runtime can allocate is the value `panic`. In the
--   tools it ends the process; for the controller it is one more command that fails.
-- * internal/redis/parse.go, Redis/Info.antt: the replies of `INFO replication` and `ROLE`.
-- * internal/redis/client.go, Redis/Client.antt: one command on a connection (`tcpConn.do`) and the
--   commands built on it. A socket is its answers: does it take a deadline and a write, which bytes arrive.
-- * internal/kubernetes/pods.go, Kube/Pods.antt: pods, their labels and ordinals, the listing over several
--   namespaces, the patches. The API server is a function from namespace and selector to its answer.
-- * internal/config/config.go, Config.antt and Config/: the environment variables, their defaults, and
--   the validation.
-- * internal/controller/controller.go, Controller/: Select.antt (the choice of a master), Sets.antt (the
--   sets, their epochs and states), Failover.antt (`failover`, `replicateOf`), Reconcile.antt (`probe`,
--   `syncLabels`, `reconcileSet`, `reconcile`), Run.antt (`New`, `Run`, `Ready`). Pool.antt has the
--   goroutines of `probe` as interleaved steps; Reconcile.antt has them run one after the other.
--   Run/Loop.antt has the goroutine of `Run` against its ticker and its context, Run.antt the ticks one
--   after the other. Wire.antt makes the TCP connections the answers of the controller's calls.
--   Converge.antt says what a tick is for: it follows the roles of Redis instances that do what the
--   commands tell them, and the labels of pods whose patches are merged.
-- * tools/failover-probe/main.go, Tools/FailoverProbe/: Client.antt (its RESP client and commands),
--   Scan.antt (`scanKeys`; each round of the loop reads at least one byte, so one round more than there
--   are bytes is enough), Settings.antt (the environment and `buildSampleKeys`), Loop.antt (`main`, a
--   tick at a time).
-- * tools/data-loader/main.go, Tools/DataLoader/: Client.antt and Settings.antt as above, Flush.antt (one
--   pipelined batch), Loop.antt (`main`, a round at a time; the pairs are its input), Words.antt (`uuid4`,
--   `pathHash`), Generator/ (`newGenerator`, `genKeyValue`: the shapes and tables, the draws, the pairs).
-- * internal/leader/leader.go, Leader.antt: what client-go's leader election is given, and the callbacks.
-- * cmd/main.go, Entry.antt: the exits and the launch of `main`, and the handlers of `serveHealth`;
--   Entry/Process.antt: its goroutines from there on, as interleaved steps.
-- * Strconv.antt models the functions of Go's strconv that these parts call, Base/ the strings, the
--   sorting, the 64-bit integers and the shared lemmas.
--
-- The controller's calls of Redis and of Kubernetes are events of Controller/World.antt. An action takes
-- the events so far and an environment, which answers each call by what happened before it, and returns
-- the events after it; so a statement about every environment covers every scripted cluster, failures
-- included. `int` and `int64` are integers with the wrap-around of 64 bits written out where the code
-- computes (`wrap64`); a Go map is an association list; a time is a number of nanoseconds.
--
-- Where README.md or a comment says something else than the code, the model follows the code: README.md
-- leaves an ambiguous split-brain to an operator, where `reconcileSet` keeps one master and redirects the
-- others; it verifies a promotion with ROLE, redirects replicas that follow another host, and takes the
-- master label off the other pods first, none of which the code does.
--
-- Not modelled: the deadlines of contexts and what a cancellation does inside a call (an environment may
-- fail any call instead), the texts of errors and the logs but for the errors of cmd/main.go, the HTTP
-- server itself, the delivery of signals, and the election itself, which is client-go's.
-- `time.ParseDuration`, `json.Marshal`, the clock and the random numbers of the tools are arguments; a
-- command that runs into its deadline is one whose reply does not arrive.
pub mod Base
pub mod Strconv
pub mod Redis
pub mod Kube
pub mod Config
pub mod Controller
pub mod Leader
pub mod Entry
pub mod Tools
