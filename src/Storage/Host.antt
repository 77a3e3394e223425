-- ===== src/Storage/Host.antt =====
-- What the process takes from its surroundings, and app/timing.py and app/provenance.py, which
-- read it: clocks, uuid4, `json.dumps` and `str` as texts, and the provenance of the request.
use enterprise_agentops.Base.{ℕ, ◌+◌, ◌-◌, ◌/◌, ◌%◌, ◌*◌, String, Option, ltb}
use enterprise_agentops.Base.{if◌then◌else◌}
use enterprise_agentops.Values.{Value}
use enterprise_agentops.Exec.{Exec, pure, modify, gets, ◌>>=◌, ◌>>◌}
use enterprise_agentops.Storage.{Storage}

pub record Host : Type 0 where
  -- the n-th reading of `datetime.now(UTC)`, in microseconds
  pub now : ℕ → ℕ
  -- the n-th reading of `time.perf_counter_ns()`
  pub monotonic_ns : ℕ → ℕ
  -- the n-th `uuid4()`
  pub uuid4 : ℕ → String
  -- the text of `json.dumps(v)`, where it is accepted
  pub dumps : Value → String
  -- `str(v)`
  pub str : Value → String
  -- `isoformat()` of an instant
  pub iso : ℕ → String
  -- `snapshot()` of app/provenance.py
  pub request_id : Option String
  pub actor_source : String
  pub instance_id : String

-- `Stopwatch` after its block has ended
pub record Stopwatch : Type 0 where
  pub started_at : ℕ
  pub started_ns : ℕ
  pub completed_at : ℕ
  pub stopped_ns : ℕ

-- `round(n / d)` of Python: halves go to the even neighbour.
round_div : ℕ → ℕ → ℕ
round_div n d =
    let q = n / d in
    let twice = 2 * (n % d) in if ltb twice d then q else if ltb d twice then q + 1 else q + q % 2

-- `Stopwatch.duration_ms`: `max(0, …)`, and `-` stops at 0 too
unfoldable pub duration_ms : Stopwatch → ℕ
unfolding round_div
duration_ms w = round_div (w.stopped_ns - w.started_ns) 1000000

module _ {Outside : Type 0} (host : Host) where
  unfoldable pub utc_now : Exec (Storage Outside) ℕ
  utc_now = do
    n ← gets (λ s. s.clock_readings)
    modify (λ s. record s { clock_readings = s.clock_readings + 1 })
    pure (host.now n)

  unfoldable pub perf_ns : Exec (Storage Outside) ℕ
  perf_ns = do
    n ← gets (λ s. s.monotonic_readings)
    modify (λ s. record s { monotonic_readings = s.monotonic_readings + 1 })
    pure (host.monotonic_ns n)

  unfoldable pub new_uuid : Exec (Storage Outside) String
  new_uuid = do
    n ← gets (λ s. s.uuids)
    modify (λ s. record s { uuids = s.uuids + 1 })
    pure (host.uuid4 n)

  -- `Stopwatch.__enter__`, then the block, then `__exit__`, which runs after a raise too. The time is
  -- handed on beside what the block gave or raised.
  unfoldable pub start : Exec (Storage Outside) (ℕ × ℕ)
  start = do started_at ← utc_now; started_ns ← perf_ns; pure (started_at, started_ns)

  unfoldable pub stop : ℕ × ℕ → Exec (Storage Outside) Stopwatch
  stop (started_at, started_ns) = do
    stopped_ns ← perf_ns
    completed_at ← utc_now
    pure (record {
      started_at = started_at;
      started_ns = started_ns;
      completed_at = completed_at;
      stopped_ns = stopped_ns;
    })
