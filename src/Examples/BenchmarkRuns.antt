-- ===== src/Examples/BenchmarkRuns.antt =====
-- Runs of the benchmark on small instances.
use toll_calc.Common.{
  ℕ, ◌+◌, ◌≡◌, refl, true, false, Option, some, get_or, inr, List, [], ◌∷◌, ltb, arith,
  if◌then◌else◌,
}
use toll_calc.Common.Int.{ℤ, pos, ◌*ℤ◌, ◌+ℤ◌, ◌-ℤ◌}
use toll_calc.Common.Text.{Text, text, itoa, atoi, parse_uint, length}
use toll_calc.Common.Strings.{after_prefix, before_byte, fields}
use toll_calc.Float.Grid.{Grid, Grid-Float64, Grid-IsFloat}
use toll_calc.Http.{HttpResponse}
use toll_calc.Aggregator.Http.{Server}
use toll_calc.Aggregator.Store.{MemoryStore}
use toll_calc.Aggregator.Refinement.{service}
use toll_calc.Aggregator.Grpc.{intercepted, distance_of}
use toll_calc.Client.HttpClient.{Outgoing, trim_slashes}
use toll_calc.Client.Agreement.{IsConnected, is_ok}
use toll_calc.Benchmark.{Config, Measured}
use toll_calc.Benchmark.Histogram.{
  scrape_histogram, scan_lines, scan_line, find_count, set_count, subtract_histogram,
}
use toll_calc.Benchmark.Polling.{poll}
use toll_calc.Benchmark.Waiting.{wait_for_samples}
use toll_calc.Benchmark.Quantile.{histogram_quantile, quantile_from, sorted_bounds, place_bound}
use toll_calc.Benchmark.Load.{Sockets, send_pipeline_load, send_events, close_all, dial_then}
use toll_calc.Benchmark.Pipeline.{Rig, measure_load, measure_loads, benchmark_pipeline}
use toll_calc.Benchmark.Pipeline.Ends.{HasEnded, benchmark_pipeline_ends}
use toll_calc.Benchmark.Transport.{
  WorkerAction, receive, see_closed, answer, run_requests, set_latency, zeros, idle_workers,
}
use toll_calc.Benchmark.Transport.Sharing.{times}
use toll_calc.Benchmark.Transport.EachOnce.{all_returned, after_requests, requests_sent_once}
use toll_calc.Benchmark.Sends.{
  http_endpoint, benchmark_request, send_http, send_grpc, benchmark_sends_agree,
}
use toll_calc.Examples.Benchmarks.{World, clock, clock-IsClock, bound_of, page_of}
use toll_calc.Examples.Codec.{number_codec, number_codec-IsCodec}
use toll_calc.Examples.Services.{server}
use toll_calc.Examples.Parties.{network_at, no_metrics}

-- Two workers and three requests, of which one fails.
abbrev actions : List (ℕ × WorkerAction)
actions =
    (0, receive)
    ∷ (1, receive)
    ∷ (1, answer true (pos 7))
    ∷ (1, receive)
    ∷ (0, answer false (pos 9))
    ∷ (0, see_closed)
    ∷ (1, answer true (pos 8))
    ∷ (1, see_closed)
    ∷ []

requests_done : all_returned (after_requests 3 2 actions).0 ≡ true
unfolding run_requests idle_workers
requests_done = refl

requests_timed : (after_requests 3 2 actions).1.latencies ≡ pos 9 ∷ pos 7 ∷ pos 8 ∷ []
unfolding run_requests idle_workers set_latency zeros
requests_timed = refl

requests_sent_once_example :
    let s = (after_requests 3 2 actions).1 in
    (times 1 s.answered ≡ (if ltb 1 3 then 1 else 0)) × (length s.latencies ≡ 3)
requests_sent_once_example = requests_sent_once 3 2 actions 1 (omega arith) requests_done

-- Sockets on which every event becomes a sample at once.
abbrev sockets : Sockets Grid World
sockets = record {
  unix_nano = λ w. pos w.time;
  dial = λ w. (true, w);
  write_json = λ i event w. (true, record w { samples = w.samples + 1 });
  close = λ i w. w;
}

abbrev rig : Rig Grid World
rig = record {
  parse_float = bound_of;
  clock = clock;
  fetch = λ w. (some (page_of w.samples), w);
  sockets = sockets;
}

abbrev two_a_second : Config
two_a_second = record {
  requests = pos 100;
  concurrency = pos 1;
  duration = pos 1000000000;
  loads = pos 2 ∷ [];
  report = text "report.md";
}

abbrev start : World
start = record { time = 0; samples = 4 }

abbrev measured : List Measured
measured = record { name = text "2"; p95 = pos 0; p99 = pos 0 } ∷ []

pipeline_runs : (benchmark_pipeline rig two_a_second start).0 ≡ inr measured
unfolding benchmark_pipeline measure_loads measure_load send_pipeline_load dial_then send_events
    close_all scrape_histogram scan_lines scan_line find_count set_count subtract_histogram
    wait_for_samples poll histogram_quantile quantile_from sorted_bounds place_bound after_prefix
    before_byte fields itoa atoi parse_uint ◌*ℤ◌ ◌+ℤ◌ ◌-ℤ◌
pipeline_runs = refl

benchmark_pipeline_ends_example :
    HasEnded rig two_a_second (benchmark_pipeline rig two_a_second start)
benchmark_pipeline_ends_example =
    benchmark_pipeline_ends rig clock-IsClock (λ w. omega arith) Grid-IsFloat two_a_second start

abbrev benchmark_network :
    Outgoing → Server (MemoryStore Grid) → Option HttpResponse × Server (MemoryStore Grid)
benchmark_network = network_at http_endpoint

benchmark_network-IsConnected :
    IsConnected number_codec service no_metrics benchmark_network http_endpoint
unfolding trim_slashes after_prefix
benchmark_network-IsConnected = record { events = λ b s. refl; invoices = λ id s. refl }

abbrev noon : Server (MemoryStore Grid) → ℤ
noon s = pos 12

abbrev body : Text
body =
    get_or (number_codec.encode_distance (distance_of (benchmark_request (text "b-1") (pos 12)))) []

benchmark_sends_agree_example :
    let (r, service') =
      (service {F = Grid}).aggregate_distance
        (distance_of (benchmark_request (text "b-1") (pos 12)))
        server.service in
    let (over_http, v) = send_http noon number_codec benchmark_network (text "b-1") server in
    let (over_grpc, v') = send_grpc noon (intercepted service) (text "b-1") server in
    ((over_http ≡ is_ok r) × (over_grpc ≡ is_ok r))
    × (v.service ≡ service')
    × (v'.service ≡ service')
benchmark_sends_agree_example =
    benchmark_sends_agree number_codec service no_metrics benchmark_network number_codec-IsCodec
      benchmark_network-IsConnected noon (text "b-1") body server refl refl (omega arith)
