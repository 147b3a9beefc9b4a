-- ===== src/Examples/Sessions.antt =====
-- A session of the load generator, and the processes' settings.
use toll_calc.Common.{
  ℕ, ◌+◌, ◌≡◌, refl, true, false, Option, none, some, inl, inr, [], arith, ltb, if◌then◌else◌,
}
use toll_calc.Common.Int.{ℤ, pos, ◌+ℤ◌, ◌-ℤ◌}
use toll_calc.Common.Eq.{◌==◌, List-Eq, ℕ-Eq}
use toll_calc.Common.Text.{Text, text, atoi}
use toll_calc.Common.Strings.{split, trim_space, to_lower}
use toll_calc.Float.Grid.{Grid, Grid-Float64}
use toll_calc.Aggregator.Store.{reconciliation, new_memory_store}
use toll_calc.Aggregator.Store.Replay.{insert_all}
use toll_calc.Obu.{validate_config}
use toll_calc.Obu.Ramp.{parse_ramp}
use toll_calc.Obu.Settings.{env_or}
use toll_calc.Obu.Session.{
  Dialer, Gauged, Course, Report, close_connections, dial_connections, print_summary, run_load,
  load_main,
}
use toll_calc.Obu.Session.Printed.{printed_summary_reconciles}
use toll_calc.Calculator.Startup.{
  http_client, unknown_protocol, choose_client, new_http_client_with_timeout,
}
use toll_calc.Client.HttpClient.{trim_slashes}
use toll_calc.Examples.Loads.{ramped, phases, duration_of, rate_of, twice, recorded-twice}
use toll_calc.Examples.FixedLoads.{actions}

-- A dialer that makes so many connections; the world counts those that are open.
abbrev pub dialer_for : ℕ → Dialer ℕ
dialer_for limit = record {
  dial = λ i w. if ltb i limit then (true, w + 1) else (false, w);
  say_goodbye = λ i w. w + 10;
}

abbrev pub course : Course Grid
course = record {
  worker_actions = [];
  fixed_actions = actions;
  run_id = pos 9;
  elapsed = 11000000000;
}

abbrev pub offline : Gauged ℕ
offline = record { active = pos 0; world = 0 }

-- The second connection is refused, and the first one is closed.
refused_connection :
    dial_connections (dialer_for 1) 2 0 offline ≡ (none, record { active = pos 0; world = 11 })
unfolding dial_connections close_connections ◌+ℤ◌ ◌-ℤ◌
refused_connection = refl

abbrev pub report : Report Grid
report =
    let sending = run_load ramped phases course 2 in
    record { summary = print_summary ramped sending.stats 11000000000; sending = sending }

pub main_reports :
    (load_main (dialer_for 2) duration_of rate_of ramped course offline).0 ≡ inr report
unfolding load_main validate_config parse_ramp split trim_space atoi dial_connections
main_reports = refl

printed_summary_reconciles_example :
    let r = reconciliation (insert_all (twice report.sending.sent) new_memory_store).1 in
    (r.count ≡ report.summary.events_written)
    × (r.xor_hash ≡ report.summary.event_id_hash_xor)
    × (r.sum_hash ≡ report.summary.event_id_hash_sum)
printed_summary_reconciles_example =
    printed_summary_reconciles ramped course (omega arith) (omega arith) (dialer_for 2) duration_of
      rate_of offline report (twice report.sending.sent) main_reports
      (λ e named. recorded-twice e report.sending.sent)

abbrev two_seconds : Text → Option ℤ
two_seconds t = if t == text "2s" then some (pos 2000000000) else none

abbrev environment : Text → Text → Text
environment protocol key = if key == text "AGGREGATOR_PROTOCOL" then protocol else []

clients_chosen :
    (choose_client two_seconds (environment (text "HTTP"))
      ≡ inr (http_client (text "http://localhost:4000") (pos 2000000000)))
    × (choose_client two_seconds (environment (text "tcp")) ≡ inl (unknown_protocol (text "tcp")))
unfolding choose_client env_or to_lower new_http_client_with_timeout trim_slashes
clients_chosen = (refl, refl)
