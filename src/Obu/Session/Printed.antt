-- ===== src/Obu/Session/Printed.antt =====
-- The line that the load generator prints against the aggregator's reconciliation.
use toll_calc.Common.{
  ℕ, zero, suc, ◌+◌, ◌<◌, ◌≡◌, refl, subst, Bool, true, false, Option, none, some, ◌⊎◌, inl, inr,
  List, arith, Bool-cases, Option-cases,
}
use toll_calc.Common.Int.{ℤ, pos_part}
use toll_calc.Common.Eq.{◌==◌, List-Eq, ℕ-Eq}
use toll_calc.Common.Text.{Text, text, length, is_empty}
use toll_calc.Float.{Float64}
use toll_calc.Types.{Distance, word}
use toll_calc.Aggregator.Store.{reconciliation, new_memory_store}
use toll_calc.Aggregator.Store.Ledger.{recorded}
use toll_calc.Aggregator.Store.Replay.{insert_all}
use toll_calc.Aggregator.Store.Fingerprint.{mem}
use toll_calc.Obu.{LoadConfig, validate_config}
use toll_calc.Obu.Maximum.{Sending}
use toll_calc.Obu.Ramp.{LoadPhase, RampError, parse_ramp}
use toll_calc.Obu.Conservation.{IsTallied}
use toll_calc.Obu.Reconciliation.{final-IsTallied, IsTallied-reconciles}
use toll_calc.Obu.Fixed.Reconciliation.{final-IsConserved}
use toll_calc.Obu.Session.{
  Dialer, Gauged, dialled, dial_connections, Refusal, Report, Course, padding_of, worker_obus,
  capacity_overflows, print_summary, run_load, run_connected, run_phases, load_main,
}

module _ {W : Type 0} (dialer : Dialer W) where
  -- As many connections are opened as there should be.
  CountsTo : ℕ → Option ℕ → Type 0
  CountsTo n none = Unit
  CountsTo n (some k) = k ≡ n

  dialled-CountsTo :
      (n opened : ℕ) (active : ℤ) (rest : Gauged W → Option ℕ × Gauged W) (out : Bool × W)
      → ((s : Gauged W) → CountsTo n (rest s).0)
      → CountsTo n (dialled dialer rest opened active out).0
  unfolding CountsTo
  dialled-CountsTo n opened active rest (true, w) h = h _
  dialled-CountsTo n opened active rest (false, w) h = tt

  dial_connections-CountsTo :
      (left opened : ℕ) (s : Gauged W)
      → CountsTo (left + opened) (dial_connections dialer left opened s).0
  unfolding dial_connections CountsTo
  dial_connections-CountsTo zero opened s = omega arith
  dial_connections-CountsTo (suc left) opened s =
      dialled-CountsTo (suc left + opened) opened s.active
        (dial_connections dialer left (suc opened)) (dialer.dial opened s.world)
        (λ s'.
          subst (λ n. CountsTo n (dial_connections dialer left (suc opened) s').0) (omega arith)
            (dial_connections-CountsTo left (suc opened) s'))

connections_positive :
    {F : Type 0} ⦃f : Float64 F⦄ (cfg : LoadConfig F)
    → validate_config cfg ≡ none
    → 0 < pos_part cfg.connections
unfolding validate_config
connections_positive cfg h = ground (arith, h)

-- The statistics of what was sent count some events in flight.
abbrev pub HasTally : ℤ → Sending → Type 0
HasTally seed s = (h : Text → ℕ) × (n : ℕ) × IsTallied seed h n s

module _ {F : Type 0} ⦃f : Float64 F⦄ (cfg : LoadConfig F) (course : Course F)
    (few : length course.worker_actions < word)
    (few_fixed : length course.fixed_actions < word) where
  run_load-HasTally :
      (phases : List (LoadPhase F)) (connections : ℕ)
      → 0 < connections
      → HasTally cfg.seed (run_load cfg phases course connections)
  unfolding run_load
  run_load-HasTally phases connections positive =
      let padding = padding_of (pos_part cfg.payload_bytes) in
      elim (Bool-cases (cfg.mode == text "max")) [
        | inl maximum ↦ rw maximum (
          _,
          _,
          final-IsTallied cfg padding course.worker_actions
              (worker_obus (pos_part cfg.obus) connections connections 0) course.run_id few,
        )
        | inr fixed ↦ rw fixed (
          _,
          _,
          (final-IsConserved cfg padding course.fixed_actions connections phases course.run_id
              few_fixed positive).tallied,
        )
      ]

  -- A report that states the statistics of what was sent.
  abbrev pub States : Report F → Type 0
  States report =
      HasTally cfg.seed report.sending
      × (report.summary ≡ print_summary cfg report.sending.stats course.elapsed)

  -- Either no report or one that states the statistics.
  abbrev pub StatesIfAny : Refusal ⊎ Report F → Type 0
  StatesIfAny (inl e) = Unit
  StatesIfAny (inr report) = States report

  module _ {W : Type 0} (dialer : Dialer W) (parse_duration : Text → Option ℤ)
      (parse_float : Text → Option F) where
    run_connected-StatesIfAny :
        (phases : List (LoadPhase F)) (out : Option ℕ × Gauged W)
        → 0 < pos_part cfg.connections
        → CountsTo dialer (pos_part cfg.connections) out.0
        → StatesIfAny (run_connected dialer parse_duration parse_float cfg phases course out).0
    unfolding CountsTo
    run_connected-StatesIfAny phases (none, s) positive counted = tt
    run_connected-StatesIfAny phases (some k, s) positive counted =
        elim (Bool-cases (capacity_overflows cfg k)) [
          | inl panics ↦ rw panics tt
          | inr fits ↦ rw fits (run_load-HasTally phases k (omega (arith, positive, counted)), refl)
        ]

    run_phases-StatesIfAny :
        (parsed : RampError ⊎ List (LoadPhase F)) (s : Gauged W)
        → 0 < pos_part cfg.connections
        → StatesIfAny (run_phases dialer parse_duration parse_float cfg course parsed s).0
    run_phases-StatesIfAny (inl e) s positive = tt
    run_phases-StatesIfAny (inr phases) s positive = run_connected-StatesIfAny phases _ positive (
        subst (λ n. CountsTo dialer n (dial_connections dialer (pos_part cfg.connections) 0 s).0)
          (omega arith) (dial_connections-CountsTo dialer (pos_part cfg.connections) 0 s))

    pub load_main-StatesIfAny :
        (s : Gauged W) → StatesIfAny (load_main dialer parse_duration parse_float cfg course s).0
    unfolding load_main
    load_main-StatesIfAny s = elim (Option-cases (validate_config cfg)) [
      | inl valid ↦ rw valid (
          run_phases-StatesIfAny (parse_ramp parse_duration parse_float cfg.ramp) s
            (connections_positive cfg valid))
      | inr (e, refused) ↦ rw refused tt
    ]

    -- In either mode, if fewer than 2^64 actions are taken, in any order and with any writes
    -- failing: whenever `main` prints a summary, and a store that was empty is delivered exactly the
    -- events that were sent, in whatever order and however often each, the reconciliation of that
    -- store has the count, the exclusive or and the sum that the summary states.
    pub printed_summary_reconciles :
        (s : Gauged W) (report : Report F) (ds : List (Distance F))
        → (load_main dialer parse_duration parse_float cfg course s).0 ≡ inr report
        → ((e : Text) → is_empty e ≡ false → recorded e ds ≡ mem e report.sending.sent)
        → let r = reconciliation (insert_all ds new_memory_store).1 in
          (r.count ≡ report.summary.events_written)
          × (r.xor_hash ≡ report.summary.event_id_hash_xor)
          × (r.sum_hash ≡ report.summary.event_id_hash_sum)
    unfolding print_summary
    printed_summary_reconciles s report ds printed delivered =
        let (tally, stated) = subst StatesIfAny printed (load_main-StatesIfAny s) in
        rw stated (IsTallied-reconciles report.sending ds tally.2 delivered)
