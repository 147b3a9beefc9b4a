-- ===== src/Obu/Session/Gauge.antt =====
-- The gauge of the load generator's connections.
use toll_calc.Common.{
  ℕ, zero, suc, ◌≡◌, ◌≢◌, refl, sym, ap, ◌∙◌, Bool, true, false, Option, none, some, ◌⊎◌, inl, inr,
  List, Bool-cases, Option-cases,
}
use toll_calc.Common.Int.{
  ℤ, pos, pos_part, ◌+ℤ◌, ◌-ℤ◌, up_none, down_none, next_up, next_down, up_and_down,
}
use toll_calc.Common.Text.{Text}
use toll_calc.Float.{Float64}
use toll_calc.Obu.{LoadConfig, validate_config}
use toll_calc.Obu.Ramp.{LoadPhase, RampError, parse_ramp}
use toll_calc.Obu.Session.{
  Dialer, Gauged, close_connections, dialled, dial_connections, Course, run_connected, run_phases,
  capacity_overflows, capacity_out_of_range, load_main,
}

module _ {W : Type 0} (dialer : Dialer W) where
  close_connections-active :
      (k : ℕ) (s : Gauged W) → (close_connections dialer k s).active ≡ s.active -ℤ pos k
  unfolding close_connections
  close_connections-active zero s = sym (down_none s.active)
  close_connections-active (suc k) s =
      ap (λ a. a -ℤ pos 1) (close_connections-active k s) ∙ next_down s.active k

  -- The gauge has risen by the number of the connections, if there are any.
  Raised : ℤ → Option ℕ × Gauged W → Type 0
  Raised base (none, s) = s.active ≡ base
  Raised base (some k, s) = s.active ≡ base +ℤ pos k

  dialled-Raised :
      (base : ℤ) (opened : ℕ) (active : ℤ) (rest : Gauged W → Option ℕ × Gauged W) (out : Bool × W)
      → active ≡ base +ℤ pos opened
      → ((s : Gauged W) → s.active ≡ base +ℤ pos (suc opened) → Raised base (rest s))
      → Raised base (dialled dialer rest opened active out)
  unfolding Raised
  dialled-Raised base opened active rest (true, w) risen h =
      h _ (ap (λ a. a +ℤ pos 1) risen ∙ next_up base opened)
  dialled-Raised base opened active rest (false, w) risen h =
      close_connections-active opened _ ∙ ap (λ a. a -ℤ pos opened) risen ∙ up_and_down base opened

  dial_connections-Raised :
      (base : ℤ) (left opened : ℕ) (s : Gauged W)
      → s.active ≡ base +ℤ pos opened
      → Raised base (dial_connections dialer left opened s)
  unfolding dial_connections Raised
  dial_connections-Raised base zero opened s risen = risen
  dial_connections-Raised base (suc left) opened s risen =
      dialled-Raised base opened s.active (dial_connections dialer left (suc opened))
        (dialer.dial opened s.world) risen
        (λ s' risen'. dial_connections-Raised base left (suc opened) s' risen')

  module _ {F : Type 0} ⦃f : Float64 F⦄ (parse_duration : Text → Option ℤ)
      (parse_float : Text → Option F) (cfg : LoadConfig F) (course : Course F) where
    run_connected-active :
        (base : ℤ) (phases : List (LoadPhase F)) (out : Option ℕ × Gauged W)
        → Raised base out
        → (run_connected dialer parse_duration parse_float cfg phases course out).0
          ≢ inl capacity_out_of_range
        → (run_connected dialer parse_duration parse_float cfg phases course out).1.active ≡ base
    unfolding Raised
    run_connected-active base phases (none, s) risen returns = risen
    run_connected-active base phases (some k, s) risen returns =
        elim (Bool-cases (capacity_overflows cfg k)) [
          | inl panics ↦ absurd (returns (rw panics refl))
          | inr fits ↦
              rw fits
                (close_connections-active k s ∙ ap (λ a. a -ℤ pos k) risen ∙ up_and_down base k)
        ]

    run_phases-active :
        (parsed : RampError ⊎ List (LoadPhase F)) (s : Gauged W)
        → (run_phases dialer parse_duration parse_float cfg course parsed s).0
          ≢ inl capacity_out_of_range
        → (run_phases dialer parse_duration parse_float cfg course parsed s).1.active ≡ s.active
    run_phases-active (inl e) s returns = refl
    run_phases-active (inr phases) s returns =
        run_connected-active s.active phases _
          (dial_connections-Raised s.active (pos_part cfg.connections) 0 s (sym (up_none s.active)))
          returns

    -- However `main` ends but by a panic, also after an error in the middle of the dialling, the gauge of the active
    -- connections is what it was.
    pub load_main_restores :
        (s : Gauged W)
        → (load_main dialer parse_duration parse_float cfg course s).0 ≢ inl capacity_out_of_range
        → (load_main dialer parse_duration parse_float cfg course s).1.active ≡ s.active
    unfolding load_main
    load_main_restores s returns = elim (Option-cases (validate_config cfg)) [
      | inl valid ↦ rw valid (
          run_phases-active (parse_ramp parse_duration parse_float cfg.ramp) s
            (rw valid at returns))
      | inr (e, refused) ↦ rw refused refl
    ]
