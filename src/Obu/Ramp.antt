-- ===== src/Obu/Ramp.antt =====
-- obu/main.go: the ramp schedule, and the phases that a fixed-rate run goes through.
use toll_calc.Common.{
  ◌≡◌, ap, refl, ◌≢◌, subst, true, false, Option, none, some, ◌⊎◌, inl, inr, List, [], ◌∷◌, arith,
  if◌then◌else◌, Bool-cases, Option-cases,
}
use toll_calc.Common.Int.{ℤ, pos, leb_ℤ, ltb_ℤ}
use toll_calc.Common.Eq.{◌==◌, List-Eq, ℕ-Eq}
use toll_calc.Common.Text.{Text, text, is_empty}
use toll_calc.Common.Strings.{split, split-ne-empty, trim_space}
use toll_calc.Float.{Float64}
use toll_calc.Obu.{LoadConfig, ConfigError, validate_config}

pub record LoadPhase (F : Type 0) : Type 0 where
  pub duration : ℤ
  pub rate : F

-- A run without phases is one phase at the configured rate.
abbrev pub phases_or_default : {F : Type 0} → LoadConfig F → List (LoadPhase F) → List (LoadPhase F)
phases_or_default cfg [] = record { duration = cfg.duration; rate = cfg.rate } ∷ []
phases_or_default cfg (p ∷ ps) = p ∷ ps

pub data RampError : Type 0 where
  invalid_phase invalid_duration invalid_rate : Text → RampError

module _ {F : Type 0} ⦃f : Float64 F⦄
    -- `time.ParseDuration` and `strconv.ParseFloat`; `none` is an error
    (parse_duration : Text → Option ℤ) (parse_float : Text → Option F) where
  abbrev positive_duration : Option ℤ → Option ℤ
  positive_duration none = none
  positive_duration (some d) = if leb_ℤ d (pos 0) then none else some d

  abbrev positive_rate : Option F → Option F
  positive_rate none = none
  positive_rate (some r) = if f.le r f.nought then none else some r

  abbrev phase_of : Text → Text → Option ℤ → Option F → RampError ⊎ LoadPhase F
  phase_of d r none rate = inl (invalid_duration d)
  phase_of d r (some duration) none = inl (invalid_rate r)
  phase_of d r (some duration) (some rate) = inr (record { duration = duration; rate = rate })

  abbrev phase_of_parts : Text → List Text → RampError ⊎ LoadPhase F
  phase_of_parts raw (d ∷ r ∷ []) =
      phase_of d r (positive_duration (parse_duration d)) (positive_rate (parse_float r))
  phase_of_parts raw _ = inl (invalid_phase raw)

  unfoldable pub parse_phase : Text → RampError ⊎ LoadPhase F
  parse_phase raw = phase_of_parts raw (split b':' (trim_space raw))

  abbrev add_phase :
      RampError ⊎ LoadPhase F → RampError ⊎ List (LoadPhase F) → RampError ⊎ List (LoadPhase F)
  add_phase (inl e) rest = inl e
  add_phase (inr p) (inl e) = inl e
  add_phase (inr p) (inr ps) = inr (p ∷ ps)

  parse_phases : List Text → RampError ⊎ List (LoadPhase F)
  parse_phases [] = inr []
  parse_phases (raw ∷ raws) = add_phase (parse_phase raw) (parse_phases raws)

  unfoldable pub parse_ramp : Text → RampError ⊎ List (LoadPhase F)
  unfolding parse_phases parse_phase
  parse_ramp value = if is_empty (trim_space value) then inr [] else parse_phases (split b',' value)

  abbrev if_parsed : LoadConfig F → RampError ⊎ List (LoadPhase F) → Option (List (LoadPhase F))
  if_parsed cfg (inl e) = none
  if_parsed cfg (inr phases) = some (phases_or_default cfg phases)

  abbrev if_valid : LoadConfig F → Option ConfigError → Option (List (LoadPhase F))
  if_valid cfg (some e) = none
  if_valid cfg none = if_parsed cfg (parse_ramp cfg.ramp)

  -- What `main` runs in fixed mode: none if the configuration or the ramp is refused.
  unfoldable pub planned_phases : LoadConfig F → Option (List (LoadPhase F))
  planned_phases cfg = if_valid cfg (validate_config cfg)

  abbrev pub AllPositive : List (LoadPhase F) → Type 0
  AllPositive [] = Unit
  AllPositive (p ∷ ps) = (f.le p.rate f.nought ≡ false) × AllPositive ps

  phase_of-positive :
      (d r : Text) (duration : Option ℤ) (rate : Option F) (p : LoadPhase F)
      → phase_of d r duration (positive_rate rate) ≡ inr p
      → f.le p.rate f.nought ≡ false
  phase_of-positive d r none rate p h = ground (arith, h)
  phase_of-positive d r (some duration) none p h = ground (arith, h)
  phase_of-positive d r (some duration) (some rate) p h = elim (Bool-cases (f.le rate f.nought)) [
    | inl bad ↦ ground (arith, bad, h)
    | inr good ↦ ground (arith, good, h)
  ]

  parse_phase-positive :
      (raw : Text) (p : LoadPhase F) → parse_phase raw ≡ inr p → f.le p.rate f.nought ≡ false
  unfolding parse_phase
  parse_phase-positive raw p h = from_parts (split b':' (trim_space raw)) h
    where
      from_parts :
          (parts : List Text) → phase_of_parts raw parts ≡ inr p → f.le p.rate f.nought ≡ false
      from_parts [] g = ground (arith, g)
      from_parts (d ∷ []) g = ground (arith, g)
      from_parts (d ∷ r ∷ []) g =
          phase_of-positive d r (positive_duration (parse_duration d)) (parse_float r) p g
      from_parts (d ∷ r ∷ x ∷ rest) g = ground (arith, g)

  add_phase-AllPositive :
      (one : RampError ⊎ LoadPhase F) (rest : RampError ⊎ List (LoadPhase F))
      (ps : List (LoadPhase F))
      → ((p : LoadPhase F) → one ≡ inr p → f.le p.rate f.nought ≡ false)
      → ((qs : List (LoadPhase F)) → rest ≡ inr qs → AllPositive qs)
      → add_phase one rest ≡ inr ps
      → AllPositive ps
  add_phase-AllPositive (inl e) rest ps h₁ h₂ h = ground (arith, h)
  add_phase-AllPositive (inr p) (inl e) ps h₁ h₂ h = ground (arith, h)
  add_phase-AllPositive (inr p) (inr qs) [] h₁ h₂ h = tt
  add_phase-AllPositive (inr p) (inr qs) (p' ∷ qs') h₁ h₂ h =
      (ground (arith, h₁ p refl, h), subst AllPositive (tails h) (h₂ qs refl))
    where
      tails : add_phase (inr p) (inr qs) ≡ inr (p' ∷ qs') → qs ≡ qs'
      tails g = ground (arith, g)

  parse_phases-AllPositive :
      (raws : List Text) (ps : List (LoadPhase F)) → parse_phases raws ≡ inr ps → AllPositive ps
  unfolding parse_phases
  parse_phases-AllPositive [] [] h = tt
  parse_phases-AllPositive [] (p ∷ ps) h = ground (arith, h)
  parse_phases-AllPositive (raw ∷ raws) ps h =
      add_phase-AllPositive (parse_phase raw) (parse_phases raws) ps (parse_phase-positive raw)
        (parse_phases-AllPositive raws) h

  validate_config-rate :
      (cfg : LoadConfig F)
      → (cfg.mode == text "fixed") ≡ true
      → is_empty cfg.ramp ≡ true
      → validate_config cfg ≡ none
      → f.le cfg.rate f.nought ≡ false
  unfolding validate_config
  validate_config-rate cfg fixed_mode no_ramp h = ground (arith, fixed_mode, no_ramp, h)

  parse_phases-ne-empty : (raws : List Text) → raws ≢ [] → parse_phases raws ≢ inr []
  unfolding parse_phases
  parse_phases-ne-empty [] ne = ground (arith, ne refl)
  parse_phases-ne-empty (raw ∷ raws) ne = elim (parse_phase raw) [
    | inl e ↦ ground arith
    | inr p ↦ elim (parse_phases raws) [ inl e ↦ ground arith | inr ps ↦ ground arith ]
  ]

  parse_ramp-AllPositive :
      (v : Text) (ps : List (LoadPhase F)) → parse_ramp v ≡ inr ps → AllPositive ps
  unfolding parse_ramp
  parse_ramp-AllPositive v [] h = tt
  parse_ramp-AllPositive v (p ∷ ps) h = elim (Bool-cases (is_empty (trim_space v))) [
    | inl blank ↦ ground (arith, blank, h)
    | inr some_text ↦
        parse_phases-AllPositive (split b',' v) (p ∷ ps) (ground (arith, some_text, h))
  ]

  parse_ramp-empty : (v : Text) → parse_ramp v ≡ inr [] → is_empty (trim_space v) ≡ true
  unfolding parse_ramp
  parse_ramp-empty v h =
      ground (arith, h, parse_phases-ne-empty (split b',' v) (split-ne-empty b',' v))

  if_parsed-AllPositive :
      (cfg : LoadConfig F) (r : RampError ⊎ List (LoadPhase F)) (ps : List (LoadPhase F))
      → ((qs : List (LoadPhase F)) → r ≡ inr qs → AllPositive qs)
      → (r ≡ inr [] → f.le cfg.rate f.nought ≡ false)
      → if_parsed cfg r ≡ some ps
      → AllPositive ps
  if_parsed-AllPositive cfg (inl e) ps all default h = ground (arith, h)
  if_parsed-AllPositive cfg (inr []) ps all default h =
      subst AllPositive {x = record { duration = cfg.duration; rate = cfg.rate } ∷ []}
        (ground (arith, h)) (default refl, tt)
  if_parsed-AllPositive cfg (inr (q ∷ qs)) ps all default h =
      subst AllPositive {x = q ∷ qs} (ground (arith, h)) (all (q ∷ qs) refl)

  -- In fixed mode, unless the ramp is set to nothing but white space, no phase that is run has a
  -- rate of zero or less.
  pub planned_phases-AllPositive :
      (cfg : LoadConfig F) (ps : List (LoadPhase F))
      → (cfg.mode == text "fixed") ≡ true
      → is_empty cfg.ramp ≡ is_empty (trim_space cfg.ramp)
      → planned_phases cfg ≡ some ps
      → AllPositive ps
  unfolding planned_phases
  planned_phases-AllPositive cfg ps fixed_mode not_blank h =
      elim (Option-cases (validate_config cfg)) [
        | inr (e, refused) ↦ ground (arith, refused, h)
        | inl valid ↦
            if_parsed-AllPositive cfg (parse_ramp cfg.ramp) ps (parse_ramp-AllPositive cfg.ramp)
              (λ no_phase.
                validate_config-rate cfg fixed_mode
                  (ground (arith, not_blank, parse_ramp-empty cfg.ramp no_phase)) valid)
              (ground (arith, valid, h))
      ]

  -- In fixed mode, with settings that are otherwise in order, a ramp of white space alone passes
  -- the checks with any rate, and the run then has one phase with that rate.
  pub blank_ramp_bypasses_check :
      (cfg : LoadConfig F)
      → leb_ℤ cfg.obus (pos 0) ≡ false
      → leb_ℤ cfg.connections (pos 0) ≡ false
      → ltb_ℤ cfg.payload_bytes (pos 0) ≡ false
      → cfg.mode ≡ text "fixed"
      → is_empty cfg.ramp ≡ false
      → is_empty (trim_space cfg.ramp) ≡ true
      → planned_phases cfg ≡ some (record { duration = cfg.duration; rate = cfg.rate } ∷ [])
  unfolding planned_phases parse_ramp validate_config
  blank_ramp_bypasses_check cfg obus connections payload mode set blank = ground (
    arith,
    ap (λ m. m == text "fixed") mode,
    ap (λ m. m == text "max") mode,
    obus,
    connections,
    payload,
    set,
    blank,
  )
