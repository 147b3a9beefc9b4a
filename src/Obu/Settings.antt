-- ===== src/Obu/Settings.antt =====
-- obu/main.go: where the load generator's settings come from.
use toll_calc.Common.{Option, get_or, if◌then◌else◌}
use toll_calc.Common.Int.{ℤ, pos}
use toll_calc.Common.Text.{Text, text, is_empty, atoi}
use toll_calc.Common.Strings.{to_lower}
use toll_calc.Float.{Float64}
use toll_calc.Obu.{LoadConfig}

-- `env` is `os.Getenv`, which is empty for a variable that is not set.
unfoldable pub env_or : (env : Text → Text) → (key fallback : Text) → Text
env_or env key fallback = if is_empty (env key) then fallback else env key

-- `envInt` and `envInt64`, since an `int` has 64 bits.
unfoldable pub env_int : (env : Text → Text) → (key : Text) → (fallback : ℤ) → ℤ
env_int env key fallback = get_or (atoi (env key)) fallback

module _ {F : Type 0} ⦃f : Float64 F⦄
    -- `time.ParseDuration` and `strconv.ParseFloat`; `none` is an error
    (parse_duration : Text → Option ℤ) (parse_float : Text → Option F) where
  unfoldable pub env_float : (env : Text → Text) → (key : Text) → (fallback : F) → F
  env_float env key fallback = get_or (parse_float (env key)) fallback

  unfoldable pub env_duration : (env : Text → Text) → (key : Text) → (fallback : ℤ) → ℤ
  env_duration env key fallback = get_or (parse_duration (env key)) fallback

  -- The values of the flags that are not on the command line.
  unfoldable pub default_flags : (env : Text → Text) → LoadConfig F
  unfolding env_or env_int env_float env_duration
  default_flags env = record {
    obus = env_int env (text "OBU_COUNT") (pos 20);
    rate = env_float env (text "OBU_EVENT_RATE") (f.literal 4 0);
    connections = env_int env (text "OBU_CONNECTIONS") (pos 1);
    duration = env_duration env (text "OBU_TEST_DURATION") (pos 0);
    payload_bytes = env_int env (text "OBU_PAYLOAD_BYTES") (pos 0);
    mode = env_or env (text "OBU_LOAD_MODE") (text "fixed");
    seed = env_int env (text "OBU_RANDOM_SEED") (pos 1);
    ramp = env_or env (text "OBU_RAMP_SCHEDULE") (text "");
  }

  -- `command_line` is `flag.Parse`, which sets what the command line names.
  unfoldable pub parse_flags :
      (env : Text → Text) → (command_line : LoadConfig F → LoadConfig F) → LoadConfig F
  unfolding default_flags
  parse_flags env command_line =
      let cfg = command_line (default_flags env) in record cfg { mode = to_lower cfg.mode }
