-- ===== src/Receiver.antt =====
-- data_receiver/main.go: the receiver's settings, its checks of origins, and its connections.
pub mod Producer
pub mod Loop
pub mod Origins
pub mod Publishing
pub mod EndToEnd
pub mod Startup
use toll_calc.Common.{
  ℕ, ◌^◌, Bool, true, false, ◌&&◌, ◌||◌, Option, none, some, List, [], ◌∷◌, if◌then◌else◌,
}
use toll_calc.Common.Int.{ℤ, pos, ltb_ℤ}
use toll_calc.Common.Eq.{List-Eq, ℕ-Eq}
use toll_calc.Common.Map.{Map, contains, insert}
use toll_calc.Common.Text.{Text, text, is_empty, atoi}
use toll_calc.Common.Strings.{split, trim_space, equal_fold}

-- `os.Getenv` is empty for a variable that is not set.
abbrev pub env_or : Text → Text → Text
env_or value fallback = if is_empty value then fallback else value

abbrev positive_or : ℤ → Option ℤ → ℤ
positive_or fallback none = fallback
positive_or fallback (some parsed) = if ltb_ℤ (pos 0) parsed then parsed else fallback

-- The read limit, from the value of `WS_READ_LIMIT_BYTES`.
unfoldable pub read_limit : Text → ℤ
read_limit value = if is_empty value then pos (2 ^ 20) else positive_or (pos (2 ^ 20)) (atoi value)

add_origins : List Text → Map Text (Unit {0}) → Map Text (Unit {0})
add_origins [] origins = origins
add_origins (piece ∷ pieces) origins =
    let origin = trim_space piece in
    add_origins pieces (if is_empty origin then origins else insert origin tt origins)

unfoldable pub parse_origins : Text → Map Text (Unit {0})
unfolding add_origins
parse_origins value = add_origins (split b',' value) []

-- `parse_host` is the host of `url.Parse(origin)`, or none if that fails.
unfoldable pub origin_allowed :
    (parse_host : Text → Option Text) → (origin host : Text) → Map Text (Unit {0}) → Bool
origin_allowed parse_host origin host allowed =
    is_empty origin
    || contains (text "*") allowed
    || contains origin allowed
    || elim (parse_host origin) [ none ↦ false | some h ↦ equal_fold h host ]

-- What the receiver is built with; the times are in nanoseconds.
pub record ReceiverSettings : Type 0 where
  pub read_limit : ℤ
  pub allowed_origins : Map Text (Unit {0})
  pub read_buffer_size : ℕ
  pub write_buffer_size : ℕ
  pub read_timeout : ℕ
  pub produce_timeout : ℕ

-- `NewDataReceiverWithProducer`; `env` is `os.Getenv`. No connection is open yet.
unfoldable pub new_data_receiver : (env : Text → Text) → ReceiverSettings
new_data_receiver env = record {
  read_limit = read_limit (env (text "WS_READ_LIMIT_BYTES"));
  allowed_origins = parse_origins (env (text "WS_ALLOWED_ORIGINS"));
  read_buffer_size = 4096;
  write_buffer_size = 4096;
  read_timeout = 30000000000;
  produce_timeout = 5000000000;
}

-- The check of the upgrader, on the header and the host of a request.
unfoldable pub check_origin :
    (parse_host : Text → Option Text) → ReceiverSettings → (origin host : Text) → Bool
check_origin parse_host settings origin host =
    origin_allowed parse_host origin host settings.allowed_origins
