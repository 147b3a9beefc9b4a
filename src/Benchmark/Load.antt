-- ===== src/Benchmark/Load.antt =====
-- benchmark/main.go: `sendPipelineLoad`, which sends events over ten WebSockets at a fixed rate.
use toll_calc.Common.{
  ℕ, zero, suc, ◌+◌, ◌-◌, ◌*◌, ◌%◌, Bool, true, false, Option, none, some, ◌++◌, ltb, [],
  if◌then◌else◌,
}
use toll_calc.Common.Int.{ℤ, pos, pos_part}
use toll_calc.Common.Text.{Text, text, itoa}
use toll_calc.Float.{Float64, seconds_of}
use toll_calc.Types.{ObuData}
use toll_calc.Benchmark.Polling.{Clock}

pub data SendError : Type 0 where
  dial_failed write_failed sender_late : SendError

-- What the sender uses of the world: the wall clock, the dialer and the sockets, which are numbered
-- in the order of their opening. `true` stands for a nil error; a write has its deadline.
pub record Sockets (F W : Type 0) : Type 0 where
  pub unix_nano : W → ℤ
  pub dial : W → Bool × W
  pub write_json : ℕ → ObuData F → W → Bool × W
  pub close : ℕ → W → W

abbrev pub connections : ℕ
connections = 10

abbrev pub second : ℕ
second = 1000000000

-- `fmt.Sprintf("%s-%d-%d", label, runID, i)`
unfoldable pub load_event_id : Text → ℤ → ℕ → Text
load_event_id label run_id i = label ++ (text "-" ++ (itoa run_id ++ (text "-" ++ itoa (pos i))))

module _ {F W : Type 0} ⦃f : Float64 F⦄ (clock : Clock W) (sockets : Sockets F W) where
  -- `int(math.Round(float64(rate) * duration.Seconds()))`, and the number of rounds of the loop up
  -- to it
  abbrev pub total_events : ℤ → ℕ → ℕ
  total_events rate duration =
      pos_part (f.to_int (f.round (f.mul (f.of_int rate) (seconds_of duration))))

  -- The time after the start at which an event is due.
  abbrev offset_of : ℤ → ℕ → ℕ
  offset_of rate i =
      pos_part (f.to_int (f.mul (f.div (f.of_int (pos i)) (f.of_int rate)) (f.of_int (pos second))))

  abbrev pub load_event : Text → ℤ → ℕ → ℤ → ObuData F
  load_event label run_id i now = record {
    event_id = load_event_id label run_id i;
    produced_at_unix_nano = now;
    obu_id = pos (i % 100 + 1);
    lat = f.of_int (pos (i % 90));
    lon = f.of_int (pos (i * 7 % 180));
    payload = [];
  }

  -- `time.Sleep(delay)` if the event is not due yet.
  abbrev sleep_until : ℕ → W → W
  sleep_until due w = if ltb (clock.now w) due then clock.sleep (due - clock.now w) w else w

  abbrev after_write : ℕ → (W → (ℕ × Option SendError) × W) → Bool × W → (ℕ × Option SendError) × W
  after_write i rest (true, w) = rest w
  after_write i rest (false, w) = ((i, some write_failed), w)

  -- The events from `i` on; what is returned is the number of events and the error.
  unfoldable pub send_events : Text → ℤ → ℤ → (start left i : ℕ) → W → (ℕ × Option SendError) × W
  send_events label rate run_id start zero i w = ((i, none), w)
  send_events label rate run_id start (suc left) i w =
      let w' = sleep_until (start + offset_of rate i) w in
      after_write i (send_events label rate run_id start left (suc i))
        (sockets.write_json (i % connections) (load_event label run_id i (sockets.unix_nano w')) w')

  -- Too late if it took a second longer than the window.
  abbrev judge : (start duration : ℕ) → (ℕ × Option SendError) × W → (ℕ × Option SendError) × W
  judge start duration ((n, some e), w) = ((n, some e), w)
  judge start duration ((n, none), w) =
      if ltb (duration + second) (clock.now w - start)
      then ((n, some sender_late), w)
      else ((n, none), w)

  unfoldable pub close_all : ℕ → W → W
  close_all zero w = w
  close_all (suc k) w = sockets.close k (close_all k w)

  -- The deferred closing of the sockets that were opened.
  abbrev closing : ℕ → (ℕ × Option SendError) × W → (ℕ × Option SendError) × W
  closing opened (out, w) = (out, close_all opened w)

  abbrev after_dial : (W → (ℕ × Option SendError) × W) → ℕ → Bool × W → (ℕ × Option SendError) × W
  after_dial rest opened (true, w) = rest w
  after_dial rest opened (false, w) = closing opened ((0, some dial_failed), w)

  unfoldable pub dial_then :
      (left opened : ℕ) → (W → (ℕ × Option SendError) × W) → W → (ℕ × Option SendError) × W
  dial_then zero opened send w = closing opened (send w)
  dial_then (suc left) opened send w =
      after_dial (dial_then left (suc opened) send) opened (sockets.dial w)

  abbrev send_opened : Text → ℤ → ℕ → W → (ℕ × Option SendError) × W
  send_opened label rate duration w =
      judge (clock.now w) duration (
        send_events label rate (sockets.unix_nano w) (clock.now w) (total_events rate duration) 0 w)

  unfoldable pub send_pipeline_load : ℤ → ℕ → Text → W → (ℕ × Option SendError) × W
  send_pipeline_load rate duration label w =
      dial_then connections 0 (send_opened label rate duration) w
