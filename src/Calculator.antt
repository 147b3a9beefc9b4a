-- ===== src/Calculator.antt =====
-- dist-calc/service.go: the distance service. A mutex makes each call a whole step.
pub mod History
pub mod Replay
pub mod Consumer
pub mod Startup
use toll_calc.Common.{Option, none, some, [], if◌then◌else◌}
use toll_calc.Common.Int.{ℤ}
use toll_calc.Common.Eq.{ℤ-Eq, List-Eq, ℕ-Eq}
use toll_calc.Common.Map.{Map, lookup, insert}
use toll_calc.Common.Text.{Text, is_empty}
use toll_calc.Float.{Float64}
use toll_calc.Types.{ObuData}

pub record Point (F : Type 0) : Type 0 where
  pub lat : F
  pub lon : F

pub record CalcService (F : Type 0) : Type 0 where
  pub prev_points : Map ℤ (Point F)
  pub results : Map Text F

abbrev pub new_calc_service : {F : Type 0} → CalcService F
new_calc_service = record { prev_points = []; results = [] }

module _ {F : Type 0} ⦃f : Float64 F⦄ where
  unfoldable pub calc_dist : F → F → F → F → F
  calc_dist x1 y1 x2 y2 = f.sqrt (f.add (f.pow2 (f.sub x2 x1)) (f.pow2 (f.sub y2 y1)))

  -- The distance from the previous point, if there is one.
  abbrev pub dist_from : Option (Point F) → ObuData F → F
  dist_from none d = f.nought
  dist_from (some previous) d = calc_dist previous.lat previous.lon d.lat d.lon

  -- The part of `CalculateDist` for an event that has no result yet.
  unfoldable pub calculate_new : ObuData F → CalcService F → F × CalcService F
  calculate_new d s =
      let dist = dist_from (lookup d.obu_id s.prev_points) d in
      (
        dist,
        record s {
          prev_points = insert d.obu_id (record { lat = d.lat; lon = d.lon }) s.prev_points;
          results = if is_empty d.event_id then s.results else insert d.event_id dist s.results;
        },
      )

  -- The result of an earlier call for the event, if it has an ID.
  abbrev cached : ObuData F → CalcService F → Option F
  cached d s = if is_empty d.event_id then none else lookup d.event_id s.results

  unfoldable pub calculate_dist : ObuData F → CalcService F → F × CalcService F
  calculate_dist d s = elim (cached d s) [ some dist ↦ (dist, s) | none ↦ calculate_new d s ]
