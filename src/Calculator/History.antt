-- ===== src/Calculator/History.antt =====
-- What the two maps of the service stand for: the history of the events that were not repetitions,
-- newest first.
use toll_calc.Common.{
  ◌≡◌, refl, false, Option, none, some, List, [], ◌∷◌, arith, if◌then◌else◌, Bool-cases,
  Option-cases, inl, inr,
}
use toll_calc.Common.Int.{ℤ}
use toll_calc.Common.Eq.{◌==◌, ℤ-Eq, List-Eq, ℕ-Eq}
use toll_calc.Common.Map.{lookup, lookup-insert}
use toll_calc.Common.Text.{Text, is_empty, anonymous_not_eq}
use toll_calc.Float.{Float64}
use toll_calc.Types.{ObuData}
use toll_calc.Calculator.{
  Point, CalcService, new_calc_service, dist_from, calculate_new, calculate_dist,
}

abbrev pub History : Type 0 → Type 0
History F = List (ObuData F)

abbrev pub last_point : {F : Type 0} → ℤ → History F → Option (Point F)
last_point id [] = none
last_point id (d ∷ h) =
    if d.obu_id == id then some (record { lat = d.lat; lon = d.lon }) else last_point id h

module _ {F : Type 0} ⦃f : Float64 F⦄ where
  -- The distance of an event: from the OBU's last point in the history, or zero.
  abbrev pub distance_after : History F → ObuData F → F
  distance_after h d = dist_from (last_point d.obu_id h) d

  -- The distance that was calculated when the event joined the history.
  abbrev pub result_of : Text → History F → Option F
  result_of e [] = none
  result_of e (d ∷ h) = if d.event_id == e then some (distance_after h d) else result_of e h

  abbrev answer_from : Option F → ObuData F → History F → F × History F
  answer_from (some dist) d h = (dist, h)
  answer_from none d h = (distance_after h d, d ∷ h)

  -- An event that has an ID and a result is answered by that; any other extends the history.
  abbrev pub answer : ObuData F → History F → F × History F
  answer d h =
      if is_empty d.event_id then answer_from none d h else answer_from (result_of d.event_id h) d h

  pub record Represents (h : History F) (s : CalcService F) : Type 0 where
    pub points : (id : ℤ) → lookup id s.prev_points ≡ last_point id h
    pub results : (e : Text) → is_empty e ≡ false → lookup e s.results ≡ result_of e h

  pub new_calc_service-Represents : Represents [] new_calc_service
  unfolding lookup
  new_calc_service-Represents = record { points = λ id. refl; results = λ e named. refl }

  calculate_new-Represents :
      (d : ObuData F) (s : CalcService F) (h : History F)
      → Represents h s
      → ((calculate_new d s).0 ≡ distance_after h d) × Represents (d ∷ h) (calculate_new d s).1
  unfolding calculate_new
  calculate_new-Represents d s h r = (
    rw (r.points d.obu_id),
    record {
      points = λ id. ground (
        arith,
        lookup-insert d.obu_id id (record { lat = d.lat; lon = d.lon }) s.prev_points,
        r.points id,
      );
      results = λ e named. ground (
        arith,
        lookup-insert d.event_id e (dist_from (lookup d.obu_id s.prev_points) d) s.results,
        r.points d.obu_id,
        r.results e named,
        anonymous_not_eq d.event_id e,
      );
    },
  )

  -- A call answers as the history says, and the new state stands for the new history.
  pub calculate_dist-Represents :
      (d : ObuData F) (s : CalcService F) (h : History F)
      → Represents h s
      → ((calculate_dist d s).0 ≡ (answer d h).0) × Represents (answer d h).1 (calculate_dist d s).1
  unfolding calculate_dist
  calculate_dist-Represents d s h r = elim (Bool-cases (is_empty d.event_id)) [
    | inl anonymous ↦ rw (anonymous, calculate_dist) (calculate_new-Represents d s h r)
    | inr named ↦ elim (Option-cases (result_of d.event_id h)) [
      | inl new ↦
          rw (named, r.results d.event_id named, new, calculate_dist)
            (calculate_new-Represents d s h r)
      | inr (dist, old) ↦ rw (named, r.results d.event_id named, old, calculate_dist) (refl, r)
    ]
  ]
