-- ===== src/Calculator/Replay.antt =====
-- Repeated events, and what a service answers after any calls.
use toll_calc.Common.{◌≡◌, false, some, List, [], ◌∷◌, arith, Bool-cases, Option-cases, inl, inr}
use toll_calc.Common.Eq.{◌==◌, ℤ-Eq, List-Eq, ℕ-Eq, list_eq_iff}
use toll_calc.Common.Text.{Text, is_empty, anonymous_not_eq}
use toll_calc.Float.{Float64, IsFloat}
use toll_calc.Types.{ObuData}
use toll_calc.Calculator.{CalcService, new_calc_service, calc_dist, calculate_dist}
use toll_calc.Calculator.History.{
  History, result_of, answer, Represents, new_calc_service-Represents, calculate_dist-Represents,
}

module _ {F : Type 0} ⦃f : Float64 F⦄ where
  -- The state after a sequence of calls.
  abbrev pub calculate_all : List (ObuData F) → CalcService F → CalcService F
  calculate_all [] s = s
  calculate_all (d ∷ ds) s = calculate_all ds (calculate_dist d s).1

  abbrev pub answer_all : List (ObuData F) → History F → History F
  answer_all [] h = h
  answer_all (d ∷ ds) h = answer_all ds (answer d h).1

  pub calculate_all-Represents :
      (ds : List (ObuData F)) (s : CalcService F) (h : History F)
      → Represents h s
      → Represents (answer_all ds h) (calculate_all ds s)
  calculate_all-Represents [] s h r = r
  calculate_all-Represents (d ∷ ds) s h r =
      calculate_all-Represents ds (calculate_dist d s).1 (answer d h).1
        (calculate_dist-Represents d s h r).1

  result_of-answer :
      (d : ObuData F) (h : History F)
      → is_empty d.event_id ≡ false
      → result_of d.event_id (answer d h).1 ≡ some (answer d h).0
  result_of-answer d h named = elim (Option-cases (result_of d.event_id h)) [
    | inl new ↦ rw (named, new) (ground (arith, list_eq_iff d.event_id d.event_id))
    | inr (dist, old) ↦ rw (named, old) old
  ]

  result_of-answer_kept :
      (d : ObuData F) (h : History F) (e : Text) (dist : F)
      → is_empty e ≡ false
      → result_of e h ≡ some dist
      → result_of e (answer d h).1 ≡ some dist
  result_of-answer_kept d h e dist named old = elim (Option-cases (result_of d.event_id h)) [
    | inl new ↦ elim (Bool-cases (d.event_id == e)) [
      | inl same ↦ cc (rw ((list_eq_iff d.event_id e).0 same) at new)
      | inr other ↦ ground arith
    ]
    | inr (x, known) ↦ elim (Bool-cases (is_empty d.event_id)) [
      | inl anonymous ↦ ground (arith, anonymous_not_eq d.event_id e)
      | inr d_named ↦ rw (d_named, known) old
    ]
  ]

  result_of-answer_all :
      (ds : List (ObuData F)) (h : History F) (e : Text) (dist : F)
      → is_empty e ≡ false
      → result_of e h ≡ some dist
      → result_of e (answer_all ds h) ≡ some dist
  result_of-answer_all [] h e dist named old = old
  result_of-answer_all (d ∷ ds) h e dist named old =
      result_of-answer_all ds (answer d h).1 e dist named
        (result_of-answer_kept d h e dist named old)

  calculate_recorded :
      (d : ObuData F) (s : CalcService F) (h : History F) (dist : F)
      → Represents h s
      → is_empty d.event_id ≡ false
      → result_of d.event_id h ≡ some dist
      → calculate_dist d s ≡ (dist, s)
  unfolding calculate_dist
  calculate_recorded d s h dist r named old =
      rw (named, r.results d.event_id named, old, calculate_dist)

  -- Once an event that has an ID has been calculated by a service that began empty, a later call
  -- with the same ID gives the same distance and changes nothing, whatever was calculated before
  -- and in between, and whatever coordinates the later call carries.
  pub calculate_again :
      (before between : List (ObuData F)) (d again : ObuData F)
      → is_empty d.event_id ≡ false
      → again.event_id ≡ d.event_id
      → let s = calculate_all before new_calc_service in
        let s' = calculate_all between (calculate_dist d s).1 in
        calculate_dist again s' ≡ ((calculate_dist d s).0, s')
  calculate_again before between d again named same =
      let s = calculate_all before new_calc_service in
      let h = answer_all before [] in
      let r : Represents h s =
        calculate_all-Represents before new_calc_service [] new_calc_service-Represents in
      let step = calculate_dist-Represents d s h r in
      rw step.0 (
        calculate_recorded again _ (answer_all between (answer d h).1) (answer d h).0
          (calculate_all-Represents between (calculate_dist d s).1 (answer d h).1 step.1)
          (rw same named)
          (rw same (
            result_of-answer_all between (answer d h).1 d.event_id (answer d h).0 named
              (result_of-answer d h named))))

  -- After any calls to a service that began empty, a call answers as the history of these calls
  -- says, in which repetitions of an ID are left out: an event whose ID is not in it, or is empty,
  -- with its distance from the last point of its OBU in the history, or zero where there is none,
  -- and any other with the distance that its ID had in the history; and the maps of the new state
  -- are those of the history that the call extends in the first case and leaves in the second.
  pub service_follows_history :
      (before : List (ObuData F)) (d : ObuData F)
      → let s = calculate_all before new_calc_service in
        let h = answer_all before [] in
        ((calculate_dist d s).0 ≡ (answer d h).0) × Represents (answer d h).1 (calculate_dist d s).1
  service_follows_history before d =
      calculate_dist-Represents d (calculate_all before new_calc_service) (answer_all before [])
        (calculate_all-Represents before new_calc_service [] new_calc_service-Represents)

  module _ (laws : IsFloat F) where
    -- With floats that obey `IsFloat`, the distance between two points does not depend on the
    -- direction.
    pub calc_dist_comm : (x1 y1 x2 y2 : F) → calc_dist x1 y1 x2 y2 ≡ calc_dist x2 y2 x1 y1
    unfolding calc_dist
    calc_dist_comm x1 y1 x2 y2 = cc (laws.pow2-sub_comm x2 x1, laws.pow2-sub_comm y2 y1)
