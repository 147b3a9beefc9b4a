-- ===== src/Calculator/Consumer/Settling.antt =====
-- The calculator in front of the aggregator, over gRPC without failures: what is calculated for the
-- events of the partition is admitted, so that the loop does catch up.
use toll_calc.Common.{
  ℕ, ◌-◌, ◌^◌, ◌≡◌, sym, subst, false, Option, some, inl, inr, [], ◌∷◌, arith, Bool-cases,
  Option-cases,
}
use toll_calc.Common.Int.{ℤ, pos, ◌≤ℤ◌}
use toll_calc.Common.Eq.{◌==◌, List-Eq, ℕ-Eq, ℤ-Eq}
use toll_calc.Common.Text.{Text, is_empty}
use toll_calc.Float.{Float64, IsFloat}
use toll_calc.Types.{ObuData}
use toll_calc.Http.{Codec}
use toll_calc.Calculator.{CalcService, calc_dist, dist_from, calculate_dist}
use toll_calc.Calculator.History.{
  History, last_point, distance_after, result_of, answer, Represents, calculate_dist-Represents,
}
use toll_calc.Calculator.Consumer.{Message}
use toll_calc.Calculator.Consumer.Sources.{IsSource}

module _ {F : Type 0} ⦃f : Float64 F⦄ where
  -- A distance that the aggregator admits.
  pub record IsFine (x : F) : Type 0 where
    pub not_negative : f.lt x f.nought ≡ false
    pub a_number : f.is_nan x ≡ false
    pub finite : f.is_inf x ≡ false

  module _ (codec : Codec F) (log : ℕ → Option Message) where
    -- No distance between two events of the partition overflows, and their OBU IDs fit 32 bits.
    pub record IsModerate : Type 0 where
      pub a_number :
          (d d' : ObuData F)
          → IsSource codec log d
          → IsSource codec log d'
          → f.is_nan (calc_dist d.lat d.lon d'.lat d'.lon) ≡ false
      pub finite :
          (d d' : ObuData F)
          → IsSource codec log d
          → IsSource codec log d'
          → f.is_inf (calc_dist d.lat d.lon d'.lat d'.lon) ≡ false
      pub small : (d : ObuData F) → IsSource codec log d → d.obu_id ≤ℤ pos (2 ^ 31 - 1)

    -- Every event of the history is one of the partition.
    abbrev pub AllSources : History F → Type 0
    AllSources [] = Unit
    AllSources (d ∷ h) = IsSource codec log d × AllSources h

    module _ (laws : IsFloat F) (moderate : IsModerate) where
      nought-IsFine : IsFine f.nought
      nought-IsFine = record {
        not_negative = laws.nought_nonneg;
        a_number = laws.nought_finite;
        finite = laws.nought_bounded;
      }

      calc_dist-IsFine :
          (d d' : ObuData F)
          → IsSource codec log d
          → IsSource codec log d'
          → IsFine (calc_dist d.lat d.lon d'.lat d'.lon)
      unfolding calc_dist
      calc_dist-IsFine d d' source source' = record {
        not_negative = laws.sqrt_nonneg _;
        a_number = moderate.a_number d d' source source';
        finite = moderate.finite d d' source source';
      }

      dist_from-IsFine :
          (h : History F) (id : ℤ) (d : ObuData F)
          → AllSources h
          → IsSource codec log d
          → IsFine (dist_from (last_point id h) d)
      dist_from-IsFine [] id d all source = nought-IsFine
      dist_from-IsFine (x ∷ h) id d (first, rest) source = elim (Bool-cases (x.obu_id == id)) [
        | inl here ↦ rw here (calc_dist-IsFine x d first source)
        | inr other ↦ rw other (dist_from-IsFine h id d rest source)
      ]

      result_of-IsFine :
          (e : Text) (h : History F) (x : F) → AllSources h → result_of e h ≡ some x → IsFine x
      result_of-IsFine e [] x all known = ground (arith, known)
      result_of-IsFine e (d ∷ h) x (first, rest) known = elim (Bool-cases (d.event_id == e)) [
        | inl here ↦
            let same : distance_after h d ≡ x = ground (arith, here, known) in
            subst IsFine same (dist_from-IsFine h d.obu_id d rest first)
        | inr other ↦ result_of-IsFine e h x rest (ground (arith, other, known))
      ]

      answer-IsFine :
          (d : ObuData F) (h : History F)
          → AllSources h
          → IsSource codec log d
          → IsFine (answer d h).0 × AllSources (answer d h).1
      answer-IsFine d h all source = elim (Bool-cases (is_empty d.event_id)) [
        | inl anonymous ↦ rw anonymous (dist_from-IsFine h d.obu_id d all source, (source, all))
        | inr named ↦ elim (Option-cases (result_of d.event_id h)) [
          | inl new ↦ rw (named, new) (dist_from-IsFine h d.obu_id d all source, (source, all))
          | inr (x, known) ↦ rw (named, known) (result_of-IsFine d.event_id h x all known, all)
        ]
      ]

      -- The service stands for a history of the partition's events.
      pub record HasHistory (c : CalcService F) : Type 0 where
        pub history : History F
        pub represents : Represents history c
        pub sources : AllSources history

      pub calculate_dist-HasHistory :
          (d : ObuData F) (c : CalcService F)
          → IsSource codec log d
          → HasHistory c
          → IsFine (calculate_dist d c).0 × HasHistory (calculate_dist d c).1
      calculate_dist-HasHistory d c source h =
          let (same, next) = calculate_dist-Represents d c h.history h.represents in
          let (fine, sources) = answer-IsFine d h.history h.sources source in
          (
            subst IsFine (sym same) fine,
            record { history = (answer d h.history).1; represents = next; sources = sources },
          )
