-- ===== src/Obu/Accepted.antt =====
-- The events that the load generator makes in mode fixed, in front of the receiver's checks.
use toll_calc.Common.{
  ℕ, zero, suc, ◌+◌, ◌≡◌, refl, ◌∙◌, ap, true, false, some, List, [], ◌∷◌, ◌++◌, arith,
}
use toll_calc.Common.Int.{ℤ, pos, pos_part, leb_ℤ}
use toll_calc.Common.Text.{Text, text, is_empty, itoa, length}
use toll_calc.Common.Text.Utf8.{is_utf8, AllAscii, AllAscii-is_utf8, append-AllAscii, itoa-AllAscii}
use toll_calc.Float.{Float64}
use toll_calc.Types.{ObuData, invalid_event}
use toll_calc.Http.{Codec, IsCodec}
use toll_calc.Receiver.Producer.{DataProducer}
use toll_calc.Receiver.Loop.{Receiving, ws_receive_loop}
use toll_calc.Receiver.Publishing.{valid_events, produce_all, ws_receive_loop_lem}
use toll_calc.Obu.{LoadConfig, LoadStats, Sample, event_id_of, event_for_obu, next_obu, next_event}
use toll_calc.Obu.Session.{padding_of}

padding_of-AllAscii : (n : ℕ) → AllAscii (padding_of n)
unfolding padding_of
padding_of-AllAscii zero = tt
padding_of-AllAscii (suc n) = (omega arith, padding_of-AllAscii n)

event_id_of-AllAscii :
    (seed run_id : ℤ) (sequence : ℕ) → AllAscii (event_id_of seed run_id sequence)
unfolding event_id_of
event_id_of-AllAscii seed run_id sequence = append-AllAscii (itoa seed) _ (itoa-AllAscii seed) (
  omega arith,
  append-AllAscii (itoa run_id) _ (itoa-AllAscii run_id)
      (omega arith, itoa-AllAscii (pos sequence)),
)

module _ {F : Type 0} (cfg : LoadConfig F) where
  abbrev padding : Text
  padding = padding_of (pos_part cfg.payload_bytes)

  -- The events of the ticks, one for each sample of the clock and the random numbers.
  abbrev pub generated : List (Sample F) → LoadStats → List (ObuData F)
  generated [] s = []
  generated (x ∷ xs) s = let (d, s') = next_event cfg x padding s in d ∷ generated xs s'

  -- The clock is behind 1970.
  abbrev pub AllLater : List (Sample F) → Type 0
  AllLater [] = Unit
  AllLater (x ∷ xs) = (leb_ℤ x.now (pos 0) ≡ false) × AllLater xs

  join_named : (t rest : Text) → is_empty (t ++ (text "-" ++ rest)) ≡ false
  join_named [] rest = refl
  join_named (c ∷ t) rest = refl

  next_event-valid :
      (x : Sample F) (s : LoadStats)
      → leb_ℤ x.now (pos 0) ≡ false
      → invalid_event (next_event cfg x padding s).0 ≡ false
  unfolding next_event event_for_obu event_id_of next_obu
  next_event-valid x s later = rw (join_named (itoa cfg.seed) _, later) (ground arith)

  next_event-texts :
      (x : Sample F) (s : LoadStats)
      → let d = (next_event cfg x padding s).0 in
        (is_utf8 d.event_id ≡ true) × (is_utf8 d.payload ≡ true)
  unfolding next_event event_for_obu
  next_event-texts x s = (
    AllAscii-is_utf8 (event_id_of cfg.seed s.run_id _) (event_id_of-AllAscii cfg.seed s.run_id _),
    AllAscii-is_utf8 padding (padding_of-AllAscii (pos_part cfg.payload_bytes)),
  )

  module _ ⦃f : Float64 F⦄ (codec : Codec F) where
    -- The messages are what the codec writes for the events.
    abbrev pub AreEncoded : List (ObuData F) → List Text → Type 0
    AreEncoded [] [] = Unit
    AreEncoded (d ∷ ds) (b ∷ bs) = (codec.encode_event d ≡ some b) × AreEncoded ds bs
    AreEncoded _ _ = ⊥

    length-AreEncoded :
        (ds : List (ObuData F)) (bs : List Text) → AreEncoded ds bs → length ds ≡ length bs
    length-AreEncoded [] [] encoded = refl
    length-AreEncoded [] (b ∷ bs) encoded = absurd encoded
    length-AreEncoded (d ∷ ds) [] encoded = absurd encoded
    length-AreEncoded (d ∷ ds) (b ∷ bs) (first, encoded) =
        omega (arith, length-AreEncoded ds bs encoded)

    module _ (laws : IsCodec codec) {P : Type 0} (prod : DataProducer F P) where
      valid_events-generated :
          (xs : List (Sample F)) (s : LoadStats) (payloads : List Text)
          → AllLater xs
          → AreEncoded (generated xs s) payloads
          → valid_events codec prod payloads ≡ generated xs s
      valid_events-generated [] s [] later encoded = refl
      valid_events-generated [] s (b ∷ bs) later encoded = absurd encoded
      valid_events-generated (x ∷ xs) s [] later encoded = absurd encoded
      valid_events-generated (x ∷ xs) s (b ∷ bs) (now, later) (first, encoded) =
          let (d, s') = next_event cfg x padding s in
          let (id, text) = next_event-texts x s in
          rw (laws.event_back d b id text first, next_event-valid x s now)
            (ap (λ ds. d ∷ ds) (valid_events-generated xs s' bs later encoded))

      -- With a codec that reads back what it writes and a clock behind 1970: where the messages of a
      -- connection are what is written for the events that the load generator makes, in turn for
      -- each OBU, the receiver hands every one of them to the producer, unchanged and in order, and
      -- counts none as invalid.
      pub generated_events_accepted :
          (xs : List (Sample F)) (s : LoadStats) (payloads : List Text) (r : Receiving P)
          → AllLater xs
          → AreEncoded (generated xs s) payloads
          → let r' = ws_receive_loop codec prod payloads r in
            (r'.producer ≡ (produce_all codec prod (generated xs s) r.producer).1)
            × (r'.metrics.invalid ≡ r.metrics.invalid)
            × (r'.metrics.received ≡ r.metrics.received + length payloads)
      generated_events_accepted xs s payloads r later encoded =
          let same = valid_events-generated xs s payloads later encoded in
          let (handed, received, counted, _) = ws_receive_loop_lem codec prod payloads r in
          (
            handed ∙ ap (λ ds. (produce_all codec prod ds r.producer).1) same,
            omega (
              arith,
              counted,
              ap length same,
              length-AreEncoded (generated xs s) payloads encoded,
            ),
            received,
          )
