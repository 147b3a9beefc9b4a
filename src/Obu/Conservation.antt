-- ===== src/Obu/Conservation.antt =====
-- What the statistics of a maximum-throughput run say at every moment.
use mathlib.Core.List.{append_cancel_left}
use toll_calc.Common.{
  ℕ, zero, suc, ◌+◌, ◌%◌, ◌≤◌, ◌<◌, ◌≡◌, ◌≢◌, refl, subst, List, [], ◌∷◌, arith, ◌++◌,
  if◌then◌else◌, Bool-cases, inl, inr,
}
use toll_calc.Common.Int.{ℤ}
use toll_calc.Common.Eq.{◌==◌, List-Eq, ℕ-Eq, list_eq_iff}
use toll_calc.Common.Text.{Text, text, length, itoa}
use toll_calc.Common.Text.Decimal.{decimal-injective}
use toll_calc.Types.{ObuData, word}
use toll_calc.Obu.{
  LoadConfig, Sample, event_id_of, event_for_obu, record_attempt, record_success, record_failure,
}
use toll_calc.Obu.Maximum.{
  Phase, idle, returned, writing, Worker, Sending, Action, generate, context_done, write_succeeds,
  write_fails, act_in, obu_at, act_at, run_maximum_throughput,
}
use toll_calc.Aggregator.Store.Fingerprint.{xor_of, sum_of}

-- Different sequence numbers give different IDs.
event_id_of-injective :
    (seed run_id : ℤ) (j k : ℕ) → event_id_of seed run_id j ≡ event_id_of seed run_id k → j ≡ k
unfolding event_id_of itoa
event_id_of-injective seed run_id j k e = decimal-injective j k (
    append_cancel_left (text "-") _ _ (
      append_cancel_left (itoa run_id) _ _
        (append_cancel_left (text "-") _ _ (append_cancel_left (itoa seed) _ _ e))))

append-ne-empty : (xs ys : Text) (c : ℕ) → xs ++ (c ∷ ys) ≢ []
append-ne-empty [] ys c = ground arith
append-ne-empty (x ∷ xs) ys c = ground arith

event_id_of-ne-empty : (seed run_id : ℤ) (k : ℕ) → event_id_of seed run_id k ≢ []
unfolding event_id_of
event_id_of-ne-empty seed run_id k = append-ne-empty (itoa seed) _ b'-'

abbrev pub occurrences : Text → List Text → ℕ
occurrences e [] = 0
occurrences e (x ∷ xs) = (if x == e then 1 else 0) + occurrences e xs

module _ {F : Type 0} where
  -- The events that are being written: how many with an ID, and how many in all.
  abbrev pub carried : Text → Phase F → ℕ
  carried e (writing event) = if event.event_id == e then 1 else 0
  carried e _ = 0

  abbrev pub busy : Phase F → ℕ
  busy (writing event) = 1
  busy _ = 0

  abbrev pub held : Text → List (Worker F) → ℕ
  held e [] = 0
  held e (w ∷ ws) = carried e w.phase + held e ws

  abbrev pub in_flight : List (Worker F) → ℕ
  in_flight [] = 0
  in_flight (w ∷ ws) = busy w.phase + in_flight ws

-- `h` counts the events in flight by their ID, and `n` is their number. No ID is used twice, none
-- beyond the sequence is used, and the words count what was sent.
pub record IsTallied (seed : ℤ) (h : Text → ℕ) (n : ℕ) (s : Sending) : Type 0 where
  pub unique : (e : Text) → h e + occurrences e s.sent ≤ 1
  pub unissued :
      (k : ℕ)
      → s.stats.sequence < k
      → h (event_id_of seed s.stats.run_id k)
          + occurrences (event_id_of seed s.stats.run_id k) s.sent
        ≡ 0
  pub named : h [] + occurrences [] s.sent ≡ 0
  pub written : s.stats.written ≡ length s.sent % word
  pub hash_xor : s.stats.hash_xor ≡ xor_of s.sent
  pub hash_sum : s.stats.hash_sum ≡ sum_of s.sent % word
  pub attempted : s.stats.attempted ≡ (s.stats.written + s.stats.failed + n) % word

pub IsTallied-along :
    {seed : ℤ} {h h' : Text → ℕ} {n n' : ℕ} {s : Sending}
    → ((e : Text) → h e ≡ h' e)
    → n ≡ n'
    → IsTallied seed h n s
    → IsTallied seed h' n' s
IsTallied-along {seed} {h} {h'} {n} {n'} {s} p q t = record {
  unique = λ e. omega (arith, p e, t.unique e);
  unissued = λ k lt. omega (arith, p (event_id_of seed s.stats.run_id k), t.unissued k lt);
  named = omega (arith, p [], t.named);
  written = t.written;
  hash_xor = t.hash_xor;
  hash_sum = t.hash_sum;
  attempted = omega (arith, q, t.attempted);
}

module _ {F : Type 0} (cfg : LoadConfig F) (padding : Text) where
  -- A worker takes the next sequence number.
  pub generate-IsTallied :
      (sample : Sample F) (obu : ℤ) (s : Sending) (r : Text → ℕ) (n : ℕ)
      → s.stats.sequence + 1 < word
      → IsTallied cfg.seed r n s
      → let (event, stats') = event_for_obu cfg sample padding obu s.stats in
        IsTallied cfg.seed
          (λ e. carried e (writing event) + r e)
          (1 + n)
          (record s { stats = record_attempt stats' })
  unfolding event_for_obu record_attempt
  generate-IsTallied sample obu s r n room t =
      let next : (s.stats.sequence + 1) % word ≡ s.stats.sequence + 1 = omega (arith, room) in
      let id = event_id_of cfg.seed s.stats.run_id (s.stats.sequence + 1) in
      let id_free : r id + occurrences id s.sent ≡ 0 =
        t.unissued (s.stats.sequence + 1) (omega arith) in
      rw next (record {
        unique = λ e. elim (Bool-cases (id == e)) [
          | inl same ↦
              let e_free : r e + occurrences e s.sent ≡ 0 =
                subst (λ x. r x + occurrences x s.sent ≡ 0) ((list_eq_iff id e).0 same) id_free in
              rw same (omega (arith, e_free))
          | inr other ↦ rw other (omega (arith, t.unique e))
        ];
        unissued = λ k lt. elim (Bool-cases (id == event_id_of cfg.seed s.stats.run_id k)) [
          | inl same ↦
              let at_k : s.stats.sequence + 1 ≡ k =
                event_id_of-injective cfg.seed s.stats.run_id (s.stats.sequence + 1) k
                  ((list_eq_iff id (event_id_of cfg.seed s.stats.run_id k)).0 same) in
              absurd (omega (arith, at_k, lt))
          | inr other ↦ rw other (omega (arith, t.unissued k (omega (arith, lt))))
        ];
        named = elim (Bool-cases (id == [])) [
          | inl same ↦ absurd (
              event_id_of-ne-empty cfg.seed s.stats.run_id (s.stats.sequence + 1)
                ((list_eq_iff id []).0 same))
          | inr other ↦ rw other (omega (arith, t.named))
        ];
        written = t.written;
        hash_xor = t.hash_xor;
        hash_sum = t.hash_sum;
        attempted = omega (arith, t.attempted);
      })

  pub sent-IsTallied :
      (event : ObuData F) (s : Sending) (r : Text → ℕ) (n : ℕ)
      → IsTallied cfg.seed (λ e. carried e (writing event) + r e) (1 + n) s
      → IsTallied cfg.seed r n
          (record { stats = record_success event.event_id s.stats; sent = event.event_id ∷ s.sent })
  unfolding record_success
  sent-IsTallied event s r n t = record {
    unique = λ e. omega (arith, t.unique e);
    unissued = λ k lt. omega (arith, t.unissued k lt);
    named = omega (arith, t.named);
    written = omega (arith, t.written);
    hash_xor = rw t.hash_xor;
    hash_sum = omega (arith, t.hash_sum);
    attempted = omega (arith, t.attempted);
  }

  pub failed-IsTallied :
      (event : ObuData F) (s : Sending) (r : Text → ℕ) (n : ℕ)
      → IsTallied cfg.seed (λ e. carried e (writing event) + r e) (1 + n) s
      → IsTallied cfg.seed r n (record s { stats = record_failure s.stats })
  unfolding record_failure
  failed-IsTallied event s r n t = record {
    unique = λ e. omega (arith, t.unique e);
    unissued = λ k lt. omega (arith, t.unissued k lt);
    named = omega (arith, t.named);
    written = t.written;
    hash_xor = t.hash_xor;
    hash_sum = t.hash_sum;
    attempted = omega (arith, t.attempted);
  }

  act_in-IsTallied :
      (p : Phase F) (a : Action F) (w : Worker F) (s : Sending) (r : Text → ℕ) (n : ℕ)
      → w.phase ≡ p
      → s.stats.sequence + 1 < word
      → IsTallied cfg.seed (λ e. carried e p + r e) (busy p + n) s
      → let (w', s') = act_in cfg padding p a w s in
        IsTallied cfg.seed (λ e. carried e w'.phase + r e) (busy w'.phase + n) s'
        × (s'.stats.sequence ≤ s.stats.sequence + 1)
  unfolding event_for_obu record_attempt record_success record_failure
  act_in-IsTallied idle (generate sample) w s r n at_p room t = (
    generate-IsTallied sample (obu_at w.obu_ids w.obu_index) s r n room
        (IsTallied-along (λ e. omega arith) (omega arith) t),
    omega (arith, room),
  )
  act_in-IsTallied idle context_done w s r n at_p room t = (t, omega arith)
  act_in-IsTallied idle write_succeeds w s r n at_p room t = rw at_p (t, omega arith)
  act_in-IsTallied idle write_fails w s r n at_p room t = rw at_p (t, omega arith)
  act_in-IsTallied (writing event) write_succeeds w s r n at_p room t =
      (IsTallied-along (λ e. omega arith) (omega arith) (sent-IsTallied event s r n t), omega arith)
  act_in-IsTallied (writing event) write_fails w s r n at_p room t = (
    IsTallied-along (λ e. omega arith) (omega arith) (failed-IsTallied event s r n t),
    omega arith,
  )
  act_in-IsTallied (writing event) (generate sample) w s r n at_p room t = rw at_p (t, omega arith)
  act_in-IsTallied (writing event) context_done w s r n at_p room t = rw at_p (t, omega arith)
  act_in-IsTallied returned a w s r n at_p room t = rw at_p (t, omega arith)

  act_at-IsTallied :
      (i : ℕ) (a : Action F) (ws : List (Worker F)) (s : Sending) (r : Text → ℕ) (n : ℕ)
      → s.stats.sequence + 1 < word
      → IsTallied cfg.seed (λ e. held e ws + r e) (in_flight ws + n) s
      → let (ws', s') = act_at cfg padding i a ws s in
        IsTallied cfg.seed (λ e. held e ws' + r e) (in_flight ws' + n) s'
        × (s'.stats.sequence ≤ s.stats.sequence + 1)
  act_at-IsTallied i a [] s r n room t = (t, omega arith)
  act_at-IsTallied zero a (w ∷ ws) s r n room t =
      let (t', bound) =
        act_in-IsTallied w.phase a w s (λ e. held e ws + r e) (in_flight ws + n) refl room
          (IsTallied-along (λ e. omega arith) (omega arith) t) in
      (IsTallied-along (λ e. omega arith) (omega arith) t', bound)
  act_at-IsTallied (suc i) a (w ∷ ws) s r n room t =
      let (t', bound) =
        act_at-IsTallied i a ws s (λ e. carried e w.phase + r e) (busy w.phase + n) room
          (IsTallied-along (λ e. omega arith) (omega arith) t) in
      (IsTallied-along (λ e. omega arith) (omega arith) t', bound)

  pub run-IsTallied :
      (actions : List (ℕ × Action F)) (ws : List (Worker F)) (s : Sending)
      → s.stats.sequence + length actions < word
      → IsTallied cfg.seed (λ e. held e ws) (in_flight ws) s
      → let (ws', s') = run_maximum_throughput cfg padding actions ws s in
        IsTallied cfg.seed (λ e. held e ws') (in_flight ws') s'
  unfolding run_maximum_throughput
  run-IsTallied [] ws s room t = t
  run-IsTallied ((i, a) ∷ actions) ws s room t =
      let (t', bound) =
        act_at-IsTallied i a ws s (λ e. 0) 0 (omega arith)
          (IsTallied-along (λ e. omega arith) (omega arith) t) in
      run-IsTallied actions _ _ (omega (arith, bound))
        (IsTallied-along (λ e. omega arith) (omega arith) t')
