-- ===== src/Obu/Fixed/Drain.antt =====
-- `writer` once the queues are closed: it returns, and `workers.Wait()` with it.
use toll_calc.Common.{◌+◌, ◌*◌, ◌≤◌, ◌≡◌, refl, Bool, true, false, List, [], ◌∷◌, arith}
use toll_calc.Common.Text.{Text, length}
use toll_calc.Types.{ObuData}
use toll_calc.Obu.Maximum.{Phase, idle, returned, writing, Sending}
use toll_calc.Obu.Conservation.{busy}
use toll_calc.Obu.Fixed.{
  Writer, WriterAction, take, see_closed, write_succeeds, write_fails, write_in,
}

abbrev pub succeeding : List Bool → List Bool
succeeding [] = []
succeeding (_ ∷ answers) = true ∷ succeeding answers

module _ {F : Type 0} where
  -- What a writer does next after the queues are closed, while the context is live; the Boolean
  -- says whether a write that it is in succeeds.
  abbrev next_write : Bool → Phase F → List (ObuData F) → WriterAction
  next_write ok idle [] = see_closed
  next_write ok idle (event ∷ queue) = take
  next_write true _ queue = write_succeeds
  next_write false _ queue = write_fails

  abbrev write_next : Bool → Writer F → Sending → Writer F × Sending
  write_next ok w s = write_in true true w.phase w.queue (next_write ok w.phase w.queue) w s

  -- The writer's actions, one for each answer of the network.
  abbrev pub drain : List Bool → Writer F → Sending → Writer F × Sending
  drain [] w s = (w, s)
  drain (ok ∷ answers) w s = let (w', s') = write_next ok w s in drain answers w' s'

  at_most_one : (p : Phase F) → busy p ≤ 1
  at_most_one idle = omega arith
  at_most_one returned = omega arith
  at_most_one (writing event) = omega arith

  drain-returned :
      (answers : List Bool) (q : List (ObuData F)) (s : Sending)
      → drain answers (record { queue = q; phase = returned }) s
        ≡ (record { queue = q; phase = returned }, s)
  drain-returned [] q s = refl
  drain-returned (true ∷ answers) q s = drain-returned answers q s
  drain-returned (false ∷ answers) q s = drain-returned answers q s

  drain-returns :
      (answers : List Bool) (p : Phase F) (q : List (ObuData F)) (s : Sending)
      → 2 * length q + busy p + 1 ≤ length answers
      → (drain answers (record { queue = q; phase = p }) s).0.phase ≡ returned
  drain-returns [] p q s enough = absurd (omega (arith, enough))
  drain-returns (ok ∷ answers) returned q s enough = rw (drain-returned (ok ∷ answers) q s)
  drain-returns (ok ∷ answers) idle [] s enough = rw (drain-returned answers [] s)
  drain-returns (ok ∷ answers) idle (event ∷ q) s enough =
      drain-returns answers (writing event) q s (omega (arith, enough))
  drain-returns (true ∷ answers) (writing event) q s enough =
      drain-returns answers idle q _ (omega (arith, enough))
  drain-returns (false ∷ answers) (writing event) q s enough = rw (drain-returned answers q _)

  -- The IDs that are sent when `events` follow those in `sent`, which has the newest first.
  abbrev pub sent_after : List (ObuData F) → List Text → List Text
  sent_after [] sent = sent
  sent_after (event ∷ events) sent = sent_after events (event.event_id ∷ sent)

  -- What a writer has been given and not written, the next event first.
  abbrev pub unwritten : Phase F → List (ObuData F) → List (ObuData F)
  unwritten (writing event) queue = event ∷ queue
  unwritten idle queue = queue
  unwritten returned queue = []

  drain-sent :
      (answers : List Bool) (p : Phase F) (q : List (ObuData F)) (s : Sending)
      → 2 * length q + busy p + 1 ≤ length answers
      → (drain (succeeding answers) (record { queue = q; phase = p }) s).1.sent
        ≡ sent_after (unwritten p q) s.sent
  drain-sent [] p q s enough = absurd (omega (arith, enough))
  drain-sent (ok ∷ answers) returned q s enough =
      rw (drain-returned (succeeding (ok ∷ answers)) q s)
  drain-sent (ok ∷ answers) idle [] s enough = rw (drain-returned (succeeding answers) [] s)
  drain-sent (ok ∷ answers) idle (event ∷ q) s enough =
      drain-sent answers (writing event) q s (omega (arith, enough))
  drain-sent (ok ∷ answers) (writing event) q s enough =
      drain-sent answers idle q _ (omega (arith, enough))

  -- Once the queues of a fixed-rate run are closed and while its context is live, a writer returns
  -- within two actions for each event in its queue and two more, whatever its writes answer; and
  -- if all of them succeed, it has sent everything that it was given, in the order of its queue.
  pub closed_writer_returns :
      (answers : List Bool) (w : Writer F) (s : Sending)
      → 2 * length w.queue + 2 ≤ length answers
      → ((drain answers w s).0.phase ≡ returned)
        × ((drain (succeeding answers) w s).1.sent ≡ sent_after (unwritten w.phase w.queue) s.sent)
  closed_writer_returns answers w s enough =
      let once : busy w.phase ≤ 1 = at_most_one w.phase in
      let room : 2 * length w.queue + busy w.phase + 1 ≤ length answers = omega arith in
      (drain-returns answers w.phase w.queue s room, drain-sent answers w.phase w.queue s room)
