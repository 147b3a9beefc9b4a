-- ===== src/Receiver/Loop.antt =====
-- data_receiver/main.go: one WebSocket connection, from its upgrade to its end.
use toll_calc.Common.{ℕ, ◌+◌, Option, none, some, List, [], ◌∷◌, if◌then◌else◌}
use toll_calc.Common.Eq.{ℕ-Eq}
use toll_calc.Common.Map.{Map, insert, delete}
use toll_calc.Common.Text.{Text}
use toll_calc.Common.Int.{ℤ, pos, ◌+ℤ◌, ◌-ℤ◌}
use toll_calc.Types.{ObuData, invalid_event}
use toll_calc.Http.{Codec}
use toll_calc.Receiver.Producer.{ProduceError, DataProducer}

pub record ReceiverMetrics : Type 0 where
  pub received : ℕ
  pub invalid : ℕ
  pub enqueue_failures : ℕ

-- The receiver, as one connection's loop sees it.
pub record Receiving (P : Type 0) : Type 0 where
  pub metrics : ReceiverMetrics
  pub producer : P

module _ {F P : Type 0} (codec : Codec F) (prod : DataProducer F P) where
  abbrev count_invalid : Receiving P → Receiving P
  count_invalid s = let m = s.metrics in record s { metrics = record m { invalid = m.invalid + 1 } }

  abbrev after_produce : Option ProduceError × P → Receiving P → Receiving P
  after_produce (none, p) s = record s { producer = p }
  after_produce (some e, p) s =
      let m = s.metrics in
      record s { producer = p; metrics = record m { enqueue_failures = m.enqueue_failures + 1 } }

  abbrev receive_decoded : Option (ObuData F) → Receiving P → Receiving P
  receive_decoded none s = count_invalid s
  receive_decoded (some d) s =
      if invalid_event d then count_invalid s else after_produce (prod.produce_data d s.producer) s

  -- What the loop does with one message that was read.
  unfoldable pub receive : Text → Receiving P → Receiving P
  receive payload s =
      let m = s.metrics in
      receive_decoded (codec.decode_event payload)
        (record s { metrics = record m { received = m.received + 1 } })

  -- The messages that arrive until a read fails, which ends the loop.
  unfoldable pub ws_receive_loop : List Text → Receiving P → Receiving P
  ws_receive_loop [] s = s
  ws_receive_loop (payload ∷ payloads) s = ws_receive_loop payloads (receive payload s)

-- The open connections, by a number for each, and the gauge of active sockets.
pub record Connections : Type 0 where
  pub open_connections : Map ℕ (Unit {0})
  pub active : ℤ

unfoldable pub register : ℕ → Connections → Connections
register conn c = record {
  open_connections = insert conn tt c.open_connections;
  active = c.active +ℤ pos 1;
}

-- The two deferred functions of `handleWS`.
unfoldable pub unregister : ℕ → Connections → Connections
unregister conn c = record {
  open_connections = delete conn c.open_connections;
  active = c.active -ℤ pos 1;
}

module _ {F P : Type 0} (codec : Codec F) (prod : DataProducer F P) where
  -- `handleWS`: `conn` is the upgraded connection, or none if the upgrade failed.
  unfoldable pub handle_ws :
      Option ℕ → List Text → Connections × Receiving P → Connections × Receiving P
  handle_ws none payloads s = s
  handle_ws (some conn) payloads (c, s) =
      let c' = register conn c in
      let s' = ws_receive_loop codec prod payloads s in (unregister conn c', s')

-- What `closeConnections` does to a connection.
pub data Closing : Type 0 where
  close_message close_socket : ℕ → Closing

unfoldable pub close_connections : Connections → List Closing
close_connections c = closings c.open_connections
  where
    closings : Map ℕ (Unit {0}) → List Closing
    closings [] = []
    closings ((conn, _) ∷ m) = close_message conn ∷ close_socket conn ∷ closings m
