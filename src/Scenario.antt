-- ===== src/Scenario.antt =====
-- Runs of the whole repository on concrete inputs, after the tests in src/sqlite_lqs.rs.
use lqs.Prelude.{List, [], ◌∷◌, ◌≡◌, refl, map, Bytes}
use lqs.Error.{Result, ok, err, out_of_fuel}
use lqs.Queue.Types.{ReceivedMessage}
use lqs.Store.Tables.{Db}
use lqs.Store.Send.{send}
use lqs.Store.Receive.Page.{receive}
use lqs.Runs.{runs}
use lqs.Samples.{plain, orders, two_queues, request_of}

abbrev group_a : Bytes
group_a = b'a' ∷ []

abbrev group_b : Bytes
group_b = b'b' ∷ []

bodies : Result (List ReceivedMessage) → List Bytes
bodies (ok ms) = map (λ (m : ReceivedMessage). m.body) ms
bodies (err e) = []
bodies out_of_fuel = []

three_sent : Db
unfolding runs
three_sent =
    (send plain
      (send plain (send plain two_queues orders (request_of (1 ∷ []) group_a) 0).0 orders
        (request_of (2 ∷ []) group_a) 1).0
      orders (request_of (3 ∷ []) group_b) 2).0

-- A FIFO queue gives its groups in order, and another group while one is in flight.
fifo_order : bodies (receive plain three_sent orders 10 3).1 ≡ (1 ∷ []) ∷ (2 ∷ []) ∷ (3 ∷ []) ∷ []
unfolding runs bodies three_sent
fifo_order = refl

fifo_blocks :
    bodies (receive plain (receive plain three_sent orders 1 3).0 orders 10 3).1 ≡ (3 ∷ []) ∷ []
unfolding runs bodies three_sent
fifo_blocks = refl

fifo_retries :
    bodies (receive plain (receive plain three_sent orders 1 10).0 orders 1 30010).1 ≡ (1 ∷ []) ∷ []
unfolding runs bodies three_sent
fifo_retries = refl
