-- ===== src/Events/Examples.antt =====
-- Runs of the broker, with clients that are slow or gone, and with calls of Publish at once.
use mathlib.Core.Option
use firebin_api.Base.{
  String, ℕ, zero, suc, ◌≡◌, refl, List, [], ◌∷◌, Option, none, some, get_elem?, length, ◌++◌,
}
use firebin_api.Base.Bytes.{codes}
use firebin_api.Events.{
  Event, System, new_system, Call, subscribing, unsubscribing, publishing, sending, returning,
  receiving, run,
}
use firebin_api.Events.Sound.{IsSound, run-new_broker}
use firebin_api.Events.Queues.{Provides, service_run, no_service}
use firebin_api.Events.Refines.{run-Queues}

-- A Publish that serves both subscribers, the second one first, again and again.
abbrev publish_times : ℕ → List Call
publish_times zero = []
publish_times (suc n) =
    publishing (codes "parts") ∷ sending 0 1 ∷ sending 0 0 ∷ returning 0 ∷ publish_times n

-- A client that reads one event of twenty, and one that leaves twice.
abbrev calls : List Call
calls =
    subscribing
    ∷ subscribing
    ∷ (publish_times 20 ++ receiving 0 ∷ unsubscribing 1 ∷ unsubscribing 1 ∷ [])

-- Two calls of Publish at once, whose events come to the subscribers in different orders.
abbrev crossed : List Call
crossed =
    subscribing
    ∷ subscribing
    ∷ publishing (codes "parts")
    ∷ publishing (codes "stock")
    ∷ sending 0 0
    ∷ sending 1 0
    ∷ subscribing
    ∷ sending 1 1
    ∷ sending 0 1
    ∷ returning 0
    ∷ returning 0
    ∷ []

abbrev waiting : Option System → ℕ → Option (List Event)
waiting none n = none
waiting (some y) n = Option.map (λ c. c.buffer) (get_elem? y.broker.channels n)

abbrev event : String → Event
event r = record { resource = codes r }

one_read : Option.map length (waiting (run calls new_system) 0) ≡ some 15
unfolding run new_system
one_read = refl

one_left : Option.map length (waiting (run calls new_system) 1) ≡ some 16
unfolding run new_system
one_left = refl

stock_first : waiting (run crossed new_system) 0 ≡ some (event "stock" ∷ event "parts" ∷ [])
unfolding run new_system
stock_first = refl

parts_first : waiting (run crossed new_system) 1 ≡ some (event "parts" ∷ event "stock" ∷ [])
unfolding run new_system
parts_first = refl

run-new_broker_example : (y : System) × (run calls new_system ≡ some y) × IsSound y.broker
run-new_broker_example = run-new_broker calls

run-Queues_example :
    (y : System) × (run crossed new_system ≡ some y) × Provides y (service_run crossed no_service)
run-Queues_example = run-Queues crossed
