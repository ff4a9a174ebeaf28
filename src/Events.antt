-- ===== src/Events.antt =====
-- The broker of change signals: internal/events/broker.go. Subscribe and the function it returns hold
-- the lock, so each is one step. Publish holds the read lock alone: several run at once, and each round
-- of their loops is a step. A step without a result is a panic, of a send on or a close of a closed
-- channel.
pub mod Channels
pub mod Sound
pub mod Queues
pub mod Shown
pub mod Refines
pub mod Examples
use firebin_api.Base.{
  ℕ, zero, suc, Bool, true, false, List, [], ◌∷◌, ◌++◌, Option, none, some, if◌then◌else◌, ◌==◌,
  ltb, length, get_elem?,
}
use firebin_api.Base.Bytes.{Bytes, is_empty}

pub record Event : Type 0 where
  pub resource : Bytes

-- A buffered channel: what waits in it, and whether it is closed.
pub record Channel : Type 0 where
  pub buffer : List Event
  pub closed : Bool

-- Every channel that was made, the n-th by the name n, and those in the map `subs`.
pub record Broker : Type 0 where
  pub channels : List Channel
  pub subs : List ℕ

unfoldable pub new_broker : Broker
new_broker = record { channels = []; subs = [] }

-- The channel's capacity.
abbrev pub capacity : ℕ
capacity = 16

unfoldable pub at : {A : Type 0} → ℕ → (A → A) → List A → List A
at n f [] = []
at zero f (c ∷ cs) = f c ∷ cs
at (suc n) f (c ∷ cs) = c ∷ at n f cs

-- A channel is in the map.
abbrev pub subscribed : ℕ → List ℕ → Bool
subscribed n [] = false
subscribed n (m ∷ ms) = elim (n == m) [ true ↦ true | false ↦ subscribed n ms ]

unfoldable pub delete : ℕ → List ℕ → List ℕ
delete n [] = []
delete n (m ∷ ms) = let rest = delete n ms in if n == m then rest else m ∷ rest

-- The channel that Subscribe returns is the next name.
unfoldable pub subscribe : Broker → Broker
subscribe b = record {
  channels = b.channels ++ record { buffer = []; closed = false } ∷ [];
  subs = length b.channels ∷ b.subs;
}

unfoldable pub mark_closed : Channel → Channel
mark_closed c = record c { closed = true }

-- `close(ch)`.
unfoldable pub close : ℕ → List Channel → Option (List Channel)
unfolding at mark_closed
close n cs = elim (get_elem? cs n) [
  | none ↦ none
  | some c ↦ if c.closed then none else some (at n mark_closed cs)
]

abbrev pub with_channels : List ℕ → Option (List Channel) → Option Broker
with_channels subs none = none
with_channels subs (some cs) = some (record { channels = cs; subs = subs })

-- The function that Subscribe returns with the channel n.
unfoldable pub unsubscribe : ℕ → Broker → Option Broker
unfolding delete close
unsubscribe n b =
    if subscribed n b.subs then with_channels (delete n b.subs) (close n b.channels) else some b

-- Into a channel with room; a full one is skipped.
unfoldable pub offer : Event → Channel → Channel
offer e c = if ltb (length c.buffer) capacity then record c { buffer = c.buffer ++ e ∷ [] } else c

-- The `select` of Publish on one channel.
unfoldable pub send : Event → ℕ → List Channel → Option (List Channel)
unfolding at offer
send e n cs = elim (get_elem? cs n) [
  | none ↦ none
  | some c ↦ if c.closed then none else some (at n (offer e) cs)
]

-- A client takes the first event that waits in its channel.
unfoldable pub take_first : Channel → Channel
take_first c = record c { buffer = elim (c.buffer) [ [] ↦ [] | e ∷ es ↦ es ] }

unfoldable pub receive : ℕ → Broker → Broker
unfolding at take_first
receive n b = record b { channels = at n take_first b.channels }

-- A Publish that holds the read lock: its event, and the channels that its loop has yet to visit,
-- which it does in any order.
pub record Publishing : Type 0 where
  pub event : Event
  pub left : List ℕ

-- The broker, and the calls of Publish under way.
pub record System : Type 0 where
  pub broker : Broker
  pub readers : List Publishing

unfoldable pub begin_publish : Bytes → System → System
begin_publish r y = record y {
  readers = record { event = record { resource = r }; left = y.broker.subs } ∷ y.readers;
}

abbrev pub visited : ℕ → Publishing → Publishing
visited n p = record p { left = delete n p.left }

abbrev pub after_send : ℕ → ℕ → System → Option (List Channel) → Option System
after_send i n y none = none
after_send i n y (some cs) = some record {
  broker = record { channels = cs; subs = y.broker.subs };
  readers = at i (visited n) y.readers;
}

-- A round of the loop of the i-th Publish, at a channel that it has yet to visit.
unfoldable pub publish_round : ℕ → ℕ → System → Option System
unfolding send delete
publish_round i n y = elim (get_elem? y.readers i) [
  | none ↦ some y
  | some p ↦
      if subscribed n p.left then after_send i n y (send p.event n y.broker.channels) else some y
]

unfoldable pub drop_at : ℕ → List Publishing → List Publishing
drop_at i [] = []
drop_at zero (p ∷ ps) = ps
drop_at (suc i) (p ∷ ps) = p ∷ drop_at i ps

-- The i-th Publish returns, when its loop is done.
unfoldable pub end_publish : ℕ → System → System
unfolding drop_at
end_publish i y = elim (get_elem? y.readers i) [
  | none ↦ y
  | some p ↦ if is_empty p.left then record y { readers = drop_at i y.readers } else y
]

-- What handlers and clients do. Where Subscribe or its function has to wait for the lock, the step
-- changes nothing.
pub data Call : Type 0 where
  subscribing : Call
  unsubscribing : ℕ → Call
  publishing : Bytes → Call
  sending : ℕ → ℕ → Call
  returning : ℕ → Call
  receiving : ℕ → Call

abbrev pub with_broker : System → Option Broker → Option System
with_broker y none = none
with_broker y (some b) = some (record y { broker = b })

unfoldable pub step : Call → System → Option System
unfolding subscribe unsubscribe begin_publish publish_round end_publish receive
step subscribing y =
    some (if is_empty y.readers then record y { broker = subscribe y.broker } else y)
step (unsubscribing n) y =
    if is_empty y.readers then with_broker y (unsubscribe n y.broker) else some y
step (publishing r) y = some (begin_publish r y)
step (sending i n) y = publish_round i n y
step (returning i) y = some (end_publish i y)
step (receiving n) y = some (record y { broker = receive n y.broker })

unfoldable pub run : List Call → System → Option System
unfolding step
run [] y = some y
run (c ∷ cs) y = elim (step c y) [ none ↦ none | some z ↦ run cs z ]

unfoldable pub new_system : System
unfolding new_broker
new_system = record { broker = new_broker; readers = [] }
