-- ===== src/Events/Queues.antt =====
-- What the broker promises, without channels, a map of them or loops: each subscriber has a queue of at
-- most 16 events, and each event that is published is put into the queue of each subscriber.
use mathlib.Core.Option
use firebin_api.Base.Bytes.{is_empty}
use firebin_api.Base.{
  ◌-◌, ℕ, zero, suc, ◌≡◌, refl, ap, Bool, true, false, List, [], ◌∷◌, ◌++◌, Option, none, some,
  if◌then◌else◌, ◌==◌, ltb, length, get_elem?, Bool-cases, inl, inr, arith,
}
use firebin_api.Events.{
  Event, Channel, Broker, capacity, at, subscribed, delete, Call, subscribing, unsubscribing,
  publishing, sending, returning, receiving, Publishing, System,
}
use firebin_api.Events.Channels.{open_at}

-- The next subscriber's name, how many there are, and what waits for each.
pub record Queues : Type 0 where
  pub next : ℕ
  pub members : ℕ
  pub waiting : ℕ → Option (List Event)

-- An event that is being published: who is yet to be served, and how many they are.
pub record Pending : Type 0 where
  pub event : Event
  pub owes : ℕ → Bool
  pub due : ℕ

-- The queues, and the events being published.
pub record Service : Type 0 where
  pub queues : Queues
  pub pending : List Pending

abbrev pub no_service : Service
no_service = record { queues = record { next = 0; members = 0; waiting = λ n. none }; pending = [] }

abbrev pub enqueue : Event → List Event → List Event
enqueue e es = if ltb (length es) capacity then es ++ e ∷ [] else es

abbrev pub rest : List Event → List Event
rest [] = []
rest (e ∷ es) = es

abbrev pub is_some : Option (List Event) → Bool
is_some none = false
is_some (some es) = true

abbrev pub joined : Queues → Queues
joined q = record {
  next = suc q.next;
  members = suc q.members;
  waiting = λ n. if n == q.next then some [] else q.waiting n;
}

abbrev pub left_by : ℕ → Queues → Queues
left_by m q = record {
  next = q.next;
  members = if is_some (q.waiting m) then q.members - 1 else q.members;
  waiting = λ n. if n == m then none else q.waiting n;
}

abbrev pub read_by : ℕ → Queues → Queues
read_by m q = record q {
  waiting = λ n. if n == m then Option.map rest (q.waiting n) else q.waiting n;
}

abbrev pub given : Event → ℕ → Queues → Queues
given e m q = record q {
  waiting = λ n. if n == m then Option.map (enqueue e) (q.waiting n) else q.waiting n;
}

abbrev pub served : ℕ → Pending → Pending
served m w = record {
  event = w.event;
  owes = λ n. if n == m then false else w.owes n;
  due = w.due - 1;
}

abbrev pub change : ℕ → (Pending → Pending) → List Pending → List Pending
change i f [] = []
change zero f (w ∷ ws) = f w ∷ ws
change (suc i) f (w ∷ ws) = w ∷ change i f ws

abbrev pub finish : ℕ → List Pending → List Pending
finish i [] = []
finish zero (w ∷ ws) = ws
finish (suc i) (w ∷ ws) = w ∷ finish i ws

-- Nobody comes or goes while an event is being published; each event is put once into the queue of each
-- of those who were there when its publishing began, in any order and with others in between; and the
-- publishing ends when all of them are served.
abbrev pub service_step : Call → Service → Service
service_step subscribing s = if is_empty s.pending then record s { queues = joined s.queues } else s
service_step (unsubscribing m) s =
    if is_empty s.pending then record s { queues = left_by m s.queues } else s
service_step (publishing r) s = record s {
  pending =
      record {
        event = record { resource = r };
        owes = λ n. is_some (s.queues.waiting n);
        due = s.queues.members;
      }
      ∷ s.pending;
}
service_step (sending i n) s = elim (get_elem? s.pending i) [
  | none ↦ s
  | some w ↦
      if w.owes n
      then record { queues = given w.event n s.queues; pending = change i (served n) s.pending }
      else s
]
service_step (returning i) s = elim (get_elem? s.pending i) [
  | none ↦ s
  | some w ↦ if w.due == 0 then record s { pending = finish i s.pending } else s
]
service_step (receiving m) s = record s { queues = read_by m s.queues }

abbrev pub service_run : List Call → Service → Service
service_run [] s = s
service_run (c ∷ cs) s = service_run cs (service_step c s)

-- What waits for a subscriber in the broker.
abbrev pub waiting_in : Broker → ℕ → Option (List Event)
waiting_in b n =
    if subscribed n b.subs then Option.map (λ c. c.buffer) (get_elem? b.channels n) else none

pub record Shows (b : Broker) (q : Queues) : Type 0 where
  pub next_is : length b.channels ≡ q.next
  pub members_is : length b.subs ≡ q.members
  pub waiting_is : (n : ℕ) → waiting_in b n ≡ q.waiting n

-- A Publish under way serves those whom its event is owed.
pub record Serves (p : Publishing) (w : Pending) : Type 0 where
  pub event_is : p.event ≡ w.event
  pub owes_is : (n : ℕ) → subscribed n p.left ≡ w.owes n
  pub due_is : length p.left ≡ w.due

abbrev pub AllServe : List Publishing → List Pending → Type 0
AllServe [] [] = Unit
AllServe [] (w ∷ ws) = ⊥
AllServe (p ∷ ps) [] = ⊥
AllServe (p ∷ ps) (w ∷ ws) = Serves p w × AllServe ps ws

pub record Provides (y : System) (s : Service) : Type 0 where
  pub shows : Shows y.broker s.queues
  pub serves : AllServe y.readers s.pending

pub length-at : (n : ℕ) (f : Channel → Channel) (cs : List Channel) → length (at n f cs) ≡ length cs
unfolding at
length-at n f [] = refl
length-at zero f (c ∷ cs) = refl
length-at (suc n) f (c ∷ cs) = ap suc (length-at n f cs)

pub get_elem?-open :
    (n : ℕ) (cs ds : List Channel) → open_at n cs ≡ true → get_elem? (cs ++ ds) n ≡ get_elem? cs n
get_elem?-open n [] ds h = cc
get_elem?-open zero (c ∷ cs) ds h = refl
get_elem?-open (suc n) (c ∷ cs) ds h = get_elem?-open n cs ds h

pub get_elem?-last :
    (cs : List Channel) (c : Channel) → get_elem? (cs ++ c ∷ []) (length cs) ≡ some c
get_elem?-last [] c = refl
get_elem?-last (d ∷ cs) c = get_elem?-last cs c

pub subscribed-cons :
    (n m : ℕ) (ns : List ℕ) → subscribed n (m ∷ ns) ≡ (if n == m then true else subscribed n ns)
subscribed-cons n m ns = ground arith

pub subscribed-delete_eq :
    (n m : ℕ) (ns : List ℕ)
    → subscribed n (delete m ns) ≡ (if n == m then false else subscribed n ns)
unfolding delete
subscribed-delete_eq n m [] = ground arith
subscribed-delete_eq n m (k ∷ ns) = ground (arith, subscribed-delete_eq n m ns)

pub map_if :
    {A B : Type 0} (b : Bool) (f : A → B) (o : Option A)
    → (if b then Option.map f o else none) ≡ Option.map f (if b then o else none)
map_if true f o = refl
map_if false f o = refl

-- Two lookups that agree where the channel is subscribed.
pub waiting_cases :
    (n : ℕ) (subs : List ℕ) (o p : Option (List Event))
    → (subscribed n subs ≡ true → o ≡ p)
    → (if subscribed n subs then o else none) ≡ (if subscribed n subs then p else none)
waiting_cases n subs o p h = elim (Bool-cases (subscribed n subs)) [
  | inl e ↦ rw e (h e)
  | inr e ↦ rw e refl
]
