-- ===== src/Events/Sound.antt =====
-- What holds of the broker after any calls: it never panics, and no buffer outgrows its channel.
use firebin_api.Base.{
  ℕ, ◌≡◌, refl, sym, ap, ◌∙◌, true, false, List, [], ◌∷◌, ◌++◌, Option, some, ◌==◌, length, All,
  arith, Bool-cases, inl, inr, true_ne_false, All-append, ==_iff, zero, suc, get_elem?, subst,
  Option-cases,
}
use firebin_api.Base.Bytes.{is_empty}
use firebin_api.Events.{
  Event, Channel, Broker, new_broker, at, subscribed, delete, subscribe, mark_closed, with_channels,
  unsubscribe, offer, take_first, receive, Call, subscribing, unsubscribing, publishing, sending,
  returning, receiving, step, run, Publishing, System, visited, drop_at, publish_round, end_publish,
  begin_publish, new_system, with_broker, after_send,
}
use firebin_api.Events.Channels.{
  open_at, HasRoom, Distinct, open_at-at, open_at-other, All-at, offer-KeepsOpen,
  take_first-KeepsOpen, offer-HasRoom, take_first-HasRoom, mark_closed-HasRoom, subscribed-delete,
  delete-Distinct, send_open, close_open, open_at-append, open_at-last, open_at-length,
}

same_publishing : {p q : Publishing} → Path (Option Publishing) (some p) (some q) → p ≡ q
same_publishing h = cc

-- The subscribed channels are open and differ; no channel holds more than its capacity.
pub record IsSound (b : Broker) : Type 0 where
  pub all_open : (n : ℕ) → subscribed n b.subs ≡ true → open_at n b.channels ≡ true
  pub distinct : Distinct b.subs
  pub bounded : All HasRoom b.channels

abbrev pub AllOpen : List ℕ → List Channel → Type 0
AllOpen ns cs = (n : ℕ) → subscribed n ns ≡ true → open_at n cs ≡ true

-- A step that returns, with what then holds.
abbrev pub Sound : Option Broker → Type 0
Sound o = (b : Broker) × (o ≡ some b) × IsSound b

-- The broker after one channel was offered an event.
abbrev pub offered : Event → ℕ → Broker → Broker
offered e n b = record { channels = at n (offer e) b.channels; subs = b.subs }

offered-Sound : (e : Event) (n : ℕ) (b : Broker) → IsSound b → IsSound (offered e n b)
offered-Sound e n b h = record {
  all_open = λ m k. open_at-at m n (offer e) b.channels (offer-KeepsOpen e) ∙ h.all_open m k;
  distinct = h.distinct;
  bounded = All-at n (offer e) b.channels (offer-HasRoom e) h.bounded;
}

receive-Sound : (n : ℕ) (b : Broker) → IsSound b → IsSound (receive n b)
unfolding receive
receive-Sound n b h = record {
  all_open = λ m k. open_at-at m n take_first b.channels take_first-KeepsOpen ∙ h.all_open m k;
  distinct = h.distinct;
  bounded = All-at n take_first b.channels take_first-HasRoom h.bounded;
}

pub unsubscribe-Sound : (n : ℕ) (b : Broker) → IsSound b → Sound (unsubscribe n b)
unfolding unsubscribe
unsubscribe-Sound n b h = elim (Bool-cases (subscribed n b.subs)) [
  | inl e ↦ (
    record { channels = at n mark_closed b.channels; subs = delete n b.subs },
    rw e (ap (with_channels (delete n b.subs)) (close_open n b.channels (h.all_open n e))),
    record {
      all_open = λ m k.
          let (other, there) = subscribed-delete m n b.subs k in
          open_at-other m n mark_closed b.channels other ∙ h.all_open m there;
      distinct = delete-Distinct n b.subs h.distinct;
      bounded = All-at n mark_closed b.channels mark_closed-HasRoom h.bounded;
    },
  )
  | inr e ↦ (b, rw e refl, h)
]

abbrev new_channel : Channel
new_channel = record { buffer = []; closed = false }

opened :
    (b : Broker) → IsSound b → AllOpen (length b.channels ∷ b.subs) (b.channels ++ new_channel ∷ [])
opened b h m k = elim (Bool-cases (m == length b.channels)) [
  | inl e ↦ rw ((==_iff m (length b.channels)).0 e) (open_at-last b.channels new_channel)
  | inr e ↦ open_at-append m b.channels (new_channel ∷ []) (h.all_open m (rw (e, subscribed) at k))
]

fresh : (b : Broker) → IsSound b → subscribed (length b.channels) b.subs ≡ false
fresh b h = elim (Bool-cases (subscribed (length b.channels) b.subs)) [
  | inl e ↦
      absurd (true_ne_false (sym (h.all_open (length b.channels) e) ∙ open_at-length b.channels))
  | inr e ↦ e
]

subscribe-Sound : (b : Broker) → IsSound b → IsSound (subscribe b)
unfolding subscribe
subscribe-Sound b h = record {
  all_open = λ m k. opened b h m k;
  distinct = (fresh b h, h.distinct);
  bounded = All-append HasRoom b.channels _ h.bounded (omega arith, tt);
}

pub new_broker-IsSound : IsSound new_broker
unfolding new_broker
new_broker-IsSound = record {
  all_open = λ n k. absurd (true_ne_false (sym k));
  distinct = tt;
  bounded = tt;
}

-- A Publish has yet to visit different channels, which are subscribed.
abbrev pub IsServing : List ℕ → Publishing → Type 0
IsServing subs p =
    Distinct p.left × ((n : ℕ) → subscribed n p.left ≡ true → subscribed n subs ≡ true)

pub record IsSafe (y : System) : Type 0 where
  pub sound : IsSound y.broker
  pub serving : All (IsServing y.broker.subs) y.readers

abbrev Safe : Option System → Type 0
Safe o = (y : System) × (o ≡ some y) × IsSafe y

pub IsServing-of :
    (subs : List ℕ) (i : ℕ) (ps : List Publishing) (p : Publishing)
    → All (IsServing subs) ps
    → get_elem? ps i ≡ some p
    → IsServing subs p
IsServing-of subs i [] p h e = cc
IsServing-of subs zero (q ∷ ps) p h e = subst (IsServing subs) (same_publishing e) h.0
IsServing-of subs (suc i) (q ∷ ps) p h e = IsServing-of subs i ps p h.1 e

visited-IsServing :
    (subs : List ℕ) (n : ℕ) (p : Publishing) → IsServing subs p → IsServing subs (visited n p)
visited-IsServing subs n p h =
    (delete-Distinct n p.left h.0, λ m k. h.1 m (subscribed-delete m n p.left k).1)

at-IsServing :
    (subs : List ℕ) (i n : ℕ) (ps : List Publishing)
    → All (IsServing subs) ps
    → All (IsServing subs) (at i (visited n) ps)
unfolding at
at-IsServing subs i n [] h = tt
at-IsServing subs zero n (p ∷ ps) h = (visited-IsServing subs n p h.0, h.1)
at-IsServing subs (suc i) n (p ∷ ps) h = (h.0, at-IsServing subs i n ps h.1)

drop_at-IsServing :
    (subs : List ℕ) (i : ℕ) (ps : List Publishing)
    → All (IsServing subs) ps
    → All (IsServing subs) (drop_at i ps)
unfolding drop_at
drop_at-IsServing subs i [] h = tt
drop_at-IsServing subs zero (p ∷ ps) h = h.1
drop_at-IsServing subs (suc i) (p ∷ ps) h = (h.0, drop_at-IsServing subs i ps h.1)

-- A round of a Publish at a channel that it has yet to visit offers its event there.
pub publish_round_offers :
    (i n : ℕ) (y : System) (p : Publishing)
    → IsSafe y
    → get_elem? y.readers i ≡ some p
    → subscribed n p.left ≡ true
    → publish_round i n y
      ≡ some record { broker = offered p.event n y.broker; readers = at i (visited n) y.readers }
unfolding publish_round
publish_round_offers i n y p h e q =
    let there = (IsServing-of y.broker.subs i y.readers p h.serving e).1 n q in
    rw (e, publish_round, q)
      (ap (after_send i n y) (send_open p.event n y.broker.channels (h.sound.all_open n there)))

publish_round-Safe : (i n : ℕ) (y : System) → IsSafe y → Safe (publish_round i n y)
unfolding publish_round
publish_round-Safe i n y h = elim (Option-cases (get_elem? y.readers i)) [
  | inl e ↦ (y, rw (e, publish_round) refl, h)
  | inr (p, e) ↦ elim (Bool-cases (subscribed n p.left)) [
    | inr q ↦ (y, rw (e, publish_round, q) refl, h)
    | inl q ↦ (
      _,
      publish_round_offers i n y p h e q,
      record {
        sound = offered-Sound p.event n y.broker h.sound;
        serving = at-IsServing y.broker.subs i n y.readers h.serving;
      },
    )
  ]
]

end_publish-Safe : (i : ℕ) (y : System) → IsSafe y → IsSafe (end_publish i y)
unfolding end_publish
end_publish-Safe i y h = elim (Option-cases (get_elem? y.readers i)) [
  | inl e ↦ rw (e, end_publish) h
  | inr (p, e) ↦ elim (Bool-cases (is_empty p.left)) [
    | inr q ↦ rw (e, end_publish, q) h
    | inl q ↦
        rw (e, end_publish, q)
          record {
            sound = h.sound;
            serving = drop_at-IsServing y.broker.subs i y.readers h.serving;
          }
  ]
]

none-IsServing :
    (subs : List ℕ) (ps : List Publishing) → is_empty ps ≡ true → All (IsServing subs) ps
none-IsServing subs [] e = tt
none-IsServing subs (p ∷ ps) e = cc

pub step-Safe : (c : Call) (y : System) → IsSafe y → Safe (step c y)
unfolding step begin_publish
step-Safe subscribing y h = elim (Bool-cases (is_empty y.readers)) [
  | inr e ↦ (y, rw (e, step) refl, h)
  | inl e ↦ (
    record y { broker = subscribe y.broker },
    rw (e, step) refl,
    record {
      sound = subscribe-Sound y.broker h.sound;
      serving = none-IsServing (subscribe y.broker).subs y.readers e;
    },
  )
]
step-Safe (unsubscribing n) y h = elim (Bool-cases (is_empty y.readers)) [
  | inr e ↦ (y, rw (e, step) refl, h)
  | inl e ↦
      let (b, q, k) = unsubscribe-Sound n y.broker h.sound in
      (
        record y { broker = b },
        rw (e, step) (ap (with_broker y) q),
        record { sound = k; serving = none-IsServing b.subs y.readers e },
      )
]
step-Safe (publishing r) y h = (
  begin_publish r y,
  refl,
  record { sound = h.sound; serving = ((h.sound.distinct, λ n k. k), h.serving) },
)
step-Safe (sending i n) y h = publish_round-Safe i n y h
step-Safe (returning i) y h = (end_publish i y, refl, end_publish-Safe i y h)
step-Safe (receiving n) y h = (
  record y { broker = receive n y.broker },
  refl,
  record { sound = receive-Sound n y.broker h.sound; serving = unfold receive in h.serving },
)

run-Safe : (cs : List Call) (y : System) → IsSafe y → Safe (run cs y)
unfolding run
run-Safe [] y h = (y, refl, h)
run-Safe (c ∷ cs) y h = let (z, e, k) = step-Safe c y h in rw (e, run) (run-Safe cs z k)

pub new_system-IsSafe : IsSafe new_system
unfolding new_system
new_system-IsSafe = record { sound = new_broker-IsSound; serving = tt }

-- After any sequence of calls of Subscribe, of unsubscribe functions (called any number of times), of
-- rounds of any number of Publish calls at once, and of receives, nothing has panicked; the subscribed
-- channels differ and are open, and no channel holds more than 16 events.
pub run-new_broker :
    (calls : List Call) → (y : System) × (run calls new_system ≡ some y) × IsSound y.broker
run-new_broker calls =
    let (y, e, h) = run-Safe calls new_system new_system-IsSafe in (y, e, h.sound)
