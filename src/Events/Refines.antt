-- ===== src/Events/Refines.antt =====
-- The broker, with its calls of Publish under way, refines the queues.
use firebin_api.Base.{
  ℕ, zero, suc, ◌≡◌, refl, sym, ap, ◌∙◌, subst, true, false, List, [], ◌∷◌, Option, none, some,
  if◌then◌else◌, ◌==◌, length, get_elem?, Bool-cases, Option-cases, inl, inr, arith,
}
use firebin_api.Base.Bytes.{is_empty}
use firebin_api.Events.{
  System, Publishing, at, subscribed, visited, drop_at, publish_round, end_publish, begin_publish,
  unsubscribe, subscribe, receive, with_broker, Call, subscribing, unsubscribing, publishing,
  sending, returning, receiving, step, run, new_system, new_broker,
}
use firebin_api.Events.Channels.{Distinct}
use firebin_api.Events.Sound.{
  IsSafe, IsServing-of, publish_round_offers, new_system-IsSafe, step-Safe, offered,
  unsubscribe-Sound,
}
use firebin_api.Events.Queues.{
  Pending, Service, no_service, served, change, finish, service_step, service_run, Serves, AllServe,
  Provides, subscribed-delete_eq, left_by, given, Shows,
}
use firebin_api.Events.Shown.{
  subscribe-Shows, unsubscribe-Shows, receive-Shows, offered-Shows, is_some-waiting, length-delete,
}

same_publishing : {p q : Publishing} → Path (Option Publishing) (some p) (some q) → p ≡ q
same_publishing h = cc

abbrev Both : Option Publishing → Option Pending → Type 0
Both none none = Unit
Both none (some w) = ⊥
Both (some p) none = ⊥
Both (some p) (some w) = Serves p w

AllServe-Both :
    (i : ℕ) (ps : List Publishing) (ws : List Pending)
    → AllServe ps ws
    → Both (get_elem? ps i) (get_elem? ws i)
AllServe-Both i [] [] h = tt
AllServe-Both i [] (w ∷ ws) h = absurd h
AllServe-Both i (p ∷ ps) [] h = absurd h
AllServe-Both zero (p ∷ ps) (w ∷ ws) h = h.0
AllServe-Both (suc i) (p ∷ ps) (w ∷ ws) h = AllServe-Both i ps ws h.1

-- The pending event of a Publish under way.
pending_of :
    (i : ℕ) (ps : List Publishing) (ws : List Pending) (p : Publishing)
    → AllServe ps ws
    → get_elem? ps i ≡ some p
    → (w : Pending) × (get_elem? ws i ≡ some w) × Serves p w
pending_of i ps ws p h e =
    let both = subst (λ o. Both o (get_elem? ws i)) e (AllServe-Both i ps ws h) in
    elim (Option-cases (get_elem? ws i)) [
      | inl q ↦ absurd (subst (Both (some p)) q both)
      | inr (w, q) ↦ (w, q, subst (Both (some p)) q both)
    ]

none_pending :
    (i : ℕ) (ps : List Publishing) (ws : List Pending)
    → AllServe ps ws
    → get_elem? ps i ≡ none
    → get_elem? ws i ≡ none
none_pending i ps ws h e =
    let both = subst (λ o. Both o (get_elem? ws i)) e (AllServe-Both i ps ws h) in
    elim (Option-cases (get_elem? ws i)) [
      | inl q ↦ q
      | inr (w, q) ↦ absurd (subst (Both none) q both)
    ]

is_empty-AllServe :
    (ps : List Publishing) (ws : List Pending) → AllServe ps ws → is_empty ps ≡ is_empty ws
is_empty-AllServe [] [] h = refl
is_empty-AllServe [] (w ∷ ws) h = absurd h
is_empty-AllServe (p ∷ ps) [] h = absurd h
is_empty-AllServe (p ∷ ps) (w ∷ ws) h = refl

visited-Serves :
    (n : ℕ) (p : Publishing) (w : Pending)
    → Distinct p.left
    → subscribed n p.left ≡ true
    → Serves p w
    → Serves (visited n p) (served n w)
visited-Serves n p w d q h = record {
  event_is = h.event_is;
  owes_is =
      λ m. subscribed-delete_eq m n p.left ∙ ap (λ b. if m == n then false else b) (h.owes_is m);
  due_is = ground (arith, length-delete n p.left d, q, h.due_is);
}

at-AllServe :
    (i n : ℕ) (ps : List Publishing) (ws : List Pending) (p : Publishing)
    → AllServe ps ws
    → get_elem? ps i ≡ some p
    → Distinct p.left
    → subscribed n p.left ≡ true
    → AllServe (at i (visited n) ps) (change i (served n) ws)
unfolding at
at-AllServe i n [] [] p h e d q = tt
at-AllServe i n [] (w ∷ ws) p h e d q = absurd h
at-AllServe i n (x ∷ ps) [] p h e d q = absurd h
at-AllServe zero n (x ∷ ps) (w ∷ ws) p h e d q =
    let same = same_publishing e in
    (
      visited-Serves n x w (subst (λ y. Distinct y.left) (sym same) d)
          (ap (λ y. subscribed n y.left) same ∙ q) h.0,
      h.1,
    )
at-AllServe (suc i) n (x ∷ ps) (w ∷ ws) p h e d q = (h.0, at-AllServe i n ps ws p h.1 e d q)

drop_at-AllServe :
    (i : ℕ) (ps : List Publishing) (ws : List Pending)
    → AllServe ps ws
    → AllServe (drop_at i ps) (finish i ws)
unfolding drop_at
drop_at-AllServe i [] [] h = tt
drop_at-AllServe i [] (w ∷ ws) h = absurd h
drop_at-AllServe i (p ∷ ps) [] h = absurd h
drop_at-AllServe zero (p ∷ ps) (w ∷ ws) h = h.1
drop_at-AllServe (suc i) (p ∷ ps) (w ∷ ws) h = (h.0, drop_at-AllServe i ps ws h.1)

same_system : {y z : System} → Path (Option System) (some y) (some z) → y ≡ z
same_system h = cc

empty_length : (ns : List ℕ) → is_empty ns ≡ (length ns == 0)
empty_length [] = refl
empty_length (n ∷ ns) = ground arith

-- A step that returns, and what it then provides.
abbrev Provided : Option System → Service → Type 0
Provided o s = (y : System) × (o ≡ some y) × Provides y s

publish_round-Provided :
    (i n : ℕ) (y : System) (s : Service)
    → IsSafe y
    → Provides y s
    → Provided (publish_round i n y) (service_step (sending i n) s)
unfolding publish_round
publish_round-Provided i n y s k h = elim (Option-cases (get_elem? y.readers i)) [
  | inl e ↦ (
    y,
    rw (e, publish_round) refl,
    rw (none_pending i y.readers s.pending h.serves e, service_step) h,
  )
  | inr (p, e) ↦
      let (w, q, v) = pending_of i y.readers s.pending p h.serves e in
      elim (Bool-cases (subscribed n p.left)) [
        | inr b ↦ (y, rw (e, publish_round, b) refl, rw (q, service_step, sym (v.owes_is n) ∙ b) h)
        | inl b ↦ (
          _,
          publish_round_offers i n y p k e b,
          rw (q, service_step, sym (v.owes_is n) ∙ b)
              record {
                shows =
                    subst (λ x. Shows (offered p.event n y.broker) (given x n s.queues)) v.event_is
                      (offered-Shows p.event n y.broker s.queues h.shows);
                serves =
                    at-AllServe i n y.readers s.pending p h.serves e
                      (IsServing-of y.broker.subs i y.readers p k.serving e).0 b;
              },
        )
      ]
]

end_publish-Provides :
    (i : ℕ) (y : System) (s : Service)
    → Provides y s
    → Provides (end_publish i y) (service_step (returning i) s)
unfolding end_publish
end_publish-Provides i y s h = elim (Option-cases (get_elem? y.readers i)) [
  | inl e ↦ rw (e, end_publish, none_pending i y.readers s.pending h.serves e, service_step) h
  | inr (p, e) ↦
      let (w, q, v) = pending_of i y.readers s.pending p h.serves e in
      let due : is_empty p.left ≡ (w.due == 0) = empty_length p.left ∙ ap (λ k. k == 0) v.due_is in
      elim (Bool-cases (is_empty p.left)) [
        | inr b ↦ rw (e, end_publish, b, q, service_step, sym due ∙ b) h
        | inl b ↦
            rw (e, end_publish, b, q, service_step, sym due ∙ b)
              record { shows = h.shows; serves = drop_at-AllServe i y.readers s.pending h.serves }
      ]
]

unsubscribe-Provided :
    (m : ℕ) (y : System) (s : Service)
    → IsSafe y
    → Provides y s
    → Provided (with_broker y (unsubscribe m y.broker)) (record s { queues = left_by m s.queues })
unsubscribe-Provided m y s k h =
    let (b, e, _) = unsubscribe-Sound m y.broker k.sound in
    (
      record y { broker = b },
      ap (with_broker y) e,
      record {
        shows = unsubscribe-Shows m y.broker b s.queues k.sound h.shows e;
        serves = h.serves;
      },
    )

step-Provided :
    (c : Call) (y : System) (s : Service)
    → IsSafe y
    → Provides y s
    → Provided (step c y) (service_step c s)
unfolding step begin_publish
step-Provided subscribing y s k h =
    let idle = is_empty-AllServe y.readers s.pending h.serves in
    elim (Bool-cases (is_empty y.readers)) [
      | inr e ↦ (y, rw (e, step) refl, rw (sym idle ∙ e) h)
      | inl e ↦ (
        record y { broker = subscribe y.broker },
        rw (e, step) refl,
        rw (sym idle ∙ e)
            record { shows = subscribe-Shows y.broker s.queues k.sound h.shows; serves = h.serves },
      )
    ]
step-Provided (unsubscribing m) y s k h =
    let idle = is_empty-AllServe y.readers s.pending h.serves in
    elim (Bool-cases (is_empty y.readers)) [
      | inr e ↦ (y, rw (e, step) refl, rw (sym idle ∙ e) h)
      | inl e ↦ rw (e, step, sym idle ∙ e) (unsubscribe-Provided m y s k h)
    ]
step-Provided (publishing r) y s k h = (
  begin_publish r y,
  refl,
  record {
    shows = h.shows;
    serves = (
      record {
        event_is = refl;
        owes_is = λ n. is_some-waiting y.broker s.queues n k.sound h.shows;
        due_is = h.shows.members_is;
      },
      h.serves,
    );
  },
)
step-Provided (sending i n) y s k h = publish_round-Provided i n y s k h
step-Provided (returning i) y s k h = (end_publish i y, refl, end_publish-Provides i y s h)
step-Provided (receiving m) y s k h = (
  record y { broker = receive m y.broker },
  refl,
  record { shows = receive-Shows m y.broker s.queues h.shows; serves = h.serves },
)

run-Provided :
    (cs : List Call) (y : System) (s : Service)
    → IsSafe y
    → Provides y s
    → Provided (run cs y) (service_run cs s)
unfolding run
run-Provided [] y s k h = (y, refl, h)
run-Provided (c ∷ cs) y s k h =
    let (z, e, t) = step-Safe c y k in
    let (z', e', v) = step-Provided c y s k h in
    let now = subst (λ x. Provides x (service_step c s)) (same_system (sym e' ∙ e)) v in
    rw (e, run) (run-Provided cs z (service_step c s) t now)

new_system-Provides : Provides new_system no_service
unfolding new_system new_broker
new_system-Provides = record {
  shows = record { next_is = refl; members_is = refl; waiting_is = λ n. refl };
  serves = tt;
}

-- The broker refines the queues: after any sequence of steps from the start, the rounds of several
-- Publish calls interleaved in any way, what waits in the channel of each subscriber is what the queues
-- hold for it, nobody else has a queue, and the calls of Publish under way have just those channels yet
-- to visit whose subscribers are still owed their event.
pub run-Queues :
    (calls : List Call)
    → (y : System) × (run calls new_system ≡ some y) × Provides y (service_run calls no_service)
run-Queues calls = run-Provided calls new_system no_service new_system-IsSafe new_system-Provides
