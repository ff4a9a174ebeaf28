-- ===== src/Events/Shown.antt =====
-- What the broker's operations do to the queues that it shows.
use mathlib.Core.Option
use firebin_api.Base.{
  ℕ, suc, ◌+◌, true, ◌≡◌, refl, sym, ap, ◌∙◌, subst, false, List, [], ◌∷◌, ◌++◌, Option, none, some,
  if◌then◌else◌, ◌==◌, length, get_elem?, Bool-cases, inl, inr, ==_iff, arith, length-append,
}
use firebin_api.Events.{
  Event, Channel, Broker, at, subscribed, delete, subscribe, mark_closed, unsubscribe, offer,
  take_first, receive, with_channels,
}
use firebin_api.Events.Channels.{get_elem?-at, close_open, is_open, Distinct}
use firebin_api.Events.Sound.{IsSound, offered}
use firebin_api.Events.Queues.{
  enqueue, rest, waiting_in, length-at, get_elem?-open, get_elem?-last, subscribed-cons,
  subscribed-delete_eq, map_if, waiting_cases, Queues, Shows, joined, left_by, read_by, given,
  is_some,
}

some_injective : {b d : Broker} → Path (Option Broker) (some b) (some d) → b ≡ d
some_injective h = cc

abbrev buffer_of : Option Channel → Option (List Event)
buffer_of o = Option.map (λ c. c.buffer) o

waiting_in-subscribe :
    (b : Broker) (n : ℕ)
    → IsSound b
    → waiting_in (subscribe b) n ≡ (if n == length b.channels then some [] else waiting_in b n)
unfolding subscribe
waiting_in-subscribe b n s = elim (Bool-cases (n == length b.channels)) [
  | inl e ↦
      let new : Channel = record { buffer = []; closed = false } in
      rw (subscribed-cons n (length b.channels) b.subs, e)
        (ap (λ k. buffer_of (get_elem? (b.channels ++ new ∷ []) k))
            ((==_iff n (length b.channels)).0 e)
          ∙ ap buffer_of (get_elem?-last b.channels new))
  | inr e ↦
      rw (subscribed-cons n (length b.channels) b.subs, e)
        (waiting_cases n b.subs _ _
          λ k. ap buffer_of (get_elem?-open n b.channels _ (s.all_open n k)))
]

pub subscribe-Shows :
    (b : Broker) (q : Queues) → IsSound b → Shows b q → Shows (subscribe b) (joined q)
unfolding subscribe
subscribe-Shows b q s h = record {
  members_is = ap suc h.members_is;
  next_is = length-append b.channels _ ∙ (omega (arith, h.next_is));
  waiting_is = λ n.
      waiting_in-subscribe b n s
      ∙ ap (λ k. if n == k then some [] else waiting_in b n) h.next_is
      ∙ ap (λ w. if n == q.next then some [] else w) (h.waiting_is n);
}

waiting_in-absent :
    (b : Broker) (n m : ℕ)
    → subscribed m b.subs ≡ false
    → waiting_in b n ≡ (if n == m then none else waiting_in b n)
waiting_in-absent b n m h = elim (Bool-cases (n == m)) [
  | inl e ↦ rw (e, subst (λ k. subscribed k b.subs ≡ false) (sym ((==_iff n m).0 e)) h) refl
  | inr e ↦ rw e refl
]

abbrev without : ℕ → Broker → Broker
without m b = record { channels = at m mark_closed b.channels; subs = delete m b.subs }

waiting_in-without :
    (b : Broker) (n m : ℕ) → waiting_in (without m b) n ≡ (if n == m then none else waiting_in b n)
waiting_in-without b n m = elim (Bool-cases (n == m)) [
  | inl e ↦ rw (subscribed-delete_eq n m b.subs, e) refl
  | inr e ↦ rw (subscribed-delete_eq n m b.subs, get_elem?-at n m mark_closed b.channels, e) refl
]

is_some-buffer_of : (o : Option Channel) → is_open o ≡ true → is_some (buffer_of o) ≡ true
is_some-buffer_of none h = cc
is_some-buffer_of (some c) h = refl

-- The subscribers are those for whom something may wait.
pub is_some-waiting_in :
    (b : Broker) (n : ℕ) → IsSound b → is_some (waiting_in b n) ≡ subscribed n b.subs
is_some-waiting_in b n s = elim (Bool-cases (subscribed n b.subs)) [
  | inl e ↦ rw e (is_some-buffer_of (get_elem? b.channels n) (s.all_open n e))
  | inr e ↦ rw e refl
]

pub is_some-waiting :
    (b : Broker) (q : Queues) (n : ℕ)
    → IsSound b
    → Shows b q
    → subscribed n b.subs ≡ is_some (q.waiting n)
is_some-waiting b q n s h = sym (is_some-waiting_in b n s) ∙ ap is_some (h.waiting_is n)

pub length-delete :
    (n : ℕ) (ns : List ℕ)
    → Distinct ns
    → length (delete n ns) + (if subscribed n ns then 1 else 0) ≡ length ns
unfolding delete
length-delete n [] d = refl
length-delete n (m ∷ ns) d = elim (Bool-cases (n == m)) [
  | inl e ↦
      let away = subst (λ k. subscribed k ns ≡ false) (sym ((==_iff n m).0 e)) d.0 in
      ground (arith, length-delete n ns d.1, away, e)
  | inr e ↦ ground (arith, length-delete n ns d.1, e)
]

pub unsubscribe-Shows :
    (m : ℕ) (b d : Broker) (q : Queues)
    → IsSound b
    → Shows b q
    → unsubscribe m b ≡ some d
    → Shows d (left_by m q)
unfolding unsubscribe
unsubscribe-Shows m b d q s h e = elim (Bool-cases (subscribed m b.subs)) [
  | inl there ↦
      let closed : unsubscribe m b ≡ some (without m b) =
        rw there
          (ap (with_channels (delete m b.subs)) (close_open m b.channels (s.all_open m there))) in
      subst (λ x. Shows x (left_by m q)) (some_injective (sym closed ∙ e))
        record {
          next_is = length-at m mark_closed b.channels ∙ h.next_is;
          members_is = ground (
            arith,
            length-delete m b.subs s.distinct,
            there,
            is_some-waiting b q m s h,
            h.members_is,
          );
          waiting_is =
              λ n. waiting_in-without b n m ∙ ap (λ w. if n == m then none else w) (h.waiting_is n);
        }
  | inr gone ↦
      subst (λ x. Shows x (left_by m q)) (some_injective (rw gone at e))
        record {
          next_is = h.next_is;
          members_is = ground (arith, gone, is_some-waiting b q m s h, h.members_is);
          waiting_is = λ n.
              waiting_in-absent b n m gone ∙ ap (λ w. if n == m then none else w) (h.waiting_is n);
        }
]

buffer_of-take_first :
    (o : Option Channel) → buffer_of (Option.map take_first o) ≡ Option.map rest (buffer_of o)
unfolding take_first
buffer_of-take_first none = refl
buffer_of-take_first (some c) = refl

waiting_in-receive :
    (b : Broker) (n m : ℕ)
    → waiting_in (receive m b) n
      ≡ (if n == m then Option.map rest (waiting_in b n) else waiting_in b n)
unfolding receive
waiting_in-receive b n m = elim (Bool-cases (n == m)) [
  | inl e ↦
      rw (get_elem?-at n m take_first b.channels, e, buffer_of-take_first (get_elem? b.channels n))
        (map_if (subscribed n b.subs) rest (buffer_of (get_elem? b.channels n)))
  | inr e ↦ rw (get_elem?-at n m take_first b.channels, e) refl
]

pub receive-Shows :
    (m : ℕ) (b : Broker) (q : Queues) → Shows b q → Shows (receive m b) (read_by m q)
unfolding receive
receive-Shows m b q h = record {
  members_is = h.members_is;
  next_is = length-at m take_first b.channels ∙ h.next_is;
  waiting_is = λ n.
      waiting_in-receive b n m ∙ ap (λ w. if n == m then Option.map rest w else w) (h.waiting_is n);
}

offer-enqueue : (e : Event) (c : Channel) → (offer e c).buffer ≡ enqueue e c.buffer
unfolding offer
offer-enqueue e c = ground arith

buffer_of-offer :
    (e : Event) (o : Option Channel)
    → buffer_of (Option.map (offer e) o) ≡ Option.map (enqueue e) (buffer_of o)
buffer_of-offer e none = refl
buffer_of-offer e (some c) = ap some (offer-enqueue e c)

waiting_in-offered :
    (e : Event) (b : Broker) (n m : ℕ)
    → waiting_in (offered e m b) n
      ≡ (if n == m then Option.map (enqueue e) (waiting_in b n) else waiting_in b n)
waiting_in-offered e b n m = elim (Bool-cases (n == m)) [
  | inl q ↦
      rw (get_elem?-at n m (offer e) b.channels, q, buffer_of-offer e (get_elem? b.channels n))
        (map_if (subscribed n b.subs) (enqueue e) (buffer_of (get_elem? b.channels n)))
  | inr q ↦ rw (get_elem?-at n m (offer e) b.channels, q) refl
]

pub offered-Shows :
    (e : Event) (m : ℕ) (b : Broker) (q : Queues) → Shows b q → Shows (offered e m b) (given e m q)
offered-Shows e m b q h = record {
  next_is = length-at m (offer e) b.channels ∙ h.next_is;
  members_is = h.members_is;
  waiting_is = λ n.
      waiting_in-offered e b n m
      ∙ ap (λ w. if n == m then Option.map (enqueue e) w else w) (h.waiting_is n);
}
