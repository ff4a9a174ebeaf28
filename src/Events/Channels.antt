-- ===== src/Events/Channels.antt =====
-- What the operations on one channel do to the channels and to the names of subscribers.
use mathlib.Core.Option
use firebin_api.Base.{
  ℕ, zero, suc, ◌≤◌, ◌≡◌, refl, sym, ap, ◌∙◌, Bool, true, false, not, List, [], ◌∷◌, ◌++◌, Option,
  none, some, if◌then◌else◌, ◌==◌, length, get_elem?, All, arith, Bool-cases, Option-cases, inl,
  inr, length-append, true_ne_false,
}
use firebin_api.Events.{
  Event, Channel, capacity, at, subscribed, delete, mark_closed, close, offer, send, take_first,
}

abbrev pub is_open : Option Channel → Bool
is_open none = false
is_open (some c) = not c.closed

abbrev pub open_at : ℕ → List Channel → Bool
open_at n cs = is_open (get_elem? cs n)

abbrev pub HasRoom : Channel → Type 0
HasRoom c = length c.buffer ≤ capacity

abbrev pub Distinct : List ℕ → Type 0
Distinct [] = Unit
Distinct (n ∷ ns) = (subscribed n ns ≡ false) × Distinct ns

pub get_elem?-at :
    (n m : ℕ) (f : Channel → Channel) (cs : List Channel)
    → get_elem? (at m f cs) n ≡ (if n == m then Option.map f (get_elem? cs n) else get_elem? cs n)
unfolding at
get_elem?-at n m f [] = ground arith
get_elem?-at zero zero f (c ∷ cs) = refl
get_elem?-at zero (suc m) f (c ∷ cs) = ground arith
get_elem?-at (suc n) zero f (c ∷ cs) = ground arith
get_elem?-at (suc n) (suc m) f (c ∷ cs) = ground (arith, get_elem?-at n m f cs)

-- A function of channels that does not close them.
abbrev pub KeepsOpen : (Channel → Channel) → Type 0
KeepsOpen f = (c : Channel) → (f c).closed ≡ c.closed

pub is_open-map :
    (f : Channel → Channel) (o : Option Channel)
    → KeepsOpen f
    → is_open (Option.map f o) ≡ is_open o
is_open-map f none k = refl
is_open-map f (some c) k = ap not (k c)

pub open_at-at :
    (n m : ℕ) (f : Channel → Channel) (cs : List Channel)
    → KeepsOpen f
    → open_at n (at m f cs) ≡ open_at n cs
open_at-at n m f cs k = ap is_open (get_elem?-at n m f cs) ∙ elim (Bool-cases (n == m)) [
  | inl e ↦ rw e (is_open-map f (get_elem? cs n) k)
  | inr e ↦ rw e refl
]

pub open_at-other :
    (n m : ℕ) (f : Channel → Channel) (cs : List Channel)
    → (n == m) ≡ false
    → open_at n (at m f cs) ≡ open_at n cs
open_at-other n m f cs e = ap is_open (get_elem?-at n m f cs) ∙ (rw e refl)

pub All-at :
    (n : ℕ) (f : Channel → Channel) (cs : List Channel)
    → ((c : Channel) → HasRoom c → HasRoom (f c))
    → All HasRoom cs
    → All HasRoom (at n f cs)
unfolding at
All-at n f [] k h = tt
All-at zero f (c ∷ cs) k h = (k c h.0, h.1)
All-at (suc n) f (c ∷ cs) k h = (h.0, All-at n f cs k h.1)

pub offer-KeepsOpen : (e : Event) → KeepsOpen (offer e)
unfolding offer
offer-KeepsOpen e c = ground arith

pub take_first-KeepsOpen : KeepsOpen take_first
unfolding take_first
take_first-KeepsOpen c = refl

pub offer-HasRoom : (e : Event) (c : Channel) → HasRoom c → HasRoom (offer e c)
unfolding offer
offer-HasRoom e c h = ground (arith, length-append c.buffer (e ∷ []))

pub take_first-HasRoom : (c : Channel) → HasRoom c → HasRoom (take_first c)
unfolding take_first
take_first-HasRoom c h =
    elim (c.buffer)
        as (λ es. length es ≤ capacity → length (elim es [ [] ↦ [] | e ∷ es ↦ es ]) ≤ capacity) [
          | [] ↦ λ k. k
          | e ∷ es ↦ λ k. omega (arith, k)
        ]
      h

pub mark_closed-HasRoom : (c : Channel) → HasRoom c → HasRoom (mark_closed c)
unfolding mark_closed
mark_closed-HasRoom c h = h

pub subscribed-delete :
    (n m : ℕ) (ms : List ℕ)
    → subscribed n (delete m ms) ≡ true
    → ((n == m) ≡ false) × (subscribed n ms ≡ true)
unfolding delete
subscribed-delete n m [] h = cc
subscribed-delete n m (k ∷ ms) h = ground (arith, subscribed-delete n m ms)

pub subscribed-delete-false :
    (n m : ℕ) (ms : List ℕ) → subscribed n ms ≡ false → subscribed n (delete m ms) ≡ false
unfolding delete
subscribed-delete-false n m [] h = h
subscribed-delete-false n m (k ∷ ms) h = ground (arith, subscribed-delete-false n m ms)

pub delete-Distinct : (m : ℕ) (ms : List ℕ) → Distinct ms → Distinct (delete m ms)
unfolding delete
delete-Distinct m [] h = tt
delete-Distinct m (k ∷ ms) h = ground (arith, delete-Distinct m ms, subscribed-delete-false k m ms)

pub closed_no : (c : Channel) → not c.closed ≡ true → c.closed ≡ false
closed_no c h =
    elim (c.closed) as (λ b. not b ≡ true → b ≡ false) [ true ↦ λ k. cc | false ↦ λ k. refl ] h

-- A send into an open channel does not panic.
pub send_open :
    (e : Event) (n : ℕ) (cs : List Channel)
    → open_at n cs ≡ true
    → send e n cs ≡ some (at n (offer e) cs)
unfolding send
send_open e n cs h = elim (Option-cases (get_elem? cs n)) [
  | inl q ↦ absurd (true_ne_false (sym (rw q at h)))
  | inr (c, q) ↦ rw (q, closed_no c (rw q at h), send) refl
]

pub close_open :
    (n : ℕ) (cs : List Channel) → open_at n cs ≡ true → close n cs ≡ some (at n mark_closed cs)
unfolding close
close_open n cs h = elim (Option-cases (get_elem? cs n)) [
  | inl q ↦ absurd (true_ne_false (sym (rw q at h)))
  | inr (c, q) ↦ rw (q, closed_no c (rw q at h), close) refl
]

pub open_at-append :
    (n : ℕ) (cs ds : List Channel) → open_at n cs ≡ true → open_at n (cs ++ ds) ≡ true
open_at-append n [] ds h = cc
open_at-append zero (c ∷ cs) ds h = h
open_at-append (suc n) (c ∷ cs) ds h = open_at-append n cs ds h

pub open_at-last :
    (cs : List Channel) (c : Channel) → open_at (length cs) (cs ++ c ∷ []) ≡ not c.closed
open_at-last [] c = refl
open_at-last (d ∷ cs) c = open_at-last cs c

pub open_at-length : (cs : List Channel) → open_at (length cs) cs ≡ false
open_at-length [] = refl
open_at-length (c ∷ cs) = open_at-length cs
