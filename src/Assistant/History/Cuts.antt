-- ===== src/Assistant/History/Cuts.antt =====
-- The ends of a conversation, and what stubbing and each cut do to it.
use firebin_api.Base.{
  ℕ, ◌≤◌, ◌≡◌, refl, sym, ap, ◌∙◌, ◌⊎◌, inl, inr, true, false, not, List, [], ◌∷◌, ◌++◌, map, leb,
  Bool-cases, All, arith, append_assoc, subst, true_ne_false,
}
use firebin_api.Base.Bytes.{is_empty}
use firebin_api.Assistant.History.{
  Message, total, has_results, stub, stub_message, stub_past, stub_old, fitting, skip_results,
  starts_with_results, last_turn,
}

-- The message itself, or the same with the bodies of its tool results replaced.
abbrev pub Stubbed : Message → Message → Type 0
Stubbed m m' = (m' ≡ m) ⊎ (m' ≡ stub_message m)

abbrev pub Each : List Message → List Message → Type 0
Each [] [] = Unit
Each [] (m' ∷ ms') = ⊥
Each (m ∷ ms) [] = ⊥
Each (m ∷ ms) (m' ∷ ms') = Stubbed m m' × Each ms ms'

-- The messages of `kept`, some of them stubbed, are the end of the history.
abbrev pub EndsWith : List Message → List Message → Type 0
EndsWith history kept =
    (before : List Message) × (end : List Message) × (history ≡ before ++ end) × Each end kept

abbrev pub rest_of : List Message → List Message
rest_of [] = []
rest_of (m ∷ ms) = ms

abbrev CarriesResults : Message → Type 0
CarriesResults m = has_results m ≡ true

-- Within the budget, or one message with those after it that carry results.
abbrev pub FitsOrTurn : ℕ → List Message → Type 0
FitsOrTurn budget ms = (total ms ≤ budget) ⊎ All CarriesResults (rest_of ms)

pub leb_le : (a b : ℕ) → leb a b ≡ true → a ≤ b
leb_le a b h = ground arith

pub cons-nil : {m : Message} {ms : List Message} → m ∷ ms ≡ [] → ⊥
cons-nil h = cc

pub Each-refl : (ms : List Message) → Each ms ms
Each-refl [] = tt
Each-refl (m ∷ ms) = (inl refl, Each-refl ms)

stub_past-Stubbed : (budget used : ℕ) (m : Message) → Stubbed m (stub_past budget used m)
unfolding stub_past
stub_past-Stubbed budget used m = ground arith

pub stub_old-Each : (budget : ℕ) (ms : List Message) → Each ms (stub_old budget ms)
unfolding stub_old
stub_old-Each budget [] = tt
stub_old-Each budget (m ∷ ms) =
    (stub_past-Stubbed budget (total (stub_old budget ms)) m, stub_old-Each budget ms)

stub_message-has_results : (m : Message) → has_results (stub_message m) ≡ has_results m
unfolding stub_message
stub_message-has_results m =
    elim (m.tool_results) as (λ rs. not (is_empty (map stub rs)) ≡ not (is_empty rs)) [
      | [] ↦ refl
      | r ∷ rs ↦ refl
    ]

pub Each-starts :
    (ms ms' : List Message) → Each ms ms' → starts_with_results ms' ≡ starts_with_results ms
Each-starts [] [] h = refl
Each-starts [] (m' ∷ ms') h = absurd h
Each-starts (m ∷ ms) [] h = absurd h
Each-starts (m ∷ ms) (m' ∷ ms') h = elim (h.0) [
  | inl e ↦ ap has_results e
  | inr e ↦ ap has_results e ∙ stub_message-has_results m
]

-- The end of a list.
abbrev pub IsEnd : List Message → List Message → Type 0
IsEnd end ms = (before : List Message) × (ms ≡ before ++ end)

cons-IsEnd : (m : Message) (end ms : List Message) → IsEnd end ms → IsEnd end (m ∷ ms)
cons-IsEnd m end ms (before, e) = (m ∷ before, ap (λ t. m ∷ t) e)

pub fitting-IsEnd : (budget : ℕ) (ms : List Message) → IsEnd (fitting budget ms) ms
unfolding fitting
fitting-IsEnd budget [] = ([], refl)
fitting-IsEnd budget (m ∷ ms) = elim (Bool-cases (leb (total (m ∷ ms)) budget)) [
  | inl e ↦ rw e ([], refl)
  | inr e ↦ rw e (cons-IsEnd m (fitting budget ms) ms (fitting-IsEnd budget ms))
]

pub skip_results-IsEnd : (ms : List Message) → IsEnd (skip_results ms) ms
unfolding skip_results
skip_results-IsEnd [] = ([], refl)
skip_results-IsEnd (m ∷ ms) = elim (Bool-cases (has_results m)) [
  | inl e ↦ rw e (cons-IsEnd m (skip_results ms) ms (skip_results-IsEnd ms))
  | inr e ↦ rw e ([], refl)
]

pub last_turn-IsEnd : (ms : List Message) → IsEnd (last_turn ms) ms
unfolding last_turn
last_turn-IsEnd [] = ([], refl)
last_turn-IsEnd (m ∷ ms) = elim (Bool-cases (starts_with_results (last_turn ms))) [
  | inl e ↦ rw e ([], refl)
  | inr e ↦ rw e (cons-IsEnd m (last_turn ms) ms (last_turn-IsEnd ms))
]

pub IsEnd-trans : (a b c : List Message) → IsEnd a b → IsEnd b c → IsEnd a c
IsEnd-trans a b c (x, e) (y, f) = (y ++ x, f ∙ ap (λ t. y ++ t) e ∙ sym (append_assoc y x a))

pub Each-IsEnd :
    (history ms end : List Message) (before : List Message)
    → Each history ms
    → ms ≡ before ++ end
    → EndsWith history end
Each-IsEnd history ms end [] h e = ([], history, refl, subst (Each history) e h)
Each-IsEnd [] [] end (b ∷ bs) h e = cc
Each-IsEnd [] (m' ∷ ms) end (b ∷ bs) h e = absurd h
Each-IsEnd (m ∷ history) [] end (b ∷ bs) h e = absurd h
Each-IsEnd (m ∷ history) (m' ∷ ms) end (b ∷ bs) h e =
    let (before, tail, f, each) = Each-IsEnd history ms end bs h.1 (cc) in
    (m ∷ before, tail, ap (λ t. m ∷ t) f, each)

pub fitting-le : (budget : ℕ) (ms : List Message) → total (fitting budget ms) ≤ budget
unfolding fitting total
fitting-le budget [] = omega arith
fitting-le budget (m ∷ ms) = ground (arith, fitting-le budget ms)

pub skip_results-le : (ms : List Message) → total (skip_results ms) ≤ total ms
unfolding skip_results total
skip_results-le [] = omega arith
skip_results-le (m ∷ ms) = ground (arith, skip_results-le ms)

pub skip_results-answered :
    (ms : List Message) → (skip_results ms ≡ []) ⊎ (starts_with_results (skip_results ms) ≡ false)
unfolding skip_results
skip_results-answered [] = inl refl
skip_results-answered (m ∷ ms) = ground (arith, skip_results-answered ms)

pub last_turn-answered :
    (ms : List Message)
    → starts_with_results ms ≡ false
    → starts_with_results (last_turn ms) ≡ false
unfolding last_turn
last_turn-answered [] h = h
last_turn-answered (m ∷ ms) h = ground (arith, h)

-- Where the last turn starts with results, every message carries results.
last_turn_all :
    (ms : List Message) → starts_with_results (last_turn ms) ≡ true → All CarriesResults ms
unfolding last_turn
last_turn_all [] h = tt
last_turn_all (m ∷ ms) h = elim (Bool-cases (starts_with_results (last_turn ms))) [
  | inl e ↦ (rw e at h, last_turn_all ms e)
  | inr e ↦ absurd (true_ne_false (sym (rw (e, last_turn) at h) ∙ e))
]

pub last_turn-rest : (ms : List Message) → All CarriesResults (rest_of (last_turn ms))
unfolding last_turn
last_turn-rest [] = tt
last_turn-rest (m ∷ ms) = elim (Bool-cases (starts_with_results (last_turn ms))) [
  | inl e ↦ rw e (last_turn_all ms e)
  | inr e ↦ rw e (last_turn-rest ms)
]
