-- ===== src/Assistant/History/Trimmed.antt =====
-- What trimming a conversation keeps: its end, with the calls of its results, within the budget.
use firebin_api.Base.{
  ℕ, ◌<◌, ◌≡◌, refl, ◌∙◌, ◌⊎◌, inl, inr, false, List, [], ◌∷◌, leb, Bool-cases, arith,
}
use firebin_api.Assistant.History.{
  Message, total, stub_old, fitting, skip_results, starts_with_results, last_turn, or_else,
  drop_old, trim_stubbed, trim_history,
}
use firebin_api.Assistant.History.Cuts.{
  Each, EndsWith, FitsOrTurn, leb_le, cons-nil, Each-refl, stub_old-Each, Each-starts, IsEnd,
  fitting-IsEnd, skip_results-IsEnd, last_turn-IsEnd, IsEnd-trans, Each-IsEnd, fitting-le,
  skip_results-le, skip_results-answered, last_turn-answered, last_turn-rest,
}

pub record IsTrimmed (history : List Message) (budget : ℕ) (kept : List Message) : Type 0 where
  pub end : EndsWith history kept
  pub answered : starts_with_results history ≡ false → starts_with_results kept ≡ false
  pub fits : FitsOrTurn budget kept

skip_results-fitting-IsEnd :
    (budget : ℕ) (ms : List Message) → IsEnd (skip_results (fitting budget ms)) ms
skip_results-fitting-IsEnd budget ms =
    IsEnd-trans (skip_results (fitting budget ms)) (fitting budget ms) ms
      (skip_results-IsEnd (fitting budget ms)) (fitting-IsEnd budget ms)

-- What stage two keeps of a conversation.
abbrev KeepsEnd : ℕ → List Message → List Message → Type 0
KeepsEnd budget ms kept =
    IsEnd kept ms
    × (starts_with_results ms ≡ false → starts_with_results kept ≡ false)
    × FitsOrTurn budget kept

or_else-KeepsEnd :
    (budget : ℕ) (ms kept turn : List Message)
    → (kept ≡ []) ⊎ KeepsEnd budget ms kept
    → KeepsEnd budget ms turn
    → KeepsEnd budget ms (or_else kept turn)
or_else-KeepsEnd budget ms [] turn h k = k
or_else-KeepsEnd budget ms (m ∷ kept) turn h k = elim h [ inl e ↦ absurd (cons-nil e) | inr q ↦ q ]

drop_old-KeepsEnd : (budget : ℕ) (ms : List Message) → KeepsEnd budget ms (drop_old budget ms)
unfolding drop_old
drop_old-KeepsEnd budget ms =
    let kept = skip_results (fitting budget ms) in
    or_else-KeepsEnd budget ms kept (last_turn ms)
      (elim (skip_results-answered (fitting budget ms)) [
        | inl e ↦ inl e
        | inr e ↦ inr (
          skip_results-fitting-IsEnd budget ms,
          (λ h. e),
          inl (omega (arith, skip_results-le (fitting budget ms), fitting-le budget ms)),
        )
      ])
      (last_turn-IsEnd ms, last_turn-answered ms, inr (last_turn-rest ms))

trim_stubbed-KeepsEnd :
    (budget : ℕ) (ms : List Message) → KeepsEnd budget ms (trim_stubbed budget ms)
unfolding trim_stubbed
trim_stubbed-KeepsEnd budget ms = elim (Bool-cases (leb (total ms) budget)) [
  | inl e ↦ rw e (([], refl), (λ h. h), inl (leb_le (total ms) budget e))
  | inr e ↦ rw e (drop_old-KeepsEnd budget ms)
]

KeepsEnd-IsTrimmed :
    (history ms kept : List Message) (budget : ℕ)
    → Each history ms
    → KeepsEnd budget ms kept
    → IsTrimmed history budget kept
KeepsEnd-IsTrimmed history ms kept budget each ((before, e), answered, fits) = record {
  end = Each-IsEnd history ms kept before each e;
  answered = λ h. answered (Each-starts history ms each ∙ h);
  fits = fits;
}

-- For a positive budget, trimHistory keeps the end of the conversation, with the bodies of some tool
-- results replaced; where the conversation does not start with tool results, what is kept is not
-- empty and does not either; and it fits the budget or is one message followed by messages that all
-- carry tool results.
pub trim_history_lem :
    (history : List Message) (budget : ℕ)
    → 0 < budget
    → IsTrimmed history budget (trim_history history budget)
unfolding trim_history
trim_history_lem history budget pos = elim (Bool-cases (leb budget 0)) [
  | inl e ↦ absurd (omega (arith, pos, leb_le budget 0 e))
  | inr e ↦ elim (Bool-cases (leb (total history) budget)) [
    | inl q ↦
        rw (e, q)
          (KeepsEnd-IsTrimmed history history history budget (Each-refl history)
            (([], refl), (λ h. h), inl (leb_le (total history) budget q)))
    | inr q ↦
        rw (e, q)
          (KeepsEnd-IsTrimmed history (stub_old budget history)
            (trim_stubbed budget (stub_old budget history)) budget (stub_old-Each budget history)
            (trim_stubbed-KeepsEnd budget (stub_old budget history)))
  ]
]
