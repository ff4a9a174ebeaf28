-- ===== src/Assistant/History.antt =====
-- Trimming a conversation to a budget of tokens: internal/assistant/history.go, on the messages of
-- internal/ai/ai.go. A JSON value is the bytes of its text.
pub mod Cuts
pub mod Trimmed
use firebin_api.Base.{
  ℕ, ◌+◌, ◌/◌, String, Bool, true, false, not, List, [], ◌∷◌, map, length, leb, if◌then◌else◌,
}
use firebin_api.Base.Bytes.{Bytes, codes, is_empty}

pub record ToolCall : Type 0 where
  pub id : Bytes
  pub name : Bytes
  pub input : Bytes

pub record ToolResult : Type 0 where
  pub call_id : Bytes
  pub name : Bytes
  pub content : Bytes
  pub is_error : Bool

pub record Message : Type 0 where
  pub role : Bytes
  pub text : Bytes
  pub tool_calls : List ToolCall
  pub tool_results : List ToolResult

-- The provider's Info().Local, none without a provider.
unfoldable pub budget_for : Bool → ℕ
budget_for local = if local then 4000 else 60000

abbrev pub stubbed_result : Bytes
stubbed_result =
    codes
      "[earlier result omitted to keep this conversation within the model's context; call the tool again if you need it]"

unfoldable pub calls_length : List ToolCall → ℕ
calls_length [] = 0
calls_length (c ∷ cs) = length c.name + length c.input + calls_length cs

unfoldable pub results_length : List ToolResult → ℕ
results_length [] = 0
results_length (r ∷ rs) = length r.name + length r.content + results_length rs

unfoldable pub estimate_tokens : Message → ℕ
unfolding calls_length results_length
estimate_tokens m =
    (length m.text + calls_length m.tool_calls + results_length m.tool_results) / 4 + 4

unfoldable pub total : List Message → ℕ
unfolding estimate_tokens
total [] = 0
total (m ∷ ms) = estimate_tokens m + total ms

abbrev pub has_results : Message → Bool
has_results m = not (is_empty m.tool_results)

unfoldable pub stub : ToolResult → ToolResult
stub r = record r { content = stubbed_result }

unfoldable pub stub_message : Message → Message
unfolding stub
stub_message m = record m { tool_results = map stub m.tool_results }

-- One message of stage one, from the end: `used` is what the messages after it took.
unfoldable pub stub_past : ℕ → ℕ → Message → Message
unfolding estimate_tokens stub_message
stub_past budget used m =
    if leb (used + estimate_tokens m) budget then m else if has_results m then stub_message m else m

-- Stage one: the bodies of old tool results are stubbed. `used` is the total of the stubbed rest.
unfoldable pub stub_old : ℕ → List Message → List Message
unfolding stub_past total
stub_old budget [] = []
stub_old budget (m ∷ ms) = let rest = stub_old budget ms in stub_past budget (total rest) m ∷ rest

-- Stage two: the messages from `start`, the end of the list that fits the budget.
unfoldable pub fitting : ℕ → List Message → List Message
unfolding total
fitting budget [] = []
fitting budget (m ∷ ms) =
    let rest = fitting budget ms in if leb (total (m ∷ ms)) budget then m ∷ ms else rest

-- Messages that carry tool results are not the first.
unfoldable pub skip_results : List Message → List Message
skip_results [] = []
skip_results (m ∷ ms) = if has_results m then skip_results ms else m ∷ ms

abbrev pub starts_with_results : List Message → Bool
starts_with_results [] = true
starts_with_results (m ∷ ms) = has_results m

-- The last message, and those before it up to one without tool results.
unfoldable pub last_turn : List Message → List Message
last_turn [] = []
last_turn (m ∷ ms) = let rest = last_turn ms in if starts_with_results rest then m ∷ ms else rest

abbrev pub or_else : List Message → List Message → List Message
or_else [] other = other
or_else (m ∷ ms) other = m ∷ ms

unfoldable pub drop_old : ℕ → List Message → List Message
unfolding fitting skip_results last_turn
drop_old budget ms = or_else (skip_results (fitting budget ms)) (last_turn ms)

unfoldable pub trim_stubbed : ℕ → List Message → List Message
unfolding drop_old total
trim_stubbed budget ms = if leb (total ms) budget then ms else drop_old budget ms

-- A budget that is not positive is 0.
unfoldable pub trim_history : List Message → ℕ → List Message
unfolding stub_old trim_stubbed total
trim_history history budget =
    if leb budget 0
    then history
    else if leb (total history) budget
    then history
    else trim_stubbed budget (stub_old budget history)
