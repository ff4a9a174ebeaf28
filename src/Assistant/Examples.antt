-- ===== src/Assistant/Examples.antt =====
-- A conversation that is over its budget.
use firebin_api.Base.{◌≡◌, refl, false, List, [], ◌∷◌, arith}
use firebin_api.Base.Bytes.{Bytes, codes}
use firebin_api.Assistant.History.{Message, trim_history}
use firebin_api.Assistant.History.Trimmed.{IsTrimmed, trim_history_lem}

abbrev says : Bytes → Bytes → Message
says who text = record { role = who; text = text; tool_calls = []; tool_results = [] }

abbrev asks : Message
asks = record {
  role = codes "assistant";
  text = [];
  tool_calls = record { id = codes "1"; name = codes "search_parts"; input = codes "{}" } ∷ [];
  tool_results = [];
}

abbrev answers : Message
answers = record {
  role = codes "user";
  text = [];
  tool_calls = [];
  tool_results =
      record {
        call_id = codes "1";
        name = codes "search_parts";
        content = codes "[1,2,3]";
        is_error = false;
      }
      ∷ [];
}

abbrev conversation : List Message
conversation =
    says (codes "user") (codes "Which resistors?")
    ∷ asks
    ∷ answers
    ∷ says (codes "assistant") (codes "Three.")
    ∷ []

-- The cut falls on the results, which go with the call that asked for them.
kept : trim_history conversation 14 ≡ says (codes "assistant") (codes "Three.") ∷ []
unfolding trim_history
kept = refl

trim_history_lem_example : IsTrimmed conversation 14 (trim_history conversation 14)
trim_history_lem_example = trim_history_lem conversation 14 (omega arith)
