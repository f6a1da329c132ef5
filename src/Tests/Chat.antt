-- ===== src/Tests/Chat.antt =====
-- src/chat.cpp with a model that calls a tool once.
use gemini_cpp.Base.{ℕ, false, ◌==◌, ◌+◌, [], ◌∷◌, Option, none, some, if◌then◌else◌}
use gemini_cpp.Base.Int.{ℤ, pos}
use gemini_cpp.Base.Text.{Bytes, codes}
use gemini_cpp.Error.{Result, ok}
use gemini_cpp.Types.{
  model, call, text_part, FunctionCall, FunctionResponse, Part, GenerateRequest, GenerateResponse,
  empty_response, no_usage,
}
use gemini_cpp.Json.Sample.{values, Value, null_value, int_value}
use gemini_cpp.Tools.{ToolRegistry}
use gemini_cpp.Chat.{ChatOptions, Session, send}
use gemini_cpp.Chat.History.{Sent, send-Sent}

abbrev answer_with : Part Value → GenerateResponse Value
answer_with p = record empty_response {
  candidates =
      record {
        content = record { role = model; parts = p ∷ [] };
        finish_reason = [];
        index = pos 0;
      }
      ∷ [];
}

abbrev call_part : Part Value
call_part = record {
  value = call (record { name = codes "add"; args = int_value (pos 2); id = codes "1" });
  thought = false;
  thought_signature = [];
}

abbrev ask : GenerateRequest Value ℤ → ℕ → Result (GenerateResponse Value) × ℕ
ask request w = (ok (answer_with (if w == 0 then call_part else text_part (codes "done"))), w + 1)

abbrev observer : FunctionCall Value → FunctionResponse Value → ℕ → Option Bytes × ℕ
observer c r w = (none, w)

abbrev options : ChatOptions Value ℤ
options = record {
  system_instruction = none;
  config = record {
    temperature = none;
    top_p = none;
    top_k = none;
    max_output_tokens = none;
    candidate_count = none;
    seed = none;
    thinking_budget = none;
    response_mime_type = none;
    response_schema = null_value;
    stop_sequences = [];
  };
  max_tool_rounds = pos 8;
}

abbrev tools : Option (ToolRegistry values ℕ)
tools = some (
    (
      record { name = codes "add"; description = []; parameters = null_value },
      λ args w. (ok args, w + 1),
    )
    ∷ [])

abbrev start : Session Value
start = record { history = []; usage = no_usage }

send-Sent_example :
    Sent values ask observer options tools
      (codes "hi")
      []
      (send values ask observer options tools (codes "hi") start 0)
send-Sent_example = send-Sent values ask observer options tools (codes "hi") start 0
