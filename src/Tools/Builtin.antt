-- ===== src/Tools/Builtin.antt =====
-- src/tools.cpp: the two built-in tools. The clock, with `gmtime_r` and `strftime`, is a parameter.
use gemini_cpp.Base.{[], ◌∷◌, Option, none, some, bind_option}
use gemini_cpp.Base.Int.{ℤ}
use gemini_cpp.Base.Text.{Bytes, codes}
use gemini_cpp.Error.{Result, ok, err, ◌>>=◌, make_error, invalid_argument}
use gemini_cpp.Json.{FloatLib, JsonLib}
use gemini_cpp.Types.{FunctionDeclaration}
use gemini_cpp.Tools.{ToolHandler, ToolRegistry, add}
use gemini_cpp.Tools.Expression.{MathLib}
use gemini_cpp.Tools.Evaluate.{evaluate_expression}

module _ (F : FloatLib) (M : MathLib F.Double) (L : JsonLib F.Double) {W : Type 0}
    -- the time as text, and in seconds
    (now : W → Bytes × ℤ) where
  open L use {Json, string, integer, number, array, object}

  unfoldable pub time_tool : FunctionDeclaration Json
  time_tool = record {
    name = codes "get_current_time";
    description =
        codes "Returns the current UTC date and time in ISO-8601 format and as a Unix timestamp.";
    parameters = object [];
  }

  unfoldable pub get_current_time : ToolHandler L W
  get_current_time args w =
      let (utc, seconds) = now w in
      (ok (object ((codes "utc", string utc) ∷ (codes "unix", integer seconds) ∷ [])), w)

  unfoldable pub expression_tool : FunctionDeclaration Json
  expression_tool = record {
    name = codes "evaluate_expression";
    description =
        codes
          "Evaluates an arithmetic expression exactly as a calculator would. Supports + - * / % ^, parentheses, pi, e, sqrt, abs, sin, cos, tan, log, log10, exp, floor, ceil. Use this instead of doing arithmetic in your head.";
    parameters = object (
        (codes "type", string (codes "object"))
        ∷ (
          codes "properties",
          object (
              (
                codes "expression",
                object (
                    (codes "type", string (codes "string"))
                    ∷ (codes "description", string (codes "e.g. '(2^10 - 24) / 3'"))
                    ∷ []),
              )
              ∷ []),
        )
        ∷ (codes "required", array (string (codes "expression") ∷ []))
        ∷ []);
  }

  -- The handler on the argument, if it is a string.
  unfoldable pub answer_expression : Option Bytes → Result Json
  unfolding evaluate_expression
  answer_expression none =
      err (make_error invalid_argument (codes "missing string argument 'expression'"))
  answer_expression (some text) = do
    value ← evaluate_expression F M text
    ok (object ((codes "value", number value) ∷ []))

  unfoldable pub expression_handler : ToolHandler L W
  unfolding answer_expression
  expression_handler args w =
      (answer_expression (bind_option (L.find args (codes "expression")) L.as_string), w)

  unfoldable pub register_defaults : ToolRegistry L W → ToolRegistry L W
  unfolding add time_tool get_current_time expression_tool expression_handler
  register_defaults registry =
      add L W expression_tool expression_handler (add L W time_tool get_current_time registry)
