-- ===== src/Autoregressive/Tools/Choice.antt =====
-- What _enforce_tool_choice of backend/modeldeck/workers/autoregressive_worker.py accepts.
use model_deck.Base.{
  ◌≡◌, refl, inl, inr, String, Bool, true, false, not, ◌&&◌, ◌||◌, Option, none, some, List, [],
  ◌∷◌, arith, all, any, is_none, Option-cases, if◌then◌else◌, str_eq, eq_iff,
}
use model_deck.Text.{member}
use model_deck.Autoregressive.Tools.{
  Json, null, boolean, number, text, array, object, get, text_is, function_of, as_text, as_object,
  Fields, required_name, Result, ok, error, qwen_tool_schemas, has_tools, tools_of, check_choice,
  ToolRequest, validate_tool_request, other_name, check_calls, enforce_tool_choice,
}

abbrev pub accepted : {A : Type 0} → Result A → Bool
accepted (ok a) = true
accepted (error e) = false

abbrev pub is_a_text : Option Json → Bool
is_a_text (some (text s)) = true
is_a_text _ = false

-- the text `s`
abbrev pub says : String → Option Json → Bool
says s (some (text t)) = str_eq s t
says s _ = false

-- An object whose name is a text, and one whose name is `s`.
abbrev pub has_a_name : Option Json → Bool
has_a_name (some (object function)) = is_a_text (get "name" function)
has_a_name _ = false

abbrev pub has_the_name : String → Option Json → Bool
has_the_name s (some (object function)) = says s (get "name" function)
has_the_name s _ = false

-- A function with a name.
abbrev pub defines_function : Json → Bool
defines_function (object tool) =
    says "function" (get "type" tool) && has_a_name (get "function" tool)
defines_function _ = false

abbrev pub modes : List String
modes = "none" ∷ "auto" ∷ "required" ∷ []

-- Nothing, a mode, or a function with a name.
abbrev pub is_choice : Option Json → Bool
is_choice none = true
is_choice (some (object choice)) =
    says "function" (get "type" choice) && has_a_name (get "function" choice)
is_choice (some (text mode)) = member mode modes
is_choice (some _) = false

abbrev pub well_formed : ToolRequest → Bool
well_formed body =
    if has_tools body.tools
    then all defines_function (tools_of body.tools) && is_choice body.tool_choice
    else is_none body.tool_choice

abbrev pub has_no_calls : List String → Bool
has_no_calls [] = true
has_no_calls (c ∷ cs) = false

-- `required` wants a call, and a named choice wants calls of that function only, and one at least.
abbrev pub honours : Option Json → List String → Bool
honours (some (text mode)) calls = not (str_eq mode "required" && has_no_calls calls)
honours (some (object choice)) calls =
    not (has_no_calls calls) && all (λ c. has_the_name c (get "function" choice)) calls
honours _ calls = true

text_is-says : (s : String) (j : Option Json) → text_is s j ≡ says s j
text_is-says s none = refl
text_is-says s (some (text t)) = ground (arith, eq_iff s t, eq_iff t s)
text_is-says s (some null) = refl
text_is-says s (some (boolean b)) = refl
text_is-says s (some (number n)) = refl
text_is-says s (some (array js)) = refl
text_is-says s (some (object fs)) = refl

as_text-a_text : (j : Option Json) → not (is_none (as_text j)) ≡ is_a_text j
as_text-a_text none = refl
as_text-a_text (some (text t)) = refl
as_text-a_text (some null) = refl
as_text-a_text (some (boolean b)) = refl
as_text-a_text (some (number n)) = refl
as_text-a_text (some (array js)) = refl
as_text-a_text (some (object fs)) = refl

function_of-has_a_name :
    (tool : Fields) → not (is_none (function_of tool)) ≡ has_a_name (get "function" tool)
function_of-has_a_name tool = go (get "function" tool)
  where
    go :
        (j : Option Json)
        → not (
            is_none (elim (as_object j) [
              | none ↦ none
              | some f ↦ if is_none (as_text (get "name" f)) then none else some f
            ]))
          ≡ has_a_name j
    go none = refl
    go (some (object f)) = ground (arith, as_text-a_text (get "name" f))
    go (some null) = refl
    go (some (boolean b)) = refl
    go (some (number n)) = refl
    go (some (array js)) = refl
    go (some (text s)) = refl

required_name-has_a_name :
    (choice : Fields)
    → not (is_none (as_text (required_name choice))) ≡ has_a_name (get "function" choice)
required_name-has_a_name choice = go (get "function" choice)
  where
    go :
        (j : Option Json)
        → not (is_none (as_text (elim (as_object j) [ none ↦ none | some f ↦ get "name" f ])))
          ≡ has_a_name j
    go none = refl
    go (some (object f)) = as_text-a_text (get "name" f)
    go (some null) = refl
    go (some (boolean b)) = refl
    go (some (number n)) = refl
    go (some (array js)) = refl
    go (some (text s)) = refl

required_name-has_the_name :
    (c : String) (choice : Fields)
    → text_is c (required_name choice) ≡ has_the_name c (get "function" choice)
required_name-has_the_name c choice = go (get "function" choice)
  where
    go :
        (j : Option Json)
        → text_is c (elim (as_object j) [ none ↦ none | some f ↦ get "name" f ]) ≡ has_the_name c j
    go none = refl
    go (some (object f)) = text_is-says c (get "name" f)
    go (some null) = refl
    go (some (boolean b)) = refl
    go (some (number n)) = refl
    go (some (array js)) = refl
    go (some (text s)) = refl

qwen_tool_schemas-accepted :
    (ts : List Json) → accepted (qwen_tool_schemas ts) ≡ all defines_function ts
unfolding qwen_tool_schemas
qwen_tool_schemas-accepted [] = refl
qwen_tool_schemas-accepted (object tool ∷ ts) =
    let typed = text_is-says "function" (get "type" tool) in
    let named = function_of-has_a_name tool in
    elim (Option-cases (function_of tool)) [
      | inl e ↦ ground (arith, e, typed, named, qwen_tool_schemas-accepted ts)
      | inr (f, e) ↦ ground (arith, e, typed, named, qwen_tool_schemas-accepted ts)
    ]
qwen_tool_schemas-accepted (null ∷ ts) = refl
qwen_tool_schemas-accepted (boolean b ∷ ts) = refl
qwen_tool_schemas-accepted (number n ∷ ts) = refl
qwen_tool_schemas-accepted (text n ∷ ts) = refl
qwen_tool_schemas-accepted (array js ∷ ts) = refl

none_other :
    (choice : Fields) (calls : List String)
    → not (any (other_name (required_name choice)) calls)
      ≡ all (λ c. has_the_name c (get "function" choice)) calls
none_other choice [] = refl
none_other choice (c ∷ cs) =
    ground (arith, none_other choice cs, required_name-has_the_name c choice)

check_calls-accepted :
    (choice : Option Json) (calls : List String)
    → accepted (check_calls choice calls) ≡ honours choice calls
unfolding check_calls
check_calls-accepted none calls = refl
check_calls-accepted (some (object choice)) [] = refl
check_calls-accepted (some (object choice)) (c ∷ cs) = ground (arith, none_other choice (c ∷ cs))
check_calls-accepted (some (text mode)) [] = ground arith
check_calls-accepted (some (text mode)) (c ∷ cs) = ground arith
check_calls-accepted (some null) calls = refl
check_calls-accepted (some (boolean b)) calls = refl
check_calls-accepted (some (number n)) calls = refl
check_calls-accepted (some (array js)) calls = refl

check_choice-accepted : (choice : Option Json) → accepted (check_choice choice) ≡ is_choice choice
unfolding check_choice
check_choice-accepted none = refl
check_choice-accepted (some (object choice)) =
    ground (arith, text_is-says "function" (get "type" choice), required_name-has_a_name choice)
check_choice-accepted (some (text mode)) = ground (
  arith,
  eq_iff mode "auto",
  eq_iff "auto" mode,
  eq_iff mode "required",
  eq_iff "required" mode,
  eq_iff mode "none",
  eq_iff "none" mode,
)
check_choice-accepted (some null) = refl
check_choice-accepted (some (boolean b)) = refl
check_choice-accepted (some (number n)) = refl
check_choice-accepted (some (array js)) = refl

validate_tool_request-accepted :
    (history : Result (List (Option (List Json)))) (body : ToolRequest)
    → accepted (validate_tool_request history body) ≡ (accepted history && well_formed body)
unfolding validate_tool_request
validate_tool_request-accepted (error e) body = refl
validate_tool_request-accepted (ok h) body = ground (
  arith,
  qwen_tool_schemas-accepted (tools_of body.tools),
  check_choice-accepted body.tool_choice,
)

-- A result is accepted exactly when the history of the request reads well, each tool is an object of the
-- type `function` whose function has a name, the choice is `auto`, `required` or `none`, or is such an
-- object itself, or is absent as it must be without tools, and, where there are tools, the calls honour
-- the choice: there is one for `required`, and for a named function there is one and all are of that
-- function.
pub enforce_tool_choice-accepted :
    (history : Result (List (Option (List Json)))) (body : ToolRequest) (calls : List String)
    → accepted (enforce_tool_choice history body calls) ≡ (
        accepted history
        && well_formed body
        && (not (has_tools body.tools) || honours body.tool_choice calls))
unfolding enforce_tool_choice
enforce_tool_choice-accepted history body calls = ground (
  arith,
  validate_tool_request-accepted history body,
  check_calls-accepted body.tool_choice calls,
)
