-- ===== src/Autoregressive/Tools.antt =====
-- The tool calls of backend/modeldeck/workers/autoregressive_worker.py: the history that a request
-- brings, the definitions and the choice of tools, and the calls that the model gives. Reading and
-- printing of JSON are arguments; error messages are left out.
pub mod Choice
pub mod History
use model_deck.Base.{
  String, Bool, true, false, not, ◌&&◌, ◌||◌, Option, none, some, List, [], ◌∷◌, any, is_none,
  if◌then◌else◌, str_eq,
}

-- A JSON value; the keys of an object differ.
mutual
  pub data Json : Type 0 where
    null : Json
    boolean : Bool → Json
    number text : String → Json
    array : Items → Json
    object : Fields → Json

  pub data Items : Type 0 where
    no_items : Items
    item : Json → Items → Items

  pub data Fields : Type 0 where
    no_fields : Fields
    field : String → Json → Fields → Fields

-- `get(key)`
abbrev pub get : String → Fields → Option Json
get key no_fields = none
get key (field k v fs) = if str_eq key k then some v else get key fs

-- `{**fields, key: value}`
abbrev pub set : String → Json → Fields → Fields
set key value no_fields = field key value no_fields
set key value (field k v fs) =
    let rest = set key value fs in if str_eq key k then field key value fs else field k v rest

-- the codes of ToolCallProtocolError
pub data ToolError : Type 0 where
  invalid_tool_history malformed_tool_arguments invalid_tool_definition : ToolError
  invalid_tool_choice tool_choice_not_honoured malformed_tool_call : ToolError

pub data Result (A : Type 0) : Type 0 where
  ok : A → Result A
  error : ToolError → Result A

abbrev pub as_text : Option Json → Option String
as_text (some (text s)) = some s
as_text _ = none

abbrev pub as_object : Option Json → Option Fields
as_object (some (object fs)) = some fs
as_object _ = none

abbrev pub text_is : String → Option Json → Bool
text_is s (some (text t)) = str_eq t s
text_is s _ = false

-- the function of a definition or a call: an object with a name
abbrev pub function_of : Fields → Option Fields
function_of fs = elim (as_object (get "function" fs)) [
  | none ↦ none
  | some function ↦ if is_none (as_text (get "name" function)) then none else some function
]

-- `json.loads`, and `json.dumps`
module _ (loads : String → Option Json) (dumps : Json → String) where
  -- the value of `arguments`: a text is read
  abbrev pub read_arguments : Option Json → Option Json
  read_arguments none = some (object no_fields)
  read_arguments (some (text s)) = loads s
  read_arguments (some j) = some j

  -- one call of a message's history
  unfoldable pub native_call : Json → Result Json
  native_call (object call) =
      if not (text_is "function" (get "type" call))
      then error invalid_tool_history
      else elim (function_of call) [
        | none ↦ error invalid_tool_history
        | some function ↦ elim (as_object (read_arguments (get "arguments" function))) [
          | none ↦ error malformed_tool_arguments
          | some arguments ↦
              ok (
                object (set "function" (object (set "arguments" (object arguments) function)) call))
        ]
      ]
  native_call _ = error invalid_tool_history

  unfoldable pub native_calls : List Json → Result (List Json)
  native_calls [] = ok []
  native_calls (c ∷ cs) =
      let rest = native_calls cs in
      elim (native_call c) [
        | error e ↦ error e
        | ok n ↦ elim rest [ error e ↦ error e | ok ns ↦ ok (n ∷ ns) ]
      ]

  abbrev pub native_message : Option (List Json) → Result (Option (List Json))
  native_message none = ok none
  native_message (some calls) = elim (native_calls calls) [
    | error e ↦ error e
    | ok ns ↦ ok (some ns)
  ]

  -- _qwen_chat_messages; of a message only its tool_calls
  unfoldable pub qwen_chat_messages : List (Option (List Json)) → Result (List (Option (List Json)))
  qwen_chat_messages [] = ok []
  qwen_chat_messages (m ∷ ms) =
      let rest = qwen_chat_messages ms in
      elim (native_message m) [
        | error e ↦ error e
        | ok n ↦ elim rest [ error e ↦ error e | ok ns ↦ ok (n ∷ ns) ]
      ]

  -- `arguments if isinstance(arguments, str) else json.dumps(arguments)`
  abbrev pub arguments_json : Option Json → String
  arguments_json none = dumps (object no_fields)
  arguments_json (some (text s)) = s
  arguments_json (some j) = dumps j

  abbrev pub call_document : String → String → String → Json
  call_document id name arguments = object (
      field "id" (text id) (
        field "type" (text "function") (
          field "function"
            (object (field "name" (text name) (field "arguments" (text arguments) no_fields)))
            no_fields)))

  -- _openai_tool_call, with the identifier that it makes
  unfoldable pub openai_tool_call : String → Json → Result Json
  openai_tool_call id (object call) = elim (as_text (get "name" call)) [
    | none ↦ error malformed_tool_call
    | some name ↦
        if is_none (loads (arguments_json (get "arguments" call)))
        then error malformed_tool_call
        else ok (call_document id name (arguments_json (get "arguments" call)))
  ]
  openai_tool_call id _ = error malformed_tool_call

-- _qwen_tool_schemas
unfoldable pub qwen_tool_schemas : List Json → Result (List Fields)
qwen_tool_schemas [] = ok []
qwen_tool_schemas (object tool ∷ ts) =
    let rest = qwen_tool_schemas ts in
    if not (text_is "function" (get "type" tool))
    then error invalid_tool_definition
    else elim (function_of tool) [
      | none ↦ error invalid_tool_definition
      | some function ↦ elim rest [ error e ↦ error e | ok fs ↦ ok (function ∷ fs) ]
    ]
qwen_tool_schemas (_ ∷ ts) = error invalid_tool_definition

-- `if not body.tools`
abbrev pub has_tools : Option (List Json) → Bool
has_tools none = false
has_tools (some []) = false
has_tools (some (t ∷ ts)) = true

abbrev pub tools_of : Option (List Json) → List Json
tools_of none = []
tools_of (some ts) = ts

abbrev pub is_mode : Json → Bool
is_mode (text s) = str_eq s "auto" || str_eq s "required" || str_eq s "none"
is_mode _ = false

-- `required_name`
abbrev pub required_name : Fields → Option Json
required_name choice = elim (as_object (get "function" choice)) [
  | none ↦ none
  | some function ↦ get "name" function
]

unfoldable pub check_choice : Option Json → Result Unit
check_choice none = ok tt
check_choice (some (object choice)) =
    if text_is "function" (get "type" choice) && not (is_none (as_text (required_name choice)))
    then ok tt
    else error invalid_tool_choice
check_choice (some j) = if is_mode j then ok tt else error invalid_tool_choice

-- The tools of a GenerationRequest, and its choice, where null is none.
pub record ToolRequest : Type 0 where
  pub tools : Option (List Json)
  pub tool_choice : Option Json

-- _validate_tool_request; the first argument is the result of _qwen_chat_messages
unfoldable pub validate_tool_request :
    Result (List (Option (List Json))) → ToolRequest → Result Unit
validate_tool_request (error e) body = error e
validate_tool_request (ok history) body =
    if not (has_tools body.tools)
    then (if is_none body.tool_choice then ok tt else error invalid_tool_choice)
    else elim (qwen_tool_schemas (tools_of body.tools)) [
      | error e ↦ error e
      | ok schemas ↦ check_choice body.tool_choice
    ]

-- `call["function"]["name"] != required_name`, for calls by their names
abbrev pub other_name : Option Json → String → Bool
other_name required name = not (text_is name required)

unfoldable pub check_calls : Option Json → List String → Result Unit
check_calls none calls = ok tt
check_calls (some (object choice)) [] = error tool_choice_not_honoured
check_calls (some (object choice)) (c ∷ cs) =
    if any (other_name (required_name choice)) (c ∷ cs)
    then error tool_choice_not_honoured
    else ok tt
check_calls (some (text mode)) [] =
    if str_eq mode "required" then error tool_choice_not_honoured else ok tt
check_calls (some (text mode)) (c ∷ cs) = ok tt
check_calls (some j) calls = ok tt

-- _enforce_tool_choice, for calls by their names
unfoldable pub enforce_tool_choice :
    Result (List (Option (List Json))) → ToolRequest → List String → Result Unit
enforce_tool_choice history body calls = elim (validate_tool_request history body) [
  | error e ↦ error e
  | ok u ↦ if not (has_tools body.tools) then ok tt else check_calls body.tool_choice calls
]
