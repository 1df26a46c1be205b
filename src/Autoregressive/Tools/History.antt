-- ===== src/Autoregressive/Tools/History.antt =====
-- A tool call of backend/modeldeck/workers/autoregressive_worker.py in the history of the next request.
use model_deck.Base.{
  ◌≡◌, refl, ap, ◌∙◌, inl, inr, String, Option, none, some, Bool-cases, Option-cases, is_none,
}
use model_deck.Autoregressive.Tools.{
  Json, null, boolean, number, text, array, object, Fields, no_fields, field, get, as_text,
  as_object, Result, ok, error, malformed_tool_arguments, read_arguments, native_call,
  arguments_json, call_document, openai_tool_call,
}

-- A call with its arguments as an object.
abbrev pub native_document : String → String → Fields → Json
native_document id name arguments = object (
    field "id" (text id) (
      field "type" (text "function") (
        field "function"
          (object (field "name" (text name) (field "arguments" (object arguments) no_fields)))
          no_fields)))

abbrev pub in_history : String → String → Option Fields → Result Json
in_history id name none = error malformed_tool_arguments
in_history id name (some arguments) = ok (native_document id name arguments)

-- The arguments that the model gives: none are an empty object.
abbrev pub value_of : Option Json → Json
value_of none = object no_fields
value_of (some j) = j

module _ (loads : String → Option Json) (dumps : Json → String) where
  native_call-document :
      (id name s : String)
      → native_call loads dumps (call_document loads dumps id name s)
        ≡ in_history id name (as_object (loads s))
  unfolding native_call
  native_call-document id name s = elim (Option-cases (as_object (loads s))) [
    | inl e ↦ simp (e, native_call)
    | inr (fs, e) ↦ simp (e, native_call)
  ]

  read-arguments_json :
      (a : Option Json)
      → loads (dumps (value_of a)) ≡ some (value_of a)
      → loads (arguments_json loads dumps a) ≡ read_arguments loads dumps a
  read-arguments_json none law = law
  read-arguments_json (some (text s)) law = refl
  read-arguments_json (some null) law = law
  read-arguments_json (some (boolean b)) law = law
  read-arguments_json (some (number s)) law = law
  read-arguments_json (some (array js)) law = law
  read-arguments_json (some (object fs)) law = law

  openai_tool_call-document :
      (id name : String) (call : Fields) (c : Json)
      → as_text (get "name" call) ≡ some name
      → openai_tool_call loads dumps id (object call) ≡ ok c
      → c ≡ call_document loads dumps id name (arguments_json loads dumps (get "arguments" call))
  unfolding openai_tool_call
  openai_tool_call-document id name call c n e =
      elim (Bool-cases (is_none (loads (arguments_json loads dumps (get "arguments" call))))) [
        | inl b ↦ absurd (cc (simp (n, b, openai_tool_call) at e))
        | inr b ↦ cc (simp (n, b, openai_tool_call) at e)
      ]

  -- Where the model's arguments, once printed, read back: a call that the worker answers with, sent back in the
  -- history of the next request, is the same call with its arguments as an object, if the model gave
  -- an object for them (itself or as a text); and else the worker refuses it as malformed, although
  -- it has made it.
  pub tool_call-history :
      (id name : String) (call : Fields) (c : Json)
      → loads (dumps (value_of (get "arguments" call))) ≡ some (value_of (get "arguments" call))
      → as_text (get "name" call) ≡ some name
      → openai_tool_call loads dumps id (object call) ≡ ok c
      → native_call loads dumps c
        ≡ in_history id name (as_object (read_arguments loads dumps (get "arguments" call)))
  tool_call-history id name call c law n e =
      ap (native_call loads dumps) (openai_tool_call-document id name call c n e)
      ∙ native_call-document id name (arguments_json loads dumps (get "arguments" call))
      ∙ ap (λ a. in_history id name (as_object a)) (read-arguments_json (get "arguments" call) law)
