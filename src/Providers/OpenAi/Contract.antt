-- ===== src/Providers/OpenAi/Contract.antt =====
-- What OpenAIProvider keeps of the contract of a provider.
use mellivor_kernel.Prelude.{
  ◌≤◌, String, ◌≡◌, ◌≢◌, ◌⊎◌, refl, subst, ◌&&◌, List, [], ◌∷◌, All, is_nil,
}
use mellivor_kernel.Python.{
  Payload, lit, is_empty_text, is_blank, is_blank_text, is_blank_piece, is_space, Exception, error,
  other_error, openai, provider_fault, response_fault, returned, raised, chain-Ends, chain-returned,
  returned-injective, if-Ends, Ends, Builtins,
}
use mellivor_kernel.Providers.Registry.{BaseProvider}
use mellivor_kernel.Providers.ToolCalling.{ToolCall, IsCall}
use mellivor_kernel.Providers.ChatCompletions.Refused.{
  IsFilled, messages_to_chat-Ends, tools_to_chat-Ends,
}
use mellivor_kernel.Providers.ChatCompletions.Parsed.{tool_calls_from_chat-Ends}
use mellivor_kernel.Providers.Factory.{ProviderConfiguration}
use mellivor_kernel.Providers.Vendor.{
  Answer, answered, errored, escaped, fault_of, max_tokens_of-Ends, IsPositive, text_or_empty,
}
use mellivor_kernel.Providers.Vendor.Contract.{
  Covers, covers-Admits, Explains, Converts, IsReadable, IsReadable-Covers, own-Covers, any-Covers,
  IsOwnError, KeepsContract, KeepsContract-Ends, GoesForward, transact-Ends, transact_once,
  transact_forward, of_sdk_error-Covers, IsReply, payload-IsReply,
}
use mellivor_kernel.Providers.OpenAi.{
  ChatRequest, Choice, Completion, Create, prepare, respond, first_choice, conclude, invoke,
  model_of, open_ai_provider,
}
use mellivor_kernel.Tools.Pipeline.{Timer}

-- A request that the API's documentation allows: some message, and a positive bound on tokens.
pub record IsChatRequest (model : String) (r : ChatRequest) : Type 0 where
  pub addressed : r.model ≡ model
  pub filled : IsFilled r.messages
  pub bounded : IsPositive r.max_tokens

module _ {py : Builtins} (Q : Exception → Type 0) (covers : Covers py openai Q) where
  prepare-Ends :
      (model : String) (request : Payload) → Ends (IsChatRequest model) Q (prepare py model request)
  unfolding prepare is_blank_text is_blank_piece is_blank is_space
  prepare-Ends model request =
      let fault = fault_of openai provider_fault in
      let admits = covers-Admits Q covers provider_fault in
      chain-Ends IsFilled (IsChatRequest model) Q _ _ (messages_to_chat-Ends py fault Q admits _ _)
        (λ messages filled.
          chain-Ends IsPositive (IsChatRequest model) Q _ _
            (max_tokens_of-Ends fault Q request (covers.own provider_fault _ refl))
            (λ n bounded.
              chain-Ends (λ t. Unit) (IsChatRequest model) Q _ _
                (tools_to_chat-Ends py fault Q admits _)
                (λ tools h. record { addressed = refl; filled = filled; bounded = bounded })))

  respond-Ends :
      (completion : Completion) (choice : Choice) (calls : List ToolCall)
      → All IsCall calls
      → Ends IsReply Q (respond py completion choice calls)
  unfolding respond is_blank_text is_blank_piece is_blank is_space
  respond-Ends completion choice calls h =
      let text = text_or_empty choice.content in
      if-Ends IsReply Q (is_empty_text text && is_nil calls) _ _
        (λ e. covers.own response_fault _ refl) (λ e. payload-IsReply text calls _ h e)

  first_choice-Ends :
      (completion : Completion) (choices : List Choice)
      → (choices ≡ [] → Q (error other_error (lit "list index out of range" ∷ [])))
      → Ends IsReply Q (first_choice py completion choices)
  first_choice-Ends completion [] h = h refl
  first_choice-Ends completion (choice ∷ _) h =
      chain-Ends (All IsCall) IsReply Q _ _
        (tool_calls_from_chat-Ends py (fault_of openai response_fault) Q
          (covers-Admits Q covers response_fault) choice.tool_calls)
        (respond-Ends completion choice)

  module _ {E : Type 0} (create : Create E)
      (foreign : (r : ChatRequest) (env : E) (e : Exception)
        → (create r env).0 ≡ errored (escaped e)
        → Q e)
      (empty : (r : ChatRequest) (env : E) (completion : Completion)
        → (create r env).0 ≡ answered completion
        → completion.choices ≡ []
        → Q (error other_error (lit "list index out of range" ∷ []))) where
    conclude-Ends :
        (r : ChatRequest) (env : E) (answer : Answer Completion)
        → (create r env).0 ≡ answer
        → Ends IsReply Q (conclude py answer)
    unfolding conclude is_blank is_space
    conclude-Ends r env (errored e) same =
        of_sdk_error-Covers Q covers "OpenAI" e refl
          (λ x is. foreign r env x (subst (λ y. (create r env).0 ≡ errored y) is same))
    conclude-Ends r env (answered completion) same =
        first_choice-Ends completion completion.choices (empty r env completion same)

    -- An invocation answers with calls that were constructed, and a text or a call; what it raises
    -- lies in each class that holds the provider's own errors and what escapes the client.
    pub invoke-Ends :
        (model : String) (request : Payload) (env : E)
        → Ends IsReply Q (invoke py create model request env).0
    unfolding invoke
    invoke-Ends model request env =
        transact-Ends create (conclude py) (IsChatRequest model) Q IsReply
          (prepare py model request) env (prepare-Ends model request)
          (λ r h. conclude-Ends r env (create r env).0 refl)

abbrev Any : Exception → Type 0
Any e = Unit

module _ {E : Type 0} (py : Builtins) (create : Create E) where
  -- The client is called at most once, and only with a request that the API allows: for the model of
  -- the configuration, with some message, and with a positive bound on tokens.
  pub invoke_requests :
      (model : String) (request : Payload) (env : E)
      → ((invoke py create model request env).1 ≡ env)
        ⊎ ((r : ChatRequest) × IsChatRequest model r
            × ((invoke py create model request env).1 ≡ (create r env).1))
  unfolding invoke
  invoke_requests model request env =
      transact_once create (conclude py) (IsChatRequest model) Any (prepare py model request) env
        (prepare-Ends Any (any-Covers py openai) model request)

  -- With a json module that converts, and a client that raises only its own package's errors and
  -- whose completions have a choice, an invocation raises only the provider's errors, or the error
  -- of the constructor of a tool call.
  pub invoke_errors :
      (model : String) (request : Payload) (env : E) (e : Exception)
      → Converts py
      → ((r : ChatRequest) (env' : E) (x : Exception) → (create r env').0 ≢ errored (escaped x))
      → ((r : ChatRequest) (env' : E) (completion : Completion)
          → (create r env').0 ≡ answered completion
          → completion.choices ≢ [])
      → (invoke py create model request env).0 ≡ raised e
      → IsOwnError openai e
  invoke_errors model request env e converts domestic chosen same =
      subst (Ends IsReply (IsOwnError openai)) same (
        invoke-Ends (IsOwnError openai) (own-Covers py openai converts) create
          (λ r env' x h. absurd (domestic r env' x h))
          (λ r env' completion h none_left. absurd (chosen r env' completion h none_left)) model
          request env)

  invoke_forward :
      (timer : Timer E)
      → GoesForward timer create
      → (model : String) (sent : Payload) (env : E)
      → (timer env).0 ≤ (timer (invoke py create model sent (timer env).1).1).0
  unfolding invoke
  invoke_forward timer forward model sent env =
      transact_forward timer create (conclude py) (prepare py model sent) env forward

  -- A provider that the constructor makes keeps the contract of a provider, on a client that has
  -- the timer go forward and explains what it raises: what `invoke` raises has a message, and what
  -- it answers carries calls that were constructed, and a text or a call.
  pub open_ai_provider-KeepsContract :
      (timer : Timer E) (c : ProviderConfiguration) (p : BaseProvider E)
      → Explains py
      → GoesForward timer create
      → ((r : ChatRequest) (env : E) (e : Exception)
          → (create r env).0 ≡ errored (escaped e)
          → IsReadable e)
      → open_ai_provider py create c ≡ returned p
      → KeepsContract timer p
  unfolding open_ai_provider is_blank_text
  open_ai_provider-KeepsContract timer c p explains forward readable made =
      let (model, chosen, same) = chain-returned (model_of c) _ p made in
      subst (KeepsContract timer) (returned-injective same) (
        KeepsContract-Ends timer _
          (invoke-Ends IsReadable (IsReadable-Covers py openai explains) create readable
            (λ r env completion h none_left. refl) model)
          (invoke_forward timer forward model))
