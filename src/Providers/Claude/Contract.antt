-- ===== src/Providers/Claude/Contract.antt =====
-- What ClaudeProvider keeps of the contract of a provider.
use mellivor_kernel.Prelude.{
  ◌≤◌, String, ◌≡◌, ◌≢◌, ◌⊎◌, refl, subst, not, ◌&&◌, ◌||◌, Option, none, some, List, [], ◌∷◌, All,
  is_nil,
}
use mellivor_kernel.Python.{
  Payload, Value, none_value, str, mapping, tool_spec, items, is_empty_text, is_blank,
  is_blank_text, is_blank_piece, is_space, Exception, claude, provider_fault, response_fault,
  returned, raised, returned-injective, chain-Ends, chain-returned, if-Ends, Ends, Builtins,
  as_sequence, get_value, is_word, is_none,
}
use mellivor_kernel.Tools.Pipeline.{Timer}
use mellivor_kernel.Providers.Registry.{BaseProvider}
use mellivor_kernel.Providers.ToolCalling.{ToolCall, IsCall, make_call}
use mellivor_kernel.Providers.ChatCompletions.{collect}
use mellivor_kernel.Providers.ChatCompletions.Refused.{IsFilled, collect-Ends, collect-IsFilled}
use mellivor_kernel.Providers.ChatCompletions.Parsed.{make_call-Ends}
use mellivor_kernel.Providers.Factory.{ProviderConfiguration}
use mellivor_kernel.Providers.Vendor.{
  Answer, answered, errored, escaped, max_tokens_of-Ends, IsPositive,
}
use mellivor_kernel.Providers.Vendor.Contract.{
  Covers, covers-Admits, Explains, Converts, IsReadable, IsReadable-Covers, own-Covers, any-Covers,
  IsOwnError, KeepsContract, KeepsContract-Ends, GoesForward, transact-Ends, transact_once,
  transact_forward, of_sdk_error-Covers, IsReply, payload-IsReply,
}
use mellivor_kernel.Providers.Claude.Messages.{
  request_error, tool_of, listed_tools, tools_from, block_of, to_block, listed_content,
  content_message, to_message, prompted, listed_messages, messages_from,
}
use mellivor_kernel.Providers.Claude.{
  MessageRequest, Message, Create, model_of, joined_text, tool_uses, system_of, respond, conclude,
  prepare, invoke, claude_provider,
}

abbrev Anything : {A : Type 0} → A → Type 0
Anything a = Unit

-- A request that the API's documentation allows: some message, and a positive bound on tokens.
pub record IsMessageRequest (model : String) (r : MessageRequest) : Type 0 where
  pub addressed : r.model ≡ model
  pub filled : IsFilled r.messages
  pub bounded : IsPositive r.max_tokens

module _ {py : Builtins} (Q : Exception → Type 0) (covers : Covers py claude Q) where
  block_of-Ends : (block : Payload) → Ends Anything Q (block_of py block)
  unfolding block_of is_blank_text is_blank_piece is_blank is_space
  block_of-Ends block =
      if-Ends Anything Q (is_word py "text" (get_value "type" block)) _ _ (λ e. tt)
        (λ e.
          if-Ends Anything Q (is_word py "tool_use" (get_value "type" block)) _ _ (λ e. tt)
            (λ e.
              if-Ends Anything Q (is_word py "tool_result" (get_value "type" block)) _ _ (λ e. tt)
                (λ e. covers.own provider_fault _ refl)))

  to_block-Ends : (v : Value) → Ends Anything Q (to_block py v)
  unfolding is_blank_text is_blank_piece is_blank is_space
  to_block-Ends (mapping _) = block_of-Ends _
  to_block-Ends _ = covers.own provider_fault _ refl

  listed_content-Ends :
      (role : Value) (o : Option (List Value)) → Ends Anything Q (listed_content py role o)
  unfolding is_blank_text is_blank_piece is_blank is_space
  listed_content-Ends role none = covers.own provider_fault _ refl
  listed_content-Ends role (some []) = covers.own provider_fault _ refl
  listed_content-Ends role (some (v ∷ vs)) =
      chain-Ends (All Anything) Anything Q (collect (to_block py) (v ∷ vs)) _
        (collect-Ends Anything Q (to_block py) (v ∷ vs) to_block-Ends) (λ blocks h. tt)

  content_message-Ends : (role content : Value) → Ends Anything Q (content_message py role content)
  unfolding is_blank_text is_blank_piece is_blank is_space
  content_message-Ends role (str text) =
      if-Ends Anything Q (is_blank_text text) _ _ (λ e. covers.own provider_fault _ refl) (λ e. tt)
  content_message-Ends role v = listed_content-Ends role (as_sequence v)

  to_message-Ends : (v : Value) → Ends Anything Q (to_message py v)
  unfolding to_message is_blank_text is_blank_piece is_blank is_space
  to_message-Ends (mapping entry) =
      let role = get_value "role" (items entry) in
      if-Ends Anything Q (not (is_word py "user" role || is_word py "assistant" role)) _ _
        (λ e. covers.own provider_fault _ refl)
        (λ e. content_message-Ends role (get_value "content" (items entry)))
  to_message-Ends _ = covers.own provider_fault _ refl

  prompted-Ends : (v : Value) → Ends IsFilled Q (prompted py v)
  unfolding is_blank_text is_blank_piece is_blank is_space
  prompted-Ends (str t) =
      if-Ends IsFilled Q (is_blank_text t) _ _ (λ e. covers.own provider_fault _ refl)
        (λ e. λ e'. cc)
  prompted-Ends _ = covers.own provider_fault _ refl

  listed_messages-Ends : (o : Option (List Value)) → Ends IsFilled Q (listed_messages py o)
  unfolding is_blank_text is_blank_piece is_blank is_space
  listed_messages-Ends none = covers.own provider_fault _ refl
  listed_messages-Ends (some []) = covers.own provider_fault _ refl
  listed_messages-Ends (some (v ∷ vs)) = collect-IsFilled Q (to_message py) v vs to_message-Ends

  messages_from-Ends : (request : Payload) → Ends IsFilled Q (messages_from py request)
  unfolding messages_from is_blank_text is_blank_piece is_blank is_space
  messages_from-Ends request =
      let prompt = get_value "prompt" request in
      let messages = get_value "messages" request in
      if-Ends IsFilled Q (not (is_none prompt) && not (is_none messages)) _ _
        (λ e. covers.own provider_fault _ refl)
        (λ e.
          if-Ends IsFilled Q (is_none messages) _ _ (λ e. prompted-Ends prompt)
            (λ e. listed_messages-Ends (as_sequence messages)))

  system_of-Ends : (v : Value) → Ends Anything Q (system_of v)
  unfolding is_blank_text is_blank_piece is_blank is_space
  system_of-Ends none_value = tt
  system_of-Ends (str t) = tt
  system_of-Ends _ = covers.own provider_fault _ refl

  tool_of-Ends : (v : Value) → Ends Anything Q (tool_of v)
  unfolding is_blank_text is_blank_piece is_blank is_space
  tool_of-Ends (tool_spec _ _ _) = tt
  tool_of-Ends _ = covers.own provider_fault _ refl

  listed_tools-Ends : (o : Option (List Value)) → Ends Anything Q (listed_tools o)
  unfolding is_blank_text is_blank_piece is_blank is_space
  listed_tools-Ends none = covers.own provider_fault _ refl
  listed_tools-Ends (some specs) =
      chain-Ends (All Anything) Anything Q (collect tool_of specs) _
        (collect-Ends Anything Q tool_of specs tool_of-Ends) (λ definitions h. tt)

  tools_from-Ends : (v : Value) → Ends Anything Q (tools_from v)
  unfolding tools_from
  tools_from-Ends none_value = tt
  tools_from-Ends v = listed_tools-Ends (as_sequence v)

  prepare-Ends :
      (model : String) (request : Payload)
      → Ends (IsMessageRequest model) Q (prepare py model request)
  unfolding prepare is_blank_text is_blank_piece is_blank is_space
  prepare-Ends model request =
      let system = get_value "system" request in
      chain-Ends IsFilled (IsMessageRequest model) Q _ _ (messages_from-Ends request)
        (λ messages filled.
          chain-Ends Anything (IsMessageRequest model) Q (system_of system) _
            (system_of-Ends system)
            (λ told _.
              chain-Ends IsPositive (IsMessageRequest model) Q _ _
                (max_tokens_of-Ends request_error Q request (covers.own provider_fault _ refl))
                (λ n bounded.
                  chain-Ends Anything (IsMessageRequest model) Q
                    (tools_from (get_value "tools" request)) _
                    (tools_from-Ends (get_value "tools" request))
                    (λ tools _. record { addressed = refl; filled = filled; bounded = bounded }))))

  respond-Ends :
      (message : Message) (calls : List ToolCall)
      → All IsCall calls
      → Ends IsReply Q (respond message calls)
  unfolding respond is_blank_text is_blank_piece is_blank is_space
  respond-Ends message calls h =
      let text = joined_text message.content in
      if-Ends IsReply Q (is_empty_text text && is_nil calls) _ _
        (λ e. covers.own response_fault _ refl) (λ e. payload-IsReply text calls _ h e)

  module _ {E : Type 0} (create : Create E)
      (foreign : (r : MessageRequest) (env : E) (e : Exception)
        → (create r env).0 ≡ errored (escaped e)
        → Q e) where
    conclude-Ends :
        (r : MessageRequest) (env : E) (answer : Answer Message)
        → (create r env).0 ≡ answer
        → Ends IsReply Q (conclude answer)
    unfolding conclude is_blank is_space
    conclude-Ends r env (errored e) same =
        of_sdk_error-Covers Q covers "Anthropic" e refl
          (λ x is. foreign r env x (subst (λ y. (create r env).0 ≡ errored y) is same))
    conclude-Ends r env (answered message) same =
        chain-Ends (All IsCall) IsReply Q (collect make_call (tool_uses message.content)) _
          (collect-Ends IsCall Q make_call (tool_uses message.content)
            (make_call-Ends py request_error Q (covers-Admits Q covers provider_fault)))
          (respond-Ends message)

    pub invoke-Ends :
        (model : String) (request : Payload) (env : E)
        → Ends IsReply Q (invoke py create model request env).0
    unfolding invoke
    invoke-Ends model request env =
        transact-Ends create conclude (IsMessageRequest model) Q IsReply (prepare py model request)
          env (prepare-Ends model request) (λ r h. conclude-Ends r env (create r env).0 refl)

abbrev Any : Exception → Type 0
Any e = Unit

module _ {E : Type 0} (py : Builtins) (create : Create E) where
  -- The client is called at most once, and only with a request that the API allows: for the model of
  -- the configuration, with some message, and with a positive bound on tokens.
  pub invoke_requests :
      (model : String) (request : Payload) (env : E)
      → ((invoke py create model request env).1 ≡ env)
        ⊎ ((r : MessageRequest) × IsMessageRequest model r
            × ((invoke py create model request env).1 ≡ (create r env).1))
  unfolding invoke
  invoke_requests model request env =
      transact_once create conclude (IsMessageRequest model) Any (prepare py model request) env
        (prepare-Ends Any (any-Covers py claude) model request)

  -- With a client that raises only its own package's errors, an invocation raises only the
  -- provider's errors, or the error of the constructor of a tool call.
  pub invoke_errors :
      (model : String) (request : Payload) (env : E) (e : Exception)
      → Converts py
      → ((r : MessageRequest) (env' : E) (x : Exception) → (create r env').0 ≢ errored (escaped x))
      → (invoke py create model request env).0 ≡ raised e
      → IsOwnError claude e
  invoke_errors model request env e converts domestic same =
      subst (Ends IsReply (IsOwnError claude)) same (
        invoke-Ends (IsOwnError claude) (own-Covers py claude converts) create
          (λ r env' x h. absurd (domestic r env' x h)) model request env)

  invoke_forward :
      (timer : Timer E)
      → GoesForward timer create
      → (model : String) (sent : Payload) (env : E)
      → (timer env).0 ≤ (timer (invoke py create model sent (timer env).1).1).0
  unfolding invoke
  invoke_forward timer forward model sent env =
      transact_forward timer create conclude (prepare py model sent) env forward

  -- A provider that the constructor makes keeps the contract of a provider, on a client that has
  -- the timer go forward and explains what it raises: what `invoke` raises has a message, and what
  -- it answers carries calls that were constructed, and a text or a call.
  pub claude_provider-KeepsContract :
      (timer : Timer E) (c : ProviderConfiguration) (p : BaseProvider E)
      → Explains py
      → GoesForward timer create
      → ((r : MessageRequest) (env : E) (e : Exception)
          → (create r env).0 ≡ errored (escaped e)
          → IsReadable e)
      → claude_provider py create c ≡ returned p
      → KeepsContract timer p
  unfolding claude_provider
  claude_provider-KeepsContract timer c p explains forward readable made =
      let (model, chosen, same) = chain-returned (model_of c) _ p made in
      subst (KeepsContract timer) (returned-injective same) (
        KeepsContract-Ends timer _
          (invoke-Ends IsReadable (IsReadable-Covers py claude explains) create readable model)
          (invoke_forward timer forward model))
