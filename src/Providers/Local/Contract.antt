-- ===== src/Providers/Local/Contract.antt =====
-- What LocalProvider keeps of the contract of a provider.
use mellivor_kernel.Prelude.{
  ℕ, ◌+◌, ◌≤◌, ℤ, pos, String, ◌≡◌, ◌≢◌, refl, sym, subst, false, ◌&&◌, ◌||◌, not, Option, none,
  some, List, [], ◌∷◌, All, is_nil, nat_eq, arith, keys,
}
use mellivor_kernel.Python.{
  Payload, Value, none_value, str, int, mapping, Text, is_empty_text, is_blank, is_blank_text,
  is_blank_piece, is_space, Exception, local_endpoint, provider_fault, authentication_fault,
  timeout_fault, connection_fault, response_fault, Result, raised, chain, chain-Ends, if-Ends, Ends,
  Builtins, Loaded, loaded, malformed, failed, as_sequence, get_value, get_or, word, as_fields,
  sorted,
}
use mellivor_kernel.Tools.Pipeline.{Timer}
use mellivor_kernel.Providers.ToolCalling.{ToolCall, IsCall}
use mellivor_kernel.Providers.ChatCompletions.Refused.{
  IsFilled, messages_to_chat-Ends, tools_to_chat-Ends,
}
use mellivor_kernel.Providers.ChatCompletions.Parsed.{tool_calls_from_chat-Ends}
use mellivor_kernel.Providers.Vendor.{max_tokens_of-Ends, IsPositive}
use mellivor_kernel.Providers.Vendor.Contract.{
  Covers, covers-Admits, Explains, Converts, IsReadable, IsReadable-Covers, own-Covers, IsOwnError,
  KeepsContract, KeepsContract-Ends, transact-Ends, transact_forward, IsReply, payload-IsReply,
}
use mellivor_kernel.Providers.Local.Retries.{verdict, post-IsPosted, Posts-outcome, Posts-forward}
use mellivor_kernel.Providers.Local.{
  LocalProvider, unknown_fields, arguments_of, post_body, prepare, check_status, conclude, invoke,
  local_provider, request_error,
}
use mellivor_kernel.Providers.Local.Answers.{
  Response, response_error, token_count, payload_of, choice_of, message_in, text_in, model_in,
  finish_reason_in, usage_in, metadata_of, said_of, normalize_response,
}
use mellivor_kernel.Providers.Local.Post.{
  LocalPost, Posted, responded, post_timed_out, transport_failed, broke, Client, attempts_of, post,
}

-- No claim on a result.
data Anything {A : Type 0} (a : A) : Type 0 where
  anything : Anything a

-- What the transport raises lies in the class, and so does what a response's `json` raises other than
-- ValueError.
pub record Transports {E : Type 0} (Q : Exception → Type 0) (client : Client E) : Type 0 where
  pub breaks :
      (arguments : LocalPost) (env : E) (e : Exception) → (client arguments env).0 ≡ broke e → Q e
  pub decodes :
      (arguments : LocalPost) (env : E) (r : Response) (e : Exception)
      → (client arguments env).0 ≡ responded r
      → r.json ≡ failed e
      → Q e

module _ {py : Builtins} (Q : Exception → Type 0) (covers : Covers py local_endpoint Q) where
  bad_response-Ends :
      {A : Type 0} (P : A → Type 0) (t : Text)
      → is_blank_text t ≡ false
      → Ends P Q (raised (response_error t))
  bad_response-Ends P t visible = covers.own response_fault t visible

  prepare-Ends :
      (provider : LocalProvider) (request : Payload) → Ends Anything Q (prepare py provider request)
  unfolding prepare is_blank_text is_blank_piece is_blank is_space
  prepare-Ends provider request =
      let admits = covers-Admits Q covers provider_fault in
      if-Ends Anything Q (not (is_nil (sorted (unknown_fields (keys request))))) _ _
        (λ e. covers.own provider_fault _ refl)
        (λ e.
          chain-Ends IsFilled Anything Q _ _ (messages_to_chat-Ends py request_error Q admits _ _)
            (λ messages filled.
              chain-Ends IsPositive Anything Q _ _
                (max_tokens_of-Ends request_error Q request (covers.own provider_fault _ refl))
                (λ n bounded.
                  chain-Ends (λ t. Unit) Anything Q _ _
                    (tools_to_chat-Ends py request_error Q admits _) (λ tools h. anything))))

  payload_of-Ends :
      (l : Loaded) → ((e : Exception) → l ≡ failed e → Q e) → Ends Anything Q (payload_of l)
  unfolding is_blank_text is_blank_piece is_blank is_space
  payload_of-Ends (loaded (mapping _)) h = anything
  payload_of-Ends (loaded _) h = covers.own response_fault _ refl
  payload_of-Ends malformed h = covers.own response_fault _ refl
  payload_of-Ends (failed e) h = h e refl

  choice_of-Ends : (o : Option (List Value)) → Ends Anything Q (choice_of o)
  unfolding is_blank_text is_blank_piece is_blank is_space
  choice_of-Ends none = covers.own response_fault _ refl
  choice_of-Ends (some []) = covers.own response_fault _ refl
  choice_of-Ends (some (mapping _ ∷ _)) = anything
  choice_of-Ends (some (_ ∷ _)) = covers.own response_fault _ refl

  message_in-Ends : (v : Value) → Ends Anything Q (message_in v)
  unfolding is_blank_text is_blank_piece is_blank is_space
  message_in-Ends (mapping _) = anything
  message_in-Ends _ = covers.own response_fault _ refl

  text_in-Ends : (v : Value) → Ends Anything Q (text_in v)
  unfolding is_blank_text is_blank_piece is_blank is_space
  text_in-Ends none_value = anything
  text_in-Ends (str t) = anything
  text_in-Ends _ = covers.own response_fault _ refl

  model_in-Ends : (v : Value) → Ends Anything Q (model_in v)
  unfolding is_blank_text is_blank_piece is_blank is_space
  model_in-Ends (str t) =
      if-Ends Anything Q (is_empty_text t) _ _ (λ e. covers.own response_fault _ refl)
        (λ e. anything)
  model_in-Ends _ = covers.own response_fault _ refl

  finish_reason_in-Ends : (v : Value) → Ends Anything Q (finish_reason_in v)
  unfolding is_blank_text is_blank_piece is_blank is_space
  finish_reason_in-Ends none_value = anything
  finish_reason_in-Ends (str t) = anything
  finish_reason_in-Ends _ = covers.own response_fault _ refl

  usage_in-Ends : (v : Value) → Ends Anything Q (usage_in v)
  unfolding is_blank_text is_blank_piece is_blank is_space
  usage_in-Ends none_value = anything
  usage_in-Ends (mapping _) = anything
  usage_in-Ends _ = covers.own response_fault _ refl

  token_count-Ends : (v : Value) (name : String) → Ends Anything Q (token_count v name)
  unfolding token_count is_blank_text is_blank_piece is_blank is_space
  token_count-Ends (int (pos n)) name = anything
  token_count-Ends _ name = covers.own response_fault _ refl

  chained :
      {A : Type 0} (r : Result A) (k : A → Result Payload)
      → Ends Anything Q r
      → ((a : A) → Ends Anything Q (k a))
      → Ends Anything Q (chain r k)
  chained r k h f = chain-Ends Anything Anything Q r k h (λ a _. f a)

  metadata_of-Ends : (payload choice : Payload) → Ends Anything Q (metadata_of payload choice)
  unfolding metadata_of
  metadata_of-Ends payload choice =
      let model_value = get_or "model" (word "") payload in
      let reason_value = get_value "finish_reason" choice in
      let usage_value = get_or "usage" (mapping (as_fields [])) payload in
      chained (model_in model_value) _ (model_in-Ends model_value) (λ model.
        chained (finish_reason_in reason_value) _ (finish_reason_in-Ends reason_value) (λ reason.
          chained (usage_in usage_value) _ (usage_in-Ends usage_value) (λ usage.
            let prompt_value = get_or "prompt_tokens" (int (pos 0)) usage in
            let completion_value = get_or "completion_tokens" (int (pos 0)) usage in
            chained (token_count prompt_value "prompt_tokens") _ (token_count-Ends prompt_value _)
              (λ prompt.
                chained (token_count completion_value "completion_tokens") _
                  (token_count-Ends completion_value _) (λ completion. anything)))))

  said_of-Ends :
      (payload choice : Payload) (text : Text) (calls : List ToolCall)
      → All IsCall calls
      → Ends IsReply Q (said_of payload choice text calls)
  unfolding said_of is_blank_text is_blank_piece is_blank is_space
  said_of-Ends payload choice text calls h =
      if-Ends IsReply Q (is_empty_text text && is_nil calls) _ _
        (λ e. covers.own response_fault _ refl)
        (λ e.
          chain-Ends Anything IsReply Q _ _ (metadata_of-Ends payload choice)
            (λ rest _. payload-IsReply text calls rest h e))

  replied :
      {A : Type 0} (r : Result A) (k : A → Result Payload)
      → Ends Anything Q r
      → ((a : A) → Ends IsReply Q (k a))
      → Ends IsReply Q (chain r k)
  replied r k h f = chain-Ends Anything IsReply Q r k h (λ a _. f a)

  normalize_response-Ends :
      (response : Response)
      → ((e : Exception) → response.json ≡ failed e → Q e)
      → Ends IsReply Q (normalize_response py response)
  unfolding normalize_response
  normalize_response-Ends response decoded =
      replied (payload_of response.json) _ (payload_of-Ends response.json decoded) (λ payload.
        let choices = as_sequence (get_value "choices" payload) in
        replied (choice_of choices) _ (choice_of-Ends choices) (λ choice.
          let message_value = get_value "message" choice in
          replied (message_in message_value) _ (message_in-Ends message_value) (λ message.
            let content = get_value "content" message in
            replied (text_in content) _ (text_in-Ends content) (λ text.
              chain-Ends (All IsCall) IsReply Q _ _
                (tool_calls_from_chat-Ends py response_error Q
                  (covers-Admits Q covers response_fault) (get_value "tool_calls" message))
                (λ calls h. said_of-Ends payload choice text calls h)))))

  check_status-Ends :
      (response : Response)
      → ((e : Exception) → response.json ≡ failed e → Q e)
      → Ends IsReply Q (check_status py response)
  unfolding check_status is_blank_text is_blank_piece is_blank is_space
  check_status-Ends response decoded =
      if-Ends IsReply Q (nat_eq response.status_code 401 || nat_eq response.status_code 403) _ _
        (λ e. covers.own authentication_fault _ refl)
        (λ e.
          if-Ends IsReply Q (not response.is_success) _ _ (λ e'. covers.own provider_fault _ refl)
            (λ e'. normalize_response-Ends response decoded))

  -- A response whose `json` raises what the class holds.
  abbrev IsDecoded : Response → Type 0
  IsDecoded r = (e : Exception) → r.json ≡ failed e → Q e

  module _ {E : Type 0} (client : Client E) (transports : Transports Q client) where
    verdict-Ends :
        (arguments : LocalPost) (attempts : ℕ) (p : Posted) (env : E)
        → (client arguments env).0 ≡ p
        → Ends IsDecoded Q (verdict attempts p)
    unfolding verdict is_blank_text is_blank_piece is_blank is_space
    verdict-Ends arguments attempts (responded r) env same =
        λ e. transports.decodes arguments env r e same
    verdict-Ends arguments attempts (broke e) env same = transports.breaks arguments env e same
    verdict-Ends arguments attempts post_timed_out env same = covers.own timeout_fault _ refl
    verdict-Ends arguments attempts transport_failed env same = covers.own connection_fault _ refl

    post-Ends :
        (arguments : LocalPost) (retries : ℤ) (max_retries : ℕ) (env : E)
        → retries ≡ pos max_retries
        → Ends IsDecoded Q (post client (attempts_of retries) arguments env).0
    post-Ends arguments retries max_retries env bound =
        let posted = post-IsPosted client arguments max_retries env in
        let (env', same) = Posts-outcome client arguments posted.posts in
        rw bound (
          subst (Ends IsDecoded Q) (sym posted.result)
            (verdict-Ends arguments (max_retries + 1) posted.outcome env' same))

    conclude-Ends : (r : Result Response) → Ends IsDecoded Q r → Ends IsReply Q (conclude py r)
    unfolding conclude
    conclude-Ends r h = chain-Ends IsDecoded IsReply Q r _ h check_status-Ends

    -- An invocation answers with calls that were constructed, and a text or a call; what it raises
    -- lies in each class that holds the provider's own errors and what the transport raises.
    pub invoke-Ends :
        (provider : LocalProvider) (max_retries : ℕ) (request : Payload) (env : E)
        → provider.max_retries ≡ pos max_retries
        → Ends IsReply Q (invoke py client provider request env).0
    unfolding invoke
    invoke-Ends provider max_retries request env bound =
        transact-Ends (post_body py client provider) (conclude py) Anything Q IsReply
          (prepare py provider request) env (prepare-Ends provider request)
          (λ body h.
            conclude-Ends _
              (post-Ends (arguments_of provider body) provider.max_retries max_retries env bound))

-- A timer that goes forward by itself and over each post.
pub record GoesOn {E : Type 0} (timer : Timer E) (client : Client E) : Type 0 where
  pub waits : (env : E) → (timer env).0 ≤ (timer (timer env).1).0
  pub posts : (arguments : LocalPost) (env : E) → (timer env).0 ≤ (timer (client arguments env).1).0

module _ {E : Type 0} (py : Builtins) (client : Client E) where
  -- With a json module that converts, and a transport that raises only its timeouts and its other
  -- transport errors, and whose responses hold a value or no JSON, an invocation with a bound on
  -- retries that is not negative raises only the provider's errors, or the error of the constructor
  -- of a tool call.
  pub invoke_errors :
      (provider : LocalProvider) (max_retries : ℕ) (request : Payload) (env : E) (e : Exception)
      → Converts py
      → ((arguments : LocalPost) (env' : E) (x : Exception) → (client arguments env').0 ≢ broke x)
      → ((arguments : LocalPost) (env' : E) (r : Response) (x : Exception)
          → (client arguments env').0 ≡ responded r
          → r.json ≢ failed x)
      → provider.max_retries ≡ pos max_retries
      → (invoke py client provider request env).0 ≡ raised e
      → IsOwnError local_endpoint e
  invoke_errors provider max_retries request env e converts domestic decoded bound same =
      subst (Ends IsReply (IsOwnError local_endpoint)) same (
        invoke-Ends (IsOwnError local_endpoint) (own-Covers py local_endpoint converts) client
          (record {
            breaks = λ arguments env' x h. absurd (domestic arguments env' x h);
            decodes = λ arguments env' r x h h'. absurd (decoded arguments env' r x h h');
          })
          provider max_retries request env bound)

  post-forward :
      (timer : Timer E) (arguments : LocalPost) (retries : ℤ) (max_retries : ℕ) (env : E)
      → GoesOn timer client
      → retries ≡ pos max_retries
      → (timer env).0 ≤ (timer (post client (attempts_of retries) arguments (timer env).1).1).0
  post-forward timer arguments retries max_retries env h bound =
      let posted = post-IsPosted client arguments max_retries (timer env).1 in
      rw bound (
        omega (
          arith,
          h.waits env,
          Posts-forward client arguments timer (h.posts arguments) posted.posts,
        ))

  invoke-forward :
      (timer : Timer E) (provider : LocalProvider) (max_retries : ℕ) (sent : Payload) (env : E)
      → GoesOn timer client
      → provider.max_retries ≡ pos max_retries
      → (timer env).0 ≤ (timer (invoke py client provider sent (timer env).1).1).0
  unfolding invoke
  invoke-forward timer provider max_retries sent env h bound =
      transact_forward timer (post_body py client provider) (conclude py) (prepare py provider sent)
        env
        (record {
          waits = h.waits;
          answers = λ body env'.
              post-forward timer (arguments_of provider body) provider.max_retries max_retries env'
                h bound;
        })

  -- A provider with a bound on retries that is not negative keeps the contract of a provider, on a
  -- transport that has the timer go forward and explains what it raises: what `invoke` raises has a
  -- message, and what it answers carries calls that were constructed, and a text or a call.
  pub local_provider-KeepsContract :
      (timer : Timer E) (provider : LocalProvider) (max_retries : ℕ)
      → Explains py
      → GoesOn timer client
      → Transports IsReadable client
      → provider.max_retries ≡ pos max_retries
      → KeepsContract timer (local_provider py client provider)
  unfolding local_provider
  local_provider-KeepsContract timer provider max_retries explains h transports bound =
      KeepsContract-Ends timer (local_provider py client provider)
        (λ sent env.
          invoke-Ends IsReadable (IsReadable-Covers py local_endpoint explains) client transports
            provider max_retries sent env bound)
        (λ sent env. invoke-forward timer provider max_retries sent env h bound)
