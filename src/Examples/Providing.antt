-- ===== src/Examples/Providing.antt =====
-- The theorems about the concrete providers, on clients that answer by a clock.
use mellivor_kernel.Prelude.{
  ℕ, suc, ◌+◌, pos, ◌≡◌, Bool, ◌⊎◌, refl, true, false, none, some, [], ◌∷◌, ltb, get, keys, arith,
  if◌then◌else◌,
}
use mellivor_kernel.Python.{
  Payload, Value, none_value, word, sequence, lit, malformed, local_endpoint, is_empty_text, error,
  vendor_error, response_fault, sorted, entries, items, as_fields, flat, is_word,
}
use mellivor_kernel.Tools.Pipeline.{Timer}
use mellivor_kernel.Providers.Factory.{ProviderConfiguration}
use mellivor_kernel.Providers.Registry.{BaseProvider}
use mellivor_kernel.Providers.ToolCalling.{dict_value, elements}
use mellivor_kernel.Providers.ChatCompletions.{
  message_of, messages_to_chat, message_to_chat, collect, tools_to_chat,
}
use mellivor_kernel.Providers.Vendor.{max_tokens_of, answered, errored, timed_out}
use mellivor_kernel.Providers.Vendor.Contract.{Explains, Converts, KeepsContract, IsOwnError}
use mellivor_kernel.Providers.OpenAi as OpenAi
use mellivor_kernel.Providers.OpenAi.Contract.{open_ai_provider-KeepsContract}
use mellivor_kernel.Providers.Claude as Claude
use mellivor_kernel.Providers.Claude.Contract as ClaudeContract
use mellivor_kernel.Providers.Claude.Contract.{IsMessageRequest}
use mellivor_kernel.Providers.Gemini as Gemini
use mellivor_kernel.Providers.Local as Local
use mellivor_kernel.Providers.Local.{LocalProvider}
use mellivor_kernel.Providers.Local.Answers.{normalize_response}
use mellivor_kernel.Providers.Local.Post.{
  LocalPost, Client, responded, post_timed_out, attempts_of, post, post_from,
}
use mellivor_kernel.Providers.Local.Retries.{IsPosted, post-IsPosted}
use mellivor_kernel.Providers.Local.Contract as LocalContract
use mellivor_kernel.Examples.Translating.{sample_builtins}

abbrev clock : Timer ℕ
clock now = (now, suc now)

sample-Explains : Explains sample_builtins
sample-Explains = record { encoding = λ p e h. cc; decoding = λ t e h. cc }

sample-Converts : Converts sample_builtins
sample-Converts = record { encodes = λ p e h. cc; decodes = λ t e h. cc }

abbrev greeting : Payload
greeting =
    ("messages", sequence (elements (dict_value (message_of (lit "user" ∷ []) (word "Hi")) ∷ [])))
    ∷ []

abbrev open_ai_client : OpenAi.Create ℕ
open_ai_client request now = (
  (if ltb now 5
      then errored (timed_out (lit "too slow" ∷ []))
      else answered (record {
        choices =
            (record {
              content = some (lit "Hello." ∷ []);
              tool_calls = none_value;
              finish_reason = word "stop";
            })
            ∷ [];
        model = lit "gpt" ∷ [];
        usage = none;
      })),
  now + 2,
)

abbrev configuration : ProviderConfiguration
configuration = record {
  provider_name = "openai";
  default_model = some "gpt";
  api_key = some "key";
  base_url = none;
  timeout = pos 30;
  max_retries = pos 2;
  extra = [];
}

abbrev open_ai : BaseProvider ℕ
open_ai = record {
  name = "openai";
  supports_tool_calls = true;
  invoke = OpenAi.invoke sample_builtins open_ai_client "gpt";
}

open_ai_provider-KeepsContract_example : KeepsContract clock open_ai
unfolding OpenAi.open_ai_provider is_empty_text
open_ai_provider-KeepsContract_example =
    open_ai_provider-KeepsContract sample_builtins open_ai_client clock configuration open_ai
      sample-Explains (record { waits = λ now. omega arith; answers = λ r now. omega arith })
      (λ r now e h. ground arith) refl

abbrev claude_client : Claude.Create ℕ
claude_client request now = (
  answered (record {
    content = Claude.text_content (lit "Hello." ∷ []) ∷ [];
    model = lit "claude" ∷ [];
    stop_reason = word "end_turn";
    input_tokens = pos 3;
    output_tokens = pos 2;
  }),
  now + 2,
)

invoke_requests_example :
    ((Claude.invoke sample_builtins claude_client "claude" greeting 7).1 ≡ 7)
    ⊎ ((r : Claude.MessageRequest) × IsMessageRequest "claude" r
        × ((Claude.invoke sample_builtins claude_client "claude" greeting 7).1
            ≡ (claude_client r 7).1))
invoke_requests_example =
    ClaudeContract.invoke_requests sample_builtins claude_client "claude" greeting 7

-- Gemini's client, which rejects the credentials at first.
abbrev gemini_client : Gemini.Generate ℕ
gemini_client request now = (
  (if ltb now 5
      then Gemini.api_error 401 (lit "no" ∷ [])
      else Gemini.replied (record {
        text = some (lit "Hello." ∷ []);
        candidates = record { finish_reason = some (lit "STOP" ∷ []) } ∷ [];
        block_reason = none;
        usage_metadata = none;
      })),
  now + 2,
)

abbrev any_list : Value → Bool
any_list v = true

-- It times out twice before it answers.
abbrev local_client : Client ℕ
local_client arguments now = (
  (if ltb now 2
      then post_timed_out
      else responded (record { status_code = 200; is_success = true; json = malformed })),
  suc now,
)

abbrev sample_post : LocalPost
sample_post = record {
  endpoint = lit "http://localhost/v1/chat/completions" ∷ [];
  json = [];
  headers = none;
}

post-IsPosted_example :
    IsPosted local_client sample_post 4 4 0
      (post local_client (attempts_of (pos 3)) sample_post 0).0
      (post local_client (attempts_of (pos 3)) sample_post 0).1
post-IsPosted_example = post-IsPosted local_client sample_post 3 0

abbrev local_endpoint_provider : LocalProvider
local_endpoint_provider = record {
  endpoint = lit "http://localhost/v1/chat/completions" ∷ [];
  model = "tiny";
  headers = none;
  max_retries = pos 3;
  supports_tool_calls = false;
}

-- The endpoint's answer is no JSON.
invoke_errors_example : IsOwnError local_endpoint (
    error
      (vendor_error local_endpoint response_fault)
      (lit "Local inference endpoint returned invalid JSON." ∷ []))
unfolding Local.invoke messages_to_chat message_to_chat collect max_tokens_of tools_to_chat post
    attempts_of post_from sorted entries elements items as_fields flat is_word get keys
    is_empty_text normalize_response Local.check_status Local.unknown_fields
invoke_errors_example =
    LocalContract.invoke_errors sample_builtins local_client local_endpoint_provider 3 greeting 0 _
      sample-Converts (λ arguments now x h. ground arith) (λ arguments now r x h h'. ground arith)
      refl refl
