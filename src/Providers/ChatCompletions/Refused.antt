-- ===== src/Providers/ChatCompletions/Refused.antt =====
-- What the translation to the Chat Completions shape returns and raises.
use mellivor_kernel.Prelude.{
  ◌≡◌, ◌≢◌, refl, true, false, not, ◌||◌, Option, none, some, List, [], ◌∷◌, ◌++◌, All, is_nil,
  concat,
}
use mellivor_kernel.Python.{
  Payload, Value, none_value, str, mapping, tool_spec, items, Text, lit, is_blank, is_blank_text,
  is_blank_piece, is_space, Exception, error, tool_calling_error, Result, returned, raised, Ends,
  if-Ends, Builtins, failed, as_mapping, as_sequence, get_value, is_word,
}
use mellivor_kernel.Providers.ChatCompletions.{
  ErrorFactory, Blocks, message_of, no_blocks, collect, gathered, tool_use_block, read_fields,
  read_block, read_blocks, message_of_blocks, blocks_message, listed_message, content_message,
  role_message, message_to_chat, with_system, system_message, opened, listed_to_chat,
  messages_to_chat, tool_of, tools_or_none, listed_tools, tools_to_chat,
}

-- A class of exceptions that holds what the code raises: by the error factory, by the constructor of
-- ToolCall, and by json.
pub record Admits (py : Builtins) (fault : ErrorFactory) (Q : Exception → Type 0) : Type 0 where
  pub made : (t : Text) → is_blank_text t ≡ false → Q (fault t)
  pub refused : (t : Text) → is_blank_text t ≡ false → Q (error tool_calling_error t)
  pub encoded : (p : Payload) (e : Exception) → py.dumps p ≡ raised e → Q e
  pub decoded : (t : Text) (e : Exception) → py.loads t ≡ failed e → Q e

abbrev pub IsFilled : {A : Type 0} → List A → Type 0
IsFilled xs = xs ≢ []

module _ {B : Type 0} (P : B → Type 0) (Q : Exception → Type 0) where
  gathered-Ends :
      (r : Result B) (later : Result (List B))
      → Ends P Q r
      → Ends (All P) Q later
      → Ends (All P) Q (gathered r later)
  gathered-Ends (raised e) later h k = h
  gathered-Ends (returned y) (raised e) h k = k
  gathered-Ends (returned y) (returned ys) h k = (h, k)

  pub collect-Ends :
      {A : Type 0} (f : A → Result B) (xs : List A)
      → ((x : A) → Ends P Q (f x))
      → Ends (All P) Q (collect f xs)
  unfolding collect
  collect-Ends f [] h = tt
  collect-Ends f (x ∷ xs) h = gathered-Ends (f x) (collect f xs) (h x) (collect-Ends f xs h)

pub collect-IsFilled :
    {A B : Type 0} (Q : Exception → Type 0) (f : A → Result B) (x : A) (xs : List A)
    → ((y : A) → Ends (λ b. Unit) Q (f y))
    → Ends IsFilled Q (collect f (x ∷ xs))
unfolding collect
collect-IsFilled {B = B} Q f x xs h =
    go (f x) (collect f xs) (h x) (collect-Ends (λ b. Unit) Q f xs h)
  where
    go :
        (r : Result B) (rs : Result (List B))
        → Ends (λ b. Unit) Q r
        → Ends (All (λ b. Unit)) Q rs
        → Ends IsFilled Q (gathered r rs)
    go (raised e) rs h k = h
    go (returned y) (raised e) h k = k
    go (returned y) (returned ys) h k = λ e. cc

abbrev Anything : {A : Type 0} → A → Type 0
Anything a = Unit

is_nil-IsFilled : {A : Type 0} (xs : List A) → not (is_nil xs) ≡ true → IsFilled xs
is_nil-IsFilled [] h = λ e. cc
is_nil-IsFilled (x ∷ xs) h = λ e. cc

append-IsFilled : {A : Type 0} (xs ys : List A) → IsFilled ys → IsFilled (xs ++ ys)
append-IsFilled [] ys h = h
append-IsFilled (x ∷ xs) ys h = λ e. cc

concat-IsFilled :
    {A : Type 0} (x : List A) (xs : List (List A))
    → All IsFilled (x ∷ xs)
    → IsFilled (concat (x ∷ xs))
concat-IsFilled [] xs h = λ e. h.0 refl
concat-IsFilled (a ∷ x) xs h = λ e. cc

module _ (py : Builtins) (fault : ErrorFactory) (Q : Exception → Type 0)
    (admits : Admits py fault Q) where
  tool_use_block-Ends :
      (block : Payload) (b : Blocks) (p : Payload) (r : Result Text)
      → py.dumps p ≡ r
      → Ends Anything Q (tool_use_block py fault block b r)
  tool_use_block-Ends block b p (raised e) h = admits.encoded p e h
  tool_use_block-Ends block b p (returned t) h = tt

  read_fields-Ends : (block : Payload) (b : Blocks) → Ends Anything Q (read_fields py fault block b)
  unfolding read_fields is_blank_text is_blank_piece is_blank is_space
  read_fields-Ends block b =
      if-Ends Anything Q (is_word py "text" (get_value "type" block)) _ _ (λ e. tt)
        (λ e.
          if-Ends Anything Q (is_word py "tool_use" (get_value "type" block)) _ _
            (λ e. tool_use_block-Ends block b _ _ refl)
            (λ e.
              if-Ends Anything Q (is_word py "tool_result" (get_value "type" block)) _ _ (λ e. tt)
                (λ e. admits.made _ refl)))

  read_blocks-Ends :
      (vs : List Value) (r : Result Blocks)
      → Ends Anything Q r
      → Ends Anything Q (read_blocks py fault vs r)
  unfolding read_blocks is_blank_text is_blank_piece is_blank is_space
  read_blocks-Ends [] (raised e) h = h
  read_blocks-Ends (v ∷ vs) (raised e) h = h
  read_blocks-Ends [] (returned b) h = tt
  read_blocks-Ends (v ∷ vs) (returned b) h =
      read_blocks-Ends vs (read_block py fault (as_mapping v) b) (block_Ends (as_mapping v))
    where
      block_Ends : (o : Option Payload) → Ends Anything Q (read_block py fault o b)
      block_Ends none = admits.made _ refl
      block_Ends (some block) = read_fields-Ends block b

  message_of_blocks-Ends :
      (role : Text) (b : Blocks) → Ends IsFilled Q (message_of_blocks py fault role b)
  unfolding message_of_blocks is_blank_text is_blank_piece is_blank is_space
  message_of_blocks-Ends role b =
      if-Ends IsFilled Q (not (is_nil b.tool_results)) _ _
        (λ e.
          if-Ends IsFilled Q
            (not (is_word py "user" (str role))
              || not (is_nil b.texts)
              || not (is_nil b.tool_calls))
            _ _ (λ e. admits.made _ refl) (λ _. is_nil-IsFilled b.tool_results e))
        (λ e.
          if-Ends IsFilled Q (not (is_nil b.tool_calls)) _ _
            (λ e.
              if-Ends IsFilled Q (not (is_word py "assistant" (str role))) _ _
                (λ e. admits.made _ refl) (λ e'. λ e''. cc))
            (λ e'. λ e''. cc))

  blocks_message-Ends :
      (role : Text) (r : Result Blocks)
      → Ends Anything Q r
      → Ends IsFilled Q (blocks_message py fault role r)
  blocks_message-Ends role (raised e) h = h
  blocks_message-Ends role (returned b) h = message_of_blocks-Ends role b

  listed_message-Ends :
      (role : Text) (o : Option (List Value)) → Ends IsFilled Q (listed_message py fault role o)
  unfolding is_blank_text is_blank_piece is_blank is_space
  listed_message-Ends role none = admits.made _ refl
  listed_message-Ends role (some []) = admits.made _ refl
  listed_message-Ends role (some (v ∷ vs)) =
      blocks_message-Ends role _ (read_blocks-Ends (v ∷ vs) (returned no_blocks) tt)

  content_message-Ends :
      (role : Text) (v : Value) → Ends IsFilled Q (content_message py fault role v)
  content_message-Ends role (str t) = λ e. cc
  content_message-Ends role v = listed_message-Ends role (as_sequence v)

  role_message-Ends :
      (role : Value) (entry : Payload) → Ends IsFilled Q (role_message py fault role entry)
  unfolding is_blank_text is_blank_piece is_blank is_space
  role_message-Ends (str role) entry =
      if-Ends IsFilled Q
        (is_word py "system" (str role)
          || is_word py "user" (str role)
          || is_word py "assistant" (str role))
        _ _ (λ e. content_message-Ends role (get_value "content" entry)) (λ e. admits.made _ refl)
  role_message-Ends _ entry = admits.made _ refl

  message_to_chat-Ends : (v : Value) → Ends IsFilled Q (message_to_chat py fault v)
  unfolding message_to_chat is_blank_text is_blank_piece is_blank is_space
  message_to_chat-Ends (mapping entry) =
      role_message-Ends (get_value "role" (items entry)) (items entry)
  message_to_chat-Ends _ = admits.made _ refl

  with_system-Ends :
      (system : List Payload) (v : Value) (vs : List Value)
      → Ends IsFilled Q (with_system py fault system (collect (message_to_chat py fault) (v ∷ vs)))
  unfolding collect
  with_system-Ends system v vs =
      go (message_to_chat py fault v) (collect (message_to_chat py fault) vs)
        (message_to_chat-Ends v)
        (collect-Ends IsFilled Q (message_to_chat py fault) vs message_to_chat-Ends)
    where
      go :
          (r : Result (List Payload)) (rs : Result (List (List Payload)))
          → Ends IsFilled Q r
          → Ends (All IsFilled) Q rs
          → Ends IsFilled Q (with_system py fault system (gathered r rs))
      go (raised e) rs h k = h
      go (returned m) (raised e) h k = k
      go (returned m) (returned ms) h k = append-IsFilled system _ (concat-IsFilled m ms (h, k))

  opened-Ends :
      (system v : Value) (vs : List Value)
      → Ends IsFilled Q (opened py fault (system_message py fault system) (v ∷ vs))
  unfolding is_blank_text is_blank_piece is_blank is_space
  opened-Ends none_value v vs = with_system-Ends [] v vs
  opened-Ends (str t) v vs = with_system-Ends (message_of (lit "system" ∷ []) (str t) ∷ []) v vs
  opened-Ends _ v vs = admits.made _ refl

  listed_to_chat-Ends :
      (o : Option (List Value)) (system : Value)
      → Ends IsFilled Q (listed_to_chat py fault o system)
  unfolding is_blank_text is_blank_piece is_blank is_space
  listed_to_chat-Ends none system = admits.made _ refl
  listed_to_chat-Ends (some []) system = admits.made _ refl
  listed_to_chat-Ends (some (v ∷ vs)) system = opened-Ends system v vs

  -- A translation has a message, and what is raised is the factory's, or json's.
  pub messages_to_chat-Ends :
      (messages system : Value) → Ends IsFilled Q (messages_to_chat py fault messages system)
  unfolding messages_to_chat
  messages_to_chat-Ends messages system = listed_to_chat-Ends (as_sequence messages) system

  tool_of-Ends : (v : Value) → Ends Anything Q (tool_of py fault v)
  unfolding is_blank_text is_blank_piece is_blank is_space
  tool_of-Ends (tool_spec _ _ _) = tt
  tool_of-Ends _ = admits.made _ refl

  tools_or_none-Ends :
      (r : Result (List Value))
      → Ends (All Anything) Q r
      → Ends Anything Q (tools_or_none py fault r)
  tools_or_none-Ends (raised e) h = h
  tools_or_none-Ends (returned []) h = tt
  tools_or_none-Ends (returned (v ∷ vs)) h = tt

  listed_tools-Ends : (o : Option (List Value)) → Ends Anything Q (listed_tools py fault o)
  unfolding is_blank_text is_blank_piece is_blank is_space
  listed_tools-Ends none = admits.made _ refl
  listed_tools-Ends (some specs) =
      tools_or_none-Ends _ (collect-Ends Anything Q (tool_of py fault) specs tool_of-Ends)

  pub tools_to_chat-Ends : (v : Value) → Ends Anything Q (tools_to_chat py fault v)
  unfolding tools_to_chat
  tools_to_chat-Ends none_value = tt
  tools_to_chat-Ends v = listed_tools-Ends (as_sequence v)
