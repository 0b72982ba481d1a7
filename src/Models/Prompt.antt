-- ===== src/Models/Prompt.antt =====
-- The prompts of crates/models/src/llama/mod.rs and crates/models/src/phi3/mod.rs.
use decentralized_llm_infere.Base.{ite, List, [], ◌∷◌, ◌++◌, String, string_dec}
use decentralized_llm_infere.Protocol.OpenAi.{ChatCompletionRequest, Message, contents}
use decentralized_llm_infere.Models.{Text, chars}

-- What is written before a content, by the role of the message, and behind it.
pub record Template : Type 0 where
  pub system : Text
  pub user : Text
  pub assistant : Text
  pub end : Text

-- `prompt.push_str(&format!(…))` for the role; nothing for another role.
unfoldable pub push_content : Template → String → Text → Text → Text
push_content t role prompt content =
    ite (string_dec role "system") (prompt ++ t.system ++ content ++ t.end) (
      ite (string_dec role "user") (prompt ++ t.user ++ content ++ t.end)
        (ite (string_dec role "assistant") (prompt ++ t.assistant ++ content ++ t.end) prompt))

unfoldable pub push_contents : Template → String → Text → List Text → Text
push_contents t role prompt [] = prompt
push_contents t role prompt (c ∷ cs) = push_contents t role (push_content t role prompt c) cs

unfoldable pub push_messages : Template → Text → List Message → Text
push_messages t prompt [] = prompt
push_messages t prompt (m ∷ ms) =
    push_messages t (push_contents t m.role prompt (contents m.content)) ms

abbrev pub llama_template : Template
llama_template = record {
  system = chars "<|start_header_id|>system<|end_header_id|>\n";
  user = chars "<|start_header_id|>user<|end_header_id|>\n";
  assistant = chars "<|start_header_id|>assistant<|end_header_id|>\n";
  end = chars "<|eot_id|>";
}

abbrev pub phi3_template : Template
phi3_template = record {
  system = chars "<|system|>\n";
  user = chars "<|user|>\n";
  assistant = chars "<|assistant|>\n";
  end = chars "<|end|>";
}

unfoldable pub llama_prompt : {F : Type 0} → ChatCompletionRequest F → Text
llama_prompt request =
    push_messages llama_template (chars "<|begin_of_text|>") request.messages
    ++ chars "<|start_header_id|>assistant<|end_header_id|>"

unfoldable pub phi3_prompt : {F : Type 0} → ChatCompletionRequest F → Text
phi3_prompt request = push_messages phi3_template [] request.messages ++ chars "<|assistant|>\n"
