-- ===== src/Tests/Sending.antt =====
-- Runs of the requests to the providers.
use cost_optimized_llm_infer.Common.{[], ◌∷◌, Text, codes, ℤ, ◌≡◌, refl, text_dec, same_text}
use cost_optimized_llm_infer.Types.{Message, ChatRequest}
use cost_optimized_llm_infer.Providers.Bodies.{system_prompt, anthropic_body}
use cost_optimized_llm_infer.Providers.Conversations.{system_first, anthropic_body-system_first}
use cost_optimized_llm_infer.Tests.Values.{millionths, request}
use cost_optimized_llm_infer.Tests.JsonValues.{Value, library, library_numbers}

newline : codes "\n" ≡ 10 ∷ []
newline = refl

abbrev says : Text → Text → Message
says role content = record { role = role; content = content }

abbrev talk : ChatRequest ℤ
talk = record request {
  messages =
      says (codes "user") (codes "hi")
      ∷ says (codes "system") (codes "be brief")
      ∷ says (codes "assistant") (codes "hello")
      ∷ says (codes "system") (codes "be kind")
      ∷ [];
}

prompt_lines : system_prompt talk.messages ≡ codes "be brief\nbe kind\n"
unfolding system_prompt same_text text_dec
prompt_lines = refl

anthropic_body-system_first_example :
    anthropic_body (record talk { messages = system_first talk.messages })
    ≡ anthropic_body {J = Value} talk
anthropic_body-system_first_example = anthropic_body-system_first talk
