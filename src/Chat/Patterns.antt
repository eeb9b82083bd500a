-- ===== src/Chat/Patterns.antt =====
-- The patterns of the filter against prompt injection (ai/llm/chain.py).
use smart_stock_ai.Prelude.{List, [], ◌∷◌, ◌++◌, String}

abbrev pub instruction_override_patterns : List String
instruction_override_patterns =
    "ignore previous instructions" ∷ "ignore all previous instructions" ∷ "ignore all instructions"
    ∷ "ignore your instructions" ∷ "ignore above instructions" ∷ "ignore the above instructions"
    ∷ "disregard your instructions" ∷ "disregard your system prompt" ∷ "disregard all previous"
    ∷ "forget your instructions" ∷ "forget your rules" ∷ "forget all instructions"
    ∷ "override your instructions" ∷ "override your system prompt" ∷ "bypass your instructions"
    ∷ "bypass your rules" ∷ "new instructions" ∷ "new task" ∷ "updated instructions"
    ∷ "revised instructions" ∷ "override your programming" ∷ "override your guidelines"
    ∷ "override your rules" ∷ "override safety" ∷ "bypass safety" ∷ "bypass filters"
    ∷ "bypass content filter" ∷ "no restrictions" ∷ "without restrictions" ∷ "unrestricted mode"
    ∷ []

abbrev pub identity_manipulation_patterns : List String
identity_manipulation_patterns =
    "you are now" ∷ "you are chatgpt" ∷ "you are an ai" ∷ "you are not bound"
    ∷ "you have no restrictions" ∷ "you have no rules" ∷ "you can do anything" ∷ "you are free to"
    ∷ "act as" ∷ "pretend to be" ∷ "simulate being" ∷ "roleplay as" ∷ "role-play as"
    ∷ "imagine you are" ∷ "assume you are" ∷ "from now on" ∷ "starting now" ∷ "henceforth" ∷ []

abbrev pub prompt_extraction_patterns : List String
prompt_extraction_patterns =
    "repeat your system prompt" ∷ "repeat your instructions" ∷ "repeat your guidelines"
    ∷ "output your instructions" ∷ "print your instructions" ∷ "show your instructions"
    ∷ "what are your instructions" ∷ "what is your system prompt" ∷ "tell me your system prompt"
    ∷ "reveal your system prompt" ∷ "display your system prompt" ∷ "what were you told"
    ∷ "what rules do you follow" ∷ "what are your rules" ∷ "output your rules" ∷ "print your rules"
    ∷ "show your rules" ∷ "leak your prompt" ∷ "reveal your prompt" ∷ "expose your prompt" ∷ []

abbrev pub jailbreak_patterns : List String
jailbreak_patterns =
    "do anything now" ∷ "dan mode" ∷ "jailbreak" ∷ "developer mode" ∷ "debug mode" ∷ "admin mode"
    ∷ "god mode" ∷ "op mode" ∷ "dua lipa" ∷ "stan mode" ∷ "aim mode" ∷ "evil confidant"
    ∷ "unfiltered" ∷ "uncensored" ∷ "no moral" ∷ "amoral" ∷ "without ethics" ∷ "without morals" ∷ []

abbrev pub hidden_instruction_patterns : List String
hidden_instruction_patterns =
    "ignore this message" ∷ "disregard this message" ∷ "this is a test" ∷ "debug:"
    ∷ "system prompt:" ∷ "hidden instruction" ∷ "secret instruction" ∷ "internal instruction"
    ∷ "confidential instruction" ∷ []

abbrev pub multilingual_patterns : List String
multilingual_patterns =
    "ignorar instrucciones" ∷ "ignorer les instructions" ∷ "ignoriere Anweisungen"
    ∷ "ignora le istruzioni" ∷ "instruções anteriores" ∷ "ignorar instrucoes" ∷ "忽略之前的指令"
    ∷ "之前的指令を無視" ∷ "이전 지시 무시" ∷ []

unfoldable pub role_switching_patterns : List String
role_switching_patterns =
    "system:" ∷ "assistant:" ∷ "human:" ∷ "user:" ∷ "<|system|>" ∷ "<|assistant|>" ∷ "<|user|>"
    ∷ "[INST]" ∷ "[/INST]" ∷ "<<SYS>>" ∷ "<</SYS>>" ∷ []

-- The patterns that are looked for in a decoded segment, and those that are looked for everywhere.
abbrev pub decoded_patterns : List String
decoded_patterns =
    instruction_override_patterns
    ++ (identity_manipulation_patterns ++ (prompt_extraction_patterns ++ jailbreak_patterns))

unfoldable pub all_text_patterns : List String
all_text_patterns =
    instruction_override_patterns
    ++ (identity_manipulation_patterns
        ++ (prompt_extraction_patterns
            ++ (jailbreak_patterns ++ (hidden_instruction_patterns ++ multilingual_patterns))))
