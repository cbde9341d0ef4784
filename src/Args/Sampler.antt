-- ===== src/Args/Sampler.antt =====
-- Modelfile lines, and the sampler, template and reasoning flags that they become, args.rs.
pub mod Laws
use localx_llama.Prelude.{
  ℕ, ◌||◌, Option, none, some, List, [], ◌∷◌, map, if◌then◌else◌, ◌==◌, unwrap_or, Result, err, ok,
  ◌>>=?◌,
}
use localx_llama.Text.{
  Text, codes, contains_text, is_blank, lower, split_at_whitespace, strip_prefix, trim, trim_start,
  ◌=ᵗ◌,
}
use localx_llama.Error.{CoreError, unknown_parser}
use localx_llama.Model.{Mode}
use mathlib.Core.Option

pub data ChatTemplateOverride : Type 0 where
  file : Text → ChatTemplateOverride
  inline : Text → ChatTemplateOverride

-- `match parser { "qwen3coder" | "qwen36" | "qwen36-think" => … }`
unfoldable pub parser_template_args : Text → List Text
parser_template_args parser =
    if contains_text (codes "qwen3coder" ∷ codes "qwen36" ∷ codes "qwen36-think" ∷ []) parser
    then codes "--jinja" ∷ []
    else []

unfoldable pub chat_template_args : Text → Option ChatTemplateOverride → List Text
chat_template_args parser (some (file p)) = codes "--chat-template-file" ∷ p ∷ []
chat_template_args parser (some (inline s)) = codes "--chat-template" ∷ s ∷ []
chat_template_args parser none = parser_template_args parser

unfoldable pub reasoning_args : Text → List Text
reasoning_args thinking_policy =
    let policy : Text = if is_blank thinking_policy then codes "strip" else thinking_policy in
    if policy =ᵗ codes "keep"
    then codes "--reasoning" ∷ codes "on" ∷ codes "--reasoning-format" ∷ codes "deepseek" ∷ []
    else codes "--reasoning"
      ∷ codes "off"
      ∷ codes "--reasoning-budget"
      ∷ codes "0"
      ∷ codes "--reasoning-format"
      ∷ codes "none"
      ∷ []

unfoldable pub constrained_decoding : Mode → Text
constrained_decoding mode = codes "json_schema"

abbrev pub qwen3coder_lines : List Text
qwen3coder_lines =
    codes "RENDERER qwen3-coder"
    ∷ codes "PARSER qwen3-coder"
    ∷ codes "PARAMETER temperature 0.7"
    ∷ codes "PARAMETER top_k 20"
    ∷ codes "PARAMETER top_p 0.8"
    ∷ codes "PARAMETER repeat_penalty 1.05"
    ∷ codes "PARAMETER stop \"<|im_end|>\""
    ∷ codes "PARAMETER stop \"<|im_start|>\""
    ∷ codes "PARAMETER stop \"<|endoftext|>\""
    ∷ []

abbrev pub qwen36_lines : List Text
qwen36_lines =
    codes "RENDERER qwen3-coder"
    ∷ codes "PARSER qwen3-coder"
    ∷ codes "PARAMETER temperature 0.7"
    ∷ codes "PARAMETER top_k 20"
    ∷ codes "PARAMETER top_p 0.8"
    ∷ codes "PARAMETER min_p 0"
    ∷ codes "PARAMETER presence_penalty 0"
    ∷ codes "PARAMETER repeat_penalty 1.05"
    ∷ codes "PARAMETER stop \"<|im_end|>\""
    ∷ codes "PARAMETER stop \"<|im_start|>\""
    ∷ []

abbrev pub qwen36_think_lines : List Text
qwen36_think_lines =
    codes "RENDERER qwen3-coder"
    ∷ codes "PARSER qwen3-coder"
    ∷ codes "PARAMETER temperature 0.6"
    ∷ codes "PARAMETER top_k 20"
    ∷ codes "PARAMETER top_p 0.95"
    ∷ codes "PARAMETER stop \"<|im_end|>\""
    ∷ codes "PARAMETER stop \"<|im_start|>\""
    ∷ []

unfoldable pub parser_lines : Text → Result CoreError (List Text)
parser_lines parser =
    if codes "none" =ᵗ parser
    then ok []
    else if codes "qwen3coder" =ᵗ parser
    then ok qwen3coder_lines
    else if codes "qwen36" =ᵗ parser
    then ok qwen36_lines
    else if codes "qwen36-think" =ᵗ parser
    then ok qwen36_think_lines
    else err (unknown_parser parser)

abbrev pub strict_modelfile_lines : List Text
strict_modelfile_lines =
    codes "PARAMETER temperature 0.2"
    ∷ codes "PARAMETER top_p 0.8"
    ∷ codes "PARAMETER top_k 20"
    ∷ codes "PARAMETER min_p 0.05"
    ∷ codes "PARAMETER presence_penalty 0"
    ∷ codes "PARAMETER repeat_penalty 1.15"
    ∷ codes "PARAMETER repeat_last_n 4096"
    ∷ codes "SYSTEM \"\"\""
    ∷ codes "You are a strict senior software engineer working inside a real repository."
    ∷ codes "\"\"\""
    ∷ []

-- A text without its last character, if that is `c`.
unfoldable pub strip_last : ℕ → Text → Option Text
strip_last c [] = none
strip_last c (x ∷ []) = if x == c then some [] else none
strip_last c (x ∷ y ∷ s) = Option.map (◌∷◌ x) (strip_last c (y ∷ s))

-- One layer of matching quotes is taken off.
unfoldable pub unquote : Text → Text
unfolding strip_last
unquote [] = []
unquote (c ∷ s) = if c == b'"' || c == b'\'' then unwrap_or (strip_last c s) (c ∷ s) else c ∷ s

-- The server's flag for a parameter, over the lower-case name.
unfoldable pub flag_of : Text → Option Text
flag_of name =
    if name =ᵗ codes "temperature"
    then some (codes "--temp")
    else if name =ᵗ codes "top_k"
    then some (codes "--top-k")
    else if name =ᵗ codes "top_p"
    then some (codes "--top-p")
    else if name =ᵗ codes "min_p"
    then some (codes "--min-p")
    else if name =ᵗ codes "repeat_penalty"
    then some (codes "--repeat-penalty")
    else if name =ᵗ codes "repeat_last_n"
    then some (codes "--repeat-last-n")
    else if name =ᵗ codes "presence_penalty"
    then some (codes "--presence-penalty")
    else if name =ᵗ codes "frequency_penalty"
    then some (codes "--frequency-penalty")
    else if name =ᵗ codes "tfs_z"
    then some (codes "--tfs")
    else if name =ᵗ codes "typical_p"
    then some (codes "--typical")
    else if name =ᵗ codes "mirostat"
    then some (codes "--mirostat")
    else if name =ᵗ codes "mirostat_tau"
    then some (codes "--mirostat-ent")
    else if name =ᵗ codes "mirostat_eta"
    then some (codes "--mirostat-lr")
    else if name =ᵗ codes "seed"
    then some (codes "--seed")
    else none

-- The body of the loop over the lines; `none` is `continue`.
unfoldable pub parameter_line : Text → Option (Text × Text)
parameter_line line = strip_prefix (codes "PARAMETER") (trim line) >>=? λ rest.
    split_at_whitespace (trim_start rest) >>=? λ (name, value).
    flag_of (lower name) >>=? λ flag. some (flag, unquote (trim value))

unfoldable pub ollama_parameter_args : List Text → List Text
ollama_parameter_args [] = []
ollama_parameter_args (line ∷ lines) =
    let more = ollama_parameter_args lines in
    elim (parameter_line line) [ none ↦ more | some (flag, value) ↦ flag ∷ (value ∷ more) ]

unfoldable pub strict_sampler_args : List Text
strict_sampler_args = ollama_parameter_args strict_modelfile_lines
