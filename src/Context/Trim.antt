-- ===== src/Context/Trim.antt =====
-- context/approx-tokens.ts and context/trim.ts: the measure of texts and values, and their cuts.
use echocoding_harness.Common.{
  ℕ, ◌+◌, ◌-◌, ◌/◌, Bool, true, false, Option, none, some, ◌++◌, leb, if◌then◌else◌, length, take,
  drop, Text, units, decimal,
}
use echocoding_harness.Contracts.Value.{Value}
use echocoding_harness.Contracts.Error.{Outcome, ok, thrown}
use echocoding_harness.Contracts.Json.{stringify}

-- `Math.ceil(text.length / 4)`
unfoldable pub approx_tokens_for_text : Text → ℕ
approx_tokens_for_text text = (length text + 3) / 4

abbrev json_or_null : Outcome (Option Text) → Text
json_or_null (ok (some text)) = text
json_or_null (ok none) = units "null"
json_or_null (thrown _) = units "\"[unserializable]\""

unfoldable pub safe_json_stringify : Value → Text
safe_json_stringify value = json_or_null (stringify value)

unfoldable pub approx_tokens_for_value : Value → ℕ
unfolding approx_tokens_for_text safe_json_stringify
approx_tokens_for_value value = approx_tokens_for_text (safe_json_stringify value)

pub record TrimResult : Type 0 where
  pub text : Text
  pub truncated : Bool
  pub original_size : ℕ
  pub kept_size : ℕ

abbrev pub whole : Text → TrimResult
whole text = record {
  text = text;
  truncated = false;
  original_size = length text;
  kept_size = length text;
}

abbrev pub cut : Text → Text → TrimResult
cut text kept = record {
  text = kept;
  truncated = true;
  original_size = length text;
  kept_size = length kept;
}

unfoldable pub trim_head_tail : Text → ℕ → ℕ → TrimResult
trim_head_tail text head tail =
    if leb (length text) (head + tail)
    then whole text
    else cut text (
        take head text
        ++ (units "\n[... truncated "
            ++ decimal (length text - head - tail)
            ++ units " characters ...]\n")
        ++ drop (length text - tail) text)

-- The mark that follows the kept part.
abbrev pub limit_marker : ℕ → Text
limit_marker dropped = units "\n[... truncated " ++ decimal dropped ++ units " characters ...]"

unfoldable pub truncate_to_limit : Text → ℕ → TrimResult
truncate_to_limit text max_chars =
    if leb (length text) max_chars
    then whole text
    else cut text (take max_chars text ++ limit_marker (length text - max_chars))
