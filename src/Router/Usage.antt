-- ===== src/Router/Usage.antt =====
-- The token usage that a response reports: _normalize_usage, _usage_from_body and _scan_sse_for_usage of
-- apps/router-server/src/llm_router/router.py. `json.loads` is the parameter `loads`; a reader that
-- raises is `none`.
pub mod Chunks
use llm_router_server_dashbo.Base.{
  ℕ, suc, zero, ◌+◌, ◌*◌, String, Bool, true, false, not, ◌&&◌, ◌||◌, Option, none, some, is_some,
  List, [], ◌∷◌, ◌++◌, length, ◌==◌, if◌then◌else◌, or_default, is_empty,
}
use llm_router_server_dashbo.Base.Dict.{Dict, lookup, insert}
use llm_router_server_dashbo.Base.Json.{
  Json, null, bool, num, real, str, list, dict, Fields, end, field, get, as_dict, is_truthy,
}
use llm_router_server_dashbo.Base.Bytes.{
  bytes_of, starts_with, contains, strip, equal_bytes, split, drop,
}

abbrev pub Bytes : Type 0
Bytes = List ℕ

abbrev pub extended : ℕ → Option (Bytes × Bytes) → Option (Bytes × Bytes)
extended c none = none
extended c (some (event, rest)) = some (c ∷ event, rest)

-- buffer.split(b"\n\n", 1), if b"\n\n" is in it
unfoldable pub split_event : Bytes → Option (Bytes × Bytes)
split_event [] = none
split_event (c ∷ []) = none
split_event (c ∷ d ∷ rest) =
    let later = extended c (split_event (d ∷ rest)) in
    if c == 10 && d == 10 then some ([], rest) else later

-- merged.update({k: v for k, v in u.items() if v is not None})
unfoldable pub merge_usage : Dict Json → Fields → Dict Json
merge_usage merged end = merged
merge_usage merged (field k null rest) = merge_usage merged rest
merge_usage merged (field k (bool b) rest) = merge_usage (insert k (bool b) merged) rest
merge_usage merged (field k (num n) rest) = merge_usage (insert k (num n) merged) rest
merge_usage merged (field k (real z r) rest) = merge_usage (insert k (real z r) merged) rest
merge_usage merged (field k (str s) rest) = merge_usage (insert k (str s) merged) rest
merge_usage merged (field k (list xs) rest) = merge_usage (insert k (list xs) merged) rest
merge_usage merged (field k (dict fs) rest) = merge_usage (insert k (dict fs) merged) rest

-- `captured["usage"]`
abbrev pub Captured : Type 0
Captured = Option (Dict Json)

-- One round of `for u in (...)`.
abbrev pub keep_usage : Option Fields → Captured → Captured
keep_usage none captured = captured
keep_usage (some u) captured = some (merge_usage (or_default captured []) u)

abbrev pub dict_at : String → Fields → Option Fields
dict_at k fs = elim (get k fs) [ none ↦ none | some v ↦ as_dict v ]

-- `obj.get("message") or {}`, and `none` for a value that has no `get`.
abbrev pub message_of : Option Json → Option Fields
message_of none = some end
message_of (some v) = if is_truthy v then as_dict v else some end

-- What a round of a loop leaves: the loop goes on, or an exception goes up.
pub data LineResult : Type 0 where
  more raised : Captured → LineResult

abbrev pub and_then : LineResult → (Captured → LineResult) → LineResult
and_then (more captured) f = f captured
and_then (raised captured) f = raised captured

-- Both halves of the tuple are evaluated before the first is kept.
abbrev pub on_object : Fields → Captured → LineResult
on_object obj captured = elim (message_of (get "message" obj)) [
  | none ↦ raised captured
  | some message ↦
      more (keep_usage (dict_at "usage" message) (keep_usage (dict_at "usage" obj) captured))
]

abbrev pub on_data : Option Json → Captured → LineResult
on_data none captured = more captured
on_data (some v) captured = elim (as_dict v) [
  | none ↦ more captured
  | some obj ↦ on_object obj captured
]

-- The rest of the buffer, `none` where an exception went up, and what is captured.
abbrev pub Scan : Type 0
Scan = Option Bytes × Captured

abbrev pub after_lines : (Bytes → Captured → Scan) → Bytes → LineResult → Scan
after_lines go_on rest (more captured) = go_on rest captured
after_lines go_on rest (raised captured) = (none, captured)

module _ (loads : Bytes → Option Json) where
  unfoldable pub handle_line : Bytes → Captured → LineResult
  handle_line raw captured =
      let line = strip raw in
      let payload = strip (drop 5 line) in
      if not (starts_with line (bytes_of "data:"))
      then more captured
      else if not (contains (bytes_of "\"usage\"") line)
      then more captured
      else if is_empty payload || equal_bytes payload (bytes_of "[DONE]")
      then more captured
      else on_data (loads payload) captured

  unfoldable pub handle_lines : List Bytes → Captured → LineResult
  handle_lines [] captured = more captured
  handle_lines (line ∷ rest) captured = and_then (handle_line line captured) (handle_lines rest)

  abbrev pub on_split : (Bytes → Captured → Scan) → Bytes → Captured → Option (Bytes × Bytes) → Scan
  on_split go_on buffer captured none = (some buffer, captured)
  on_split go_on buffer captured (some (event, rest)) =
      after_lines go_on rest (handle_lines (split 10 event) captured)

  -- The `while` loop on fuel. A buffer is longer than what is left behind its first event, so its length
  -- is enough.
  unfoldable pub scan_events : ℕ → Bytes → Captured → Scan
  scan_events zero buffer captured = (some buffer, captured)
  scan_events (suc fuel) buffer captured =
      on_split (scan_events fuel) buffer captured (split_event buffer)

  unfoldable pub scan_sse_for_usage : Bytes → Captured → Scan
  unfolding scan_events
  scan_sse_for_usage buffer captured = scan_events (suc (length buffer)) buffer captured

  abbrev pub next_chunk : Bytes → Scan → Scan
  next_chunk chunk (none, captured) = (none, captured)
  next_chunk chunk (some buffer, captured) = scan_sse_for_usage (buffer ++ chunk) captured

  -- The loop of `event_stream` over the chunks of the response.
  unfoldable pub event_stream : List Bytes → Scan → Scan
  event_stream [] state = state
  event_stream (chunk ∷ chunks) state = event_stream chunks (next_chunk chunk state)

-- k in d
abbrev pub has_key : String → Fields → Bool
has_key k fs = is_some (get k fs)

-- The value of `d.get(k)` where it is a count; `None` and a missing key are `none`.
abbrev pub count_at : Option Json → Option ℕ
count_at (some (num n)) = some n
count_at _ = none

-- The counts of one row of the request log.
pub record Tokens : Type 0 where
  pub prompt_tokens : Option ℕ
  pub completion_tokens : Option ℕ
  pub total_tokens : Option ℕ

-- (pt or 0) + (ct or 0) if (pt is not None or ct is not None) else None
abbrev pub add_counts : Option ℕ → Option ℕ → Option ℕ
add_counts none none = none
add_counts (some a) none = some a
add_counts none (some b) = some b
add_counts (some a) (some b) = some (a + b)

abbrev pub no_tokens : Tokens
no_tokens = record { prompt_tokens = none; completion_tokens = none; total_tokens = none }

-- `_normalize_usage(usage) or {}` and the three lookups of `_record_request`, of a block whose token counts
-- are natural numbers or missing.
unfoldable pub normalize_usage : Option Fields → Tokens
normalize_usage none = no_tokens
normalize_usage (some usage) =
    if has_key "prompt_tokens" usage
      || (has_key "completion_tokens" usage || has_key "total_tokens" usage)
    then record {
      prompt_tokens = count_at (get "prompt_tokens" usage);
      completion_tokens = count_at (get "completion_tokens" usage);
      total_tokens = count_at (get "total_tokens" usage);
    }
    else if has_key "input_tokens" usage || has_key "output_tokens" usage
    then record {
      prompt_tokens = count_at (get "input_tokens" usage);
      completion_tokens = count_at (get "output_tokens" usage);
      total_tokens =
          add_counts (count_at (get "input_tokens" usage)) (count_at (get "output_tokens" usage));
    }
    else no_tokens

abbrev pub is_none_value : Option Json → Bool
is_none_value none = true
is_none_value (some null) = true
is_none_value _ = false

abbrev pub usage_of_object : Fields → Option Fields
usage_of_object obj =
    if is_none_value (get "usage" obj) && has_key "input_tokens" obj
    then some obj
    else dict_at "usage" obj

-- json.loads(body) or {}
abbrev pub usage_of_value : Json → Option Fields
usage_of_value v =
    if is_truthy v
    then elim (as_dict v) [ none ↦ none | some obj ↦ usage_of_object obj ]
    else usage_of_object end

unfoldable pub usage_from_body : (Bytes → Option Json) → Option Bytes → Option Fields
usage_from_body loads none = none
usage_from_body loads (some body) = elim (loads body) [ none ↦ none | some v ↦ usage_of_value v ]
