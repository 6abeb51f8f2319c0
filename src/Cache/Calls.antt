-- ===== src/Cache/Calls.antt =====
-- The calls of the cache as data: all methods of the store in memory and all those of namespaces over
-- it. GetOrLoad reads and writes under two locks; with calls of others in between it is the sequence
-- of its Get, these calls and its Set.
use furtalk.Base.{ℕ, ◌+◌, Bool, Option, List, [], ◌∷◌}
use furtalk.Base.Assoc.{Key}
use furtalk.Domain.Entities.{Text}
use furtalk.Cache.{
  Outcome, Memory, set, delete, get, get_raw_json, atomic_consume, get_or_load,
  compare_and_swap_json, compare_and_delete_json,
}
use furtalk.Cache.Namespace.{
  Namespace, namespace_get, namespace_get_raw_json, namespace_set, namespace_delete,
  namespace_consume, namespace_compare_and_swap_json, namespace_compare_and_delete_json,
}

-- What a caller makes of the bytes of an entry: the text stands for its value.
abbrev pub Reader : Type 0
Reader = Text → Option Text

-- encoding/json: `json.Valid`, and the decoder of a string.
pub record Codec : Type 0 where
  pub is_json : Text → Bool
  pub string : Reader

-- `fetch` is Get and `read` is GetRawJSON. A value to be written comes encoded, or with no encoding.
-- `load` has the time that loading takes, the lifetime and what the loader returns.
pub data Call : Type 0 where
  fetch : Reader → Key → Call
  read erase consume : Key → Call
  store : Key → Option Text → ℕ → Call
  swap : Key → Text → Text → Call
  erase_if : Key → Text → Call
  load : Reader → Key → ℕ → ℕ → Outcome (Option Text) → Call
  fetch_in : Reader → Namespace → Text → Call
  read_in erase_in consume_in : Namespace → Text → Call
  store_in : Namespace → Text → Option Text → ℕ → Call
  swap_in : Namespace → Text → Text → Text → Call
  erase_if_in : Namespace → Text → Text → Call

-- A call, some time after the one before; its context is live or cancelled.
pub record Event : Type 0 where
  pub wait : ℕ
  pub live : Bool
  pub call : Call

abbrev pub lasting : Call → ℕ
lasting (load reader key extra ttl result) = extra
lasting call = 0

pub data Reply : Type 0 where
  nothing : Reply
  text : Text → Reply
  flag : Bool → Reply

abbrev pub Answer : Type 0
Answer = Outcome Reply

abbrev pub answer_of : {T : Type 0} → (T → Reply) → Outcome T → Answer
answer_of f (Outcome.fail e) = Outcome.fail e
answer_of f (Outcome.done x) = Outcome.done (f x)

abbrev pub reply_of : {T S : Type 0} → (T → Reply) → Outcome T × S → Answer × S
reply_of f r = (answer_of f r.0, r.1)

module _ (codec : Codec) where
  unfoldable pub run_call : ℕ → Bool → Call → Memory → Answer × Memory
  unfolding get get_raw_json delete atomic_consume set get_or_load compare_and_swap_json
      compare_and_delete_json namespace_get namespace_get_raw_json namespace_set namespace_delete
      namespace_consume namespace_compare_and_swap_json namespace_compare_and_delete_json
  run_call now live (fetch reader key) m = reply_of text (get reader live now key m)
  run_call now live (read key) m = reply_of text (get_raw_json live now key m)
  run_call now live (erase key) m = (Outcome.done nothing, delete key m)
  run_call now live (consume key) m = reply_of text (atomic_consume codec.string live now key m)
  run_call now live (store key value ttl) m = reply_of (λ _. nothing) (set value now key ttl m)
  run_call now live (swap key expected replacement) m =
      reply_of flag (compare_and_swap_json codec.is_json live now key expected replacement m)
  run_call now live (erase_if key expected) m =
      reply_of flag (compare_and_delete_json live now key expected m)
  run_call now live (load reader key extra ttl result) m =
      reply_of text (get_or_load reader live now (now + extra) key ttl result m)
  run_call now live (fetch_in reader ns suffix) m =
      reply_of text (namespace_get ns reader live now suffix m)
  run_call now live (read_in ns suffix) m =
      reply_of text (namespace_get_raw_json ns live now suffix m)
  run_call now live (erase_in ns suffix) m = reply_of (λ _. nothing) (namespace_delete ns suffix m)
  run_call now live (consume_in ns suffix) m =
      reply_of text (namespace_consume ns codec.string now suffix m)
  run_call now live (store_in ns suffix value ttl) m =
      reply_of (λ _. nothing) (namespace_set ns suffix value now ttl m)
  run_call now live (swap_in ns suffix expected replacement) m =
      reply_of flag
        (namespace_compare_and_swap_json ns codec.is_json live now suffix expected replacement m)
  run_call now live (erase_if_in ns suffix expected) m =
      reply_of flag (namespace_compare_and_delete_json ns live now suffix expected m)

  -- Calls one after the other.
  unfoldable pub run_calls : ℕ → List Event → Memory → List Answer × Memory
  run_calls now [] m = ([], m)
  run_calls now (e ∷ rest) m =
      let (answer, left) = run_call (now + e.wait) e.live e.call m in
      let (answers, last) = run_calls (now + e.wait + lasting e.call) rest left in
      (answer ∷ answers, last)
