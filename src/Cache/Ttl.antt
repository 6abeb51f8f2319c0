-- ===== src/Cache/Ttl.antt =====
-- What a cache is for: a map in which each key has the value written last, until its time is over,
-- its removal or its consumption. It has no bound, no eviction and no namespaces, and nothing is
-- taken out of it when it expires: a read compares times.
use furtalk.Base.{
  ℕ, ◌+◌, Bool, true, false, not, ◌&&◌, Option, none, some, List, [], ◌∷◌, if◌then◌else◌,
}
use furtalk.Base.Equality.{◌==◌, text_eq, nat_eq}
use furtalk.Base.Assoc.{Key, only}
use furtalk.Domain.Entities.{Text}
use furtalk.Cache.{
  Outcome, Item, not_found, capacity, encoding, invalid_json, invalid_namespace, invalid_ttl,
  loading, cancelled, is_live, decoded,
}
use furtalk.Cache.Namespace.{Namespace, is_valid, key_in}
use furtalk.Cache.Calls.{
  Reader, Codec, Call, fetch, read, erase, consume, store, swap, erase_if, load, fetch_in, read_in,
  erase_in, consume_in, store_in, swap_in, erase_if_in, Event, lasting, nothing, text, flag, Answer,
  answer_of,
}

-- The last value written for each key, with the time at which it expires.
abbrev pub TtlMap : Type 0
TtlMap = Key → Option Item

abbrev pub current : ℕ → Key → TtlMap → Option Item
current now key a = only (is_live now) (a key)

abbrev pub assign : Key → Option Item → TtlMap → TtlMap
assign key value a k = if key == k then value else a k

-- What a value is read as: its bytes, or what the reader decodes.
abbrev pub raw : Text → Answer
raw content = Outcome.done (text content)

abbrev pub read_by : Reader → Text → Answer
read_by reader content = answer_of text (decoded reader content)

-- An answer that finds nothing, and one that takes a value and what becomes of the map.
abbrev pub found : (Text → Answer) → Option Item → TtlMap → TtlMap → Answer × TtlMap
found how none a left = (Outcome.fail not_found, a)
found how (some item) a left = (how item.content, left)

abbrev pub erased_if : Text → Option Item → TtlMap → TtlMap → Answer × TtlMap
erased_if expected none a left = (Outcome.done (flag false), a)
erased_if expected (some item) a left =
    if item.content == expected
    then (Outcome.done (flag true), left)
    else (Outcome.done (flag false), a)

abbrev pub in_valid : Namespace → TtlMap → Answer × TtlMap → Answer × TtlMap
in_valid ns a r = if is_valid ns then r else (Outcome.fail invalid_namespace, a)

-- A call whose context is cancelled does nothing.
abbrev pub if_live : Bool → TtlMap → Answer × TtlMap → Answer × TtlMap
if_live false a r = (Outcome.fail cancelled, a)
if_live true a r = r

abbrev pub valued : Text → ℕ → Item
valued content expires = record { content = content; expires = expires }

-- A write takes place unless the cache refuses it, which its answer says.
abbrev pub stored : Answer → Key → Text → ℕ → TtlMap → Answer × TtlMap
stored (Outcome.fail e) key content expires a = (Outcome.fail e, a)
stored (Outcome.done r) key content expires a =
    (Outcome.done nothing, assign key (some (valued content expires)) a)

abbrev pub is_refusal : Answer → Bool
is_refusal (Outcome.fail capacity) = true
is_refusal _ = false

-- A value that is there is read; if there is none, it is loaded, written unless the cache refuses,
-- and read.
abbrev pub reloaded :
    Answer → Reader → Key → ℕ → Outcome (Option Text) → Option Item → TtlMap → Answer × TtlMap
reloaded answer reader key expires result (some item) a = (read_by reader item.content, a)
reloaded answer reader key expires (Outcome.fail e) none a = (Outcome.fail loading, a)
reloaded answer reader key expires (Outcome.done none) none a = (Outcome.fail encoding, a)
reloaded answer reader key expires (Outcome.done (some content)) none a =
    if is_refusal answer
    then (Outcome.fail capacity, a)
    else (read_by reader content, assign key (some (valued content expires)) a)

module _ (codec : Codec) where
  abbrev pub swapped : Key → Text → Text → Option Item → TtlMap → Answer × TtlMap
  swapped key expected replacement none a = (Outcome.done (flag false), a)
  swapped key expected replacement (some item) a =
      if not (item.content == expected)
      then (Outcome.done (flag false), a)
      else if not (codec.is_json replacement)
      then (Outcome.fail invalid_json, a)
      else (Outcome.done (flag true), assign key (some (record item { content = replacement })) a)

  -- The answer of the cache decides only whether a write is refused.
  unfoldable pub spec_call : Answer → ℕ → Bool → Call → TtlMap → Answer × TtlMap
  spec_call answer now live (fetch reader key) a =
      if_live live a (found (read_by reader) (current now key a) a a)
  spec_call answer now live (read key) a = if_live live a (found raw (current now key a) a a)
  spec_call answer now live (erase key) a = (Outcome.done nothing, assign key none a)
  spec_call answer now live (consume key) a =
      if_live live a (found (read_by codec.string) (current now key a) a (assign key none a))
  spec_call answer now live (store key none ttl) a = (Outcome.fail encoding, a)
  spec_call answer now live (store key (some content) ttl) a =
      stored answer key content (now + ttl) a
  spec_call answer now live (swap key expected replacement) a =
      if_live live a (swapped key expected replacement (current now key a) a)
  spec_call answer now live (erase_if key expected) a =
      if_live live a (erased_if expected (current now key a) a (assign key none a))
  spec_call answer now live (load reader key extra ttl result) a =
      if_live live a (reloaded answer reader key (now + extra + ttl) result (current now key a) a)
  spec_call answer now live (fetch_in reader ns suffix) a =
      in_valid ns a (if_live live a (found (read_by reader) (current now (key_in ns suffix) a) a a))
  spec_call answer now live (read_in ns suffix) a =
      in_valid ns a (if_live live a (found raw (current now (key_in ns suffix) a) a a))
  spec_call answer now live (erase_in ns suffix) a =
      in_valid ns a (Outcome.done nothing, assign (key_in ns suffix) none a)
  spec_call answer now live (consume_in ns suffix) a = in_valid ns a (
      found (read_by codec.string) (current now (key_in ns suffix) a) a
        (assign (key_in ns suffix) none a))
  spec_call answer now live (store_in ns suffix none ttl) a =
      in_valid ns a (if ttl == 0 then (Outcome.fail invalid_ttl, a) else (Outcome.fail encoding, a))
  spec_call answer now live (store_in ns suffix (some content) ttl) a =
      stored answer (key_in ns suffix) content (now + ttl) a
  spec_call answer now live (swap_in ns suffix expected replacement) a = in_valid ns a (
      if live && not (codec.is_json replacement)
      then (Outcome.fail invalid_json, a)
      else if_live live a
          (swapped (key_in ns suffix) expected replacement (current now (key_in ns suffix) a) a))
  spec_call answer now live (erase_if_in ns suffix expected) a = in_valid ns a (
      if_live live a (
        erased_if expected (current now (key_in ns suffix) a) a (assign (key_in ns suffix) none a)))

  unfoldable pub spec_calls : List Answer → ℕ → List Event → TtlMap → List Answer × TtlMap
  spec_calls answers now [] a = ([], a)
  spec_calls [] now (e ∷ rest) a = ([], a)
  spec_calls (answer ∷ answers) now (e ∷ rest) a =
      let (r, left) = spec_call answer (now + e.wait) e.live e.call a in
      let (rs, last) = spec_calls answers (now + e.wait + lasting e.call) rest left in
      (r ∷ rs, last)
