-- ===== src/Cache/Absence.antt =====
-- A key that is not there stays out of the map as long as no call writes it.
use furtalk.Base.{
  ℕ, ◌+◌, ◌≡◌, refl, subst, Bool, true, false, not, ◌&&◌, if◌then◌else◌, Option, none, some, List,
  [], ◌∷◌, All, arith,
}
use furtalk.Base.Equality.{text_eq, list_beq, list_beq_iff}
use furtalk.Base.Assoc.{Key}
use furtalk.Domain.Entities.{Text}
use furtalk.Cache.{Item, Outcome, invalid_json}
use furtalk.Cache.Namespace.{Namespace, key_in}
use furtalk.Cache.Shown.{only-some}
use furtalk.Cache.Calls.{
  Codec, Reader, Call, fetch, read, erase, consume, store, swap, erase_if, load, fetch_in, read_in,
  erase_in, consume_in, store_in, swap_in, erase_if_in, Event, lasting, Answer,
}
use furtalk.Cache.Ttl.{
  TtlMap, current, assign, raw, read_by, found, stored, reloaded, swapped, erased_if, in_valid,
  if_live, spec_call, spec_calls,
}

-- The call does not write a new entry under the key.
abbrev pub Avoids : Key → Call → Type 0
Avoids key (store k value ttl) = list_beq k key ≡ false
Avoids key (load reader k extra ttl result) = list_beq k key ≡ false
Avoids key (store_in ns suffix value ttl) = list_beq (key_in ns suffix) key ≡ false
Avoids key call = Unit {0}

-- A key that the map does not have stays out of it.
module _ (codec : Codec) (key : Key) where
  assign-absent :
      (k : Key) (value : Option Item) (a : TtlMap)
      → list_beq k key ≡ false
      → a key ≡ none
      → assign k value a key ≡ none
  assign-absent k value a h e = ground (arith, h, e)

  erase-absent : (k : Key) (a : TtlMap) → a key ≡ none → assign k none a key ≡ none
  erase-absent k a e = ground (arith, e)

  found-absent :
      (how : Text → Answer) (o : Option Item) (a left : TtlMap)
      → a key ≡ none
      → left key ≡ none
      → (found how o a left).1 key ≡ none
  found-absent how none a left e l = e
  found-absent how (some item) a left e l = l

  refused-absent :
      (b : Bool) (refusal : Answer) (a : TtlMap) (r : Answer × TtlMap)
      → a key ≡ none
      → r.1 key ≡ none
      → (if b then (refusal, a) else r).1 key ≡ none
  refused-absent true refusal a r e l = e
  refused-absent false refusal a r e l = l

  if_live-absent :
      (live : Bool) (a : TtlMap) (r : Answer × TtlMap)
      → a key ≡ none
      → r.1 key ≡ none
      → (if_live live a r).1 key ≡ none
  if_live-absent false a r e l = e
  if_live-absent true a r e l = l

  erased_if-absent :
      (expected : Text) (o : Option Item) (a left : TtlMap)
      → a key ≡ none
      → left key ≡ none
      → (erased_if expected o a left).1 key ≡ none
  erased_if-absent expected none a left e l = e
  erased_if-absent expected (some item) a left e l = ground (arith, e, l)

  in_valid-absent :
      (ns : Namespace) (a : TtlMap) (r : Answer × TtlMap)
      → a key ≡ none
      → r.1 key ≡ none
      → (in_valid ns a r).1 key ≡ none
  in_valid-absent ns a r e l = ground (arith, e, l)

  stored-absent :
      (answer : Answer) (k : Key) (content : Text) (expires : ℕ) (a : TtlMap)
      → list_beq k key ≡ false
      → a key ≡ none
      → (stored answer k content expires a).1 key ≡ none
  stored-absent (Outcome.fail x) k content expires a h e = e
  stored-absent (Outcome.done x) k content expires a h e = assign-absent k _ a h e

  -- A key that is there is another one.
  there-other :
      (k : Key) (item : Item) (a : TtlMap) → a k ≡ some item → a key ≡ none → list_beq k key ≡ false
  there-other k item a f e = go (list_beq k key) refl
    where
      go : (b : Bool) → list_beq k key ≡ b → b ≡ false
      go false h = refl
      go true h =
          let same =
            subst (λ x. a x ≡ some item)
              (let q : k ≡ key = ground (arith, h, list_beq_iff k key) in q) f in
          absurd (ground (arith, same, e))

  swapped_item-absent :
      (k : Key) (expected replacement : Text) (o : Option Item) (a : TtlMap)
      → ((item : Item) → o ≡ some item → list_beq k key ≡ false)
      → a key ≡ none
      → (swapped codec k expected replacement o a).1 key ≡ none
  swapped_item-absent k expected replacement none a d e = e
  swapped_item-absent k expected replacement (some item) a d e = ground (arith, d item refl, e)

  swapped-absent :
      (k : Key) (expected replacement : Text) (now : ℕ) (a : TtlMap)
      → a key ≡ none
      → (swapped codec k expected replacement (current now k a) a).1 key ≡ none
  swapped-absent k expected replacement now a e =
      swapped_item-absent k expected replacement (current now k a) a
        (λ item f. there-other k item a (only-some now (a k) item f) e) e

  reloaded-absent :
      (answer : Answer) (reader : Reader) (k : Key) (expires : ℕ) (result : Outcome (Option Text))
      (o : Option Item) (a : TtlMap)
      → list_beq k key ≡ false
      → a key ≡ none
      → (reloaded answer reader k expires result o a).1 key ≡ none
  reloaded-absent answer reader k expires result (some item) a h e = e
  reloaded-absent answer reader k expires (Outcome.fail x) none a h e = e
  reloaded-absent answer reader k expires (Outcome.done none) none a h e = e
  reloaded-absent answer reader k expires (Outcome.done (some content)) none a h e =
      ground (arith, h, e)

  removed-absent :
      (how : Text → Answer) (now : ℕ) (k : Key) (a : TtlMap)
      → a key ≡ none
      → (found how (current now k a) a (assign k none a)).1 key ≡ none
  removed-absent how now k a e =
      found-absent how (current now k a) a (assign k none a) e (erase-absent k a e)

  cut-absent :
      (expected : Text) (now : ℕ) (k : Key) (a : TtlMap)
      → a key ≡ none
      → (erased_if expected (current now k a) a (assign k none a)).1 key ≡ none
  cut-absent expected now k a e =
      erased_if-absent expected (current now k a) a (assign k none a) e (erase-absent k a e)

  spec_call-absent :
      (answer : Answer) (now : ℕ) (live : Bool) (call : Call) (a : TtlMap)
      → Avoids key call
      → a key ≡ none
      → (spec_call codec answer now live call a).1 key ≡ none
  unfolding spec_call
  spec_call-absent answer now live (fetch reader k) a h e =
      if_live-absent live a _ e (found-absent (read_by reader) (current now k a) a a e e)
  spec_call-absent answer now live (read k) a h e =
      if_live-absent live a _ e (found-absent raw (current now k a) a a e e)
  spec_call-absent answer now live (erase k) a h e = erase-absent k a e
  spec_call-absent answer now live (consume k) a h e =
      if_live-absent live a _ e (removed-absent (read_by codec.string) now k a e)
  spec_call-absent answer now live (store k none ttl) a h e = e
  spec_call-absent answer now live (store k (some content) ttl) a h e =
      stored-absent answer k content (now + ttl) a h e
  spec_call-absent answer now live (swap k expected replacement) a h e =
      if_live-absent live a _ e (swapped-absent k expected replacement now a e)
  spec_call-absent answer now live (erase_if k expected) a h e =
      if_live-absent live a _ e (cut-absent expected now k a e)
  spec_call-absent answer now live (load reader k extra ttl result) a h e =
      if_live-absent live a _ e
        (reloaded-absent answer reader k (now + extra + ttl) result (current now k a) a h e)
  spec_call-absent answer now live (fetch_in reader ns suffix) a h e = in_valid-absent ns a _ e (
      if_live-absent live a _ e
        (found-absent (read_by reader) (current now (key_in ns suffix) a) a a e e))
  spec_call-absent answer now live (read_in ns suffix) a h e =
      in_valid-absent ns a _ e
        (if_live-absent live a _ e (found-absent raw (current now (key_in ns suffix) a) a a e e))
  spec_call-absent answer now live (erase_in ns suffix) a h e =
      in_valid-absent ns a _ e (erase-absent (key_in ns suffix) a e)
  spec_call-absent answer now live (consume_in ns suffix) a h e =
      in_valid-absent ns a _ e (removed-absent (read_by codec.string) now (key_in ns suffix) a e)
  spec_call-absent answer now live (store_in ns suffix none ttl) a h e = ground (arith, e)
  spec_call-absent answer now live (store_in ns suffix (some content) ttl) a h e =
      stored-absent answer (key_in ns suffix) content (now + ttl) a h e
  spec_call-absent answer now live (swap_in ns suffix expected replacement) a h e =
      in_valid-absent ns a _ e (
        refused-absent (live && not (codec.is_json replacement)) (Outcome.fail invalid_json) a _ e (
          if_live-absent live a _ e
            (swapped-absent (key_in ns suffix) expected replacement now a e)))
  spec_call-absent answer now live (erase_if_in ns suffix expected) a h e =
      in_valid-absent ns a _ e
        (if_live-absent live a _ e (cut-absent expected now (key_in ns suffix) a e))

  pub spec_calls-absent :
      (answers : List Answer) (now : ℕ) (calls : List Event) (a : TtlMap)
      → All (λ x. Avoids key x.call) calls
      → a key ≡ none
      → (spec_calls codec answers now calls a).1 key ≡ none
  unfolding spec_calls
  spec_calls-absent answers now [] a h e = e
  spec_calls-absent [] now (x ∷ rest) a h e = e
  spec_calls-absent (answer ∷ answers) now (x ∷ rest) a h e =
      spec_calls-absent answers (now + x.wait + lasting x.call) rest
        (spec_call codec answer (now + x.wait) x.live x.call a).1 h.1
        (spec_call-absent answer (now + x.wait) x.live x.call a h.0 e)
