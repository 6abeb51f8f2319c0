-- ===== src/Onetime/Rounds.antt =====
-- One round of the loop of VerifyAndConsume, when other calls leave the cache alone.
use furtalk.Base.{
  ℕ, ◌+◌, ◌≤◌, ◌≡◌, refl, sym, subst, Bool, true, false, not, ◌||◌, Option, none, some, ltb, leb,
  is_some, if◌then◌else◌, arith,
}
use furtalk.Base.Equality.{◌==◌, text_eq, nat_eq}
use furtalk.Base.Assoc.{Key, lookup, only, lookup-remove_self}
use furtalk.Domain.Entities.{Text}
use furtalk.Cache.{
  Outcome, Item, Memory, invalid_namespace, invalid_json, write, is_live, fresh, delete_stale,
  delete, read_item, erase_item, swap_item, get_raw_json, compare_and_swap_json,
}
use furtalk.Cache.Namespace.{
  is_valid, key_in, released, namespace_get_raw_json, namespace_compare_and_swap_json,
  namespace_compare_and_delete_json,
}
use furtalk.Onetime.{
  Backend, Record, VerifyResult, consumed, attempted, invalid, Turn, Round, decided, again, settle,
  delete_then, record_attempt, judge, turn, is_valid_record,
}

-- A round in which the context lives, other calls leave the cache alone, and the clock does not go
-- back.
pub record IsQuiet (t : Turn) : Type 0 where
  pub is_live : t.live ≡ true
  pub alone : (m : Memory) → t.others m ≡ m
  pub in_order : t.read_at ≤ t.exchanged_at

pub only-later :
    (now later : ℕ) (o : Option Item)
    → now ≤ later
    → only (is_live now) o ≡ none
    → only (is_live later) o ≡ none
only-later now later none h e = refl
only-later now later (some item) h e = ground (arith, e)

-- What a key has left once its stale entry is gone.
pub lookup-delete_stale :
    (now : ℕ) (key : Key) (m : Memory)
    → fresh now key m ≡ none
    → lookup key (delete_stale key m).items ≡ none
unfolding delete_stale delete
lookup-delete_stale now key m e = go (lookup key m.items) refl
  where
    go :
        (o : Option Item)
        → lookup key m.items ≡ o
        → lookup key (if is_some o then delete key m else m).items ≡ none
    go none f = f
    go (some item) f = lookup-remove_self key m.items

module _ (b : Backend) (key : Text) (m : Memory) (valid : is_valid b.space ≡ true) (live : Bool)
    (lives : live ≡ true) where
  pub get_raw_lem :
      (now : ℕ)
      → namespace_get_raw_json b.space live now key m
        ≡ read_item (key_in b.space key) (fresh now (key_in b.space key) m) m
  unfolding namespace_get_raw_json get_raw_json
  get_raw_lem now = ground (arith, valid, lives)

  pub compare_and_delete_lem :
      (now : ℕ) (raw : Text)
      → namespace_compare_and_delete_json b.space live now key raw m
        ≡ erase_item
            (key_in b.space key)
            raw
            (fresh now (key_in b.space key) m)
            m
            (released b.space key m)
  unfolding namespace_compare_and_delete_json
  compare_and_delete_lem now raw = ground (arith, valid, lives)

  pub compare_and_swap_lem :
      (now : ℕ) (raw replacement : Text)
      → b.is_json replacement ≡ true
      → namespace_compare_and_swap_json b.space b.is_json live now key raw replacement m
        ≡ swap_item b.is_json
            (key_in b.space key)
            raw
            replacement
            (fresh now (key_in b.space key) m)
            m
  unfolding namespace_compare_and_swap_json compare_and_swap_json
  compare_and_swap_lem now raw replacement j = ground (arith, valid, lives, j)

-- What holds of each exchange holds of the judgement.
pub judge-rule :
    (b : Backend) (key submitted : Text) (max_attempts : ℕ) (P : Round × Memory → Type 0) (t : Turn)
    (raw : Text) (m : Memory)
    → ((v : VerifyResult) → P (delete_then b key v t raw m))
    → ((r : Record) → P (record_attempt b key t raw r m))
    → (o : Option Record) → P (judge b key submitted max_attempts t raw o m)
unfolding judge
judge-rule b key submitted max_attempts P t raw m d a none = d invalid
judge-rule b key submitted max_attempts P t raw m d a (some r) =
    go (not (is_valid_record r))
      (not (ltb t.checked_at r.expires_at) || leb max_attempts r.attempts) (r.hash == submitted)
      (leb max_attempts (r.attempts + 1))
  where
    go :
        (broken over matches last : Bool)
        → P (
            if broken
            then delete_then b key invalid t raw m
            else if over
            then delete_then b key invalid t raw m
            else if matches
            then delete_then b key consumed t raw m
            else if last
            then delete_then b key invalid t raw m
            else record_attempt b key t raw r m)
    go true over matches last = d invalid
    go false true matches last = d invalid
    go false false true last = d consumed
    go false false false true = d invalid
    go false false false false = a r

-- An entry that is there has this value.
abbrev pub Matches : Text → Option Item → Type 0
Matches raw none = Unit {0}
Matches raw (some item) = (item.content == raw) ≡ true

gone :
    (now : ℕ) (key : Key) (m : Memory)
    → fresh now key m ≡ none
    → fresh now key (delete_stale key m) ≡ none
gone now key m e =
    subst (λ o. only (is_live now) o ≡ none) (sym (lookup-delete_stale now key m e)) refl

-- The round returned, or it left no entry of the key that is fresh from then on.
abbrev pub Progress : Backend → Text → Turn → Round × Memory → Type 0
Progress b key t (decided answer, m) = Unit {0}
Progress b key t (again, m) = fresh t.exchanged_at (key_in b.space key) m ≡ none

module _ (b : Backend) (key : Text) (t : Turn) (live : t.live ≡ true) (raw : Text) (m : Memory)
    (valid : is_valid b.space ≡ true) where
  pub settle-Progress :
      (v : VerifyResult) (r x : Outcome Bool × Memory)
      → r ≡ x
      → Progress b key t (settle b v x)
      → Progress b key t (settle b v r)
  settle-Progress v r x e = subst (λ y. Progress b key t (settle b v y)) (sym e)

  pub delete_then-Progress :
      (o : Option Item)
      → fresh t.exchanged_at (key_in b.space key) m ≡ o
      → Matches raw o
      → (v : VerifyResult) → Progress b key t (delete_then b key v t raw m)
  delete_then-Progress o e s v =
      settle-Progress v _ _ (compare_and_delete_lem b key m valid t.live live t.exchanged_at raw) (
        subst
          (λ x.
            Progress b key t
              (settle b v (erase_item (key_in b.space key) raw x m (released b.space key m))))
          (sym e) (go o e s))
    where
      go :
          (x : Option Item)
          → fresh t.exchanged_at (key_in b.space key) m ≡ x
          → Matches raw x
          → Progress b key t
              (settle b v (erase_item (key_in b.space key) raw x m (released b.space key m)))
      go none f s = gone t.exchanged_at (key_in b.space key) m f
      go (some item) f s = exchanged (item.content == raw) s
        where
          exchanged :
              (c : Bool)
              → c ≡ true
              → Progress b key t (
                  settle b v (
                    if c
                    then (Outcome.done true, released b.space key m)
                    else (Outcome.done false, m)))
          exchanged true h = tt
          exchanged false h = absurd (ground (arith, h))

  pub record_attempt-Progress :
      (encodes : (r : Record) → b.is_json (b.encode r) ≡ true) (o : Option Item)
      → fresh t.exchanged_at (key_in b.space key) m ≡ o
      → Matches raw o
      → (r : Record) → Progress b key t (record_attempt b key t raw r m)
  record_attempt-Progress encodes o e s r =
      settle-Progress attempted _ _
        (compare_and_swap_lem b key m valid t.live live t.exchanged_at raw next (encodes counted))
        (subst
          (λ x.
            Progress b key t
              (settle b attempted (swap_item b.is_json (key_in b.space key) raw next x m)))
          (sym e) (go o e s))
    where
      counted : Record
      counted = record r { attempts = r.attempts + 1 }

      next : Text
      next = b.encode counted

      go :
          (x : Option Item)
          → fresh t.exchanged_at (key_in b.space key) m ≡ x
          → Matches raw x
          → Progress b key t
              (settle b attempted (swap_item b.is_json (key_in b.space key) raw next x m))
      go none f s = gone t.exchanged_at (key_in b.space key) m f
      go (some item) f s = exchanged (item.content == raw) s (b.is_json next) (encodes counted)
        where
          exchanged :
              (c : Bool)
              → c ≡ true
              → (j : Bool) → j ≡ true
              → Progress b key t (
                  settle b attempted (
                    if not c
                    then (Outcome.done false, m)
                    else if not j
                    then (Outcome.fail invalid_json, m)
                    else (Outcome.done true, write (key_in b.space key) next item.expires m)))
          exchanged true h true k = tt
          exchanged true h false k = tt
          exchanged false h j k = absurd (ground (arith, h))

module _ (b : Backend) (key submitted : Text) (max_attempts : ℕ) (t : Turn) (m : Memory)
    (live : t.live ≡ true) where
  pub turn-invalid :
      is_valid b.space ≡ false
      → turn b key submitted max_attempts t m ≡ (decided (Outcome.fail invalid_namespace), m)
  unfolding turn namespace_get_raw_json
  turn-invalid v = ground (arith, live, v)

  pub turn-absent :
      is_valid b.space ≡ true
      → fresh t.read_at (key_in b.space key) m ≡ none
      → turn b key submitted max_attempts t m
        ≡ (decided (Outcome.done invalid), delete_stale (key_in b.space key) m)
  unfolding turn
  turn-absent v e = ground (arith, get_raw_lem b key m v t.live live t.read_at, live, e)

  pub turn-present :
      (item : Item)
      → is_valid b.space ≡ true
      → ((m : Memory) → t.others m ≡ m)
      → fresh t.read_at (key_in b.space key) m ≡ some item
      → turn b key submitted max_attempts t m
        ≡ judge b key submitted max_attempts t item.content (b.decode item.content) m
  unfolding turn
  turn-present item v alone e =
      ground (arith, get_raw_lem b key m v t.live live t.read_at, live, e, alone m)
