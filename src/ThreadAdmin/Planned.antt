-- ===== src/ThreadAdmin/Planned.antt =====
-- What the plan of a batch writes, beside a write to all the threads that are named.
use furtalk.Base.{
  ℕ, ◌≤◌, ◌≡◌, refl, subst, ap, Bool, true, false, not, ◌&&◌, ◌||◌, Option, none, some, List, [],
  ◌∷◌, filter, count, find?, update_where, All, if◌then◌else◌, arith,
}
use furtalk.Base.Equality.{◌==◌, nat_eq, contains}
use furtalk.Domain.{Error}
use furtalk.Domain.Entities.{Thread}
use furtalk.Store.{Db, Result, ok, err}
use furtalk.Store.Threads.{is_thread, in_threads}
use furtalk.ThreadAdmin.{ThreadAction, ThreadPlan, plan_thread, plan_threads, after_thread}
use furtalk.ThreadAdmin.Pages.{ThreadsSound}

module _ {A : Type 0} where
  All-weaken : (P Q : A → Type 0) → ((x : A) → P x → Q x) → (xs : List A) → All P xs → All Q xs
  All-weaken P Q k [] h = tt
  All-weaken P Q k (x ∷ xs) h = (k x h.0, All-weaken P Q k xs h.1)

-- The thread of a row that is named is the row itself.
module _ (site : ℕ) (ids : List ℕ) where
  abbrev pub IsFound : List Thread → Thread → Type 0
  IsFound ts t =
      in_threads site ids t ≡ true
      → find? (λ u. u.id == t.id) (filter (in_threads site ids) ts) ≡ some t

  count-find? :
      (i : ℕ) (u : Thread) (ts : List Thread)
      → find? (λ v. v.id == i) (filter (in_threads site ids) ts) ≡ some u
      → 1 ≤ count (is_thread site i) ts
  count-find? i u [] e = absurd (ground (arith, e))
  count-find? i u (t ∷ ts) e = ground (arith, e, count-find? i u ts)

  next-IsFound :
      (t : Thread) (ts : List Thread) (u : Thread)
      → count (is_thread site u.id) (t ∷ ts) ≤ 1
      → IsFound ts u
      → IsFound (t ∷ ts) u
  next-IsFound t ts u c f h = ground (arith, c, f h, h, count-find? u.id u ts (f h))

  rows-IsFound :
      (ts : List Thread) → ((i : ℕ) → count (is_thread site i) ts ≤ 1) → All (IsFound ts) ts
  rows-IsFound [] c = tt
  rows-IsFound (t ∷ ts) c = (
    λ h. ground (arith, h),
    All-weaken (IsFound ts) (IsFound (t ∷ ts)) (λ u f. next-IsFound t ts u (c u.id) f) ts
        (rows-IsFound ts (λ i. ground (arith, c i))),
  )

-- The action that leaves threads with this flag.
abbrev pub action_for : Bool → ThreadAction
action_for true = ThreadAction.enable
action_for false = ThreadAction.disable

abbrev pub differs : Bool → Option Thread → Bool
differs enabled none = false
differs enabled (some t) = if enabled then not t.comments_enabled else t.comments_enabled

-- The plan writes the rows that differ, of those that are named.
planned-differs :
    (enabled : Bool) (rows : List Thread) (ids : List ℕ) (p : ThreadPlan)
    → plan_threads (action_for enabled) rows ids ≡ ok p
    → (x : ℕ)
    → contains p.write_ids x ≡ (contains ids x && differs enabled (find? (λ t. t.id == x) rows))
unfolding plan_threads plan_thread
planned-differs enabled rows [] p e x = ground (arith, e)
planned-differs enabled rows (id ∷ ids) p e x =
    go enabled (find? (λ t. t.id == id) rows) refl (plan_threads (action_for enabled) rows ids) refl
      e (planned-differs enabled rows ids)
  where
    go :
        (b : Bool) (o : Option Thread)
        → find? (λ t. t.id == id) rows ≡ o
        → (r : Result ThreadPlan) → plan_threads (action_for b) rows ids ≡ r
        → after_thread (action_for b) id o r ≡ ok p
        → ((q : ThreadPlan)
            → plan_threads (action_for b) rows ids ≡ ok q
            → (x : ℕ)
            → contains q.write_ids x ≡ (contains ids x && differs b (find? (λ t. t.id == x) rows)))
        → contains p.write_ids x
          ≡ (contains (id ∷ ids) x && differs b (find? (λ t. t.id == x) rows))
    go b none f r g h k = absurd (ground (arith, h))
    go b (some t) f (err e) g h k = absurd (case_err b t e h)
      where
        case_err :
            (b : Bool) (t : Thread) (e : Error)
            → after_thread (action_for b) id (some t) (err e) ≡ ok p
            → ⊥
        case_err true t e h = absurd (ground (arith, h))
        case_err false t e h = absurd (ground (arith, h))
    go b (some t) f (ok q) g h k = step b (id == x) refl (k q g x) h
      where
        here : (id == x) ≡ true → find? (λ t. t.id == x) rows ≡ some t
        here e =
            subst (λ i. find? (λ t. t.id == i) rows ≡ some t)
              (let same : id ≡ x = ground (arith, e) in same) f

        step :
            (b same : Bool)
            → (id == x) ≡ same
            → contains q.write_ids x ≡ (contains ids x && differs b (find? (λ t. t.id == x) rows))
            → after_thread (action_for b) id (some t) (ok q) ≡ ok p
            → contains p.write_ids x
              ≡ ((same || contains ids x) && differs b (find? (λ t. t.id == x) rows))
        step true true e l m = ground (arith, e, l, m, here e)
        step true false e l m = ground (arith, e, l, m)
        step false true e l m = ground (arith, e, l, m, here e)
        step false false e l m = ground (arith, e, l, m)

abbrev pub set_enabled : Bool → Thread → Thread
set_enabled enabled t = record t { comments_enabled = enabled }

-- A write to the planned rows is a write to all that are named.
row-same :
    (site : ℕ) (ids w : List ℕ) (enabled : Bool) (ts : List Thread) (t : Thread)
    → contains w t.id ≡ (
        contains ids t.id
        && differs enabled (find? (λ u. u.id == t.id) (filter (in_threads site ids) ts)))
    → IsFound site ids ts t
    → (if in_threads site w t then set_enabled enabled t else t)
      ≡ (if in_threads site ids t then set_enabled enabled t else t)
row-same site ids w enabled ts t c f =
    go (in_threads site ids t) refl enabled t.comments_enabled refl c
  where
    go :
        (named : Bool)
        → in_threads site ids t ≡ named
        → (enabled now : Bool) → t.comments_enabled ≡ now
        → contains w t.id ≡ (
            contains ids t.id
            && differs enabled (find? (λ u. u.id == t.id) (filter (in_threads site ids) ts)))
        → (if in_threads site w t then set_enabled enabled t else t)
          ≡ (if named then set_enabled enabled t else t)
    go false n enabled now e c = ground (arith, n, c)
    go true n true true e c = ground (arith, n, c, e, f n)
    go true n true false e c = ground (arith, n, c, e, f n)
    go true n false true e c = ground (arith, n, c, e, f n)
    go true n false false e c = ground (arith, n, c, e, f n)

update_where-same :
    (p q : Thread → Bool) (f : Thread → Thread) (ts : List Thread)
    → All (λ t. (if p t then f t else t) ≡ (if q t then f t else t)) ts
    → update_where p f ts ≡ update_where q f ts
update_where-same p q f [] h = refl
update_where-same p q f (t ∷ ts) h = cc (h.0, update_where-same p q f ts h.1)

abbrev pub with_enabled : ℕ → List ℕ → Bool → Db → Db
with_enabled site ids enabled db = record db {
  threads = update_where (in_threads site ids) (set_enabled enabled) db.threads;
}

pub planned-with_enabled :
    (site : ℕ) (ids : List ℕ) (enabled : Bool) (db : Db) (p : ThreadPlan)
    → ThreadsSound db
    → plan_threads (action_for enabled) (filter (in_threads site ids) db.threads) ids ≡ ok p
    → with_enabled site p.write_ids enabled db ≡ with_enabled site ids enabled db
planned-with_enabled site ids enabled db p h e =
    ap (λ ts. record db { threads = ts })
      (update_where-same (in_threads site p.write_ids) (in_threads site ids) (set_enabled enabled)
        db.threads
        (All-weaken (IsFound site ids db.threads) _
          (λ t f.
            row-same site ids p.write_ids enabled db.threads t
              (planned-differs enabled (filter (in_threads site ids) db.threads) ids p e t.id) f)
          db.threads (rows-IsFound site ids db.threads (h.ids site))))
