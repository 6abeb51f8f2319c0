-- ===== src/ThreadAdmin/Pages.antt =====
-- The table of threads stays sound: a page of a site has one thread, and identifiers are unique.
use furtalk.Base.{
  ℕ, ◌≤◌, ◌<◌, ◌≡◌, refl, subst, Bool, true, false, ◌&&◌, Option, none, some, List, [], ◌∷◌, any,
  count, find?, update_where, All, All-update_where, if◌then◌else◌, arith,
}
use furtalk.Base.Counting.{count-update_where-same}
use furtalk.Base.Equality.{◌==◌, nat_eq, text_eq, list_beq, list_beq_iff}
use furtalk.Domain.{not_found, conflict}
use furtalk.Domain.Entities.{Text, Thread}
use furtalk.Store.{Db, Action, or_raise, modify, raise_if, gets, pure, ◌>>=◌, ◌>>◌}
use furtalk.Store.Contract.{
  Keeps, Keeps-outcome, Leads, Leads-or_raise, Leads-raise_if, Leads-if, Leads-pure,
}
use furtalk.Store.Threads.{
  ThreadPatch, is_page, is_thread, is_taken, or_kept, patched, is_empty_patch, get_by_site_and_id,
  update_thread,
}

pub record ThreadsSound (db : Db) : Type 0 where
  pub pages : (s : ℕ) (k : Text) → count (is_page s k) db.threads ≤ 1
  pub ids : (s i : ℕ) → count (is_thread s i) db.threads ≤ 1
  pub bounded : All (λ t. t.id < db.next_thread) db.threads

-- The row that gets the key is the only one with it.
count-patched_same :
    (site id : ℕ) (key : Text) (p : ThreadPatch) (ts : List Thread)
    → p.page_key ≡ some key
    → any (is_taken site id key) ts ≡ false
    → count (is_page site key) (update_where (is_thread site id) (patched p) ts)
      ≤ count (is_thread site id) ts
count-patched_same site id key p [] e h = omega arith
count-patched_same site id key p (t ∷ ts) e h =
    ground (arith, e, list_beq_iff key key, count-patched_same site id key p ts e)

-- Any other page has no more threads than before.
count-patched_other :
    (site id : ℕ) (key : Text) (p : ThreadPatch) (s : ℕ) (k : Text) (ts : List Thread)
    → p.page_key ≡ some key
    → (s == site && list_beq key k) ≡ false
    → count (is_page s k) (update_where (is_thread site id) (patched p) ts) ≤ count (is_page s k) ts
count-patched_other site id key p s k [] e h = omega arith
count-patched_other site id key p s k (t ∷ ts) e h =
    ground (arith, e, h, count-patched_other site id key p s k ts)

pages-patched :
    (site id : ℕ) (row : Thread) (p : ThreadPatch) (db : Db)
    → ThreadsSound db
    → any (is_taken site id (or_kept p.page_key row.page_key)) db.threads ≡ false
    → (o : Option Text) → p.page_key ≡ o
    → (s : ℕ) (k : Text)
    → count (is_page s k) (update_where (is_thread site id) (patched p) db.threads) ≤ 1
pages-patched site id row p db h n none e s k = omega (
  arith,
  count-update_where-same (is_page s k) (is_thread site id) (patched p) (λ t. ground (arith, e))
      db.threads,
  h.pages s k,
)
pages-patched site id row p db h n (some key) e s k = go (s == site && list_beq key k) refl
  where
    free : any (is_taken site id key) db.threads ≡ false
    free = subst (λ o. any (is_taken site id (or_kept o row.page_key)) db.threads ≡ false) e n

    go :
        (b : Bool)
        → (s == site && list_beq key k) ≡ b
        → count (is_page s k) (update_where (is_thread site id) (patched p) db.threads) ≤ 1
    go false f = omega (arith, count-patched_other site id key p s k db.threads e f, h.pages s k)
    go true f =
        let same_key : key ≡ k = ground (arith, f, list_beq_iff key k) in
        let same_site : site ≡ s = ground (arith, f) in
        subst
          (λ x. count (is_page x k) (update_where (is_thread site id) (patched p) db.threads) ≤ 1)
          same_site
          (subst
            (λ x.
              count (is_page site x) (update_where (is_thread site id) (patched p) db.threads) ≤ 1)
            same_key
            (omega (arith, count-patched_same site id key p db.threads e free, h.ids site id)))

patched-ThreadsSound :
    (site id : ℕ) (row : Thread) (p : ThreadPatch) (db : Db)
    → any (is_taken site id (or_kept p.page_key row.page_key)) db.threads ≡ false
    → ThreadsSound db
    → ThreadsSound (record db { threads = update_where (is_thread site id) (patched p) db.threads })
patched-ThreadsSound site id row p db n h = record {
  pages = pages-patched site id row p db h n p.page_key refl;
  ids = λ s i. omega (
    arith,
    count-update_where-same (is_thread s i) (is_thread site id) (patched p) (λ t. ground arith)
        db.threads,
    h.ids s i,
  );
  bounded =
      All-update_where (λ t. t.id < db.next_thread) (is_thread site id) (patched p) (λ t e b. b)
        db.threads h.bounded;
}

-- A write, and a read of the row that was written.
written-Leads :
    (site id : ℕ) (db : Db) (f : Db → Db)
    → ThreadsSound (f db)
    → Leads ThreadsSound db (modify f >> get_by_site_and_id site id)
unfolding get_by_site_and_id
written-Leads site id db f h = record { out = go (find? (is_thread site id) (f db).threads) }
  where
    go : (o : Option Thread) → ThreadsSound (or_raise o not_found (f db)).1
    go none = h
    go (some t) = h

module _ (site id : ℕ) (p : ThreadPatch) where
  abbrev write : Action Thread
  write =
      modify (λ db. record db { threads = update_where (is_thread site id) (patched p) db.threads })
      >> get_by_site_and_id site id

  abbrev guarded : Bool → Action Thread
  guarded taken = raise_if taken conflict >> write

  abbrev rest : Thread → Action Thread
  rest row = do
    taken ← gets (λ db. any (is_taken site id (or_kept p.page_key row.page_key)) db.threads)
    if is_empty_patch p then pure row else guarded taken

  rest-Leads : (row : Thread) (db : Db) → ThreadsSound db → Leads ThreadsSound db (rest row)
  rest-Leads row db h = record {
    out =
        (Leads-if {P = ThreadsSound} {db = db} (is_empty_patch p) {m = pure row}
          {n = guarded (any (is_taken site id (or_kept p.page_key row.page_key)) db.threads)}
          (λ _. Leads-pure row h)
          (λ _.
            Leads-raise_if (any (is_taken site id (or_kept p.page_key row.page_key)) db.threads)
              conflict {next = write} h
              (λ free.
                written-Leads site id db _ (patched-ThreadsSound site id row p db free h)))).out;
  }

  pub update_thread-Keeps : Keeps ThreadsSound (update_thread site id p)
  unfolding update_thread get_by_site_and_id
  update_thread-Keeps = Keeps-outcome (update_thread site id p) λ db h.
      (Leads-or_raise {P = ThreadsSound} {db = db} (find? (is_thread site id) db.threads) not_found
        {k = rest} h (λ row e. rest-Leads row db h)).out
