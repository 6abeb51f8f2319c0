-- ===== src/ThreadAdmin/Kept.antt =====
-- The statements on threads keep the table sound.
use furtalk.Base.{
  ℕ, ◌+◌, ◌≤◌, ◌<◌, ◌≡◌, refl, subst, Bool, true, false, not, Option, none, some, List, [], ◌∷◌,
  ◌++◌, any, count, find?, update_where, All, All-update_where, All-filter, arith,
}
use furtalk.Base.Counting.{count-update_where-same, count-filter-le, count-append}
use furtalk.Base.Equality.{nat_eq, text_eq, list_beq_iff}
use furtalk.Domain.{not_found}
use furtalk.Domain.Entities.{Text, Thread}
use furtalk.Store.{Db, or_raise}
use furtalk.Store.Contract.{
  Keeps, Yields-bind, Yields-gets, Yields-raise_if, Yields-pure, Keeps-modify, Keeps-outcome,
}
use furtalk.Store.Threads.{
  is_page, is_thread, in_threads, or_old, get_by_site_and_key, update_comments_enabled_many,
  delete_thread, delete_threads, delete_threads_where, resolve_or_create, upsert,
}
use furtalk.ThreadAdmin.{ThreadAction, write_threads}
use furtalk.ThreadAdmin.Pages.{ThreadsSound}

-- A write to columns other than the keys.
same-ThreadsSound :
    (q : Thread → Bool) (f : Thread → Thread) (db : Db)
    → ((s : ℕ) (k : Text) (t : Thread) → is_page s k (f t) ≡ is_page s k t)
    → ((s i : ℕ) (t : Thread) → is_thread s i (f t) ≡ is_thread s i t)
    → ((t : Thread) → (f t).id ≡ t.id)
    → ThreadsSound db
    → ThreadsSound (record db { threads = update_where q f db.threads })
same-ThreadsSound q f db p i e h = record {
  pages = λ s k.
      omega (arith, count-update_where-same (is_page s k) q f (p s k) db.threads, h.pages s k);
  ids = λ s n.
      omega (arith, count-update_where-same (is_thread s n) q f (i s n) db.threads, h.ids s n);
  bounded =
      All-update_where (λ t. t.id < db.next_thread) q f (λ t _ b. ground (arith, b, e t)) db.threads
        h.bounded;
}

deleted-ThreadsSound :
    (p : Thread → Bool) (db : Db) → ThreadsSound db → ThreadsSound (delete_threads_where p db)
deleted-ThreadsSound p db h = record {
  pages =
      λ s k. omega (arith, count-filter-le (is_page s k) (λ t. not (p t)) db.threads, h.pages s k);
  ids =
      λ s i. omega (arith, count-filter-le (is_thread s i) (λ t. not (p t)) db.threads, h.ids s i);
  bounded = All-filter (λ t. t.id < db.next_thread) (λ t. not (p t)) db.threads h.bounded;
}

count-absent : {A : Type 0} (p : A → Bool) (xs : List A) → any p xs ≡ false → count p xs ≡ 0
count-absent p [] e = refl
count-absent p (x ∷ xs) e = ground (arith, count-absent p xs)

-- The next identifier is new.
count-next : (s n : ℕ) (ts : List Thread) → All (λ t. t.id < n) ts → count (is_thread s n) ts ≡ 0
count-next s n [] h = refl
count-next s n (t ∷ ts) h = ground (arith, h.0, count-next s n ts h.1)

All-next :
    (n : ℕ) (x : Thread) (ts : List Thread)
    → All (λ t. t.id < n) ts
    → x.id ≡ n
    → All (λ t. t.id < n + 1) (ts ++ x ∷ [])
All-next n x [] h e = (omega (arith, e), tt)
All-next n x (t ∷ ts) h e = (omega (arith, h.0), All-next n x ts h.1 e)

upsert-ThreadsSound :
    (known : Bool) (site : ℕ) (key : Text) (url title : Option Text) (db : Db)
    → any (is_page site key) db.threads ≡ known
    → ThreadsSound db
    → ThreadsSound (upsert known site key url title db)
unfolding upsert
upsert-ThreadsSound true site key url title db e h =
    same-ThreadsSound (is_page site key)
      (λ t. record t { page_url = or_old url t.page_url; page_title = or_old title t.page_title })
      db (λ s k t. refl) (λ s i t. refl) (λ t. refl) h
upsert-ThreadsSound false site key url title db e h = record {
  pages = λ s k. page s k (is_page s k fresh) refl;
  ids = λ s i. identifier s i (is_thread s i fresh) refl;
  bounded = All-next db.next_thread fresh db.threads h.bounded refl;
}
  where
    fresh : Thread
    fresh = record {
      id = db.next_thread;
      site_id = site;
      page_key = key;
      page_url = url;
      page_title = title;
      comments_enabled = true;
    }

    page :
        (s : ℕ) (k : Text) (b : Bool)
        → is_page s k fresh ≡ b
        → count (is_page s k) (db.threads ++ fresh ∷ []) ≤ 1
    page s k false f =
        ground (arith, f, h.pages s k, count-append (is_page s k) db.threads (fresh ∷ []))
    page s k true f =
        let same_site : site ≡ s = ground (arith, f) in
        let same_key : key ≡ k = ground (arith, f, list_beq_iff key k) in
        let free =
          subst (λ x. count (is_page x k) db.threads ≡ 0) same_site
            (subst (λ x. count (is_page site x) db.threads ≡ 0) same_key
              (count-absent (is_page site key) db.threads e)) in
        ground (arith, f, free, count-append (is_page s k) db.threads (fresh ∷ []))

    identifier :
        (s i : ℕ) (b : Bool)
        → is_thread s i fresh ≡ b
        → count (is_thread s i) (db.threads ++ fresh ∷ []) ≤ 1
    identifier s i false f =
        ground (arith, f, h.ids s i, count-append (is_thread s i) db.threads (fresh ∷ []))
    identifier s i true f =
        let same : db.next_thread ≡ i = ground (arith, f) in
        let free =
          subst (λ x. count (is_thread s x) db.threads ≡ 0) same
            (count-next s db.next_thread db.threads h.bounded) in
        ground (arith, f, free, count-append (is_thread s i) db.threads (fresh ∷ []))

pub resolve_or_create-Keeps :
    (site : ℕ) (key : Text) (url title : Option Text)
    → Keeps ThreadsSound (resolve_or_create site key url title)
unfolding resolve_or_create get_by_site_and_key
resolve_or_create-Keeps site key url title =
    Keeps-outcome (resolve_or_create site key url title) λ db h.
      read db (upsert-ThreadsSound (any (is_page site key) db.threads) site key url title db refl h)
        (find? (is_page site key)
          (upsert (any (is_page site key) db.threads) site key url title db).threads)
  where
    read :
        (db : Db)
        → ThreadsSound (upsert (any (is_page site key) db.threads) site key url title db)
        → (o : Option Thread)
        → ThreadsSound
            (or_raise o not_found
              (upsert (any (is_page site key) db.threads) site key url title db)).1
    read db h none = h
    read db h (some t) = h

pub delete_thread-Keeps : (site id : ℕ) → Keeps ThreadsSound (delete_thread site id)
unfolding delete_thread
delete_thread-Keeps site id =
    Yields-bind (Yields-gets (λ db. any (is_thread site id) db.threads)) (λ hit _.
      Yields-bind (Yields-raise_if (not hit) not_found)
        (λ _ _. Keeps-modify _ (deleted-ThreadsSound (is_thread site id))))

delete_threads-Keeps : (site : ℕ) (ids : List ℕ) → Keeps ThreadsSound (delete_threads site ids)
unfolding delete_threads
delete_threads-Keeps site ids =
    Yields-bind (Yields-gets (λ db. count (in_threads site ids) db.threads)) (λ n _.
      Yields-bind (Keeps-modify _ (deleted-ThreadsSound (in_threads site ids)))
        (λ _ _. Yields-pure n tt))

enabled-Keeps :
    (site : ℕ) (ids : List ℕ) (enabled : Bool)
    → Keeps ThreadsSound (update_comments_enabled_many site ids enabled)
unfolding update_comments_enabled_many
enabled-Keeps site ids enabled =
    Yields-bind (Yields-gets (λ db. count (in_threads site ids) db.threads)) (λ n _.
      Yields-bind
        (Keeps-modify _ (λ db h.
          same-ThreadsSound (in_threads site ids) (λ t. record t { comments_enabled = enabled }) db
            (λ s k t. refl) (λ s i t. refl) (λ t. refl) h))
        (λ _ _. Yields-pure n tt))

pub write_threads-Keeps :
    (action : ThreadAction) (site : ℕ) (ids : List ℕ)
    → Keeps ThreadsSound (write_threads action site ids)
write_threads-Keeps ThreadAction.hard_delete site ids = delete_threads-Keeps site ids
write_threads-Keeps ThreadAction.enable site ids = enabled-Keeps site ids true
write_threads-Keeps ThreadAction.disable site ids = enabled-Keeps site ids false
write_threads-Keeps ThreadAction.unknown site ids = enabled-Keeps site ids false
