-- ===== src/Cache/Admission.antt =====
-- A write through a namespace keeps the bounds: its key enters where there is room for it.
use furtalk.Base.{
  ℕ, ◌+◌, ◌<◌, ◌≡◌, refl, subst, Bool, true, false, not, ◌&&◌, ◌||◌, Option, none, some, List, [],
  ◌∷◌, ltb, leb, is_some, any, count, filter, if◌then◌else◌, arith,
}
use furtalk.Base.Counting.{count-filter-le}
use furtalk.Base.Equality.{text_eq, nat_eq, list_beq_iff}
use furtalk.Base.Assoc.{Key, lookup, remove, length-remove-le}
use furtalk.Domain.Entities.{Text}
use furtalk.Cache.{
  Outcome, Item, Member, Memory, capacity, has_expired, fresh, evict_expired, write, is_full,
}
use furtalk.Cache.Namespace.{
  Namespace, in_space, is_member, set_untracked, set_item, admit, admit_if_room, leave, enter, used,
}
use furtalk.Cache.Bounds.{Bounded, BoundedAfter, evict_expired-Bounded, write-Bounded}

-- A namespace counts a member less where a key leaves that it had.
filter-is_member :
    (name : Text) (key : Key) (xs : List Member)
    → any (is_member name key) xs ≡ true
    → count (in_space name) (filter (λ x. not (is_member name key x)) xs) < count (in_space name) xs
filter-is_member name key [] h = absurd (ground arith)
filter-is_member name key (x ∷ xs) h = ground (
  arith,
  filter-is_member name key xs,
  count-filter-le (in_space name) (λ x. not (is_member name key x)) xs,
)

any-is_member :
    (name : Text) (key : Key) (p : Member → Bool) (xs : List Member)
    → any (λ x. is_member name key x && p x) xs ≡ true
    → any (is_member name key) xs ≡ true
any-is_member name key p [] h = absurd (ground arith)
any-is_member name key p (x ∷ xs) h = ground (arith, any-is_member name key p xs)

-- A key enters another namespace, or this one with room for it or where it was counted before.
abbrev HasRoom : Namespace → Text → Key → Memory → Type 0
HasRoom ns name key m = name ≡ ns.name → used ns.name (leave name key m) < ns.limit

module _ (ns : Namespace) (name : Text) (key : Key) where
  enter-Bounded :
      (expires : ℕ) (m : Memory)
      → HasRoom ns name key m
      → Bounded ns m
      → Bounded ns (enter name key expires m)
  enter-Bounded expires m r b = record {
    entries = b.entries;
    members = ground (
      arith,
      r,
      b.members,
      list_beq_iff name ns.name,
      count-filter-le (in_space ns.name) (λ x. not (is_member name key x)) m.members,
    );
  }

  admit-Bounded :
      (content : Text) (expires : ℕ) (m : Memory)
      → (is_some (lookup key m.items) || not (is_full m)) ≡ true
      → HasRoom ns name key m
      → Bounded ns m
      → Bounded ns (admit name key content expires m).1
  admit-Bounded content expires m h r b =
      enter-Bounded expires (write key content expires m) r
        (write-Bounded ns key content expires m h b)

  admit_if_room-Bounded :
      (content : Text) (expires : ℕ) (m : Memory)
      → HasRoom ns name key m
      → Bounded ns m
      → Bounded ns (admit_if_room name key content expires m).1
  admit_if_room-Bounded content expires m r b = go (is_full m) refl
    where
      go :
          (full : Bool)
          → is_full m ≡ full
          → BoundedAfter ns
              (if full then (Outcome.fail capacity, m) else admit name key content expires m)
      go true e = b
      go false e = admit-Bounded content expires m (ground (arith, e)) r b

module _ (ns : Namespace) (name : Text) (key : Key) (limit : ℕ) where
  -- Below its quota the namespace has room.
  room_below : (m : Memory) → (name ≡ ns.name → used ns.name m < ns.limit) → HasRoom ns name key m
  room_below m h e =
      omega
        (arith, h e, count-filter-le (in_space ns.name) (λ x. not (is_member name key x)) m.members)

  evicted_below :
      (now : ℕ) (m : Memory)
      → (name ≡ ns.name → used ns.name m < ns.limit)
      → name ≡ ns.name
      → used ns.name (evict_expired now m) < ns.limit
  unfolding evict_expired
  evicted_below now m h e = omega (
    arith,
    h e,
    count-filter-le (in_space ns.name) (λ x. not (has_expired now m x.key)) m.members,
  )

  module _ (agrees : name ≡ ns.name → limit ≡ ns.limit) where
    below :
        (m : Memory) → leb limit (used name m) ≡ false → name ≡ ns.name → used ns.name m < ns.limit
    below m h e = subst (λ t. used t m < ns.limit) e (ground (arith, h, agrees e))

    set_untracked-Bounded :
        (content : Text) (now ttl : ℕ) (m : Memory)
        → Bounded ns m
        → Bounded ns (set_untracked name key content now ttl limit m).1
    unfolding set_untracked
    set_untracked-Bounded content now ttl m b = go (leb limit (used name m)) refl (is_full m) refl
      where
        go :
            (over : Bool)
            → leb limit (used name m) ≡ over
            → (full : Bool) → is_full m ≡ full
            → BoundedAfter ns (
                if over
                then (Outcome.fail capacity, m)
                else if full
                then admit_if_room name key content (now + ttl) (evict_expired now m)
                else admit name key content (now + ttl) m)
        go true e full f = b
        go false e true f =
            admit_if_room-Bounded ns name key content (now + ttl) (evict_expired now m)
              (room_below (evict_expired now m) (evicted_below now m (below m e)))
              (evict_expired-Bounded ns now m b)
        go false e false f =
            admit-Bounded ns name key content (now + ttl) m (ground (arith, f))
              (room_below m (below m e)) b

    pub set_item-Bounded :
        (content : Text) (now ttl : ℕ) (o : Option Item) (m : Memory)
        → fresh now key m ≡ o
        → Bounded ns m
        → Bounded ns (set_item name key content now ttl limit o m).1
    set_item-Bounded content now ttl none m e b =
        set_untracked-Bounded content now ttl
          (record (leave name key m) { items = remove key m.items })
          (record {
            entries = omega (arith, length-remove-le key m.items, b.entries);
            members = omega (arith, count-filter-le (in_space ns.name) _ m.members, b.members);
          })
    set_item-Bounded content now ttl (some item) m e b =
        go (any (λ x. is_member name key x && ltb now x.expires) m.members) refl
          (leb limit (used name m)) refl
      where
        there : (is_some (lookup key m.items) || not (is_full m)) ≡ true
        there = ground (arith, e)

        counted :
            any (λ x. is_member name key x && ltb now x.expires) m.members ≡ true
            → HasRoom ns name key m
        counted t n =
            let fewer =
              subst (λ t. used t (leave name key m) < used t m) n
                (filter-is_member name key m.members
                  (any-is_member name key (λ x. ltb now x.expires) m.members t)) in
            omega (arith, fewer, b.members)

        twice :
            leb limit (used name m) ≡ false → HasRoom ns name key (enter name key item.expires m)
        twice f n = ground (
          arith,
          list_beq_iff name name,
          list_beq_iff key key,
          below m f n,
          count-filter-le (in_space ns.name) (λ x. not (is_member name key x))
              (leave name key m).members,
          count-filter-le (in_space ns.name) (λ x. not (is_member name key x)) m.members,
        )

        go :
            (tracked : Bool)
            → any (λ x. is_member name key x && ltb now x.expires) m.members ≡ tracked
            → (over : Bool) → leb limit (used name m) ≡ over
            → BoundedAfter ns (
                if tracked
                then admit name key content (now + ttl) m
                else if over
                then (Outcome.fail capacity, m)
                else admit name key content (now + ttl) (enter name key item.expires m))
        go true t over f = admit-Bounded ns name key content (now + ttl) m there (counted t) b
        go false t true f = b
        go false t false f =
            admit-Bounded ns name key content (now + ttl) (enter name key item.expires m) there
              (twice f) (enter-Bounded ns name key item.expires m (room_below m (below m f)) b)
