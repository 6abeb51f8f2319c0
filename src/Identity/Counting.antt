-- ===== src/Identity/Counting.antt =====
-- What a plan leaves of the active administrators, counted over the rows of `users`.
use furtalk.Base.{
  ℕ, suc, ◌+◌, ◌≤◌, ◌≡◌, refl, Bool, true, false, not, ◌&&◌, Option, none, some, List, [], ◌∷◌,
  count, find?, arith, ◌⊎◌, inl, inr, Bool-cases,
}
use furtalk.Base.Equality.{nat_eq}
use furtalk.Base.Counting.{count_mono, count-split}
use furtalk.Domain.{role_eq, user_status_eq}
use furtalk.Domain.Entities.{User}
use furtalk.Store.{Result, ok, err}
use furtalk.Store.Users.{has_id, is_active_admin, is_among}
use furtalk.Identity.Batch.{
  UserAction, UserPlan, BatchPlan, plan_admin_removal, plan_user_action, plan_users, after_find,
  after_plan, add_plan,
}
use furtalk.Identity.Commands.{is_destructive}

-- No identifier stands twice: the primary key of the table.
abbrev pub UniqueIds : List User → Type 0
UniqueIds us = (k : ℕ) → count (has_id k) us ≤ 1

-- The rows that pass a test, the one with this identifier left out.
abbrev pub but : ℕ → (User → Bool) → User → Bool
but k p u = p u && not (has_id k u)

abbrev pub but_all : List ℕ → (User → Bool) → User → Bool
but_all ids p u = p u && not (is_among ids u)

none-count :
    (k : ℕ) (p : User → Bool) (us : List User)
    → count (has_id k) us ≤ 0
    → count p us ≤ count (but k p) us
none-count k p [] h = omega arith
none-count k p (u ∷ us) h = ground (arith, none-count k p us)

-- Leaving out a row that does not pass the test takes nothing from the count.
pub count-but :
    (k : ℕ) (p : User → Bool) (us : List User) (u : User)
    → count (has_id k) us ≤ 1
    → find? (has_id k) us ≡ some u
    → p u ≡ false
    → count p us ≤ count (but k p) us
count-but k p [] u h e n = omega arith
count-but k p (x ∷ us) u h e n = ground (arith, count-but k p us u, none-count k p us)

-- Leaving out any row takes one at most.
pub count-but-suc :
    (k : ℕ) (p : User → Bool) (us : List User)
    → count (has_id k) us ≤ 1
    → count p us ≤ suc (count (but k p) us)
count-but-suc k p us h = omega (arith, count-split p (has_id k) us)

-- One step of the plan: the count goes down by one, to one at least, for an active administrator;
-- else a changed row is none.
pub plan_user_action-count :
    (acting : ℕ) (u : User) (action : UserAction) (admins : ℕ) (one : UserPlan)
    → is_destructive action ≡ true
    → plan_user_action acting u action admins ≡ ok one
    → 1 ≤ admins
    → (1 ≤ one.admins)
      × ((suc one.admins ≡ admins) × (one.changed ≡ true)
          ⊎ (one.admins ≡ admins) × ((one.changed && is_active_admin u) ≡ false))
unfolding plan_user_action plan_admin_removal
plan_user_action-count acting u UserAction.disable admins one d e h = ground arith
plan_user_action-count acting u UserAction.soft_delete admins one d e h = ground arith
plan_user_action-count acting u UserAction.hard_delete admins one d e h = ground arith
plan_user_action-count acting u UserAction.enable admins one d e h = ground arith
plan_user_action-count acting u UserAction.verify_email admins one d e h = ground arith
plan_user_action-count acting u UserAction.unverify_email admins one d e h = ground arith
plan_user_action-count acting u UserAction.restore admins one d e h = ground arith
plan_user_action-count acting u UserAction.unknown admins one d e h = ground arith

-- An active administrator's predicate.
abbrev pub Within : (User → Bool) → Type 0
Within p = (u : User) → is_active_admin u ≡ false → p u ≡ false

but-Within : (k : ℕ) (p : User → Bool) → Within p → Within (but k p)
but-Within k p w u n = ground (arith, w u n)

-- The plan leaves an active administrator, and as many of the rows that pass the test as it counts.
abbrev pub Sufficient : (User → Bool) → List User → ℕ → BatchPlan → Type 0
Sufficient p us admins plan =
    (1 ≤ plan.admins_left)
    × (count p us + plan.admins_left ≤ count (but_all plan.changed_ids p) us + admins)

-- One step and the plan of the rest, put together.
step-count :
    (id : ℕ) (p : User → Bool) (us : List User) (u : User) (admins : ℕ) (one : UserPlan)
    (rest : Result BatchPlan) (plan : BatchPlan)
    → UniqueIds us
    → Within p
    → find? (has_id id) us ≡ some u
    → (1 ≤ one.admins)
      × ((suc one.admins ≡ admins) × (one.changed ≡ true)
          ⊎ (one.admins ≡ admins) × ((one.changed && is_active_admin u) ≡ false))
    → ((q : User → Bool) → Within q → (r : BatchPlan) → rest ≡ ok r → Sufficient q us one.admins r)
    → add_plan id one rest ≡ ok plan
    → Sufficient p us admins plan
step-count id p us u admins one (err x) plan uniq w found st ih e = absurd (ground arith)
step-count id p us u admins one (ok r) plan uniq w found st ih e = elim (Bool-cases one.changed) [
  | inl c ↦ ground (
    arith,
    ih (but id p) (but-Within id p w) r refl,
    count_mono (but_all r.changed_ids (but id p)) (but_all (id ∷ r.changed_ids) p)
        (λ v n. ground (arith, n)) us,
    count-but-suc id p us (uniq id),
    count-but id p us u (uniq id) found,
    w u,
  )
  | inr c ↦ ground (arith, ih p w r refl)
]

pub plan_users-count :
    (acting : ℕ) (action : UserAction) (us : List User) (ids : List ℕ) (admins : ℕ)
    (plan : BatchPlan) (p : User → Bool)
    → UniqueIds us
    → is_destructive action ≡ true
    → Within p
    → plan_users acting action us ids admins ≡ ok plan
    → 1 ≤ admins
    → Sufficient p us admins plan
unfolding plan_users
plan_users-count acting action us [] admins plan p uniq d w e h =
    grind (arith, count_mono p (but_all [] p) (λ u n. ground (arith, n)) us)
plan_users-count acting action us (id ∷ ids) admins plan p uniq d w e h =
    found (find? (has_id id) us) refl e
      λ left q wq r er more. plan_users-count acting action us ids left r q uniq d wq er more
  where
    rest : ℕ → Result BatchPlan
    rest left = plan_users acting action us ids left

    found :
        (o : Option User)
        → find? (has_id id) us ≡ o
        → after_find acting id action admins rest o ≡ ok plan
        → ((left : ℕ) (q : User → Bool)
            → Within q
            → (r : BatchPlan) → rest left ≡ ok r
            → 1 ≤ left
            → Sufficient q us left r)
        → Sufficient p us admins plan
    found none o e ih = absurd (ground arith)
    found (some u) o e ih = planned (plan_user_action acting u action admins) refl e
      where
        planned :
            (r : Result UserPlan)
            → plan_user_action acting u action admins ≡ r
            → after_plan id rest r ≡ ok plan
            → Sufficient p us admins plan
        planned (err x) o2 e = absurd (ground arith)
        planned (ok one) o2 e =
            let st = plan_user_action-count acting u action admins one d o2 h in
            step-count id p us u admins one (rest one.admins) plan uniq w o st
              (λ q wq r er. ih one.admins q wq r er st.0) e
