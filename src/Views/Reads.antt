-- ===== src/Views/Reads.antt =====
-- The calls that only read keep every property of the database.
use furtalk.Base.{ℕ, Option, none, some, arith}
use furtalk.Domain.{Error, is_not_found}
use furtalk.Domain.Entities.{Comment, Text}
use furtalk.Store.{Db, Action, Result, ok, err, catch}
use furtalk.Store.Contract.{
  Keeps, Holds, Yields-bind, Yields-pure, Yields-raise, Yields-lift, Yields-if,
}
use furtalk.Store.Users.{find_by_id}
use furtalk.Store.Threads.{get_by_site_and_key, get_by_site_and_id}
use furtalk.Views.{
  Env, nickname_of, reply_to_nickname, avatar_base_url, view_for, admin_view_for, shown,
  shown_to_admin,
}

module _ {P : Db → Type 0} where
  pub find_by_id-Keeps : (id : ℕ) → Keeps P (find_by_id id)
  unfolding find_by_id
  find_by_id-Keeps id = record { run = λ db p. grind arith }

  pub get_by_site_and_key-Keeps : (s : ℕ) (k : Text) → Keeps P (get_by_site_and_key s k)
  unfolding get_by_site_and_key
  get_by_site_and_key-Keeps s k = record { run = λ db p. grind arith }

  pub get_by_site_and_id-Keeps : (s id : ℕ) → Keeps P (get_by_site_and_id s id)
  unfolding get_by_site_and_id
  get_by_site_and_id-Keeps s id = record { run = λ db p. grind arith }

  pub catch-Keeps :
      {A : Type 0} {m : Action A} {handler : Error → Action A}
      → Keeps P m
      → ((e : Error) → Keeps P (handler e))
      → Keeps P (catch m handler)
  catch-Keeps {A} {m} {handler} y z = record { run = λ db p. kept db (m db) (y.run db p) }
    where
      kept :
          (db : Db) (r : Result A × Db)
          → Holds (λ _ db'. P db' × Unit {0}) P r
          → Holds (λ _ db'. P db' × Unit {0}) P (catch (λ _. r) handler db)
      kept db (ok a, db') h = h
      kept db (err e, db') h = (z e).run db' h

  nickname_of-Keeps : (target : Option ℕ) → Keeps P (nickname_of target)
  unfolding nickname_of
  nickname_of-Keeps none = Yields-pure none tt
  nickname_of-Keeps (some id) =
      catch-Keeps (Yields-bind (find_by_id-Keeps id) (λ u _. Yields-pure (some u.nickname) tt))
        (λ e. Yields-if (is_not_found e) (λ _. Yields-pure none tt) (λ _. Yields-raise e))

  base-Keeps : (env : Env) → Keeps P (avatar_base_url env)
  unfolding avatar_base_url
  base-Keeps env =
      Yields-bind (Yields-lift {V = λ _. Unit {0}} env.policy (λ _ _. tt))
        (λ pol _. Yields-pure pol.gravatar_base_url tt)

  pub view_for-Keeps : (env : Env) (c : Comment) → Keeps P (view_for env c)
  unfolding view_for reply_to_nickname
  view_for-Keeps env c = Yields-bind (find_by_id-Keeps c.user_id) λ u _.
      Yields-bind (base-Keeps env) λ base _.
        Yields-bind (nickname_of-Keeps c.reply_to_user_id)
          λ n _. Yields-pure (shown env c u base n) tt

  pub admin_view_for-Keeps : (env : Env) (c : Comment) → Keeps P (admin_view_for env c)
  unfolding admin_view_for reply_to_nickname
  admin_view_for-Keeps env c = Yields-bind (find_by_id-Keeps c.user_id) λ u _.
      Yields-bind (get_by_site_and_id-Keeps c.site_id c.thread_id) λ t _.
        Yields-bind (base-Keeps env) λ base _.
          Yields-bind (nickname_of-Keeps c.reply_to_user_id)
            λ n _. Yields-pure (shown_to_admin env c u t base n) tt
