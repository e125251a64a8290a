-- ===== src/Accounts/Auth/Emails.antt =====
-- E-mail addresses stay unique in `users` through the changes that agent/auth_router.py makes.
use Prim.Native.String.{String}
use wa_graph_rag_backend.Prelude.{◌≡◌, sym, ap, ◌∙◌, inl, inr, Bool, true, false, if◌then◌else◌}
use wa_graph_rag_backend.Accounts.State.{User, Client, Db, Env}
use wa_graph_rag_backend.Accounts.Auth.Moves.{UsersMove}

module _ (c : Client) where
  abbrev pub HasOnce : c.users.Store → Type 0
  HasOnce s = (x y : User) → c.users.Has s x → c.users.Has s y → x.email ≡ y.email → x.id ≡ y.id

  -- Two rows of `users` with one e-mail address have one id.
  abbrev pub UniqueEmails : Db c → Type 0
  UniqueEmails db = HasOnce db.users

  patched_key :
      (f : User → User) (g : User → String)
      → ((r : User) → g (f r) ≡ g r)
      → (b : Bool) (x y : User) → x ≡ (if b then f y else y)
      → g x ≡ g y
  patched_key f g keep true x y e = ap g e ∙ keep y
  patched_key f g keep false x y e = ap g e

  pub UsersMove-HasOnce :
      (env : Env) {s t : c.users.Store} → UsersMove c env s t → HasOnce s → HasOnce t
  UsersMove-HasOnce env UsersMove.same h x y hx hy e = h x y hx hy e
  UsersMove-HasOnce env (UsersMove.patched p f id email done) h x y hx hy e =
      let (u, hu, eu) = (c.users.update_rows p f _ _ done x).0 hx in
      let (v, hv, ev) = (c.users.update_rows p f _ _ done y).0 hy in
      patched_key f (λ r. r.id) id (p u) x u eu
      ∙ h u v hu hv (
          sym (patched_key f (λ r. r.email) email (p u) x u eu)
          ∙ e
          ∙ patched_key f (λ r. r.email) email (p v) y v ev)
      ∙ sym (patched_key f (λ r. r.id) id (p v) y v ev)
  UsersMove-HasOnce env (UsersMove.added r new done) h x y hx hy e =
      elim ((c.users.insert_rows r _ _ done x).0 hx) [
        | inl is_x ↦ elim ((c.users.insert_rows r _ _ done y).0 hy) [
          | inl is_y ↦ ap (λ u. u.id) (is_x ∙ sym is_y)
          | inr old ↦ absurd (new y old (sym e ∙ ap (λ u. u.email) is_x))
        ]
        | inr old ↦ elim ((c.users.insert_rows r _ _ done y).0 hy) [
          | inl is_y ↦ absurd (new x old (e ∙ ap (λ u. u.email) is_y))
          | inr old_y ↦ h x y old old_y e
        ]
      ]
  UsersMove-HasOnce env (UsersMove.both m n) h x y hx hy e =
      UsersMove-HasOnce env n (UsersMove-HasOnce env m h) x y hx hy e
