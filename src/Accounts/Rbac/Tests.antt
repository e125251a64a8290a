-- ===== src/Accounts/Rbac/Tests.antt =====
-- Runs of the handlers of agent/users_router.py on a small database, and the theorems at inputs of
-- such runs. Ann's access token names the role "admin" here.
use text.Mathlib.Text.{◌==◌}
use mathlib.Core.Bool.{false≢true}
use mathlib.Core.List.Memᴰ
use mathlib.Core.Path.{subst}
use text.Mathlib.TextEquality.{eq_iff}
use wa_graph_rag_backend.Prelude.{
  ◌≡◌, ◌↔◌, ◌⊎◌, refl, sym, ap, ◌∙◌, true, false, some, none, List, [], ◌∷◌, map, Memᴰ,
  if◌then◌else◌, some_inv,
}
use wa_graph_rag_backend.Prelude.Text.{join}
use wa_graph_rag_backend.Database.Action.{Fault, err, http, running}
use wa_graph_rag_backend.Accounts.State.{User, Role, claims, invalid, Client, Db, Env}
use wa_graph_rag_backend.Accounts.Emails.{
  AnyRequest, signed_by, of_auth, serve_each, serve_each-UniqueEmails,
}
use wa_graph_rag_backend.Accounts.Auth.Emails.{UniqueEmails}
use wa_graph_rag_backend.Accounts.Auth.History.{post_register, serve}
use wa_graph_rag_backend.Accounts.Tokens.{
  verification_token_expiry, make_otp, hash_password, decode_access_token,
}
use wa_graph_rag_backend.Accounts.Guards.{
  CurrentUser, elem, bearer_token, get_current_user, get_current_active_user, require_roles,
}
use wa_graph_rag_backend.Accounts.Calls.{
  insert_email_verifications, update_users, insert_users, insert_user_roles, delete_users,
  delete_user_roles, first_user, first_role,
}
use wa_graph_rag_backend.Accounts.Auth.{get_user_roles, assign_role, finish_registration, register}
use wa_graph_rag_backend.Accounts.Users.{
  UserUpdateRequest, UserCreateRequest, create_user, Listings, admin, replace_roles, update_user,
  delete_user,
}
use wa_graph_rag_backend.Accounts.Rbac.{delete_role, delete_roles}
use wa_graph_rag_backend.Accounts.Rbac.Admin.{
  remove_user, post_user, IsAdmin, serve_admin, serve_admin_guarded,
}
use wa_graph_rag_backend.Accounts.Rbac.Laws.{OneRolePerId, delete_role_lem}
use wa_graph_rag_backend.Accounts.Sample.{sample, sample_db, sample_env, ann, ann_claims, user_role}

serving : Unit {0}
unfolding running hash_password decode_access_token bearer_token get_current_user
    get_current_active_user require_roles update_users insert_users insert_user_roles delete_users
    delete_user_roles first_user first_role get_user_roles assign_role admin replace_roles
    update_user delete_user delete_role delete_roles serve_admin create_user
    insert_email_verifications verification_token_expiry make_otp finish_registration register serve
serving = tt

abbrev admin_client : Client
admin_client = record sample {
  jwt_decode = λ now token.
      if token == "token"
      then claims (record ann_claims { roles = some ("admin" ∷ []) })
      else invalid;
}

abbrev guest_role : Role
guest_role = record { id = "role3"; name = "guest"; description = none }

abbrev rbac_db : Db admin_client
rbac_db = record {
  users = ann ∷ [];
  roles = user_role ∷ guest_role ∷ [];
  user_roles =
      record { user_id = "u1"; role_id = "role2" }
      ∷ record { user_id = "u9"; role_id = "role2" }
      ∷ [];
  permissions = [];
  role_permissions = [];
  refresh_tokens = [];
  password_resets = [];
  email_verifications = [];
}

abbrev rename_ann : UserUpdateRequest
rename_ann = record {
  full_name = some "Ann B.";
  username = none;
  is_active = none;
  role_names = some ("guest" ∷ "unknown" ∷ []);
}

update_user_runs :
    (update_user admin_client "u1" rename_ann "Bearer token" sample_env rbac_db).1.user_roles
    ≡ record { user_id = "u1"; role_id = "role3" }
      ∷ record { user_id = "u9"; role_id = "role2" }
      ∷ []
unfolding serving
update_user_runs = refl

built_in_stays :
    (delete_role admin_client "role2" "Bearer token" sample_env rbac_db).0
    ≡ err (http 400 "Cannot delete a built-in role")
unfolding serving
built_in_stays = refl

not_for_users :
    (delete_user sample "u1" "Bearer token" sample_env sample_db).0
    ≡ err (http 403 "Required role(s): admin")
unfolding serving join
not_for_users = refl

abbrev lists_of : (c : Client) → Listings c
lists_of c = record {
  page_users = λ first last users. some [];
  page_users_rows =
      λ first last s rs e r m. absurd (Memᴰ.not-nil (subst (Memᴰ r) (sym (some_inv e)) m));
  roles_by_name = λ roles. some [];
  permissions_by_name = λ permissions. some [];
  embed_permissions = λ p links permissions. some [];
}

serve_admin_guarded_example :
    ((u : CurrentUser) × IsAdmin sample "Bearer token" sample_env sample_db u)
    ⊎ ((x : Fault) × (serve_admin sample
            (lists_of sample)
            (remove_user "u1")
            "Bearer token"
            sample_env
            sample_db
          ≡ (some x, sample_db)))
serve_admin_guarded_example =
    serve_admin_guarded sample (lists_of sample) (remove_user "u1") "Bearer token" sample_env
      sample_db

two_ids : (x y : Role) → x ≡ user_role → y ≡ guest_role → x.id ≡ y.id → ⊥
two_ids x y a b e =
    false≢true ((eq_iff "role2" "role3").1 (sym (ap (λ z. z.id) a) ∙ e ∙ ap (λ z. z.id) b))

one_role_per_id : OneRolePerId admin_client rbac_db
one_role_per_id r s (Memᴰ.head a) (Memᴰ.head b) e = a ∙ sym b
one_role_per_id r s (Memᴰ.head a) (Memᴰ.tail (Memᴰ.head b)) e = absurd (two_ids r s a b e)
one_role_per_id r s (Memᴰ.tail (Memᴰ.head a)) (Memᴰ.head b) e = absurd (two_ids s r b a (sym e))
one_role_per_id r s (Memᴰ.tail (Memᴰ.head a)) (Memᴰ.tail (Memᴰ.head b)) e = a ∙ sym b
one_role_per_id r s (Memᴰ.head a) (Memᴰ.tail (Memᴰ.tail k)) e = elim k [ ]
one_role_per_id r s (Memᴰ.tail (Memᴰ.head a)) (Memᴰ.tail (Memᴰ.tail k)) e = elim k [ ]
one_role_per_id r s (Memᴰ.tail (Memᴰ.tail k)) _ e = elim k [ ]

abbrev without_guest : Db admin_client
without_guest = record rbac_db { roles = user_role ∷ [] }

delete_role_lem_example :
    ((r : Role) → Memᴰ r without_guest.roles ↔ (Memᴰ r rbac_db.roles × ((r.id == "role3") ≡ false)))
    × ((r : Role)
        → Memᴰ r rbac_db.roles
        → elem r.name ("admin" ∷ "user" ∷ []) ≡ true
        → Memᴰ r without_guest.roles)
unfolding serving
delete_role_lem_example =
    delete_role_lem admin_client "role3" "Bearer token" sample_env rbac_db without_guest tt
      one_role_per_id refl

abbrev renamed : Db admin_client
renamed = record rbac_db {
  users = record ann { full_name = some "Ann B." } ∷ [];
  user_roles =
      record { user_id = "u1"; role_id = "role3" }
      ∷ record { user_id = "u9"; role_id = "role2" }
      ∷ [];
}

abbrev bob : UserCreateRequest
bob = record {
  email = "bob@x.pk";
  password = "password2";
  username = none;
  full_name = none;
  is_active = true;
  is_verified = true;
  role_names = "guest" ∷ [];
}

-- Bob is added by an administrator, registers himself, and is added once more.
abbrev bob_twice : List (AnyRequest × Env)
bob_twice =
    (signed_by "Bearer token" (post_user bob), sample_env)
    ∷ (
      of_auth (
          post_register (record {
            email = "bob@x.pk";
            password = "password3";
            username = none;
            full_name = none;
          })),
      sample_env,
    )
    ∷ (signed_by "Bearer token" (post_user bob), record sample_env { uuid = "u8" })
    ∷ []

bob_is_added_once :
    map
      (λ (u : User). u.email)
      (serve_each admin_client (lists_of admin_client) bob_twice rbac_db).users
    ≡ "bob@x.pk" ∷ "ann@x.pk" ∷ []
unfolding serving
bob_is_added_once = refl

serve_each-UniqueEmails_example :
    UniqueEmails admin_client (serve_each admin_client (lists_of admin_client) bob_twice rbac_db)
serve_each-UniqueEmails_example =
    serve_each-UniqueEmails admin_client (lists_of admin_client) bob_twice rbac_db (λ x y hx hy e.
      ap (λ u. u.id) (Memᴰ.eq_of_singleton hx) ∙ sym (ap (λ u. u.id) (Memᴰ.eq_of_singleton hy)))
