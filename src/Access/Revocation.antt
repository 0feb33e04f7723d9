-- ===== src/Access/Revocation.antt =====
-- What a granted request shows of the tables, and that a revocation takes effect at once: the
-- checks of angeld/src/acl.rs.
use mathlib.Core.List.{Memᴰ}
use omnidrive.Prelude.{
  ℕ, ◌≤◌, ◌<◌, ◌≡◌, ◌≢◌, refl, sym, ap, ◌∙◌, String, true, false, Option, none, some, str_eq,
  eq_iff, leb, find_where, arith, Bool-cases, Option-cases, inl, inr, All-find_where, All-Memᴰ,
  delete_where-All, leb→le, All-of_Memᴰ, subst,
}
use omnidrive.Result.{Result, ok, err}
use omnidrive.Access.{
  Accounts, UserSession, VaultMemberRecord, Role, level, role_from_str, satisfies, ApiError,
  AuthorizedCaller, bearer, is_live_session, member_of, validate_user_session, get_vault_member,
  session_of, delete_user_sessions_for_user, remove_vault_member, session_or_unauthorized,
  authenticate_token, authenticate_session, check_then, known_role, grant, admit, authorize,
  require_role,
}

-- The session that a request shows.
pub record Authenticated (now : ℕ) (authorization : Option String) (a : Accounts) (s : UserSession)
    : Type 0 where
  pub shown : bearer authorization ≡ some s.token
  pub present : Memᴰ s a.user_sessions
  pub live : now < s.expires_at

authenticate-Authenticated :
    (now : ℕ) (authorization : Option String) (a : Accounts) {s : UserSession}
    → authenticate_session now authorization a ≡ ok s
    → Authenticated now authorization a s
unfolding authenticate_session validate_user_session
authenticate-Authenticated now authorization a {s} e = elim (Option-cases (bearer authorization)) [
  | inl n ↦ let q : authenticate_token now none a ≡ ok s = rw n at e in absurd (ground arith)
  | inr (token, b) ↦
      let q : session_or_unauthorized (find_where (is_live_session now token) a.user_sessions)
          ≡ ok s =
        rw b at e in
      let found : find_where (is_live_session now token) a.user_sessions ≡ some s = ok_of _ q in
      let row =
        All-find_where (λ r. Memᴰ r a.user_sessions) (is_live_session now token) a.user_sessions
          (All-Memᴰ a.user_sessions) found in
      record {
        shown = b ∙ ap some (sym ((eq_iff s.token token).0 (ground arith)));
        present = row.0;
        live = ground arith;
      }
]
  where
    ok_of : (o : Option UserSession) → session_or_unauthorized o ≡ ok s → o ≡ some s
    ok_of none q = absurd (ground arith)
    ok_of (some r) q = cc

-- What a granted request shows: the session of its token is in the table and has not expired, the
-- vault is initialized, and the caller's row in it has a role of at least the required level.
pub record Authorized (now : ℕ) (authorization : Option String) (min_role : Role) (a : Accounts)
    (c : AuthorizedCaller) : Type 0 where
  pub session : UserSession
  pub authenticated : Authenticated now authorization a session
  pub user : c.user_id ≡ session.user_id
  pub device : c.device_id ≡ session.device_id
  pub vault : a.vault_state ≡ some c.vault_id
  pub row : VaultMemberRecord
  pub row_present : Memᴰ row a.vault_members
  pub row_user : row.user_id ≡ c.user_id
  pub row_vault : row.vault_id ≡ c.vault_id
  pub row_role : role_from_str row.role ≡ some c.role
  pub enough : level min_role ≤ level c.role

check_then-ok {ℓ κ} :
    {A : Type ℓ} {B : Type κ} (r : Result ApiError A) (f : A → Result ApiError B) {b : B}
    → check_then r f ≡ ok b
    → (x : A) × (r ≡ ok x) × (f x ≡ ok b)
check_then-ok (ok x) f e = (x, refl, e)
check_then-ok (err q) f e = absurd (ground arith)

known_role-ok : (text : String) (o : Option Role) {r : Role} → known_role text o ≡ ok r → o ≡ some r
known_role-ok text none e = absurd (ground arith)
known_role-ok text (some x) e = cc

-- The two sides of the last check.
grant-ok :
    (min_role : Role) (s : UserSession) (v : String) (r : Role) {c : AuthorizedCaller}
    → grant min_role s v r ≡ ok c
    → (level min_role ≤ level r)
      × (record { user_id = s.user_id; device_id = s.device_id; vault_id = v; role = r } ≡ c)
unfolding grant satisfies
grant-ok min_role s v r {c} e = elim (Bool-cases (leb (level min_role) (level r))) [
  | inl q ↦ (leb→le (level min_role) (level r) q, ground arith)
  | inr q ↦ absurd (ground arith)
]

authorize-Authorized :
    (now : ℕ) (authorization : Option String) (min_role : Role) (a : Accounts) (s : UserSession)
    (v : Option String) {c : AuthorizedCaller}
    → Authenticated now authorization a s
    → a.vault_state ≡ v
    → authorize min_role s v a ≡ ok c
    → Authorized now authorization min_role a c
unfolding get_vault_member
authorize-Authorized now authorization min_role a s none h k e = absurd (ground arith)
authorize-Authorized now authorization min_role a s (some v) {c} h k e =
    elim (Option-cases (find_where (member_of s.user_id v) a.vault_members)) [
      | inl n ↦ let q : admit min_role s v none ≡ ok c = rw n at e in absurd (ground arith)
      | inr (m, f) ↦
          let q : admit min_role s v (some m) ≡ ok c = rw f at e in
          let r = check_then-ok (known_role m.role (role_from_str m.role)) (grant min_role s v) q in
          let g = grant-ok min_role s v r.0 r.2 in
          let row =
            All-find_where (λ x. Memᴰ x a.vault_members) (member_of s.user_id v) a.vault_members
              (All-Memᴰ a.vault_members) f in
          record {
            session = s;
            authenticated = h;
            user = ap (λ (x : AuthorizedCaller). x.user_id) (sym g.1);
            device = ap (λ (x : AuthorizedCaller). x.device_id) (sym g.1);
            vault = k ∙ ap (λ (x : AuthorizedCaller). some x.vault_id) g.1;
            row = m;
            row_present = row.0;
            row_user =
                (eq_iff m.user_id s.user_id).0 (ground arith)
                ∙ ap (λ (x : AuthorizedCaller). x.user_id) g.1;
            row_vault =
                (eq_iff m.vault_id v).0 (ground arith)
                ∙ ap (λ (x : AuthorizedCaller). x.vault_id) g.1;
            row_role =
                known_role-ok m.role (role_from_str m.role) r.1
                ∙ ap (λ (x : AuthorizedCaller). some x.role) g.1;
            enough = subst (λ (x : AuthorizedCaller). level min_role ≤ level x.role) g.1 g.0;
          }
    ]

-- `require_role` grants a request only on evidence: the bearer token names a session in the table
-- that has not expired, the vault is initialized, and a row of vault_members gives the session's
-- user a known role of at least the required level in that vault.
pub require_role-Authorized :
    (now : ℕ) (authorization : Option String) (min_role : Role) (a : Accounts)
    (c : AuthorizedCaller)
    → require_role now authorization min_role a ≡ ok c
    → Authorized now authorization min_role a c
unfolding require_role
require_role-Authorized now authorization min_role a c e =
    let r =
      check_then-ok (authenticate_session now authorization a)
        (λ s. authorize min_role s a.vault_state a) e in
    authorize-Authorized now authorization min_role a r.0 a.vault_state
      (authenticate-Authenticated now authorization a r.1) refl r.2

-- In the tables that the deletion of a user's sessions leaves, no request is granted as that user,
-- whatever token it shows and whatever the time.
pub delete_sessions-revokes :
    (user_id : String) (a : Accounts) (now : ℕ) (authorization : Option String) (min_role : Role)
    (c : AuthorizedCaller)
    → require_role now authorization min_role (delete_user_sessions_for_user user_id a).1 ≡ ok c
    → c.user_id ≢ user_id
unfolding delete_user_sessions_for_user
delete_sessions-revokes user_id a now authorization min_role c e q =
    let h = require_role-Authorized now authorization min_role _ c e in
    let gone : session_of user_id h.session ≡ false =
      All-of_Memᴰ (λ s. session_of user_id s ≡ false) _
        (delete_where-All (session_of user_id) a.user_sessions) h.authenticated.present in
    let is_user : session_of user_id h.session ≡ true =
      (eq_iff h.session.user_id user_id).1 (sym h.user ∙ q) in
    ground arith

-- In the tables that the removal of a member leaves, no request is granted as that user in that
-- vault, also not with a session that is still valid.
pub remove_member-revokes :
    (user_id vault_id : String) (a : Accounts) (now : ℕ) (authorization : Option String)
    (min_role : Role) (c : AuthorizedCaller)
    → require_role now authorization min_role (remove_vault_member user_id vault_id a).1 ≡ ok c
    → c.vault_id ≡ vault_id
    → c.user_id ≢ user_id
unfolding remove_vault_member
remove_member-revokes user_id vault_id a now authorization min_role c e v q =
    let h = require_role-Authorized now authorization min_role _ c e in
    let gone : member_of user_id vault_id h.row ≡ false =
      All-of_Memᴰ (λ m. member_of user_id vault_id m ≡ false) _
        (delete_where-All (member_of user_id vault_id) a.vault_members) h.row_present in
    let a_user : str_eq h.row.user_id user_id ≡ true =
      (eq_iff h.row.user_id user_id).1 (h.row_user ∙ q) in
    let a_vault : str_eq h.row.vault_id vault_id ≡ true =
      (eq_iff h.row.vault_id vault_id).1 (h.row_vault ∙ v) in
    ground arith
