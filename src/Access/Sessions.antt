-- ===== src/Access/Sessions.antt =====
-- The life of a session: angeld/src/db/sessions.rs.
use omnidrive.Prelude.{
  ℕ, ◌+◌, ◌≤◌, ◌≡◌, refl, sym, ap, String, Bool, true, false, ◌||◌, not, none, some, List, [], ◌∷◌,
  eq_refl, ltb, if◌then◌else◌, is_some, update_where, count_where, find_where, any_where, arith,
  Bool-cases, inl, inr, All, find_where-append, find-delete_other, find_where-any, any_where-false,
  any_where_of_none, count_where_of_none, update_where_none, any_where-count, lt→ltb, ◌∙◌,
}
use omnidrive.Result.{Result, ok, err}
use omnidrive.Access.{
  Accounts, UserSession, AccountError, constraint_failed, has_token, is_live_session, new_session,
  is_user, is_expired, renewed, create_user_session, validate_user_session, renew_user_session,
  cleanup_expired_sessions,
}

not_live :
    (t : ℕ) (token : String) (ss : List UserSession)
    → All (λ s. has_token token s ≡ false) ss
    → any_where (is_live_session t token) ss ≡ false
not_live t token ss h = any_where_of_none (is_live_session t token) ss (go ss h)
  where
    go :
        (rs : List UserSession)
        → All (λ s. has_token token s ≡ false) rs
        → All (λ s. is_live_session t token s ≡ false) rs
    go [] k = tt
    go (r ∷ rs) k = (rw (k.0), go rs k.1)

abbrev refused_row : Accounts → Result AccountError UserSession × Accounts
refused_row x = (err constraint_failed, x)

abbrev created_row : UserSession → Accounts → Result AccountError UserSession × Accounts
created_row s x = (ok s, x)

created-cases :
    (b : Bool) (s n : UserSession) (x y a' : Accounts)
    → (if b then refused_row x else created_row n y) ≡ created_row s a'
    → (b ≡ false) × (s ≡ n) × (a' ≡ y)
created-cases true s n x y a' e = absurd (ground arith)
created-cases false s n x y a' e = (refl, cc, cc)

-- A session that was created is valid exactly until its TTL has passed: before that its token finds it, and from
-- `now + ttl` on it finds no session.
pub create-validate :
    (now ttl : ℕ) (token user_id device_id : String) (s : UserSession) (a a' : Accounts)
    → create_user_session now token user_id device_id ttl a ≡ (ok s, a')
    → (t : ℕ) → validate_user_session t token a' ≡ (if ltb t (now + ttl) then some s else none)
unfolding create_user_session validate_user_session
create-validate now ttl token user_id device_id s a a' e t =
    let c =
      created-cases (any_where (has_token token) a.user_sessions || not (is_user a user_id)) s _ _ _
        a' e in
    rw (
      c.2,
      c.1,
      find_where-append (is_live_session t token) (new_session now token user_id device_id ttl)
          a.user_sessions
          (not_live t token a.user_sessions
            (any_where-false (has_token token) a.user_sessions (ground arith))),
      eq_refl token,
    )

-- The cleanup changes no answer of a validation at its time or later: it deletes expired sessions
-- only.
pub cleanup-validate :
    (now t : ℕ) (token : String) (a : Accounts)
    → now ≤ t
    → validate_user_session t token (cleanup_expired_sessions now a).1
      ≡ validate_user_session t token a
unfolding cleanup_expired_sessions validate_user_session
cleanup-validate now t token a h =
    find-delete_other (is_live_session t token) (is_expired now) a.user_sessions λ s e. ground arith

dead-later :
    (now t : ℕ) (token : String) (s : UserSession)
    → now ≤ t
    → is_live_session now token s ≡ false
    → is_live_session t token s ≡ false
dead-later now t token s h e = ground arith

renewed_rows-none :
    (now t e : ℕ) (token : String) (ss : List UserSession)
    → now ≤ t
    → ltb t e ≡ false
    → find_where (is_live_session t token) (update_where (is_live_session now token) (renewed e) ss)
      ≡ none
unfolding find_where update_where
renewed_rows-none now t e token [] h k = refl
renewed_rows-none now t e token (s ∷ ss) h k = elim (Bool-cases (is_live_session now token s)) [
  | inl l ↦ ground (arith, renewed_rows-none now t e token ss h k)
  | inr l ↦ ground (arith, dead-later now t token s h l, renewed_rows-none now t e token ss h k)
]

renewed_rows :
    (now t e : ℕ) (token : String) (ss : List UserSession) {s : UserSession}
    → now ≤ t
    → find_where (is_live_session now token) ss ≡ some s
    → find_where (is_live_session t token) (update_where (is_live_session now token) (renewed e) ss)
      ≡ (if ltb t e then some (renewed e s) else none)
unfolding find_where update_where
renewed_rows now t e token [] h k = cc
renewed_rows now t e token (r ∷ rs) {s} h k = elim (Bool-cases (is_live_session now token r)) [
  | inl l ↦
      let q : r ≡ s = ground arith in
      let token_of : has_token token r ≡ true = ground arith in
      elim (Bool-cases (ltb t e)) [
        | inl u ↦ rw (l, token_of, u, q)
        | inr u ↦ rw (l, token_of, u) (renewed_rows-none now t e token rs h u)
      ]
  | inr l ↦
      rw (l, dead-later now t token r h l) (renewed_rows now t e token rs {s = s} h (ground arith))
]

-- A renewal of a valid session moves its expiry to `now + ttl`, keeps all else of it, and answers
-- true; from `now` on the token finds the renewed session up to that time, and none behind it.
pub renew-validate :
    (now ttl : ℕ) (token : String) (a : Accounts) {s : UserSession}
    → validate_user_session now token a ≡ some s
    → (t : ℕ) → now ≤ t
    → ((renew_user_session now token ttl a).0 ≡ true)
      × (validate_user_session t token (renew_user_session now token ttl a).1
          ≡ (if ltb t (now + ttl) then some (renewed (now + ttl) s) else none))
unfolding renew_user_session validate_user_session
renew-validate now ttl token a {s} e t h = (
  lt→ltb 0 (count_where (is_live_session now token) a.user_sessions) (
      any_where-count (is_live_session now token) a.user_sessions
        (sym (find_where-any (is_live_session now token) a.user_sessions) ∙ ap is_some e)),
  renewed_rows now t (now + ttl) token a.user_sessions h e,
)

-- A session that has expired, or was never there, is not revived: a renewal of its token answers
-- false and changes nothing.
pub renew-expired :
    (now ttl : ℕ) (token : String) (a : Accounts)
    → validate_user_session now token a ≡ none
    → renew_user_session now token ttl a ≡ (false, a)
unfolding renew_user_session validate_user_session
renew-expired now ttl token a e =
    let dead =
      any_where-false (is_live_session now token) a.user_sessions
        (sym (find_where-any (is_live_session now token) a.user_sessions) ∙ ap is_some e) in
    rw (
      count_where_of_none (is_live_session now token) a.user_sessions dead,
      update_where_none (is_live_session now token) (renewed (now + ttl)) a.user_sessions dead,
    )
