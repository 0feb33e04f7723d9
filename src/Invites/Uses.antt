-- ===== src/Invites/Uses.antt =====
-- How often an invite code of angeld/src/db/invites.rs lets someone join, one request behind the
-- other.
use omnidrive.Prelude.{
  ℕ, ◌+◌, ◌-◌, ◌≡◌, refl, ap, sym, subst, String, true, false, Option, none, some, List, [], ◌∷◌,
  str_eq, eq_iff, ltb, if◌then◌else◌, Bool-cases, inl, inr, find_where, update_where,
  find_where-update_other, ◌<◌, arith, any_where, ◌||◌, not, ◌∙◌,
}
use omnidrive.Access.{is_user}
use omnidrive.Result.{Result, ok, err, ok_or, guard, ok_or-ok, guard-ok, >>=-ok, Result-cases}
use omnidrive.Bytes.{Bytes}
use omnidrive.Invites.{
  DeviceRow, user_of, InviteCodeRecord, Invites, JoinRequest, JoinResponse, JoinError, bad_request,
  has_code, is_usable, used_once_more, get_invite_code, consume_invite_code, create_user,
  create_device, invite_member, check_join, commit_join, post_vault_join, is_invite_code_valid,
}

unfoldable pub left_of : Option InviteCodeRecord → ℕ
left_of none = 0
left_of (some i) = i.max_uses - i.used_count

-- The uses that a code has left.
unfoldable pub uses_left : String → Invites → ℕ
uses_left code s = left_of (get_invite_code code s)

left-update_where :
    (code : String) (rows : List InviteCodeRecord)
    → left_of (find_where (has_code code) (update_where (is_usable code) used_once_more rows))
      ≡ left_of (find_where (has_code code) rows) - 1
unfolding left_of find_where update_where
left-update_where code [] = refl
left-update_where code (r ∷ rows) = elim (Bool-cases (has_code code r)) [
  | inr e ↦ rw (e, e) (left-update_where code rows)
  | inl e ↦ elim (Bool-cases (ltb r.used_count r.max_uses)) [
    | inl f ↦ rw (e, f, e) (omega arith)
    | inr f ↦ rw (e, f, e) (ground arith)
  ]
]

-- A use of one code leaves the others.
left-update_other :
    (code other : String) (rows : List InviteCodeRecord)
    → str_eq other code ≡ false
    → left_of (find_where (has_code code) (update_where (is_usable other) used_once_more rows))
      ≡ left_of (find_where (has_code code) rows)
left-update_other code other rows h = ap left_of (
    find_where-update_other (has_code code) (is_usable other) used_once_more rows (λ r e.
      let o : r.code ≡ other = (eq_iff r.code other).0 (ground arith) in
      let n : str_eq r.code code ≡ false = subst (λ t. str_eq t code ≡ false) (sym o) h in (n, n)))

create_user-codes : (u : String) (s : Invites) → (create_user u s).invite_codes ≡ s.invite_codes
unfolding create_user
create_user-codes u s = elim (Bool-cases (is_user s.accounts u)) [ inl e ↦ rw e | inr e ↦ rw e ]

create_device-codes :
    (now : ℕ) (d u n : String) (k : Bytes) (s : Invites)
    → (create_device now d u n k s).invite_codes ≡ s.invite_codes
unfolding create_device
create_device-codes now d u n k s =
    elim (Bool-cases (
      any_where (λ (r : DeviceRow). str_eq r.device_id d) s.devices
      || not (is_user s.accounts u))) [ inl e ↦ rw e | inr e ↦ rw e ]

commit_join-codes :
    (now : ℕ) (req : JoinRequest) (found : InviteCodeRecord × Bytes) (s : Invites)
    → (commit_join now req found s).1.invite_codes
      ≡ update_where (is_usable req.invite_code) used_once_more s.invite_codes
unfolding commit_join invite_member consume_invite_code
commit_join-codes now req (invite, k) s =
    create_device-codes now req.device_id (user_of req) req.device_name k
      (create_user (user_of req) (consume_invite_code req.invite_code s).1)
    ∙ create_user-codes (user_of req) (consume_invite_code req.invite_code s).1

valid-left :
    (now : ℕ) (i : InviteCodeRecord) → is_invite_code_valid now i ≡ true → 0 < left_of (some i)
unfolding is_invite_code_valid left_of
valid-left now i h = ground arith

-- A request that passes the check names a code with a use left.
check_join-left :
    (decode : String → Option Bytes) (now : ℕ) (req : JoinRequest) (s : Invites)
    {found : InviteCodeRecord × Bytes}
    → check_join decode now req s ≡ ok found
    → 0 < uses_left req.invite_code s
unfolding check_join uses_left
check_join-left decode now req s h =
    let (i, e, h₁) =
      >>=-ok (ok_or (get_invite_code req.invite_code s) (bad_request "invalid_invite_code")) _ h in
    let (_, v, _) =
      >>=-ok (guard (is_invite_code_valid now i) (bad_request "invite_expired_or_exhausted")) _
        h₁ in
    let valid =
      guard-ok (is_invite_code_valid now i) (bad_request "invite_expired_or_exhausted") v in
    rw (ok_or-ok (get_invite_code req.invite_code s) (bad_request "invalid_invite_code") e)
      (valid-left now i valid)

-- An accepted request for the code counts.
unfoldable pub admitted : String → JoinRequest → Result JoinError JoinResponse → ℕ
admitted code req (err e) = 0
admitted code req (ok r) = if str_eq req.invite_code code then 1 else 0

-- The requests one behind the other, each with its time: how many for the code are accepted.
unfoldable pub join_all :
    (String → Option Bytes) → String → List (ℕ × JoinRequest) → Invites → ℕ × Invites
join_all decode code [] s = (0, s)
join_all decode code ((now, req) ∷ rest) s =
    let done = post_vault_join decode now req s in
    let more = join_all decode code rest done.1 in (admitted code req done.0 + more.0, more.1)

join-uses :
    (decode : String → Option Bytes) (code : String) (now : ℕ) (req : JoinRequest) (s : Invites)
    → admitted code req (post_vault_join decode now req s).0
        + uses_left code (post_vault_join decode now req s).1
      ≡ uses_left code s
unfolding post_vault_join admitted uses_left get_invite_code
join-uses decode code now req s = elim (Result-cases (check_join decode now req s)) [
  | inr (e, h) ↦ rw h (omega arith)
  | inl (found, h) ↦
      let codes = commit_join-codes now req found s in
      let left = check_join-left decode now req s h in
      elim (Bool-cases (str_eq req.invite_code code)) [
        | inr e ↦
            rw (h, e)
              (rw codes (omega (arith, left-update_other code req.invite_code s.invite_codes e)))
        | inl e ↦
            let same : req.invite_code ≡ code = (eq_iff req.invite_code code).0 e in
            rw (h, e)
              (rw codes (
                subst
                  (λ (k : String).
                    1
                      + left_of (
                          find_where (has_code k) (
                            update_where (is_usable req.invite_code) used_once_more s.invite_codes))
                    ≡ left_of (find_where (has_code k) s.invite_codes))
                  same (omega (arith, left-update_where req.invite_code s.invite_codes, left))))
      ]
]

-- Requests that come one behind the other: those accepted for a code and the uses that it has left
-- behind them make the uses that it had left before. So a code lets no more join than it allows.
pub join_all-uses_left :
    (decode : String → Option Bytes) (code : String) (requests : List (ℕ × JoinRequest))
    (s : Invites)
    → (join_all decode code requests s).0 + uses_left code (join_all decode code requests s).1
      ≡ uses_left code s
unfolding join_all
join_all-uses_left decode code [] s = omega arith
join_all-uses_left decode code ((now, req) ∷ rest) s = omega (
  arith,
  join-uses decode code now req s,
  join_all-uses_left decode code rest (post_vault_join decode now req s).1,
)
