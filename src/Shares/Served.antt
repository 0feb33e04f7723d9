-- ===== src/Shares/Served.antt =====
-- Who is served a chunk of a shared link, and how often: `get_share_chunk` of
-- angeld/src/api/sharing.rs.
use omnidrive.Prelude.{
  ℕ, ◌+◌, ◌≤◌, ◌≡◌, refl, ◌∙◌, sym, subst, String, Bool, true, false, Option, none, some, List, [],
  ◌∷◌, ◌⊎◌, inl, inr, str_eq, eq_iff, ◌==◌, ==_iff, if◌then◌else◌, length, Bool-cases, All,
  All-update_where, Distinct, find_where, arith,
}
use omnidrive.Result.{ok, ok_or, guard, >>=-ok, ok_or-ok, guard-ok, ok-inj, Result-cases}
use omnidrive.Bytes.{Bytes}
use omnidrive.Shares.{
  SharedLink, Shares, ShareSources, has_share_id, get_shared_link, is_shared_link_valid, past,
  used_up, validate_share_password_token, check_share_password_access, check_password, check_token,
  open_share, fetch_chunk, get_share_chunk, increment_shared_link_download_count, unauthorized,
  gone, not_found,
}

-- The link of that id is open at the time, has downloads left, and the caller has the password's
-- token if the link has a password.
abbrev pub IsOpen : ℕ → String → Option String → Shares → SharedLink → Type 0
IsOpen now share_id token s link =
    (get_shared_link share_id s ≡ some link)
    × (link.revoked ≡ 0)
    × (past now link.expires_at ≡ false)
    × (used_up link.download_count link.max_downloads ≡ false)
    × ((link.password_hash ≡ none)
        ⊎ ((t : String) × (token ≡ some t)
            × (validate_share_password_token now t link.share_id s ≡ true)))

valid-fields :
    (now : ℕ) (link : SharedLink)
    → is_shared_link_valid now link ≡ true
    → (link.revoked ≡ 0)
      × (past now link.expires_at ≡ false)
      × (used_up link.download_count link.max_downloads ≡ false)
unfolding is_shared_link_valid
valid-fields now link h = elim (Bool-cases (link.revoked == 0)) [
  | inr e ↦ absurd (ground arith)
  | inl e ↦ elim (Bool-cases (past now link.expires_at)) [
    | inl f ↦ absurd (ground arith)
    | inr f ↦ elim (Bool-cases (used_up link.download_count link.max_downloads)) [
      | inl g ↦ absurd (ground arith)
      | inr g ↦ ((==_iff link.revoked 0).0 e, f, g)
    ]
  ]
]

token-checked :
    (now : ℕ) (token : Option String) (share_id : String) (s : Shares) {u : Unit {0}}
    → check_token now token share_id s ≡ ok u
    → (t : String) × (token ≡ some t) × (validate_share_password_token now t share_id s ≡ true)
token-checked now none share_id s h = cc
token-checked now (some t) share_id s h = elim (Bool-cases (str_eq t "")) [
  | inl e ↦ absurd (ground arith)
  | inr e ↦ (
    t,
    refl,
    guard-ok (validate_share_password_token now t share_id s)
        (unauthorized "invalid or expired share token") (ground arith),
  )
]

password-checked :
    (now : ℕ) (hash token : Option String) (share_id : String) (s : Shares) {u : Unit {0}}
    → check_password now hash token share_id s ≡ ok u
    → (hash ≡ none)
      ⊎ ((t : String) × (token ≡ some t) × (validate_share_password_token now t share_id s ≡ true))
password-checked now none token share_id s h = inl refl
password-checked now (some x) token share_id s h = inr (token-checked now token share_id s h)

open_share-IsOpen :
    (w : ShareSources) (reason : SharedLink → String) (share_id : String) (token : Option String)
    (s : Shares) {link : SharedLink}
    → open_share w reason share_id token s ≡ ok link
    → IsOpen w.now share_id token s link
unfolding open_share check_share_password_access
open_share-IsOpen w reason share_id token s h =
    let (l, e, h₁) = >>=-ok (ok_or (get_shared_link share_id s) (not_found share_id)) _ h in
    let (u, g, h₂) = >>=-ok (guard (is_shared_link_valid w.now l) (gone (reason l))) _ h₁ in
    let (v, p, h₃) = >>=-ok (check_password w.now l.password_hash token l.share_id s) _ h₂ in
    let (r, x, y) = valid-fields w.now l (guard-ok _ _ g) in
    subst (IsOpen w.now share_id token s) (ok-inj h₃) (
      ok_or-ok _ (not_found share_id) e,
      r,
      x,
      y,
      password-checked w.now l.password_hash token l.share_id s p,
    )

-- A chunk is served only of a link that is not revoked, not past its expiry and not used up, and, if
-- it has a password, to a caller whose token is one of that link's and has not expired.
pub get_share_chunk-IsOpen :
    (w : ShareSources) (share_id : String) (index : ℕ) (token : Option String) (s : Shares)
    {bytes : Bytes}
    → (get_share_chunk w share_id index token s).0 ≡ ok bytes
    → (link : SharedLink) × IsOpen w.now share_id token s link
unfolding get_share_chunk
get_share_chunk-IsOpen w share_id index token s h =
    elim (Result-cases (open_share w (λ _. "share is invalid") share_id token s)) [
      | inl (link, e) ↦ (link, open_share-IsOpen w (λ _. "share is invalid") share_id token s e)
      | inr (x, e) ↦ absurd (ground arith)
    ]

-- No link was downloaded more often than it allows.
abbrev pub IsWithin : SharedLink → Type 0
IsWithin l = (max : ℕ) → l.max_downloads ≡ some max → l.download_count ≤ max

abbrev pub same_share : SharedLink → SharedLink → Bool
same_share a b = str_eq a.share_id b.share_id

found_only :
    (share_id : String) (ls : List SharedLink) {link : SharedLink}
    → Distinct same_share ls
    → find_where (has_share_id share_id) ls ≡ some link
    → All (λ r. has_share_id share_id r ≡ true → r ≡ link) ls
unfolding find_where
found_only share_id [] d h = tt
found_only share_id (l ∷ ls) {link = link} d h = elim (Bool-cases (has_share_id share_id l)) [
  | inr e ↦ ((λ t. absurd (cc (e, t))), found_only share_id ls d.1 (ground arith))
  | inl e ↦
      let same : l ≡ link = ground arith in
      let id : l.share_id ≡ share_id = (eq_iff l.share_id share_id).0 e in
      ((λ _. same), others ls id d.0)
]
  where
    others :
        (ts : List SharedLink)
        → l.share_id ≡ share_id
        → All (λ t. same_share t l ≡ false) ts
        → All (λ r. has_share_id share_id r ≡ true → r ≡ link) ts
    others [] id m = tt
    others (t ∷ ts) id m = (
      (λ k.
          absurd (
            cc
              (m.0, (eq_iff t.share_id l.share_id).1 ((eq_iff t.share_id share_id).0 k ∙ sym id)))),
      others ts id m.1,
    )

increment-IsWithin :
    (share_id : String) (s : Shares) {link : SharedLink}
    → Distinct same_share s.shared_links
    → get_shared_link share_id s ≡ some link
    → used_up link.download_count link.max_downloads ≡ false
    → All IsWithin s.shared_links
    → All IsWithin (increment_shared_link_download_count share_id s).shared_links
unfolding increment_shared_link_download_count get_shared_link
increment-IsWithin share_id s {link = link} d e left within =
    All-update_where (λ r. IsWithin r × (has_share_id share_id r ≡ true → r ≡ link)) IsWithin
      (has_share_id share_id) (λ l. record l { download_count = l.download_count + 1 })
      s.shared_links
      (λ r h t max m.
        room r max
          (subst (λ (x : SharedLink). used_up x.download_count x.max_downloads ≡ false)
            (sym (h.1 t)) left)
          m)
      (λ r h _. h.0) (both s.shared_links within (found_only share_id s.shared_links d e))
  where
    room :
        (r : SharedLink) (max : ℕ)
        → used_up r.download_count r.max_downloads ≡ false
        → r.max_downloads ≡ some max
        → r.download_count + 1 ≤ max
    room r max u m =
        let v : used_up r.download_count (some max) ≡ false =
          subst (λ o. used_up r.download_count o ≡ false) m u in
        ground arith

    both :
        (rs : List SharedLink)
        → All IsWithin rs
        → All (λ r. has_share_id share_id r ≡ true → r ≡ link) rs
        → All (λ r. IsWithin r × (has_share_id share_id r ≡ true → r ≡ link)) rs
    both [] h k = tt
    both (r ∷ rs) h k = ((h.0, k.0), both rs h.1 k.1)

-- Requests for chunks, one after another, never make a link's count exceed its limit: with distinct
-- share ids and every count within its limit before a request, every count is within it after,
-- whatever the request and its outcome.
pub get_share_chunk-IsWithin :
    (w : ShareSources) (share_id : String) (index : ℕ) (token : Option String) (s : Shares)
    → Distinct same_share s.shared_links
    → All IsWithin s.shared_links
    → All IsWithin (get_share_chunk w share_id index token s).1.shared_links
unfolding get_share_chunk
get_share_chunk-IsWithin w share_id index token s d within =
    elim (Result-cases (open_share w (λ _. "share is invalid") share_id token s)) [
      | inr (x, e) ↦ rw (e, get_share_chunk) within
      | inl (link, e) ↦ elim (Result-cases (fetch_chunk w link index)) [
        | inr (x, f) ↦ rw (e, get_share_chunk, f) within
        | inl (bytes, f) ↦
            let o = open_share-IsOpen w (λ _. "share is invalid") share_id token s e in
            rw (e, get_share_chunk, f)
              (if-Within (index + 1 == length (w.chunks link.revision_id))
                (increment-IsWithin share_id s d (o.0) (o.3) within))
      ]
    ]
  where
    if-Within :
        (b : Bool)
        → All IsWithin (increment_shared_link_download_count share_id s).shared_links
        → All IsWithin
            (if b then increment_shared_link_download_count share_id s else s).shared_links
    if-Within true h = h
    if-Within false h = within
