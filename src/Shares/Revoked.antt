-- ===== src/Shares/Revoked.antt =====
-- A revoked link stays dead: `revoke_share` of angeld/src/api/sharing.rs and the requests behind it.
use omnidrive.Prelude.{
  ℕ, ◌≡◌, ◌≢◌, refl, sym, ap, subst, String, Bool, true, false, Option, none, List, [], ◌∷◌, inl,
  inr, ◌==◌, Bool-cases, All, update_where, delete_where, find_where_of_none, delete_where-All,
  All-find_where, arith,
}
use omnidrive.Result.{ok}
use omnidrive.Bytes.{Bytes}
use omnidrive.Shares.{
  SharedLink, SharePackKey, Shares, ShareSources, has_share_id, is_open_link, get_shared_link,
  revoke_shared_link, delete_share_pack_keys, get_share_pack_key, is_pack_key, key_of_share,
  sealed_of, revoke_share, get_share_chunk, or_missing,
}
use omnidrive.Shares.Served.{IsOpen, get_share_chunk-IsOpen}

-- No row of the link is open.
abbrev AllRevoked : String → List SharedLink → Type 0
AllRevoked share_id ls = All (λ l. has_share_id share_id l ≡ true → (l.revoked == 0) ≡ false) ls

update-AllRevoked :
    (share_id : String) (ls : List SharedLink)
    → AllRevoked share_id (update_where (is_open_link share_id) (λ l. record l { revoked = 1 }) ls)
unfolding update_where
update-AllRevoked share_id [] = tt
update-AllRevoked share_id (l ∷ ls) = elim (Bool-cases (is_open_link share_id l)) [
  | inl e ↦ rw e ((λ _. refl), update-AllRevoked share_id ls)
  | inr e ↦ rw e ((λ h. ground arith), update-AllRevoked share_id ls)
]

not_open :
    (now : ℕ) (share_id : String) (token : Option String) (s : Shares) (link : SharedLink)
    → AllRevoked share_id s.shared_links
    → IsOpen now share_id token s link
    → ⊥
unfolding get_shared_link
not_open now share_id token s link all o =
    let (h, t) =
      All-find_where (λ (l : SharedLink). has_share_id share_id l ≡ true → (l.revoked == 0) ≡ false)
        (has_share_id share_id) s.shared_links all (o.0) in
    let closed = h t in let zero : link.revoked ≡ 0 = o.1 in ground arith

revoked-state :
    (share_id : String) (s : Shares) (b : Bool) (t : Shares)
    → (or_missing share_id (b, t)).0 ≡ ok tt
    → (or_missing share_id (b, t)).1 ≡ delete_share_pack_keys share_id t
revoked-state share_id s true t h = refl
revoked-state share_id s false t h = cc

dead :
    (w : ShareSources) (share_id : String) (index : ℕ) (token : Option String) (t : Shares)
    (bytes : Bytes)
    → AllRevoked share_id t.shared_links
    → (get_share_chunk w share_id index token (delete_share_pack_keys share_id t)).0 ≢ ok bytes
unfolding delete_share_pack_keys
dead w share_id index token t bytes all q =
    let (link, o) =
      get_share_chunk-IsOpen w share_id index token (delete_share_pack_keys share_id t) q in
    not_open w.now share_id token (delete_share_pack_keys share_id t) link all o

no_key :
    (share_id pack_id : String) (t : Shares)
    → get_share_pack_key share_id pack_id (delete_share_pack_keys share_id t) ≡ none
unfolding get_share_pack_key delete_share_pack_keys
no_key share_id pack_id t = ap sealed_of (
    find_where_of_none (is_pack_key share_id pack_id) _ (
      others (delete_where (key_of_share share_id) t.share_pack_keys)
        (delete_where-All (key_of_share share_id) t.share_pack_keys)))
  where
    others :
        (ks : List SharePackKey)
        → All (λ k. key_of_share share_id k ≡ false) ks
        → All (λ k. is_pack_key share_id pack_id k ≡ false) ks
    others [] h = tt
    others (k ∷ ks) h = (rw (h.0) refl, others ks h.1)

-- Behind a revocation that succeeds, no chunk of the link is served, whatever the index, the token
-- and the time, and none of its sealed keys is left.
pub revoke_share_lem :
    (w : ShareSources) (share_id pack_id : String) (index : ℕ) (token : Option String) (s : Shares)
    (bytes : Bytes)
    → (revoke_share none share_id s).0 ≡ ok tt
    → (let s' = (revoke_share none share_id s).1 in
        ((get_share_chunk w share_id index token s').0 ≢ ok bytes)
        × (get_share_pack_key share_id pack_id s' ≡ none))
unfolding revoke_share revoke_shared_link
revoke_share_lem w share_id pack_id index token s bytes h =
    let t = (revoke_shared_link share_id s).1 in
    let e = revoked-state share_id s (revoke_shared_link share_id s).0 t h in
    subst
      (λ (s' : Shares).
        ((get_share_chunk w share_id index token s').0 ≢ ok bytes)
        × (get_share_pack_key share_id pack_id s' ≡ none))
      (sym e)
      (
        dead w share_id index token t bytes (update-AllRevoked share_id s.shared_links),
        no_key share_id pack_id t,
      )
