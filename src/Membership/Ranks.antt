-- ===== src/Membership/Ranks.antt =====
-- Who may change whom: what a granted change of role or removal says of the ranks.
use trust_chain.Prelude.{ℕ, false, some, List, String, arith, ◌≢◌, ◌≡◌, ◌<◌, ◌==◌, leb}
use trust_chain.Membership.Roles.{
  Membership, get_membership, ok, raised, ApiError, Outcome, OrgDb, get_role, role_rank, Permission,
  require_permission, rank_of, member_role_change, member_remove,
}
use trust_chain.Membership.Endpoints.{
  Response, change_role_endpoint, remove_member_endpoint, rank_allows_target_modification,
  or_not_found,
}
use trust_chain.Membership.Guards.{
  and_then-all, refuse_if-all, require_permission-grants, ok_rank, or_not_found-found,
}

-- The actor and the target are members of the organization, and the target ranks below.
abbrev pub Outranks : (actor target org a : ℕ) → List Membership → Type 0
Outranks actor target org a rows =
    (held : String) × (row : Membership) × (t : ℕ) × (get_role actor org rows ≡ some held)
    × (role_rank held ≡ some a)
    × (get_membership target org rows ≡ some row)
    × (role_rank row.role ≡ some t)
    × (t < a)

abbrev refusal : ApiError → Outcome (Unit {0})
refusal e = raised e

raised_not_ok : (e : ApiError) → refusal e ≢ ok tt
raised_not_ok e h = ground arith

-- A change of role that is granted is asked for by a member of the organization who ranks strictly
-- above the target's role and above the new one, and who is not the target; a removal that is
-- granted, by a member who ranks strictly above the target.
pub granted-Outranks :
    (actor target org : ℕ) (new_role : String) (now : ℕ) (db : OrgDb)
    → ((change_role_endpoint actor target org new_role now db).1 ≡ ok tt
        → (a : ℕ) × (q : ℕ) × Outranks actor target org a db.memberships
          × (role_rank new_role ≡ some q)
          × (q < a)
          × ((target == actor) ≡ false))
      × ((remove_member_endpoint actor target org db).1 ≡ ok tt
          → (a : ℕ) × Outranks actor target org a db.memberships)
unfolding change_role_endpoint remove_member_endpoint rank_allows_target_modification
granted-Outranks actor target org new_role now db = (
  (let P : Response → Type 0 = λ r.
        r.1 ≡ ok tt
        → (a : ℕ) × (q : ℕ) × Outranks actor target org a db.memberships
          × (role_rank new_role ≡ some q)
          × (q < a)
          × ((target == actor) ≡ false) in
      let no_grant : (e : ApiError) → P (db, raised e) = λ e h. absurd (raised_not_ok e h) in
      and_then-all P db no_grant _ _ (λ held granted. refuse_if-all P db no_grant _ _ _ (λ _.
        refuse_if-all P db no_grant _ _ _ (λ other. and_then-all P db no_grant _ _ (λ row found.
          and_then-all P db no_grant _ _ (λ a ranks.
            and_then-all P db no_grant _ _ (λ t target_ranks.
              and_then-all P db no_grant _ _ (λ q new_ranks.
                refuse_if-all P db no_grant _ _ _ (λ allowed.
                  refuse_if-all P db no_grant _ _ _ (λ _ _. (
                    a,
                    q,
                    outranked member_role_change held row a t granted found ranks target_ranks
                        (ground (arith, allowed)),
                    ok_rank new_role q new_ranks,
                    ground (arith, allowed),
                    other,
                  ))))))))))),
  (let P : Response → Type 0 =
        λ r. r.1 ≡ ok tt → (a : ℕ) × Outranks actor target org a db.memberships in
      let no_grant : (e : ApiError) → P (db, raised e) = λ e h. absurd (raised_not_ok e h) in
      and_then-all P db no_grant _ _ (λ held granted. and_then-all P db no_grant _ _ (λ row found.
        and_then-all P db no_grant _ _ (λ t target_ranks. and_then-all P db no_grant _ _ (λ a ranks.
          refuse_if-all P db no_grant _ _ _ (λ above. refuse_if-all P db no_grant _ _ _ (λ _ _. (
            a,
            outranked member_remove held row a t granted found ranks target_ranks
                (leb-false a t above),
          )))))))),
)
  where
    leb-false : (x y : ℕ) → leb x y ≡ false → y < x
    leb-false x y h = ground arith

    outranked :
        (p : Permission) (held : String) (row : Membership) (a t : ℕ)
        → require_permission actor org p db ≡ ok held
        → or_not_found (get_membership target org db.memberships) ≡ ok row
        → rank_of held ≡ ok a
        → rank_of row.role ≡ ok t
        → t < a
        → Outranks actor target org a db.memberships
    outranked p held row a t granted found ranks target_ranks below = (
      held,
      row,
      t,
      ((require_permission-grants actor org p db held).0 granted).0,
      ok_rank held a ranks,
      or_not_found-found (get_membership target org db.memberships) row found,
      ok_rank row.role t target_ranks,
      below,
    )
