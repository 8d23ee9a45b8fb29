-- ===== src/Membership/Guards.antt =====
-- Reasoning over the guards of an endpoint, and what require_permission decides.
use trust_chain.Prelude.{
  ℕ, Bool, true, false, not, ◌&&◌, Option, none, some, String, refl, arith, ◌≡◌, ◌≤◌, ap, subst,
  sym, Option-cases, inl, inr,
}
use trust_chain.Membership.Roles.{
  ok, raised, ApiError, Outcome, OrgDb, Permission, require_permission, role_rank, get_role,
  email_not_verified, min_role_for, is_verified, check_permission, requires_verified_email, gate,
  rank_below, rank_of,
}
use trust_chain.Membership.Endpoints.{and_then, refuse_if, Response, or_not_found}

-- What holds of every refusal and of the rest of the endpoint holds of the endpoint.
module _ (P : Response → Type 0) (db : OrgDb) (refused : (e : ApiError) → P (db, raised e)) where
  pub and_then-all :
      {A : Type 0} (o : Outcome A) (next : A → Response)
      → ((a : A) → o ≡ ok a → P (next a))
      → P (and_then db o next)
  unfolding and_then
  and_then-all (raised e) next h = refused e
  and_then-all (ok a) next h = h a refl

  pub refuse_if-all :
      (b : Bool) (e : ApiError) (next : Response) → (b ≡ false → P next) → P (refuse_if db b e next)
  unfolding refuse_if
  refuse_if-all true e next h = refused e
  refuse_if-all false e next h = h refl

pub ok_rank : (role : String) (r : ℕ) → rank_of role ≡ ok r → role_rank role ≡ some r
ok_rank role r h = elim (Option-cases (role_rank role)) [
  | inl unknown ↦ ground (arith, unknown, h)
  | inr (k, known) ↦ ground (arith, known, h)
]

pub or_not_found-found : {A : Type 0} (o : Option A) (m : A) → or_not_found o ≡ ok m → o ≡ some m
or_not_found-found none m h = ground arith
or_not_found-found (some x) m h = ground arith

-- What a granted permission says: the role held ranks at least as high as the permission needs, and
-- the email address is verified where the permission asks for that.

abbrev pub IsGranted : (role : String) (verified : Bool) → Permission → Type 0
IsGranted role verified p =
    (a : ℕ) × (n : ℕ) × (role_rank role ≡ some a)
    × (role_rank (min_role_for p) ≡ some n)
    × (n ≤ a)
    × (requires_verified_email p ≡ true → verified ≡ true)

gate-ok :
    (low unverified : Bool) (role got : String)
    → gate low unverified role ≡ ok got
    → (low ≡ false) × (unverified ≡ false) × (role ≡ got)
gate-ok true unverified role got h = ground arith
gate-ok false true role got h = ground arith
gate-ok false false role got h = (refl, refl, ground arith)

gate-email :
    (low unverified : Bool) (role : String)
    → gate low unverified role ≡ raised email_not_verified
    → low ≡ false
gate-email true unverified role h = ground arith
gate-email false unverified role h = refl

not_below :
    (held needed : Option ℕ)
    → rank_below held needed ≡ false
    → (a : ℕ) × (n : ℕ) × (held ≡ some a) × (needed ≡ some n) × (n ≤ a)
not_below none needed h = ground arith
not_below (some a) none h = ground arith
not_below (some a) (some n) h = (a, n, refl, refl, ground arith)

verified_if_needed :
    (needed verified : Bool) → (needed && not verified) ≡ false → needed ≡ true → verified ≡ true
verified_if_needed needed verified h n = ground arith

check-ok :
    (held : Option String) (verified : Bool) (p : Permission) (role : String)
    → check_permission held verified p ≡ ok role
    → (held ≡ some role) × IsGranted role verified p
check-ok none verified p role h = ground arith
check-ok (some r) verified p role h =
    let needs = requires_verified_email p && not verified in
    let (high, settled, same) =
      gate-ok (rank_below (role_rank r) (role_rank (min_role_for p))) needs r role h in
    let (a, n, ranks, needed, enough) = not_below (role_rank r) (role_rank (min_role_for p)) high in
    (
      ap some same,
      subst (λ x. IsGranted x verified p) same
          (
            a,
            n,
            ranks,
            needed,
            enough,
            verified_if_needed (requires_verified_email p) verified settled,
          ),
    )

gate-open :
    (low unverified : Bool) (role : String)
    → low ≡ false
    → unverified ≡ false
    → gate low unverified role ≡ ok role
gate-open low unverified role h k = ground arith

granted-check :
    (role : String) (verified : Bool) (p : Permission)
    → IsGranted role verified p
    → check_permission (some role) verified p ≡ ok role
granted-check role verified p (a, n, ranks, needed, enough, email) =
    gate-open (rank_below (role_rank role) (role_rank (min_role_for p)))
      (requires_verified_email p && not verified) role
      (subst (λ o. rank_below o (role_rank (min_role_for p)) ≡ false) (sym ranks)
        (subst (λ o. rank_below (some a) o ≡ false) (sym needed) (ground arith)))
      (settled (requires_verified_email p) email)
  where
    settled : (needs : Bool) → (needs ≡ true → verified ≡ true) → (needs && not verified) ≡ false
    settled needs h = ground arith

-- `require_permission` succeeds exactly with the caller's own role in the organization, when that
-- role ranks at least as high as the role the permission needs, and the caller's email address is
-- verified if the permission is one that asks for it.
pub require_permission-grants :
    (user org : ℕ) (p : Permission) (db : OrgDb) (role : String)
    → (require_permission user org p db ≡ ok role
        → (get_role user org db.memberships ≡ some role)
          × IsGranted role (is_verified user db.users) p)
      × (get_role user org db.memberships ≡ some role
          → IsGranted role (is_verified user db.users) p
          → require_permission user org p db ≡ ok role)
unfolding require_permission
require_permission-grants user org p db role = (
  λ h. check-ok (get_role user org db.memberships) (is_verified user db.users) p role h,
  λ held granted.
      subst (λ o. check_permission o (is_verified user db.users) p ≡ ok role) (sym held)
        (granted-check role (is_verified user db.users) p granted),
)

-- A caller who is told to verify the email address holds a sufficient role: the same request is
-- granted once the address is verified.
pub email_error-after_role :
    (user org : ℕ) (p : Permission) (db : OrgDb)
    → require_permission user org p db ≡ raised email_not_verified
    → (role : String) × (get_role user org db.memberships ≡ some role)
      × (check_permission (some role) true p ≡ ok role)
unfolding require_permission
email_error-after_role user org p db h = check-email (get_role user org db.memberships) h
  where
    no_matter : (b : Bool) → (b && false) ≡ false
    no_matter b = ground arith

    check-email :
        (held : Option String)
        → check_permission held (is_verified user db.users) p ≡ raised email_not_verified
        → (role : String) × (held ≡ some role) × (check_permission (some role) true p ≡ ok role)
    check-email none e = ground arith
    check-email (some role) e =
        let low = rank_below (role_rank role) (role_rank (min_role_for p)) in
        let high =
          gate-email low (requires_verified_email p && not (is_verified user db.users)) role e in
        (
          role,
          refl,
          gate-open low (requires_verified_email p && false) role high
              (no_matter (requires_verified_email p)),
        )
