-- ===== src/Indexer/Coverage.antt =====
-- The range that a poll scans, against the cursor before and after it.
use trust_chain.Prelude.{
  refl, none, some, true, false, inl, inr, ℕ, Option, ◌+◌, String, ◌≤◌, ◌≡◌, arith, ◌⊎◌, str_eq,
  subst, List, eq_iff, some-injective, Bool, Option-cases, Bool-cases, leb, ◌-◌, sym, ◌∙◌, ap,
  none-ne-some, ◌<◌,
}
use trust_chain.Indexer.{Cursor, resolve_start_block, rewound, poll_once, handle_logs, end_block}

-- The first block that the cursor does not cover: all from the deployment up to it are processed.

abbrev pub frontier : (deploy_block : ℕ) → Option Cursor → ℕ
frontier deploy_block none = deploy_block
frontier deploy_block (some c) = c.last_block + 1

start-cases :
    (block_hash : ℕ → Option String) (deploy_block : ℕ) (c : Cursor)
    → (resolve_start_block block_hash deploy_block (some c) ≡ c.last_block + 1)
      ⊎ (resolve_start_block block_hash deploy_block (some c) ≡ rewound deploy_block c)
unfolding resolve_start_block
start-cases block_hash deploy_block c = elim (Option-cases (block_hash c.last_block)) [
  | inl gone ↦ inr (rw (resolve_start_block, gone) refl)
  | inr (actual, there_is) ↦ elim (Bool-cases (str_eq actual c.last_block_hash)) [
    | inl same ↦ inl (rw (resolve_start_block, there_is, same) refl)
    | inr differs ↦ inr (rw (resolve_start_block, there_is, differs) refl)
  ]
]

start-same :
    (block_hash : ℕ → Option String) (deploy_block : ℕ) (c : Cursor)
    → block_hash c.last_block ≡ some c.last_block_hash
    → resolve_start_block block_hash deploy_block (some c) ≡ c.last_block + 1
unfolding resolve_start_block
start-same block_hash deploy_block c h =
    let same : str_eq c.last_block_hash c.last_block_hash ≡ true =
      (eq_iff c.last_block_hash c.last_block_hash).1 refl in
    rw (resolve_start_block, h, same) refl

-- A poll starts no later than the first block that is not processed, so no block is skipped, and
-- no earlier than the deployment; against the cursor it goes back at most thirteen blocks, twelve
-- from the last one processed, and by none if the chain still has the hash that the cursor recorded.
pub resolve_start_block-bounds :
    (block_hash : ℕ → Option String) (deploy_block : ℕ) (cursor : Option Cursor)
    → deploy_block ≤ frontier deploy_block cursor
    → (resolve_start_block block_hash deploy_block cursor ≤ frontier deploy_block cursor)
      × (deploy_block ≤ resolve_start_block block_hash deploy_block cursor)
      × (frontier deploy_block cursor ≤ resolve_start_block block_hash deploy_block cursor + 13)
      × ((c : Cursor)
          → cursor ≡ some c
          → block_hash c.last_block ≡ some c.last_block_hash
          → resolve_start_block block_hash deploy_block cursor ≡ c.last_block + 1)
unfolding resolve_start_block
resolve_start_block-bounds block_hash deploy_block none h =
    (omega arith, omega arith, omega arith, λ c e _. ground (arith, e))
resolve_start_block-bounds block_hash deploy_block (some c) h =
    let cases = start-cases block_hash deploy_block c in
    (
      elim cases [ inl e ↦ omega (arith, e) | inr e ↦ omega (arith, e, h) ],
      elim cases [ inl e ↦ omega (arith, e, h) | inr e ↦ omega (arith, e) ],
      elim cases [ inl e ↦ omega (arith, e) | inr e ↦ omega (arith, e) ],
      λ c' e same. resumed c' (some-injective c c' e) same,
    )
  where
    resumed :
        (c' : Cursor)
        → c ≡ c'
        → block_hash c'.last_block ≡ some c'.last_block_hash
        → resolve_start_block block_hash deploy_block (some c) ≡ c'.last_block + 1
    resumed c' e same =
        subst
          (λ d.
            block_hash d.last_block ≡ some d.last_block_hash
            → resolve_start_block block_hash deploy_block (some c) ≡ d.last_block + 1)
          e (start-same block_hash deploy_block c) same

leb-false : (a b : ℕ) → leb a b ≡ false → b < a
leb-false a b h = ground arith

back_and_forth : (a b : ℕ) → b < a → (a - 1) + 1 ≡ a
back_and_forth a b h = omega arith

final :
    (deploy_block tip finality first : ℕ)
    → deploy_block ≤ first
    → first < end_block deploy_block tip finality
    → end_block deploy_block tip finality + finality ≡ tip + 1
final deploy_block tip finality first d h = omega arith

module _ {S Log : Type 0} (block_hash : ℕ → Option String) (logs : ℕ → ℕ → List Log)
    (handler : S → Log → S × Bool) where
  module _ (tip deploy_block finality : ℕ) (cursor : Option Cursor) (s : S) where
    abbrev start : ℕ
    start = resolve_start_block block_hash deploy_block cursor

    abbrev stop : ℕ
    stop = end_block deploy_block tip finality

    abbrev scan : S × ℕ
    scan = handle_logs handler (logs start stop) s

    poll-idle :
        leb stop start ≡ true
        → poll_once block_hash logs handler tip deploy_block finality cursor s ≡ some (cursor, s, 0)
    unfolding poll_once
    poll-idle h = rw (poll_once, h) refl

    poll-raises :
        leb stop start ≡ false
        → block_hash (stop - 1) ≡ none
        → poll_once block_hash logs handler tip deploy_block finality cursor s ≡ none
    unfolding poll_once
    poll-raises h g = rw (poll_once, h, g) refl

    poll-scans :
        (hash : String)
        → leb stop start ≡ false
        → block_hash (stop - 1) ≡ some hash
        → poll_once block_hash logs handler tip deploy_block finality cursor s
          ≡ some (some (record { last_block = stop - 1; last_block_hash = hash }), scan.0, scan.1)
    unfolding poll_once
    poll-scans hash h g = rw (poll_once, h, g) refl

  -- A poll that does not raise either changes nothing, or starts at or before the first block that
  -- was not processed, hands every log from there up to the new frontier to the handler once and in
  -- order, and leaves the cursor at the last block that has `finality` blocks after it.
  pub poll_once-covers :
      (tip deploy_block finality handled : ℕ) (cursor after : Option Cursor) (s s' : S)
      → deploy_block ≤ frontier deploy_block cursor
      → poll_once block_hash logs handler tip deploy_block finality cursor s
        ≡ some (after, s', handled)
      → (after ≡ cursor) × (s' ≡ s) × (handled ≡ 0)
        ⊎ (resolve_start_block block_hash deploy_block cursor ≤ frontier deploy_block cursor)
          × (frontier deploy_block after + finality ≡ tip + 1)
          × ((s', handled)
              ≡ handle_logs handler
                  (logs
                    (resolve_start_block block_hash deploy_block cursor)
                    (frontier deploy_block after))
                  s)
  poll_once-covers tip deploy_block finality handled cursor after s s' h e =
      let first = start tip deploy_block finality cursor s in
      let end = stop tip deploy_block finality cursor s in
      let (early, deployed, _, _) = resolve_start_block-bounds block_hash deploy_block cursor h in
      elim (Bool-cases (leb end first)) [
        | inl idle ↦
            let same =
              some-injective _ _ (sym (poll-idle tip deploy_block finality cursor s idle) ∙ e) in
            inl (sym (ap (λ r. r.0) same), sym (ap (λ r. r.1) same), sym (ap (λ r. r.2) same))
        | inr news ↦ elim (Option-cases (block_hash (end - 1))) [
          | inl gone ↦
              absurd (
                none-ne-some _ (sym (poll-raises tip deploy_block finality cursor s news gone) ∙ e))
          | inr (hash, there_is) ↦
              let same =
                some-injective _ _
                  (sym (poll-scans tip deploy_block finality cursor s hash news there_is) ∙ e) in
              let late : first < end = leb-false end first news in
              let reached : frontier deploy_block after ≡ end =
                ap (λ r. frontier deploy_block (r.0)) (sym same) ∙ back_and_forth end first late in
              inr (
                early,
                omega (arith, reached, final deploy_block tip finality first deployed late),
                subst (λ b. ◌≡◌ {A = S × ℕ} (s', handled) (handle_logs handler (logs first b) s))
                    (sym reached) (sym (ap (λ r. (r.1, r.2)) same)),
              )
        ]
      ]
