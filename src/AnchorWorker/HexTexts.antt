-- ===== src/AnchorWorker/HexTexts.antt =====
-- Columns of hexadecimal text: when all of a list can be read, and what is read.
use trust_chain.Prelude.{
  ℕ, ◌≡◌, refl, true, some, List, [], ◌∷◌, All, get_elem?, is_some, Option-cases, inl, inr,
  none-ne-some, false≢true, some-injective, length, suc, zero,
}
use trust_chain.Merkle.{Bytes}
use trust_chain.AnchorWorker.Tables.{HexText, fromhex, fromhex_all}

abbrev pub Readable : HexText → Type 0
Readable t = is_some (fromhex t) ≡ true

pub fromhex_all-Readable :
    (texts : List HexText)
    → All Readable texts
    → (bs : List Bytes) × (fromhex_all texts ≡ some bs) × (length bs ≡ length texts)
fromhex_all-Readable [] h = ([], refl, refl)
fromhex_all-Readable (t ∷ texts) (h, hs) =
    let (bs, read, same) = fromhex_all-Readable texts hs in
    elim (Option-cases (fromhex t)) [
      | inl bad ↦ absurd (false≢true (rw bad at h))
      | inr (b, e) ↦ (b ∷ bs, rw (fromhex_all, e, read) refl, rw same refl)
    ]

-- The head and the rest of a list that could be read.
pub fromhex_all-cons :
    (t : HexText) (texts : List HexText) (bs : List Bytes)
    → fromhex_all (t ∷ texts) ≡ some bs
    → (b : Bytes) × (rest : List Bytes) × (fromhex t ≡ some b)
      × (fromhex_all texts ≡ some rest)
      × (b ∷ rest ≡ bs)
fromhex_all-cons t texts bs e = elim (Option-cases (fromhex t)) [
  | inl bad ↦ absurd (none-ne-some _ (rw (fromhex_all, bad) at e))
  | inr (b, read) ↦ elim (Option-cases (fromhex_all texts)) [
    | inl bad ↦ absurd (none-ne-some _ (rw (fromhex_all, read, bad) at e))
    | inr (rest, reads) ↦
        (b, rest, read, reads, some-injective _ _ (rw (fromhex_all, read, reads) at e))
  ]
]

pub Readable-fromhex_all :
    (texts : List HexText) (bs : List Bytes) → fromhex_all texts ≡ some bs → All Readable texts
Readable-fromhex_all [] bs e = tt
Readable-fromhex_all (t ∷ texts) bs e =
    let (b, rest, read, reads, _) = fromhex_all-cons t texts bs e in
    (rw read refl, Readable-fromhex_all texts rest reads)

pub get_elem?-fromhex_all :
    (texts : List HexText) (bs : List Bytes) (i : ℕ) (t : HexText)
    → fromhex_all texts ≡ some bs
    → get_elem? texts i ≡ some t
    → (b : Bytes) × (fromhex t ≡ some b) × (get_elem? bs i ≡ some b)
get_elem?-fromhex_all [] bs i t e h = absurd (none-ne-some _ h)
get_elem?-fromhex_all (u ∷ texts) bs zero t e h =
    let (b, rest, read, _, whole) = fromhex_all-cons u texts bs e in
    (b, rw (← some-injective _ _ h) read, rw (← whole) refl)
get_elem?-fromhex_all (u ∷ texts) bs (suc i) t e h =
    let (b, rest, _, reads, whole) = fromhex_all-cons u texts bs e in
    let (c, read, at_i) = get_elem?-fromhex_all texts rest i t reads h in
    (c, read, rw (← whole) at_i)
