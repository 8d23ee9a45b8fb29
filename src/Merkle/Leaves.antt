-- ===== src/Merkle/Leaves.antt =====
-- What a leaf hash commits to: every field of the step, and the version of the preimage.
use trust_chain.Prelude.{
  ◌*◌, ◌^◌, ◌<◌, ◌≡◌, ◌⊎◌, inl, inr, refl, ap, List, [], ◌∷◌, ◌++◌, map, arith, length, All,
}
use trust_chain.Merkle.{
  Bytes, AbiValue, bytes32, uint64, LeafFields, leaf_values, leaf_hash, leaf_hash_v2,
}
use trust_chain.Merkle.Soundness.{Is32, Collision, DoubleHashed, same_input}

-- Values that the ABI types hold.
abbrev pub InRange : AbiValue → Type 0
InRange (bytes32 b) = Is32 b
InRange (uint64 n) = n < 2 ^ 64

-- The ABI type of a value.
pub data AbiType : Type 0 where
  bytes32_type uint64_type : AbiType

abbrev pub type_of : AbiValue → AbiType
type_of (bytes32 _) = bytes32_type
type_of (uint64 _) = uint64_type

-- What eth_abi documents of static types: a 32-byte word for each value, and an encoding that
-- can be decoded by its types.
pub record AbiLaws (abi_encode : List AbiValue → Bytes) : Type 0 where
  pub words : (vs : List AbiValue) → All InRange vs → length (abi_encode vs) ≡ 32 * length vs
  pub decodable :
      (vs ws : List AbiValue)
      → All InRange vs
      → All InRange ws
      → map type_of vs ≡ map type_of ws
      → abi_encode vs ≡ abi_encode ws
      → vs ≡ ws

abbrev pub FieldsInRange : LeafFields → Type 0
FieldsInRange f = All InRange (leaf_values f)

fields_eq : (f g : LeafFields) → leaf_values f ≡ leaf_values g → f ≡ g
fields_eq f g e = ground arith

fields_eq_v2 :
    (f g : LeafFields) (c d : Bytes)
    → leaf_values f ++ bytes32 c ∷ [] ≡ leaf_values g ++ bytes32 d ∷ []
    → (f ≡ g) × (c ≡ d)
fields_eq_v2 f g c d e = ground arith

v2_InRange :
    (f : LeafFields) (c : Bytes)
    → FieldsInRange f
    → Is32 c
    → All InRange (leaf_values f ++ bytes32 c ∷ [])
v2_InRange f c r w = ground arith

pub leaf_hash-DoubleHashed :
    (keccak : Bytes → Bytes) (abi_encode : List AbiValue → Bytes) (f : LeafFields)
    → DoubleHashed keccak (leaf_hash keccak abi_encode f)
unfolding leaf_hash
leaf_hash-DoubleHashed keccak abi_encode f = (abi_encode (leaf_values f), refl)

pub leaf_hash_v2-DoubleHashed :
    (keccak : Bytes → Bytes) (abi_encode : List AbiValue → Bytes) (f : LeafFields) (c : Bytes)
    → DoubleHashed keccak (leaf_hash_v2 keccak abi_encode f c)
unfolding leaf_hash_v2
leaf_hash_v2-DoubleHashed keccak abi_encode f c =
    (abi_encode (leaf_values f ++ bytes32 c ∷ []), refl)

module _ (keccak : Bytes → Bytes) (width : (b : Bytes) → Is32 (keccak b))
    (abi_encode : List AbiValue → Bytes) (abi : AbiLaws abi_encode) where
  -- A hash of a hash determines the inner string, up to a collision.
  same_preimage : (a b : Bytes) → keccak (keccak a) ≡ keccak (keccak b) → Collision keccak ⊎ (a ≡ b)
  same_preimage a b e = elim (same_input keccak width (keccak a) (keccak b) e) [
    | inl collision ↦ inl collision
    | inr inner ↦ same_input keccak width a b inner
  ]

  -- Two steps with fields in range and one version-1 leaf hash agree in every field, or a
  -- collision of keccak is at hand.
  pub leaf_hash-binds :
      (f g : LeafFields)
      → FieldsInRange f
      → FieldsInRange g
      → leaf_hash keccak abi_encode f ≡ leaf_hash keccak abi_encode g
      → Collision keccak ⊎ (f ≡ g)
  unfolding leaf_hash
  leaf_hash-binds f g rf rg e =
      elim (same_preimage (abi_encode (leaf_values f)) (abi_encode (leaf_values g)) e) [
        | inl collision ↦ inl collision
        | inr encoded ↦
            inr (fields_eq f g (abi.decodable (leaf_values f) (leaf_values g) rf rg refl encoded))
      ]

  -- Two identity-bound steps with fields in range and one version-2 leaf hash agree in every
  -- field and in the agent's code hash, or a collision of keccak is at hand.
  pub leaf_hash_v2-binds :
      (f g : LeafFields) (c d : Bytes)
      → FieldsInRange f
      → FieldsInRange g
      → Is32 c
      → Is32 d
      → leaf_hash_v2 keccak abi_encode f c ≡ leaf_hash_v2 keccak abi_encode g d
      → Collision keccak ⊎ ((f ≡ g) × (c ≡ d))
  unfolding leaf_hash_v2
  leaf_hash_v2-binds f g c d rf rg wc wd e =
      let vs = leaf_values f ++ bytes32 c ∷ [] in
      let ws = leaf_values g ++ bytes32 d ∷ [] in
      elim (same_preimage (abi_encode vs) (abi_encode ws) e) [
        | inl collision ↦ inl collision
        | inr encoded ↦ inr (
            fields_eq_v2 f g c d
              (abi.decodable vs ws (v2_InRange f c rf wc) (v2_InRange g d rg wd) refl encoded))
      ]

  -- A version-1 and a version-2 leaf with fields in range never share a hash, unless two different
  -- strings are at hand on which keccak collides.
  pub leaf_versions_differ :
      (f g : LeafFields) (c : Bytes)
      → FieldsInRange f
      → FieldsInRange g
      → Is32 c
      → leaf_hash keccak abi_encode f ≡ leaf_hash_v2 keccak abi_encode g c
      → Collision keccak
  unfolding leaf_hash leaf_hash_v2
  leaf_versions_differ f g c rf rg wc e =
      let vs = leaf_values f in
      let ws = leaf_values g ++ bytes32 c ∷ [] in
      elim (same_preimage (abi_encode vs) (abi_encode ws) e) [
        | inl collision ↦ collision
        | inr encoded ↦
            absurd (
              omega
                (arith, ap length encoded, abi.words vs rf, abi.words ws (v2_InRange g c rg wc)))
      ]
