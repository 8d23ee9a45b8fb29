-- ===== src/Merkle/Samples.antt =====
-- Concrete functions in the place of web3's keccak and of eth_abi: a padding function and a
-- word-by-word encoder.
use trust_chain.Prelude.{
  ℕ, zero, suc, ◌*◌, ◌≡◌, refl, ap, List, [], ◌∷◌, ◌++◌, map, length, length-append, All, arith,
}
use trust_chain.Merkle.{Bytes, AbiValue, bytes32, uint64}
use trust_chain.Merkle.ByteStrings.{append_inj}
use trust_chain.Merkle.Soundness.{Is32}
use trust_chain.Merkle.Leaves.{InRange, type_of, AbiLaws}

pad : ℕ → Bytes → Bytes
pad zero b = []
pad (suc n) [] = 0 ∷ pad n []
pad (suc n) (x ∷ b) = x ∷ pad n b

length-pad : (n : ℕ) (b : Bytes) → length (pad n b) ≡ n
unfolding pad
length-pad zero b = refl
length-pad (suc n) [] = ap suc (length-pad n [])
length-pad (suc n) (x ∷ b) = ap suc (length-pad n b)

pad_exact : (n : ℕ) (b : Bytes) → length b ≡ n → pad n b ≡ b
unfolding pad
pad_exact zero [] h = refl
pad_exact zero (x ∷ b) h = absurd (omega arith)
pad_exact (suc n) [] h = absurd (omega arith)
pad_exact (suc n) (x ∷ b) h = ap (λ (t : Bytes). x ∷ t) (pad_exact n b (omega arith))

-- In the place of keccak: the first 32 bytes.
unfoldable pub toy_keccak : Bytes → Bytes
unfolding pad
toy_keccak b = pad 32 b

pub toy_width : (b : Bytes) → Is32 (toy_keccak b)
unfolding toy_keccak
toy_width b = length-pad 32 b

-- In the place of eth_abi: a word for each value.
word : AbiValue → Bytes
unfolding pad
word (bytes32 b) = pad 32 b
word (uint64 n) = n ∷ pad 31 []

unfoldable pub toy_encode : List AbiValue → Bytes
unfolding word
toy_encode [] = []
toy_encode (v ∷ vs) = word v ++ toy_encode vs

length-word : (v : AbiValue) → length (word v) ≡ 32
unfolding word
length-word (bytes32 b) = length-pad 32 b
length-word (uint64 n) = ap suc (length-pad 31 [])

word_inj :
    (v w : AbiValue) → InRange v → InRange w → type_of v ≡ type_of w → word v ≡ word w → v ≡ w
unfolding word
word_inj (bytes32 a) (bytes32 b) ra rb t e = cc (pad_exact 32 a ra, pad_exact 32 b rb, e)
word_inj (bytes32 a) (uint64 n) ra rb t e = cc
word_inj (uint64 n) (bytes32 b) ra rb t e = cc
word_inj (uint64 m) (uint64 n) ra rb t e = cc

toy_words : (vs : List AbiValue) → All InRange vs → length (toy_encode vs) ≡ 32 * length vs
unfolding toy_encode
toy_words [] r = refl
toy_words (v ∷ vs) (rv, r) =
    omega (arith, length-append (word v) (toy_encode vs), length-word v, toy_words vs r)

toy_decodable :
    (vs ws : List AbiValue)
    → All InRange vs
    → All InRange ws
    → map type_of vs ≡ map type_of ws
    → toy_encode vs ≡ toy_encode ws
    → vs ≡ ws
unfolding toy_encode
toy_decodable [] [] rv rw' t e = refl
toy_decodable [] (w ∷ ws) rv rw' t e = cc
toy_decodable (v ∷ vs) [] rv rw' t e = cc
toy_decodable (v ∷ vs) (w ∷ ws) (rv, rvs) (rw', rws) t e =
    let (p, q) =
      append_inj (word v) (toy_encode vs) (word w) (toy_encode ws)
        (omega (arith, length-word v, length-word w)) e in
    let kinds : (type_of v ≡ type_of w) × (map type_of vs ≡ map type_of ws) = ground arith in
    cc (word_inj v w rv rw' kinds.0 p, toy_decodable vs ws rvs rws kinds.1 q)

pub toy_abi : AbiLaws toy_encode
toy_abi = record { words = toy_words; decodable = toy_decodable }

abbrev pub h32 : ℕ → Bytes
h32 n =
    n ∷ 0 ∷ 0 ∷ 0 ∷ 0 ∷ 0 ∷ 0 ∷ 0 ∷ 0 ∷ 0 ∷ 0 ∷ 0 ∷ 0 ∷ 0 ∷ 0 ∷ 0 ∷ 0 ∷ 0 ∷ 0 ∷ 0 ∷ 0 ∷ 0 ∷ 0 ∷ 0
    ∷ 0 ∷ 0 ∷ 0 ∷ 0 ∷ 0 ∷ 0 ∷ 0 ∷ 0 ∷ []
