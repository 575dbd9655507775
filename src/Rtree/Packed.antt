-- ===== src/Rtree/Packed.antt =====
-- The packed element of a leaf in include/jemalloc/internal/rtree.h: a pointer and its metadata in one
-- word, in the compact layout of x86_64. The fields that `|` joins are disjoint, as the code asserts,
-- so it is a sum.
use jemalloc.Base.{
  ℕ, ◌+◌, ◌-◌, ◌*◌, ◌/◌, ◌%◌, ◌^◌, ◌≤◌, ◌<◌, ◌≡◌, ◌⊎◌, inl, inr, ◌∙◌, arith, Bool, true, false,
  ◌==◌, ltb, if◌then◌else◌, shl64, shr, low_bits, clear_low, lt→ltb, le→ltb,
}

pub record RtreeMetadata : Type 0 where
  pub szind : ℕ
  pub state : ℕ
  pub is_head : Bool
  pub slab : Bool

pub record RtreeContents : Type 0 where
  pub edata : ℕ
  pub metadata : RtreeMetadata

abbrev pub rtree_leaf_addr_bits : ℕ
rtree_leaf_addr_bits = 49

abbrev pub rtree_leaf_nhib : ℕ
rtree_leaf_nhib = 15

abbrev pub rtree_leaf_state_width : ℕ
rtree_leaf_state_width = 3

abbrev pub rtree_leaf_state_shift : ℕ
rtree_leaf_state_shift = 2

-- EDATA_ALIGNMENT is 2 to this power.
abbrev pub lg_edata_alignment : ℕ
lg_edata_alignment = 7

abbrev pub bool_bit : Bool → ℕ
bool_bit b = if b then 1 else 0

unfoldable pub rtree_leaf_elm_bits_encode : RtreeContents → ℕ
rtree_leaf_elm_bits_encode contents =
    let edata_bits = low_bits contents.edata rtree_leaf_addr_bits in
    let szind_bits = shl64 contents.metadata.szind rtree_leaf_addr_bits in
    let slab_bits = bool_bit contents.metadata.slab in
    let is_head_bits = shl64 (bool_bit contents.metadata.is_head) 1 in
    let state_bits = shl64 contents.metadata.state rtree_leaf_state_shift in
    edata_bits + (szind_bits + state_bits + is_head_bits + slab_bits)

unfoldable pub rtree_leaf_elm_metadata_decode : ℕ → RtreeMetadata
rtree_leaf_elm_metadata_decode bits = record {
  szind = shr bits rtree_leaf_addr_bits;
  state = low_bits (shr bits rtree_leaf_state_shift) rtree_leaf_state_width;
  is_head = low_bits (shr bits 1) 1 == 1;
  slab = low_bits bits 1 == 1;
}

-- An arithmetic shift to the right of a word by `places`.
abbrev pub sar64 : ℕ → ℕ → ℕ
sar64 word places =
    if ltb word (2 ^ 63) then shr word places else shr word places + (2 ^ 64 - 2 ^ (64 - places))

unfoldable pub rtree_leaf_elm_bits_decode : ℕ → RtreeContents
rtree_leaf_elm_bits_decode bits = record {
  edata = clear_low (sar64 (shl64 bits rtree_leaf_nhib) rtree_leaf_nhib) lg_edata_alignment;
  metadata = rtree_leaf_elm_metadata_decode bits;
}

-- A pointer to an `edata_t` in either half of the canonical 48-bit addresses, or zero-extended, a
-- size class index of 8 bits and a state of 3.
pub record IsPackable (c : RtreeContents) : Type 0 where
  pub aligned : c.edata % 2 ^ 7 ≡ 0
  pub canonical : (c.edata < 2 ^ 48) ⊎ ((2 ^ 64 - 2 ^ 48 ≤ c.edata) × (c.edata < 2 ^ 64))
  pub szind : c.metadata.szind < 2 ^ 8
  pub state : c.metadata.state < 2 ^ 3

abbrev contents : ℕ → ℕ → ℕ → Bool → Bool → RtreeContents
contents e s t h b = record {
  edata = e;
  metadata = record { szind = s; state = t; is_head = h; slab = b };
}

contents-eq :
    {e e' s s' t t' : ℕ} {h h' b b' : Bool}
    → e ≡ e'
    → s ≡ s'
    → t ≡ t'
    → h ≡ h'
    → b ≡ b'
    → contents e s t h b ≡ contents e' s' t' h' b'
contents-eq p q r u v i = record {
  edata = p i;
  metadata = record { szind = q i; state = r i; is_head = u i; slab = v i };
}

bool_bit-lt : (b : Bool) → bool_bit b < 2
bool_bit-lt true = omega arith
bool_bit-lt false = omega arith

bool_bit-read : (b : Bool) (x : ℕ) → x ≡ bool_bit b → (x == 1) ≡ b
bool_bit-read true x e = ground arith
bool_bit-read false x e = ground arith

-- The word by its parts: the pointer has 42 bits above its alignment.
packed_word :
    (c : RtreeContents)
    → IsPackable c
    → rtree_leaf_elm_bits_encode c
      ≡ 128 * (c.edata % 2 ^ 49 / 128)
        + c.metadata.szind * 2 ^ 49
        + (c.metadata.state * 4 + bool_bit c.metadata.is_head * 2 + bool_bit c.metadata.slab)
unfolding rtree_leaf_elm_bits_encode
packed_word c ok = omega (
  arith,
  ok.szind,
  ok.state,
  ok.aligned,
  bool_bit-lt c.metadata.is_head,
  bool_bit-lt c.metadata.slab,
)

-- The sign bit of the pointer is that of the packed word moved up.
signed_low :
    (q s low : ℕ)
    → q < 2 ^ 41
    → low < 128
    → clear_low (sar64 (shl64 (128 * q + s * 2 ^ 49 + low) 15) 15) 7 ≡ 128 * q
signed_low q s low small h =
    let up : (128 * q + s * 2 ^ 49 + low) * 2 ^ 15 % 2 ^ 64 ≡ (128 * q + low) * 2 ^ 15 =
      omega arith in
    rw (up, lt→ltb ((128 * q + low) * 2 ^ 15) (2 ^ 63) (omega arith)) (omega arith)

signed_high :
    (q s low : ℕ)
    → 2 ^ 41 ≤ q
    → q < 2 ^ 42
    → low < 128
    → clear_low (sar64 (shl64 (128 * q + s * 2 ^ 49 + low) 15) 15) 7 ≡ 128 * q + (2 ^ 64 - 2 ^ 49)
signed_high q s low large bound h =
    let up : (128 * q + s * 2 ^ 49 + low) * 2 ^ 15 % 2 ^ 64 ≡ (128 * q + low) * 2 ^ 15 =
      omega arith in
    rw (up, le→ltb ((128 * q + low) * 2 ^ 15) (2 ^ 63) (omega arith)) (omega arith)

-- Decoding the packed word of a packable contents gives the contents back.
pub bits_decode-bits_encode :
    (c : RtreeContents)
    → IsPackable c
    → rtree_leaf_elm_bits_decode (rtree_leaf_elm_bits_encode c) ≡ c
unfolding rtree_leaf_elm_bits_decode rtree_leaf_elm_metadata_decode
bits_decode-bits_encode c ok =
    let h = bool_bit-lt c.metadata.is_head in
    let b = bool_bit-lt c.metadata.slab in
    let w = packed_word c ok in
    let q = c.edata % 2 ^ 49 / 128 in
    let low = c.metadata.state * 4 + bool_bit c.metadata.is_head * 2 + bool_bit c.metadata.slab in
    contents-eq
      (rw w (elim ok.canonical [
        | inl small ↦
            signed_low q c.metadata.szind low (omega arith) (omega (arith, ok.state, h, b))
            ∙ omega (arith, ok.aligned)
        | inr (large, word) ↦
            signed_high q c.metadata.szind low (omega arith) (omega arith)
              (omega (arith, ok.state, h, b))
            ∙ omega (arith, ok.aligned)
      ]))
      (omega (arith, w, ok.szind, ok.state, h, b)) (omega (arith, w, ok.szind, ok.state, h, b))
      (bool_bit-read c.metadata.is_head _ (omega (arith, w, ok.state, h, b)))
      (bool_bit-read c.metadata.slab _ (omega (arith, w, ok.state, h, b)))
