-- ===== src/Bulk/Overlay.antt =====
-- dag_bulk.hpp, protocol_decode_bulk.hpp: the blocks of the tables as the kernels of an order fill
-- them.
use nanotins.Shared.{
  ℕ, zero, suc, ◌+◌, ◌-◌, ◌<◌, ◌^◌, ◌≡◌, refl, ap, ◌∙◌, arith, List, [], ◌∷◌, ◌++◌,
}
use nanotins.Shared.{length}
use nanotins.Shared.{Bool, true, false, ◌==◌, ◌&&◌, if◌then◌else◌, Bool-cases, inl, inr}
use nanotins.Bulk.{Key, Tables, PacketPasses}
use nanotins.Bulk.Layout.{span, span-same, span-part}
use nanotins.Bulk.Bases.{Lawful, block, blocks}

-- Whether an index occurs in an order, and whether all below `n` do.
abbrev pub elem : ℕ → List ℕ → Bool
elem j [] = false
elem j (k ∷ ks) = if j == k then true else elem j ks

abbrev pub covers : ℕ → List ℕ → Bool
covers zero order = true
covers (suc n) order = elem n order && covers n order

pub covers-elem :
    (n : ℕ) (order : List ℕ) (j : ℕ) → covers n order ≡ true → j < n → elem j order ≡ true
covers-elem zero order j h lt = absurd (omega arith)
covers-elem (suc n) order j h lt = elim (Bool-cases (j == n)) [
  | inl e ↦
      let same : j ≡ n = ground arith in
      let last : elem n order ≡ true = ground arith in ap (λ k. elem k order) same ∙ last
  | inr e ↦ covers-elem n order j (ground arith) (ground arith)
]

module _ {P K R : Type 0} ⦃key : Key K⦄ {passes : PacketPasses P K R} (law : Lawful passes)
    (pkts : List P) (start : Tables K R) where
  abbrev pub np : ℕ
  np = length pkts

  -- What the block of each packet holds, for each node.
  abbrev pub Held : Type 0
  Held = K → ℕ → List R

  abbrev pub fill_block : Held → ℕ → Held
  fill_block b k n j = if j == k then block law pkts n j else b n j

  abbrev pub overlay : Held → List ℕ → Held
  overlay b [] = b
  overlay b (k ∷ ks) = overlay (fill_block b k) ks

  -- The tables hold their rows of before and then the blocks, each of its size.
  pub record Laid (b : Held) (tabs : Tables K R) : Type 0 where
    pub held : (n : K) → tabs n ≡ start n ++ span (b n) 0 np
    pub sized : (n : K) (j : ℕ) → length (b n j) ≡ length (block law pkts n j)

  abbrev pub Small : Type 0
  Small = (n : K) → length (start n) + length (blocks law pkts np n) < 2 ^ 32

  pub fill_block-at : (b : Held) (k : ℕ) (n : K) → fill_block b k n k ≡ block law pkts n k
  fill_block-at b k n = let e : (k == k) ≡ true = ground arith in rw e refl

  pub fill_block-other :
      (b : Held) (k : ℕ) (n : K) (j : ℕ) → (j == k) ≡ false → fill_block b k n j ≡ b n j
  fill_block-other b k n j e = rw e refl

  pub fill_block-span :
      (b : Held) (k : ℕ) (n : K)
      → k < np
      → span (fill_block b k n) 0 np
        ≡ span (b n) 0 k ++ (block law pkts n k ++ span (b n) (suc k) (np - suc k))
  fill_block-span b k n lt =
      span-part (fill_block b k n) k np lt
      ∙ rw
          (span-same (fill_block b k n) (b n) 0 k
            (λ j lo hi. fill_block-other b k n j (ground arith)))
          (rw
            (span-same (fill_block b k n) (b n) (suc k) (np - suc k)
              (λ j lo hi. fill_block-other b k n j (ground arith)))
            (rw (fill_block-at b k n) refl))

  pub fill_block-sized :
      (b : Held) (k : ℕ)
      → ((n : K) (j : ℕ) → length (b n j) ≡ length (block law pkts n j))
      → (n : K) (j : ℕ) → length (fill_block b k n j) ≡ length (block law pkts n j)
  fill_block-sized b k h n j = elim (Bool-cases (j == k)) [
    | inl e ↦ rw e refl
    | inr e ↦ rw e (h n j)
  ]

  pub overlay-sized :
      (order : List ℕ) (b : Held)
      → ((n : K) (j : ℕ) → length (b n j) ≡ length (block law pkts n j))
      → (n : K) (j : ℕ) → length (overlay b order n j) ≡ length (block law pkts n j)
  overlay-sized [] b h = h
  overlay-sized (k ∷ ks) b h = overlay-sized ks (fill_block b k) (fill_block-sized b k h)

  overlay-kept :
      (order : List ℕ) (b : Held) (n : K) (j : ℕ)
      → b n j ≡ block law pkts n j
      → overlay b order n j ≡ block law pkts n j
  overlay-kept [] b n j h = h
  overlay-kept (k ∷ ks) b n j h =
      overlay-kept ks (fill_block b k) n j
        (elim (Bool-cases (j == k)) [ inl e ↦ rw e refl | inr e ↦ rw e h ])

  pub overlay-elem :
      (order : List ℕ) (b : Held) (n : K) (j : ℕ)
      → elem j order ≡ true
      → overlay b order n j ≡ block law pkts n j
  overlay-elem [] b n j h = cc
  overlay-elem (k ∷ ks) b n j h = elim (Bool-cases (j == k)) [
    | inl e ↦ overlay-kept ks (fill_block b k) n j (rw e refl)
    | inr e ↦ overlay-elem ks (fill_block b k) n j (rw e at h)
  ]
