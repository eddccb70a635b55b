-- ===== src/Bulk/Keys.antt =====
-- dag_bulk.hpp, protocol_decode.hpp: arrays by key. A write changes the slot of its key and no other.
use nanotins.Shared.{◌≡◌, subst, arith, true, false, ◌==◌, Bool-cases, inl, inr}
use nanotins.Bulk.{Key, put}

module _ {K : Type 0} ⦃key : Key K⦄ where
  abbrev pub Differ : K → K → Type 0
  Differ n m = (key.id n == key.id m) ≡ false

  -- A statement about every key, from the one at `n` and the ones that differ from it.
  pub key_split {ℓ} : (n : K) (P : K → Type ℓ) → P n → ((m : K) → Differ n m → P m) → (m : K) → P m
  key_split n P here there m = elim (Bool-cases (key.id n == key.id m)) [
    | inr e ↦ there m e
    | inl e ↦ subst P (key.id_inj n m (ground arith)) here
  ]

  module _ {ℓ} {A : Type ℓ} (n : K) (a : A) (t : K → A) where
    pub put_here : put n a t n ≡ a
    unfolding put
    put_here = let same : (key.id n == key.id n) ≡ true = ground arith in rw same

    pub put_there : (m : K) → Differ n m → put n a t m ≡ t m
    unfolding put
    put_there m e = rw e
