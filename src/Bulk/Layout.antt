-- ===== src/Bulk/Layout.antt =====
-- dag_bulk.hpp, protocol_decode_bulk.hpp: the layout of a table as blocks, one for each packet.
use nanotins.Shared.{
  ℕ, zero, suc, ◌+◌, ◌<◌, ◌≤◌, ◌≡◌, refl, sym, ap, ◌∙◌, arith, List, [], ◌∷◌, ◌++◌,
}
use nanotins.Shared.{length, length-append, if◌then◌else◌, ◌==◌}
use nanotins.Bulk.Keys.{Differ}
use nanotins.Shared.{true, ◌-◌, replicate, map, subst, All, Bool-cases, inl, inr}
use nanotins.Bulk.{Key, push, resize_table}
use mathlib.Core.List.{append_assoc}

module _ {K R : Type 0} ⦃key : Key K⦄ where
  -- The rows of a packet that go to the table of key `n`.
  abbrev pub rows_of : K → List (K × R) → List R
  rows_of n [] = []
  rows_of n ((m, r) ∷ es) = if key.id m == key.id n then r ∷ rows_of n es else rows_of n es

  pub rows_of-here :
      (n : K) (r : R) (es : List (K × R)) → rows_of n ((n, r) ∷ es) ≡ r ∷ rows_of n es
  rows_of-here n r es = let same : (key.id n == key.id n) ≡ true = ground arith in rw same

  pub rows_of-there :
      (m : K) (r : R) (es : List (K × R)) (n : K)
      → Differ m n
      → rows_of n ((m, r) ∷ es) ≡ rows_of n es
  rows_of-there m r es n e = rw e

-- Rows that all go to one table.
abbrev pub tagged : {K R : Type 0} → K → List R → List (K × R)
tagged k rs = map (λ r. (k, r)) rs

module _ {K R : Type 0} ⦃key : Key K⦄ where
  pub rows_of-tagged_here :
      (n : K) (rs : List R) (es : List (K × R)) → rows_of n (tagged n rs ++ es) ≡ rs ++ rows_of n es
  rows_of-tagged_here n [] es = refl
  rows_of-tagged_here n (r ∷ rs) es =
      rows_of-here n r (tagged n rs ++ es) ∙ ap (λ t. r ∷ t) (rows_of-tagged_here n rs es)

  pub rows_of-tagged_there :
      (m : K) (rs : List R) (es : List (K × R)) (n : K)
      → Differ m n
      → rows_of n (tagged m rs ++ es) ≡ rows_of n es
  rows_of-tagged_there m [] es n d = refl
  rows_of-tagged_there m (r ∷ rs) es n d =
      rows_of-there m r (tagged m rs ++ es) n d ∙ rows_of-tagged_there m rs es n d

  pub rows_of-tagged_all : (n : K) (rs : List R) → rows_of n (tagged n rs) ≡ rs
  rows_of-tagged_all n [] = refl
  rows_of-tagged_all n (r ∷ rs) =
      rows_of-here n r (tagged n rs) ∙ ap (λ t. r ∷ t) (rows_of-tagged_all n rs)

  pub rows_of-tagged_none :
      (m : K) (rs : List R) (n : K) → Differ m n → rows_of n (tagged m rs) ≡ []
  rows_of-tagged_none m [] n d = refl
  rows_of-tagged_none m (r ∷ rs) n d =
      rows_of-there m r (tagged m rs) n d ∙ rows_of-tagged_none m rs n d

  -- A property of the rows by their table.
  pub rows_of-All :
      (T : K → R → Type 0) (es : List (K × R)) (n : K)
      → All (λ e. T e.0 e.1) es
      → All (T n) (rows_of n es)
  rows_of-All T [] n h = tt
  rows_of-All T ((m, r) ∷ es) n (h, hs) = elim (Bool-cases (key.id m == key.id n)) [
    | inl e ↦
        let same : m ≡ n = key.id_inj m n (ground arith) in
        rw e (subst (λ k. T k r) same h, rows_of-All T es n hs)
    | inr e ↦ rw e (rows_of-All T es n hs)
  ]

-- The blocks from `start` on, end to end.
unfoldable pub span {ℓ} : {A : Type ℓ} → (ℕ → List A) → (start count : ℕ) → List A
span b start zero = []
span b start (suc count) = b start ++ span b (suc start) count

module _ {ℓ} {A : Type ℓ} where
  pub span-cons :
      (b : ℕ → List A) (start count : ℕ)
      → span b start (suc count) ≡ b start ++ span b (suc start) count
  unfolding span
  span-cons b start count = refl

  pub span-same :
      (b c : ℕ → List A) (start count : ℕ)
      → ((j : ℕ) → start ≤ j → j < start + count → b j ≡ c j)
      → span b start count ≡ span c start count
  unfolding span
  span-same b c start zero h = refl
  span-same b c start (suc count) h = rw (h start (omega arith) (omega arith)) (
      ap (λ r. c start ++ r)
        (span-same b c (suc start) count (λ j lo hi. h j (omega arith) (omega arith))))

  pub span-split :
      (b : ℕ → List A) (start k rest : ℕ)
      → span b start (k + suc rest)
        ≡ span b start k ++ (b (start + k) ++ span b (suc (start + k)) rest)
  unfolding span
  span-split b start zero rest =
      let e1 : 0 + suc rest ≡ suc rest = omega arith in
      let e2 : start + 0 ≡ start = omega arith in rw e1 (rw e2 refl)
  span-split b start (suc k) rest =
      let e1 : suc k + suc rest ≡ suc (k + suc rest) = omega arith in
      let e2 : start + suc k ≡ suc start + k = omega arith in
      rw e1 (
        rw e2 (
          ap (λ r. b start ++ r) (span-split b (suc start) k rest)
          ∙ sym (append_assoc (b start) (span b (suc start) k) _)))

  pub span-shift :
      (b : ℕ → List A) (start count : ℕ)
      → span b (suc start) count ≡ span (λ j. b (suc j)) start count
  unfolding span
  span-shift b start zero = refl
  span-shift b start (suc count) = ap (λ r. b (suc start) ++ r) (span-shift b (suc start) count)

  pub length-span :
      (b c : ℕ → List A) (start count : ℕ)
      → ((j : ℕ) → length (b j) ≡ length (c j))
      → length (span b start count) ≡ length (span c start count)
  unfolding span
  length-span b c start zero h = refl
  length-span b c start (suc count) h = rw (length-append (b start) (span b (suc start) count)) (
      rw (length-append (c start) (span c (suc start) count))
        (omega (arith, h start, length-span b c (suc start) count h)))

  pub push-append : (xs : List A) (a : A) → push xs a ≡ xs ++ (a ∷ [])
  unfolding push
  push-append [] a = refl
  push-append (x ∷ xs) a = ap (λ r. x ∷ r) (push-append xs a)

  pub span-part :
      (b : ℕ → List A) (k count : ℕ)
      → k < count
      → span b 0 count ≡ span b 0 k ++ (b k ++ span b (suc k) (count - suc k))
  span-part b k count h =
      let e1 : count ≡ k + suc (count - suc k) = omega arith in
      let e2 : 0 + k ≡ k = omega arith in
      ap (λ m. span b 0 m) e1
      ∙ span-split b 0 k (count - suc k)
      ∙ ap (λ m. span b 0 k ++ (b m ++ span b (suc m) (count - suc k))) e2

  resize_table-nil : (d : A) (k : ℕ) → resize_table d k [] ≡ replicate k d
  unfolding resize_table
  resize_table-nil d zero = refl
  resize_table-nil d (suc k) = ap (λ r. d ∷ r) (resize_table-nil d k)

  -- A resize to a larger size keeps the list and adds elements behind it.
  pub resize_table-grow :
      (d : A) (k : ℕ) (xs : List A) → resize_table d (length xs + k) xs ≡ xs ++ replicate k d
  unfolding resize_table
  resize_table-grow d k [] = let e : 0 + k ≡ k = omega arith in rw e (resize_table-nil d k)
  resize_table-grow d k (x ∷ xs) =
      let e : suc (length xs) + k ≡ suc (length xs + k) = omega arith in
      rw e (ap (λ r. x ∷ r) (resize_table-grow d k xs))

  replicate-append : (d : A) (i j : ℕ) → replicate i d ++ replicate j d ≡ replicate (i + j) d
  replicate-append d zero j = let e : 0 + j ≡ j = omega arith in rw e refl
  replicate-append d (suc i) j =
      let e : suc i + j ≡ suc (i + j) = omega arith in
      rw e (ap (λ r. d ∷ r) (replicate-append d i j))

  pub length-replicate : (d : A) (i : ℕ) → length (replicate i d) ≡ i
  length-replicate d zero = refl
  length-replicate d (suc i) = ap suc (length-replicate d i)

  pub span-replicate :
      (d : A) (c : ℕ → List A) (start count : ℕ)
      → span (λ j. replicate (length (c j)) d) start count
        ≡ replicate (length (span c start count)) d
  unfolding span
  span-replicate d c start zero = refl
  span-replicate d c start (suc count) =
      ap (λ r. replicate (length (c start)) d ++ r) (span-replicate d c (suc start) count)
      ∙ replicate-append d (length (c start)) (length (span c (suc start) count))
      ∙ ap (λ m. replicate m d) (sym (length-append (c start) (span c (suc start) count)))
