-- ===== src/Bulk.antt =====
-- What dag_bulk.hpp and protocol_decode_bulk.hpp of nanotins/include/nanotins share: rows that go to
-- one of several tables, and the fill of the tables in bulk by a count pass, an exclusive prefix sum,
-- a resize and a scatter pass over packets. A table is the list of its rows: the source writes the
-- packet_id column and every other column of a row at the same index. The tables are a function of
-- their key.
pub mod Keys
pub mod Layout
pub mod Rows
pub mod Scatter
pub mod Bases
pub mod Overlay
pub mod Agreement
pub mod Executor
use nanotins.Shared.{ℕ, zero, suc, ◌+◌, ◌≡◌, List, [], ◌∷◌, length}
use nanotins.Shared.{get_elem?, Option, none, some, ◌==◌, if◌then◌else◌, ◌>>=◌, write_at}
use nanotins.Shared.Bits.{u32}

-- The tables' keys, by the position of their table.
pub record Key (K : Type 0) : Type 0 where
  pub id : K → ℕ
  pub id_inj : (a b : K) → id a ≡ id b → a ≡ b

abbrev pub Tables : Type 0 → Type 0 → Type 0
Tables K R = K → List R

-- Counters of uint32_t, one for each table.
abbrev pub Counts : Type 0 → Type 0
Counts K = K → ℕ

abbrev pub add_counts : {K : Type 0} → Counts K → Counts K → Counts K
add_counts a b n = u32 (a n + b n)

-- `push_back`.
unfoldable pub push {ℓ} : {A : Type ℓ} → List A → A → List A
push [] a = a ∷ []
push (x ∷ xs) a = x ∷ push xs a

-- `resize(n)` of every column of a table.
pub resize_table {ℓ} : {A : Type ℓ} → A → ℕ → List A → List A
resize_table d zero xs = []
resize_table d (suc n) [] = d ∷ resize_table d n []
resize_table d (suc n) (x ∷ xs) = x ∷ resize_table d n xs

module _ {K : Type 0} ⦃key : Key K⦄ where
  -- A write to the slot of one key.
  unfoldable pub put {ℓ} : {A : Type ℓ} → K → A → (K → A) → K → A
  put n a t m = if key.id n == key.id m then a else t m

  unfoldable pub append_row : {R : Type 0} → Tables K R → K → R → Option (Tables K R)
  append_row tabs n row = some (put n (push (tabs n) row) tabs)

  pub bump : Counts K → K → Counts K
  bump c n = put n (u32 (c n + 1)) c

  -- The write of one row at the cursor of its table, and the step of the cursor.
  unfoldable pub scatter_row :
      {R : Type 0} → Counts K × Tables K R → K → R → Option (Counts K × Tables K R)
  scatter_row (cur, tabs) n row =
      write_at (tabs n) (cur n) row >>= λ rows. some (bump cur n, put n rows tabs)

-- The passes over one packet, and the row that a resize fills in.
pub record PacketPasses (P K R : Type 0) : Type 0 where
  pub decode : P → Tables K R → Option (Tables K R)
  pub count : P → Option (Counts K)
  pub scatter : P → Counts K → Tables K R → Option (Tables K R)
  pub blank : K → R

module _ {P K R : Type 0} (passes : PacketPasses P K R) where
  -- The packets decoded one after the other.
  unfoldable pub decode_all : List P → Tables K R → Option (Tables K R)
  decode_all [] tabs = some tabs
  decode_all (p ∷ ps) tabs = passes.decode p tabs >>= decode_all ps

  -- The exclusive prefix sum over the packets: the bases, and the totals.
  pub prefix_sum : List P → Counts K → Option (List (Counts K) × Counts K)
  prefix_sum [] run = some ([], run)
  prefix_sum (p ∷ ps) run =
      passes.count p >>= λ c. prefix_sum ps (add_counts run c) >>= λ r. some (run ∷ r.0, r.1)

  -- The kernel of the scatter pass at packet `k`.
  pub scatter_kernel : List P → List (Counts K) → Tables K R → ℕ → Option (Tables K R)
  scatter_kernel pkts base tabs k =
      get_elem? pkts k >>= λ p. get_elem? base k >>= λ b. passes.scatter p b tabs

  -- An executor runs the kernel at the indices of `order`, in that order.
  pub run_kernels : List P → List (Counts K) → List ℕ → Tables K R → Option (Tables K R)
  run_kernels pkts base [] tabs = some tabs
  run_kernels pkts base (k ∷ ks) tabs = scatter_kernel pkts base tabs k >>= run_kernels pkts base ks

  pub decode_bulk : List P → List ℕ → Tables K R → Option (Tables K R)
  decode_bulk pkts order tabs = prefix_sum pkts (λ n. u32 (length (tabs n))) >>= λ s.
      run_kernels pkts s.0 order (λ n. resize_table (passes.blank n) (s.1 n) (tabs n))
