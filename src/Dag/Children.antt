-- ===== src/Dag/Children.antt =====
-- The child tables of variable header parts: what the ipv4_children.hpp and ipv6_children.hpp headers
-- of nanotins/include/nanotins share, the loop over a cursor's records.
pub mod Visits
pub mod Ipv4
pub mod Ipv6
pub mod SomeipSd
use nanotins.Shared.{ℕ, zero, suc, List, [], ◌∷◌, ◌≡◌, refl, ap, Option, none, some, ◌>>=◌}
use nanotins.Shared.{Option-cases, inl, inr, >>=-eq-some, >>=-same}
use nanotins.Tlv.{TlvRecord, TlvCursor, next, records_loop}

-- `while (c.next(r)) on(r);`, on a state that `on` changes.
unfoldable pub visit_records {ℓ} :
    {S : Type ℓ} → ℕ → List ℕ → (S → TlvRecord → Option S) → TlvCursor → S → Option S
visit_records zero mem on c s = none
visit_records (suc fuel) mem on c s = do
  step ← next mem c
  elim step [ none ↦ some s | some (r, c') ↦ on s r >>= λ s'. visit_records fuel mem on c' s' ]

-- A callback at each element of a list, in order.
abbrev pub fold_list {ℓ} : {S : Type ℓ} {E : Type 0} → (S → E → Option S) → S → List E → Option S
fold_list on s [] = some s
fold_list on s (e ∷ es) = on s e >>= λ s'. fold_list on s' es

-- The loop is a fold over the records that it delivers.
pub visit_records-records_loop {ℓ} :
    {S : Type ℓ} (fuel : ℕ) (mem : List ℕ) (on : S → TlvRecord → Option S) (c : TlvCursor) (s : S)
    (rs : List TlvRecord)
    → records_loop fuel mem c ≡ some rs
    → visit_records fuel mem on c s ≡ fold_list on s rs
unfolding visit_records records_loop
visit_records-records_loop zero mem on c s rs e = cc
visit_records-records_loop (suc fuel) mem on c s rs e = elim (Option-cases (next mem c)) [
  | inl f ↦ cc (rw f at e)
  | inr (none, f) ↦ rw f (fold_list-rs (rw f at e))
  | inr (some (r, c'), f) ↦
      let (rest, e1, e2) =
        >>=-eq-some (records_loop fuel mem c') (λ rs. some (r ∷ rs)) (rw f at e) in
      let split : rs ≡ r ∷ rest = cc e2 in
      rw f
        (rw split (>>=-same (on s r) (λ s'. visit_records-records_loop fuel mem on c' s' rest e1)))
]
  where
    fold_list-rs : some [] ≡ some rs → some s ≡ fold_list on s rs
    fold_list-rs h = let empty : rs ≡ [] = cc h in rw empty refl
