-- ===== src/Bulk/Rows.antt =====
-- dag_decode.hpp, dag_bulk.hpp, protocol_decode.hpp: the append and the count of rows in their order.
use nanotins.Shared.{ℕ, ◌+◌, ◌≡◌, refl, sym, ◌∙◌, arith, List, [], ◌∷◌, ◌++◌, length}
use nanotins.Shared.{Option, some, ◌>>=◌}
use nanotins.Shared.Bits.{u32}
use nanotins.Bulk.{Key, Tables, Counts, put, bump, push, append_row}
use nanotins.Bulk.Keys.{key_split, put_here, put_there}
use nanotins.Bulk.Layout.{rows_of, rows_of-here, rows_of-there, push-append}
use mathlib.Core.List.{append_assoc, append-nil}

-- A pass as a run over the rows that a packet emits, each with the key of its table.
abbrev pub run_rows {ℓ} :
    {S : Type ℓ} {K R : Type 0} → (S → K → R → Option S) → S → List (K × R) → Option S
run_rows f s [] = some s
run_rows f s ((n, r) ∷ es) = f s n r >>= λ s'. run_rows f s' es

abbrev pub without_row {ℓ} : {S : Type ℓ} {K R : Type 0} → (S → K → S) → S → K → R → Option S
without_row g s n r = some (g s n)

module _ {K R : Type 0} ⦃key : Key K⦄ where
  pub append_rows :
      (es : List (K × R)) (tabs : Tables K R)
      → (t : Tables K R) × (run_rows append_row tabs es ≡ some t)
        × ((n : K) → t n ≡ tabs n ++ rows_of n es)
  unfolding append_row
  append_rows [] tabs = (tabs, refl, λ n. sym (append-nil (tabs n)))
  append_rows ((m, r) ∷ es) tabs =
      let a = push (tabs m) r in
      let (t, run, all) = append_rows es (put m a tabs) in
      (
        t,
        run,
        key_split m (λ n. t n ≡ tabs n ++ rows_of n ((m, r) ∷ es))
            (all m
              ∙ rw (put_here m a tabs) (
                  rw (rows_of-here m r es)
                    (rw (push-append (tabs m) r) (append_assoc (tabs m) (r ∷ []) (rows_of m es)))))
            (λ n d. all n ∙ rw (put_there m a tabs n d) (rw (rows_of-there m r es n d) refl)),
      )

  pub count_rows :
      (es : List (K × R)) (c : Counts K) (start : K → ℕ)
      → ((n : K) → c n ≡ u32 (start n))
      → (t : Counts K) × (run_rows (without_row bump) c es ≡ some t)
        × ((n : K) → t n ≡ u32 (start n + length (rows_of n es)))
  unfolding bump
  count_rows [] c start h = (c, refl, λ n. omega (arith, h n))
  count_rows ((m, r) ∷ es) c start h =
      let (t, run, all) = count_rows es (put m (u32 (c m + 1)) c) (put m (start m + 1) start) (
        key_split m (λ n. put m (u32 (c m + 1)) c n ≡ u32 (put m (start m + 1) start n))
          (rw (put_here m (u32 (c m + 1)) c)
            (rw (put_here m (start m + 1) start) (omega (arith, h m))))
          (λ n d.
            rw (put_there m (u32 (c m + 1)) c n d)
              (rw (put_there m (start m + 1) start n d) (h n)))) in
      (
        t,
        run,
        key_split m (λ n. t n ≡ u32 (start n + length (rows_of n ((m, r) ∷ es))))
            (all m ∙ rw (put_here m (start m + 1) start) (rw (rows_of-here m r es) (omega arith)))
            (λ n d.
              all n
              ∙ rw (put_there m (start m + 1) start n d) (rw (rows_of-there m r es n d) refl)),
      )
