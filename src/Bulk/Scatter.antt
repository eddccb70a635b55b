-- ===== src/Bulk/Scatter.antt =====
-- dag_bulk.hpp, protocol_decode.hpp: the scatter of one packet's rows into its blocks of the tables.
use nanotins.Shared.{write_at-middle}
use nanotins.Shared.{suc, ◌+◌, ◌<◌, ◌^◌, ◌≡◌, refl, sym, ap, ◌∙◌, arith, List, [], ◌∷◌, ◌++◌}
use nanotins.Shared.{length, length-append, Option, some}
use nanotins.Shared.{◌⊎◌, inl, inr}
use nanotins.Shared.Bits.{u32}
use nanotins.Bulk.{Key, Tables, Counts, put, bump, scatter_row}
use nanotins.Bulk.Keys.{key_split, put_here, put_there}
use nanotins.Bulk.Layout.{rows_of, rows_of-here, rows_of-there}
use nanotins.Bulk.Rows.{run_rows}
use mathlib.Core.List.{append_assoc}

List-cases : {R : Type 0} (xs : List R) → (xs ≡ []) ⊎ ((x : R) × (rest : List R) × (xs ≡ x ∷ rest))
List-cases [] = inl refl
List-cases (x ∷ rest) = inr (x, rest, refl)

module _ {K R : Type 0} ⦃key : Key K⦄ where
  -- The tables hold `fill` between `pre` and `post`, and the cursors stand at the end of `pre`.
  pub record Ready (es : List (K × R)) (pre fill post : Tables K R) (cur : Counts K)
      (tabs : Tables K R) : Type 0 where
    pub held : (n : K) → tabs n ≡ pre n ++ (fill n ++ post n)
    pub cursor : (n : K) → cur n ≡ length (pre n)
    pub room : (n : K) → length (fill n) ≡ length (rows_of n es)
    pub small : (n : K) → length (pre n) + length (fill n) < 2 ^ 32

  abbrev pub Filled :
      List (K × R) → (pre post : Tables K R) → Option (Counts K × Tables K R) → Type 0
  Filled es pre post o =
      (cur : Counts K) × (tabs : Tables K R) × (o ≡ some (cur, tabs))
      × ((n : K) → tabs n ≡ pre n ++ (rows_of n es ++ post n))

  module _ (m : K) (r : R) (es : List (K × R)) (pre fill post : Tables K R) (cur : Counts K)
      (tabs : Tables K R) (g : Ready ((m, r) ∷ es) pre fill post cur tabs) (x : R) (rest : List R)
      (e : fill m ≡ x ∷ rest) where
    abbrev pre' : Tables K R
    pre' = put m (pre m ++ (r ∷ [])) pre

    abbrev fill' : Tables K R
    fill' = put m rest fill

    abbrev tabs' : Tables K R
    tabs' = put m (pre m ++ (r ∷ (rest ++ post m))) tabs

    scatter_row-here : scatter_row (cur, tabs) m r ≡ some (bump cur m, tabs')
    unfolding scatter_row
    scatter_row-here =
        rw (g.held m)
          (rw e (rw (write_at-middle (pre m) x r (rest ++ post m) (cur m) (g.cursor m)) refl))

    room_here : length rest ≡ length (rows_of m es)
    room_here =
        let a = g.room m in
        let b = rows_of-here m r es in
        let c : length (fill m) ≡ suc (length rest) = ap length e in
        let d : length (rows_of m ((m, r) ∷ es)) ≡ suc (length (rows_of m es)) = ap length b in
        omega (arith, a, c, d)

    Ready-step : Ready es pre' fill' post (bump cur m) tabs'
    unfolding bump
    Ready-step = record {
      held =
          key_split m (λ n. tabs' n ≡ pre' n ++ (fill' n ++ post n))
            (rw (put_here m (pre m ++ (r ∷ (rest ++ post m))) tabs) (
              rw (put_here m (pre m ++ (r ∷ [])) pre)
                (rw (put_here m rest fill) (sym (append_assoc (pre m) (r ∷ []) (rest ++ post m))))))
            (λ n d. rw (put_there m (pre m ++ (r ∷ (rest ++ post m))) tabs n d) (
              rw (put_there m (pre m ++ (r ∷ [])) pre n d)
                (rw (put_there m rest fill n d) (g.held n))));
      cursor =
          key_split m (λ n. put m (u32 (cur m + 1)) cur n ≡ length (pre' n))
            (rw (put_here m (u32 (cur m + 1)) cur) (
              rw (put_here m (pre m ++ (r ∷ [])) pre) (
                omega (arith, g.cursor m, g.small m, length-append (pre m) (r ∷ []), ap length e))))
            (λ n d.
              rw (put_there m (u32 (cur m + 1)) cur n d)
                (rw (put_there m (pre m ++ (r ∷ [])) pre n d) (g.cursor n)));
      room =
          key_split m (λ n. length (fill' n) ≡ length (rows_of n es))
            (rw (put_here m rest fill) room_here)
            (λ n d.
              rw (put_there m rest fill n d) (g.room n ∙ ap length (rows_of-there m r es n d)));
      small =
          key_split m (λ n. length (pre' n) + length (fill' n) < 2 ^ 32)
            (rw (put_here m rest fill) (
              rw (put_here m (pre m ++ (r ∷ [])) pre)
                (omega (arith, g.small m, length-append (pre m) (r ∷ []), ap length e))))
            (λ n d.
              rw (put_there m rest fill n d)
                (rw (put_there m (pre m ++ (r ∷ [])) pre n d) (g.small n)));
    }

    Filled-step :
        Filled es pre' post (run_rows scatter_row (bump cur m, tabs') es)
        → Filled ((m, r) ∷ es) pre post (run_rows scatter_row (cur, tabs) ((m, r) ∷ es))
    Filled-step (c, t, run, all) = (
      c,
      t,
      rw scatter_row-here run,
      key_split m (λ n. t n ≡ pre n ++ (rows_of n ((m, r) ∷ es) ++ post n))
          (all m
            ∙ rw (put_here m (pre m ++ (r ∷ [])) pre)
                (rw (rows_of-here m r es) (append_assoc (pre m) (r ∷ []) (rows_of m es ++ post m))))
          (λ n d.
            all n
            ∙ rw (put_there m (pre m ++ (r ∷ [])) pre n d) (rw (rows_of-there m r es n d) refl)),
    )

  -- The scatter of a packet's rows replaces what its blocks held by the rows, and leaves the rest.
  pub scatter_rows :
      (es : List (K × R)) (pre fill post : Tables K R) (cur : Counts K) (tabs : Tables K R)
      → Ready es pre fill post cur tabs
      → Filled es pre post (run_rows scatter_row (cur, tabs) es)
  scatter_rows [] pre fill post cur tabs g =
      (cur, tabs, refl, λ n. g.held n ∙ none_left n (fill n) refl)
    where
      none_left : (n : K) (f : List R) → fill n ≡ f → pre n ++ (fill n ++ post n) ≡ pre n ++ post n
      none_left n [] e = rw e
      none_left n (x ∷ f) e = absurd (omega (arith, g.room n, ap length e))
  scatter_rows ((m, r) ∷ es) pre fill post cur tabs g = elim (List-cases (fill m)) [
    | inl e ↦ absurd (omega (arith, g.room m, ap length e, ap length (rows_of-here m r es)))
    | inr (x, rest, e) ↦
        Filled-step m r es pre fill post cur tabs g x rest e
          (scatter_rows es _ _ post _ _ (Ready-step m r es pre fill post cur tabs g x rest e))
  ]
