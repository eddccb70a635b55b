-- ===== src/Dpar/Compile/Run.antt =====
-- dpar.hpp: the matcher on the rules of a text that compiles.
use nanotins.Shared.{
  ℕ, ◌+◌, ◌^◌, ◌<◌, ◌≡◌, refl, List, [], ◌∷◌, length, All, All-map, Option, some, true,
}
use nanotins.Shared.{inl, inr}
use nanotins.Dpar.{Rule}
use nanotins.Dpar.Catalog.{build_l2l3_catalog}
use nanotins.Dpar.Match.{EngineStats, dpar_match}
use nanotins.Dpar.Rounds.{IsRule, Takes}
use nanotins.Dpar.Engine.{dpar_match-Run}
use nanotins.Dpar.Compile.{compile_rules}
use nanotins.Dpar.Compile.Rules.{Validated, compile_rules-Verdict}

-- A compiled text never makes the matcher read outside a packet: when compile_rules accepts a text
-- shorter than 2^32 - 1 bytes, then dpar_match with its rules ends on every packet without a fault,
-- for every parser that takes the regions inside the packet, whatever the counters are.
pub compile_rules-dpar_match :
    {S : Type 0} (text : List ℕ) (names : List (List ℕ))
    (on_match : S → (kind pid rule_id begin end : ℕ) → Option (S × ℕ)) (pkt : List ℕ) (pid : ℕ)
    (s : S) (st : EngineStats)
    → length text + 1 < 2 ^ 32
    → (compile_rules text build_l2l3_catalog names).ok ≡ true
    → Takes on_match pkt pid
    → (s' : S) × (st' : EngineStats) × (dpar_match on_match pkt pid
          (compile_rules text build_l2l3_catalog names).rules
          (s, st)
        ≡ some (s', st'))
unfolding dpar_match
compile_rules-dpar_match {S} text names on_match pkt pid s st small accepted takes =
    elim (compile_rules-Verdict text names small) [
      | inr (bad, errors, none) ↦ absurd (cc (bad, accepted))
      | inl (ok, clean, valid) ↦ run (compile_rules text build_l2l3_catalog names).rules (
          All-map (Validated (length (compile_rules text build_l2l3_catalog names).rules)) _
            (λ r v. v.runnable) (compile_rules text build_l2l3_catalog names).rules valid)
    ]
  where
    run :
        (rules : List Rule)
        → All (IsRule (length rules)) rules
        → (s' : S) × (st' : EngineStats) × (dpar_match on_match pkt pid rules (s, st)
            ≡ some (s', st'))
    run [] valid = (s, st, refl)
    run (rule ∷ rules) valid =
        let r = dpar_match-Run on_match pkt pid rule rules s st valid takes in
        (r.state, r.stats, r.done)
