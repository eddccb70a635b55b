-- ===== src/Pdus/Trace.antt =====
-- protocol_decode.hpp: what a walk emits. Every walk of a packet that lies in memory ends without a
-- fault, and a walk with any visitor is a run of the visitor over the same headers.
use nanotins.Shared.{
  ℕ, zero, suc, ◌+◌, ◌-◌, ◌<◌, ◌≤◌, ◌≡◌, refl, sym, ap, ◌∙◌, arith, List, [], ◌∷◌, ◌++◌, length,
}
use nanotins.Shared.{Option, none, some, true, ltb, leb, ◌>>=◌, ◌==◌, ◌||◌, not}
use nanotins.Shared.{
  All, All-append, ◌⊎◌, ltb-false→le, leb→le, Bool-cases, inl, inr, >>=-same, >>=-assoc,
}
use nanotins.WireSpec.Bounds.{length-read_bytes, read_bytes-IsRead}
use nanotins.Bulk.Rows.{run_rows}
use nanotins.Pdus.{
  advance_ptr, Pdu, ethernet, vlan, ipv4, ipv6, tcp, udp, ethertype_ipv4, ethertype_ipv6,
  ip_proto_tcp, ip_proto_udp, Bytes, subspan, overlay, is_tagged, word_host, size_of,
  link_type_ethernet,
}
use nanotins.Pdus.Walk.{
  ipv4_l3, ipv6_l3, tcp_result, udp_result, WalkResult, no_l4, L3, vlan_walk, walk_l2, walk_l3,
  walk_l4, walk_after_l2, walk_after_l3, walk_packet,
}

-- A header as the visitor sees it.
abbrev pub Header : Type 0
Header = Pdu × List ℕ

-- A window that lies in memory.
abbrev pub PtrInside : List ℕ → Option ℕ → ℕ → Type 0
PtrInside mem none len = len ≡ 0
PtrInside mem (some p) len = p + len ≤ length mem

abbrev pub Inside : List ℕ → Bytes → Type 0
Inside mem b = PtrInside mem b.ptr b.len

abbrev pub Part : Type 0 → Type 1
Part A = (S : Type 0) → (S → Pdu → List ℕ → Option S) → S → Option (S × A)

-- A part of a walk as a run over headers, whatever the visitor is.
pub record Run {A : Type 0} (f : Part A) : Type 1 where
  pub headers : List Header
  pub result : A
  pub whole : All (λ h. length h.1 ≡ size_of h.0) headers
  pub folds :
      (S : Type 0) (visit : S → Pdu → List ℕ → Option S) (s : S)
      → f S visit s ≡ (run_rows visit s headers >>= λ s'. some (s', result))

run_rows-append {ℓ} :
    {S : Type ℓ} {K R : Type 0} (f : S → K → R → Option S) (s : S) (xs ys : List (K × R))
    → run_rows f s (xs ++ ys) ≡ (run_rows f s xs >>= λ s'. run_rows f s' ys)
run_rows-append f s [] ys = refl
run_rows-append f s ((k, r) ∷ xs) ys =
    >>=-same (f s k r) (λ s'. run_rows-append f s' xs ys) ∙ sym (>>=-assoc (f s k r) _ _)

module _ {A : Type 0} where
  abbrev stop : A → Part A
  stop a S visit s = some (s, a)

  Run-stop : (a : A) → Run (stop a)
  Run-stop a = record { headers = []; result = a; whole = tt; folds = λ S visit s. refl }

  abbrev visiting : Pdu → List ℕ → Part A → Part A
  visiting p raw f S visit s = visit s p raw >>= λ s'. f S visit s'

  Run-visiting :
      (p : Pdu) (raw : List ℕ) (f : Part A)
      → length raw ≡ size_of p
      → Run f
      → Run (visiting p raw f)
  Run-visiting p raw f h r = record {
    whole = (h, r.whole);
    headers = (p, raw) ∷ r.headers;
    result = r.result;
    folds = λ S visit s.
        >>=-same (visit s p raw) (λ s'. r.folds S visit s') ∙ sym (>>=-assoc (visit s p raw) _ _);
  }

  Run-same :
      (f g : Part A)
      → ((S : Type 0) (visit : S → Pdu → List ℕ → Option S) (s : S) → f S visit s ≡ g S visit s)
      → Run g
      → Run f
  Run-same f g h r = record {
    headers = r.headers;
    result = r.result;
    whole = r.whole;
    folds = λ S visit s. h S visit s ∙ r.folds S visit s;
  }

  abbrev andthen : {B : Type 0} → Part B → (B → Part A) → Part A
  andthen f g S visit s = f S visit s >>= λ t. g t.1 S visit t.0

  Run-andthen :
      {B : Type 0} (f : Part B) (g : B → Part A) → Run f → ((b : B) → Run (g b)) → Run (andthen f g)
  Run-andthen f g r h =
      let t = h r.result in
      record {
        headers = r.headers ++ t.headers;
        result = t.result;
        whole = All-append (λ h. length h.1 ≡ size_of h.0) r.headers t.headers r.whole t.whole;
        folds = λ S visit s. rw (r.folds S visit s) (
            >>=-assoc (run_rows visit s r.headers) _ _
            ∙ >>=-same (run_rows visit s r.headers) (λ s'. t.folds S visit s')
            ∙ sym (
                >>=-assoc (run_rows visit s r.headers) (λ s'. run_rows visit s' t.headers)
                  (λ s'. some (s', t.result)))
            ∙ sym (
                ap (λ o. o >>= λ s'. some (s', t.result))
                  (run_rows-append visit s r.headers t.headers)));
      }

0-lt-size_of : (p : Pdu) → 0 < size_of p
0-lt-size_of ethernet = omega arith
0-lt-size_of vlan = omega arith
0-lt-size_of ipv4 = omega arith
0-lt-size_of ipv6 = omega arith
0-lt-size_of tcp = omega arith
0-lt-size_of udp = omega arith

-- An overlay in a window that lies in memory is false, or the copy of a struct that fits the window.
abbrev Copied : List ℕ → Bytes → ℕ → Pdu → Type 0
Copied mem b off p =
    (raw : List ℕ) × (overlay mem b off p ≡ some (some raw))
    × (off + size_of p ≤ b.len)
    × (length raw ≡ size_of p)

overlay-Copied :
    (mem : List ℕ) (b : Bytes) (off : ℕ) (p : Pdu)
    → Inside mem b
    → (overlay mem b off p ≡ some none) ⊎ Copied mem b off p
unfolding overlay
overlay-Copied mem b off p inside = go b.ptr b.len inside
  where
    go :
        (o : Option ℕ) (n : ℕ)
        → PtrInside mem o n
        → (overlay mem (record { ptr = o; len = n }) off p ≡ some none)
          ⊎ Copied mem (record { ptr = o; len = n }) off p
    go none n h =
        let short : ltb n (off + size_of p) ≡ true = ground (arith, 0-lt-size_of p) in
        inl (rw short refl)
    go (some q) n h = elim (Bool-cases (ltb n (off + size_of p))) [
      | inl short ↦ inl (rw short refl)
      | inr long ↦
          let fits = ltb-false→le _ _ long in
          let (raw, e) = read_bytes-IsRead mem (q + off) (size_of p) (omega arith) in
          inr (raw, rw long (rw e refl), fits, length-read_bytes mem (q + off) (size_of p) raw e)
    ]

subspan-Inside : (mem : List ℕ) (b : Bytes) (k : ℕ) → Inside mem b → Inside mem (subspan b k)
unfolding subspan
subspan-Inside mem b k inside = go b.ptr b.len inside
  where
    go :
        (o : Option ℕ) (n : ℕ)
        → PtrInside mem o n
        → Inside mem (subspan (record { ptr = o; len = n }) k)
    go o n h = elim (Bool-cases (leb k n)) [
      | inr e ↦ rw e refl
      | inl e ↦ rw e (moved (leb→le k n e) o h)
    ]
      where
        moved :
            k ≤ n → (o' : Option ℕ) → PtrInside mem o' n → PtrInside mem (advance_ptr o' k) (n - k)
        moved le none h' = omega arith
        moved le (some q) h' = omega arith

module _ (mem : List ℕ) where
  Run-vlan_walk :
      (fuel : ℕ) (pkt : Bytes) (ethertype off : ℕ)
      → Inside mem pkt
      → off ≤ pkt.len
      → pkt.len < off + fuel
      → Run (λ S visit s. vlan_walk mem visit fuel pkt ethertype off s)
  unfolding vlan_walk
  Run-vlan_walk zero pkt ethertype off inside h lt = absurd (omega arith)
  Run-vlan_walk (suc fuel) pkt ethertype off inside h lt = elim (Bool-cases (is_tagged ethertype)) [
    | inr e ↦
        Run-same _ (stop (some (ethertype, off))) (λ S visit s. rw (e, vlan_walk) refl) (Run-stop _)
    | inl e ↦ elim (overlay-Copied mem pkt off vlan inside) [
      | inl f ↦ Run-same _ (stop none) (λ S visit s. rw (e, vlan_walk) (rw f refl)) (Run-stop _)
      | inr (tag, f, fits, full) ↦
          let inner = word_host vlan "inner_ethertype" tag in
          Run-same _
            (visiting vlan tag (λ S visit s. vlan_walk mem visit fuel pkt inner (off + 4) s))
            (λ S visit s. rw (e, vlan_walk) (rw f refl))
            (Run-visiting vlan tag _ full
              (Run-vlan_walk fuel pkt inner (off + 4) inside (omega arith) (omega arith)))
    ]
  ]

  Run-walk_l2 : (pkt : Bytes) → Inside mem pkt → Run (λ S visit s. walk_l2 mem visit pkt s)
  unfolding walk_l2
  Run-walk_l2 pkt inside = elim (overlay-Copied mem pkt 0 ethernet inside) [
    | inl f ↦ Run-same _ (stop none) (λ S visit s. rw (f, walk_l2) refl) (Run-stop _)
    | inr (eth, f, fits, full) ↦
        let ethertype = word_host ethernet "ethertype" eth in
        Run-same _
          (visiting ethernet eth
            (λ S visit s. vlan_walk mem visit (suc pkt.len) pkt ethertype 14 s))
          (λ S visit s. rw (f, walk_l2) refl)
          (Run-visiting ethernet eth _ full
            (Run-vlan_walk (suc pkt.len) pkt ethertype 14 inside (omega arith) (omega arith)))
  ]

  Run-walk_l3 :
      (ethertype : ℕ) (pkt : Bytes)
      → Inside mem pkt
      → Run (λ S visit s. walk_l3 mem visit ethertype pkt s)
  unfolding walk_l3
  Run-walk_l3 ethertype pkt inside = elim (Bool-cases (ethertype == ethertype_ipv4)) [
    | inl e ↦ elim (overlay-Copied mem pkt 0 ipv4 inside) [
      | inl f ↦ Run-same _ (stop none) (λ S visit s. rw (e, walk_l3) (rw f refl)) (Run-stop _)
      | inr (ip, f, fits, full) ↦
          Run-same _ (visiting ipv4 ip (stop (some (ipv4_l3 ip))))
            (λ S visit s. rw (e, walk_l3) (rw f refl)) (Run-visiting ipv4 ip _ full (Run-stop _))
    ]
    | inr e ↦ elim (Bool-cases (ethertype == ethertype_ipv6)) [
      | inr e' ↦
          Run-same _ (stop none) (λ S visit s. rw (e, walk_l3) (rw (e', walk_l3) refl)) (Run-stop _)
      | inl e' ↦ elim (overlay-Copied mem pkt 0 ipv6 inside) [
        | inl f ↦
            Run-same _ (stop none) (λ S visit s. rw (e, walk_l3) (rw (e', walk_l3) (rw f refl)))
              (Run-stop _)
        | inr (ip, f, fits, full) ↦
            Run-same _ (visiting ipv6 ip (stop (some (ipv6_l3 ip))))
              (λ S visit s. rw (e, walk_l3) (rw (e', walk_l3) (rw f refl)))
              (Run-visiting ipv6 ip _ full (Run-stop _))
      ]
    ]
  ]

  Run-walk_l4 :
      (at ip_proto : ℕ) (pkt : Bytes)
      → Inside mem pkt
      → Run (λ S visit s. walk_l4 mem visit at ip_proto pkt s)
  unfolding walk_l4
  Run-walk_l4 at ip_proto pkt inside = elim (Bool-cases (ip_proto == ip_proto_tcp)) [
    | inl e ↦ elim (overlay-Copied mem pkt 0 tcp inside) [
      | inl f ↦ Run-same _ (stop no_l4) (λ S visit s. rw (e, walk_l4) (rw f refl)) (Run-stop _)
      | inr (seg, f, fits, full) ↦
          Run-same _ (visiting tcp seg (stop (tcp_result at seg)))
            (λ S visit s. rw (e, walk_l4) (rw f refl)) (Run-visiting tcp seg _ full (Run-stop _))
    ]
    | inr e ↦ elim (Bool-cases (ip_proto == ip_proto_udp)) [
      | inr e' ↦
          Run-same _ (stop no_l4) (λ S visit s. rw (e, walk_l4) (rw (e', walk_l4) refl))
            (Run-stop _)
      | inl e' ↦ elim (overlay-Copied mem pkt 0 udp inside) [
        | inl f ↦
            Run-same _ (stop no_l4) (λ S visit s. rw (e, walk_l4) (rw (e', walk_l4) (rw f refl)))
              (Run-stop _)
        | inr (seg, f, fits, full) ↦
            Run-same _ (visiting udp seg (stop (udp_result at seg)))
              (λ S visit s. rw (e, walk_l4) (rw (e', walk_l4) (rw f refl)))
              (Run-visiting udp seg _ full (Run-stop _))
      ]
    ]
  ]

  Run-walk_after_l3 :
      (off : ℕ) (pkt : Bytes) (h : Option L3)
      → Inside mem pkt
      → Run (λ S visit s. walk_after_l3 mem visit off pkt h s)
  unfolding walk_after_l3
  Run-walk_after_l3 off pkt none inside = Run-stop no_l4
  Run-walk_after_l3 off pkt (some h) inside = elim (Bool-cases (ltb pkt.len h.l3 || not h.has_l4)) [
    | inl e ↦ Run-same _ (stop no_l4) (λ S visit s. rw (e, walk_after_l3) refl) (Run-stop _)
    | inr e ↦
        Run-same _ _ (λ S visit s. rw (e, walk_after_l3) refl)
          (Run-walk_l4 (off + h.l3) h.ip_proto (subspan pkt h.l3)
            (subspan-Inside mem pkt h.l3 inside))
  ]

  Run-walk_after_l2 :
      (pkt : Bytes) (h : Option (ℕ × ℕ))
      → Inside mem pkt
      → Run (λ S visit s. walk_after_l2 mem visit pkt h s)
  unfolding walk_after_l2
  Run-walk_after_l2 pkt none inside = Run-stop no_l4
  Run-walk_after_l2 pkt (some (ethertype, off)) inside = elim (Bool-cases (ltb pkt.len off)) [
    | inl e ↦ Run-same _ (stop no_l4) (λ S visit s. rw (e, walk_after_l2) refl) (Run-stop _)
    | inr e ↦
        let rest = subspan-Inside mem pkt off inside in
        Run-same _ _ (λ S visit s. rw (e, walk_after_l2) refl)
          (Run-andthen _ (λ h S visit s. walk_after_l3 mem visit off (subspan pkt off) h s)
            (Run-walk_l3 ethertype (subspan pkt off) rest)
            (λ h. Run-walk_after_l3 off (subspan pkt off) h rest))
  ]

  pub Run-walk_packet :
      (link_type : ℕ) (pkt : Bytes)
      → Inside mem pkt
      → Run (λ S visit s. walk_packet mem visit link_type pkt s)
  unfolding walk_packet
  Run-walk_packet link_type pkt inside = elim (Bool-cases (link_type == link_type_ethernet)) [
    | inr e ↦ Run-same _ (stop no_l4) (λ S visit s. rw (e, walk_packet) refl) (Run-stop _)
    | inl e ↦
        Run-same _ _ (λ S visit s. rw (e, walk_packet) refl)
          (Run-andthen _ (λ h S visit s. walk_after_l2 mem visit pkt h s) (Run-walk_l2 pkt inside)
            (λ h. Run-walk_after_l2 pkt h inside))
  ]

-- Every walk of every packet ends without a read outside it, whatever its link type and bytes are:
-- there are headers and a result such that the walk with any visitor, faults of the visitor included,
-- calls it at these headers in their order and gives that result. Each of the headers is a whole
-- struct.
pub walk_packet-run_rows :
    (mem : List ℕ) (link_type : ℕ) (pkt : Bytes)
    → Inside mem pkt
    → (hs : List Header) × (r : WalkResult) × ((S : Type 0) (visit : S → Pdu → List ℕ → Option S)
          (s : S)
        → walk_packet mem visit link_type pkt s ≡ (run_rows visit s hs >>= λ s'. some (s', r)))
      × All (λ h. length h.1 ≡ size_of h.0) hs
walk_packet-run_rows mem link_type pkt inside =
    let t = Run-walk_packet mem link_type pkt inside in (t.headers, t.result, t.folds, t.whole)
