-- ===== src/Lldp/Sparse.antt =====
-- examples/lldp/lldp.hpp: the typed columns of a row belong to its type of TLV.
use nanotins.Shared.{ℕ, ◌+◌, ◌≡◌, ◌≢◌, refl, sym, subst, arith, List}
use nanotins.Shared.{Option, none, some, Bool, true, false, ◌>>=◌, if◌then◌else◌, ltb, leb, ◌==◌}
use nanotins.Shared.{◌||◌}
use nanotins.Shared.Buffer.{byte_at}
use nanotins.SomeipTlv.{rd_be16, rd_be32}
use nanotins.Lldp.{
  typed_mgmt, typed_ttl, typed_caps, Typed, untyped, read_if, decode_typed, lldp_ttl, lldp_sys_caps,
  lldp_mgmt_addr,
}

-- What a read gives, where it gives anything.
abbrev pub Gives {ℓ} : {A : Type ℓ} → (A → Type 0) → Option A → Type 0
Gives P none = Unit
Gives P (some a) = P a

pub Gives->>= {ℓ κ} :
    {A : Type ℓ} {B : Type κ} (P : B → Type 0) (o : Option A) (f : A → Option B)
    → ((a : A) → Gives P (f a))
    → Gives P (o >>= f)
Gives->>= P none f h = tt
Gives->>= P (some a) f h = h a

pub Gives-then {ℓ κ} :
    {A : Type ℓ} {B : Type κ} (Q : A → Type 0) (P : B → Type 0) (o : Option A) (f : A → Option B)
    → Gives Q o
    → ((a : A) → Q a → Gives P (f a))
    → Gives P (o >>= f)
Gives-then Q P none f g h = tt
Gives-then Q P (some a) f g h = h a g

pub Gives-if {ℓ} :
    {A : Type ℓ} (P : A → Type 0) (b : Bool) (x y : Option A)
    → (b ≡ true → Gives P x)
    → (b ≡ false → Gives P y)
    → Gives P (if b then x else y)
Gives-if P true x y h k = h refl
Gives-if P false x y h k = k refl

pub Gives-some {ℓ} :
    {A : Type ℓ} (P : A → Type 0) (o : Option A) (a : A) → Gives P o → o ≡ some a → P a
Gives-some P none a h e = cc
Gives-some P (some b) a h e = let same : b ≡ a = cc e in rw (sym same) h

-- The columns of one type of TLV are 0 in the row of another.
pub record IsSparse (type : ℕ) (t : Typed) : Type 0 where
  pub ttl : type ≢ lldp_ttl → t.ttl_seconds ≡ 0
  pub supported : type ≢ lldp_sys_caps → t.caps_supported ≡ 0
  pub enabled : type ≢ lldp_sys_caps → t.caps_enabled ≡ 0
  pub family : type ≢ lldp_mgmt_addr → t.mgmt_addr_subtype ≡ 0
  pub iface : type ≢ lldp_mgmt_addr → t.mgmt_iface_subtype ≡ 0
  pub number : type ≢ lldp_mgmt_addr → t.mgmt_iface_number ≡ 0

untyped-IsSparse : (type : ℕ) → IsSparse type untyped
untyped-IsSparse type = record {
  ttl = λ h. refl;
  supported = λ h. refl;
  enabled = λ h. refl;
  family = λ h. refl;
  iface = λ h. refl;
  number = λ h. refl;
}

ttl-IsSparse : (t : ℕ) → IsSparse lldp_ttl (record untyped { ttl_seconds = t })
ttl-IsSparse t = record {
  ttl = λ h. absurd (h refl);
  supported = λ h. refl;
  enabled = λ h. refl;
  family = λ h. refl;
  iface = λ h. refl;
  number = λ h. refl;
}

caps-IsSparse :
    (a b : ℕ) → IsSparse lldp_sys_caps (record untyped { caps_supported = a; caps_enabled = b })
caps-IsSparse a b = record {
  ttl = λ h. refl;
  supported = λ h. absurd (h refl);
  enabled = λ h. absurd (h refl);
  family = λ h. refl;
  iface = λ h. refl;
  number = λ h. refl;
}

mgmt-IsSparse :
    (a b c : ℕ)
    → IsSparse lldp_mgmt_addr
        (record untyped { mgmt_addr_subtype = a; mgmt_iface_subtype = b; mgmt_iface_number = c })
mgmt-IsSparse a b c = record {
  ttl = λ h. refl;
  supported = λ h. refl;
  enabled = λ h. refl;
  family = λ h. absurd (h refl);
  iface = λ h. absurd (h refl);
  number = λ h. absurd (h refl);
}

typed_mgmt-IsSparse :
    (mem : List ℕ) (v len : ℕ) → Gives (IsSparse lldp_mgmt_addr) (typed_mgmt mem v len)
typed_mgmt-IsSparse mem v len =
    Gives-if P (ltb len 1) _ _ (λ empty. none_set)
      (λ full. Gives->>= P (byte_at mem v) _ (λ n.
        Gives-if P (ltb n 1 || ltb len (1 + n)) _ _ (λ cut. none_set)
          (λ fits. Gives->>= P (byte_at mem (v + 1)) _ (λ family.
            Gives->>= P (read_if (leb (1 + n + 1) len) (byte_at mem (v + (1 + n)))) _ (λ iface.
              Gives->>= P (read_if (leb (1 + n + 1 + 4) len) (rd_be32 mem (v + (1 + n) + 1))) _
                (λ number. mgmt-IsSparse family iface number))))))
  where
    P : Typed → Type 0
    P = IsSparse lldp_mgmt_addr

    none_set : IsSparse lldp_mgmt_addr untyped
    none_set = untyped-IsSparse lldp_mgmt_addr

pub decode_typed-IsSparse :
    (mem : List ℕ) (len : ℕ) (type : ℕ) (o : Option ℕ)
    → Gives (IsSparse type) (decode_typed mem (record { type = type; len = len; value = o }))
unfolding decode_typed
decode_typed-IsSparse mem len type none = untyped-IsSparse type
decode_typed-IsSparse mem len type (some v) =
    Gives-if P (type == lldp_ttl) _ _
      (λ ttl. subst (λ k. Gives (IsSparse k) (typed_ttl mem v len)) (ground arith) ttl_set)
      (λ other.
        Gives-if P (type == lldp_sys_caps) _ _
          (λ caps. subst (λ k. Gives (IsSparse k) (typed_caps mem v len)) (ground arith) caps_set)
          (λ other'.
            Gives-if P (type == lldp_mgmt_addr) _ _
              (λ mgmt.
                subst (λ k. Gives (IsSparse k) (typed_mgmt mem v len)) (ground arith)
                  (typed_mgmt-IsSparse mem v len))
              (λ rest. untyped-IsSparse type)))
  where
    P : Typed → Type 0
    P = IsSparse type

    ttl_set : Gives (IsSparse lldp_ttl) (typed_ttl mem v len)
    ttl_set =
        Gives-if (IsSparse lldp_ttl) (leb 2 len) _ _
          (λ room. Gives->>= (IsSparse lldp_ttl) (rd_be16 mem v) _ ttl-IsSparse)
          (λ cut. untyped-IsSparse lldp_ttl)

    caps_set : Gives (IsSparse lldp_sys_caps) (typed_caps mem v len)
    caps_set =
        Gives-if (IsSparse lldp_sys_caps) (leb 4 len) _ _
          (λ room. Gives->>= (IsSparse lldp_sys_caps) (rd_be16 mem v) _ (λ a.
            Gives->>= (IsSparse lldp_sys_caps) (rd_be16 mem (v + 2)) _ (λ b. caps-IsSparse a b)))
          (λ cut. untyped-IsSparse lldp_sys_caps)
