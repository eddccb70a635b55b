-- ===== src/Pcap/Options/Bounds.antt =====
-- pcap_blocks.hpp: the option walk stays inside its region and ends.
use nanotins.Shared.{ℕ, zero, suc, ◌+◌, ◌≤◌, ◌<◌, ◌≡◌, refl, subst, arith, Option, none, some, List}
use nanotins.Shared.{length, Bool, ltb, Bool-cases, ltb-false→le, inl, inr}
use nanotins.Pcap.{OptionCursor, BlockOption}
use nanotins.Pcap.Readers.{word16, rd16-word16, rd16_outside, pad4-arith}
use nanotins.Pcap.Options.{Next, next_option_at, next_option, options_loop, for_options}

-- A region is null, or lies inside the buffer.
abbrev pub Fits : List ℕ → Option ℕ → ℕ → Type 0
Fits mem none size = Unit {0}
Fits mem (some start) size = start + size ≤ length mem

abbrev pub IsInside : List ℕ → OptionCursor → Type 0
IsInside mem c = Fits mem c.start c.size

-- What `next_option` answers at a region inside the buffer: false, or an option whose padded value
-- lies inside the buffer, with the cursor moved on in the region.
abbrev pub Advances : List ℕ → ℕ → Next → Type 0
Advances mem size none = ⊥
Advances mem size (some none) = Unit {0}
Advances mem size (some (some (opt, c))) =
    (opt.value + opt.len ≤ length mem) × (c.size < size) × IsInside mem c

next_option_at-Advances :
    (mem : List ℕ) (start size : ℕ) (le : Bool)
    → 4 ≤ size
    → start + size ≤ length mem
    → Advances mem size (next_option_at mem start size le)
unfolding next_option_at
next_option_at-Advances mem start size le h inside = rw (rd16-word16 mem start le (omega arith)) (
    rw (rd16-word16 mem (start + 2) le (omega arith))
      (ground (arith, pad4-arith (word16 mem (start + 2) le))))

pub next_option-Advances :
    (mem : List ℕ) (c : OptionCursor) → IsInside mem c → Advances mem c.size (next_option mem c)
unfolding next_option
next_option-Advances mem c h = go c.start refl
  where
    go : (o : Option ℕ) → c.start ≡ o → Advances mem c.size (next_option mem c)
    go none e = rw e tt
    go (some start) e = rw e (elim (Bool-cases (ltb c.size 4)) [
      | inl short ↦ rw short tt
      | inr long ↦ rw long (
          next_option_at-Advances mem start c.size c.little_endian (ltb-false→le _ _ long)
            (subst (λ o. Fits mem o c.size) e h))
    ])

abbrev pub IsRead {ℓ} : {A : Type ℓ} → Option A → Type ℓ
IsRead {A} o = (a : A) × (o ≡ some a)

module _ {ℓ} {A : Type ℓ} (mem : List ℕ) (visit : A → BlockOption → Option A) where
  -- A visit that only reads an option's value does not fault.
  abbrev pub Visits : Type ℓ
  Visits = (acc : A) (opt : BlockOption) → opt.value + opt.len ≤ length mem → IsRead (visit acc opt)

  module _ (visits : Visits) where
    round :
        (fuel : ℕ) (c : OptionCursor) (acc : A) (n : Next)
        → next_option mem c ≡ n
        → Advances mem c.size n
        → ((c' : OptionCursor) (acc' : A)
            → IsInside mem c'
            → c'.size < c.size
            → IsRead (options_loop fuel mem visit c' acc'))
        → IsRead (options_loop (suc fuel) mem visit c acc)
    unfolding options_loop
    round fuel c acc none e a ih = absurd a
    round fuel c acc (some none) e a ih = (acc, rw e)
    round fuel c acc (some (some (opt, c'))) e a ih =
        let (acc', v) = visits acc opt a.0 in let (r, h) = ih c' acc' a.2 a.1 in (r, rw e (rw v h))

    options_loop-IsRead :
        (fuel : ℕ) (c : OptionCursor) (acc : A)
        → IsInside mem c
        → c.size < fuel
        → IsRead (options_loop fuel mem visit c acc)
    options_loop-IsRead zero c acc h f = absurd (omega arith)
    options_loop-IsRead (suc fuel) c acc h f =
        round fuel c acc (next_option mem c) refl (next_option-Advances mem c h)
          (λ c' acc' h' less. options_loop-IsRead fuel c' acc' h' (omega arith))

    -- The option walk of any region inside the buffer ends without a fault, whatever the bytes are.
    pub for_options-IsRead :
        (c : OptionCursor) (acc : A) → IsInside mem c → IsRead (for_options mem visit c acc)
    unfolding for_options
    for_options-IsRead c acc h = options_loop-IsRead (suc c.size) c acc h (omega arith)

-- A walk that starts outside the buffer faults.
pub for_options_outside {ℓ} :
    {A : Type ℓ} (mem : List ℕ) (visit : A → BlockOption → Option A) (c : OptionCursor) (acc : A)
    (start : ℕ)
    → c.start ≡ some start
    → 4 ≤ c.size
    → length mem ≤ start
    → for_options mem visit c acc ≡ none
unfolding for_options options_loop next_option next_option_at
for_options_outside mem visit c acc start at long past = rw (outside, options_loop) refl
  where
    outside : next_option mem c ≡ none
    outside = ground (arith, rd16_outside mem start c.little_endian past)
