-- ===== src/Bulk/Executor.antt =====
-- nanotins/include/nanotins/bulk.hpp: the executors. `order` is the sequence in which the scheduler
-- starts the tasks, and the result the sequence in which the kernel runs. The products are of size_t,
-- and wrap at 2^64.
use nanotins.Shared.{All-append}
use nanotins.Shared.Bits.{u64}
use nanotins.Shared.{
  ℕ, zero, suc, ◌+◌, ◌-◌, ◌*◌, ◌/◌, ◌^◌, ◌<◌, ◌≤◌, ◌≡◌, refl, ap, ◌∙◌, subst, arith, List, [], ◌∷◌,
  ◌++◌,
}
use nanotins.Shared.{
  All, true, ◌==◌, if◌then◌else◌, Bool-cases, inl, inr, ltb, ltb→lt, ltb-false→le,
}
use native.Mathlib.Nat.{
  le-div_iff_mul-le, div-mul-le_self, mul-le-mul_right, mul-div_right, zero-div,
}
use nanotins.Bulk.Overlay.{elem, covers, covers-elem}

-- `for (i = start; i < end; ++i) k(i);`.
pub range : (start count : ℕ) → List ℕ
range start zero = []
range start (suc count) = start ∷ range (suc start) count

abbrev pub task_start : (n num_tasks task : ℕ) → ℕ
task_start n num_tasks task = u64 (task * n) / num_tasks

pub bulk_tasks : (n num_tasks : ℕ) → List ℕ → List ℕ
bulk_tasks n num_tasks [] = []
bulk_tasks n num_tasks (t ∷ ts) =
    range (task_start n num_tasks t)
      (task_start n num_tasks (u64 (t + 1)) - task_start n num_tasks t)
    ++ bulk_tasks n num_tasks ts

abbrev pub at_least_one : ℕ → ℕ
at_least_one num_tasks = if num_tasks == 0 then 1 else num_tasks

pub bulk_for_each : (num_tasks n : ℕ) → List ℕ → List ℕ
bulk_for_each num_tasks n order = bulk_tasks n (at_least_one num_tasks) order

pub serial_for_each : (num_tasks n : ℕ) → List ℕ
serial_for_each num_tasks n = range 0 n

elem-range : (j start count : ℕ) → start ≤ j → j < start + count → elem j (range start count) ≡ true
unfolding range
elem-range j start zero lo hi = absurd (omega arith)
elem-range j start (suc count) lo hi = elim (Bool-cases (j == start)) [
  | inl e ↦ rw e refl
  | inr e ↦ rw e (elem-range j (suc start) count (ground arith) (omega arith))
]

elem-append_left : (j : ℕ) (xs ys : List ℕ) → elem j xs ≡ true → elem j (xs ++ ys) ≡ true
elem-append_left j [] ys h = cc
elem-append_left j (x ∷ xs) ys h = elim (Bool-cases (j == x)) [
  | inl e ↦ rw e refl
  | inr e ↦ rw e (elem-append_left j xs ys (rw e at h))
]

elem-append_right : (j : ℕ) (xs ys : List ℕ) → elem j ys ≡ true → elem j (xs ++ ys) ≡ true
elem-append_right j [] ys h = h
elem-append_right j (x ∷ xs) ys h = elim (Bool-cases (j == x)) [
  | inl e ↦ rw e refl
  | inr e ↦ rw e (elem-append_right j xs ys h)
]

All-range : (n start count : ℕ) → start + count ≤ n → All (λ i. i < n) (range start count)
unfolding range
All-range n start zero h = tt
All-range n start (suc count) h = (omega arith, All-range n (suc start) count (omega arith))

covers_of :
    (n : ℕ) (order : List ℕ) → ((j : ℕ) → j < n → elem j order ≡ true) → covers n order ≡ true
covers_of zero order h = refl
covers_of (suc n) order h = rw (h n (omega arith)) (covers_of n order (λ j lt. h j (omega arith)))

u64-small : (k : ℕ) → k < 2 ^ 64 → u64 k ≡ k
u64-small k h = omega arith

module _ (n tasks : ℕ) (some_task : 0 < tasks) (narrow : tasks * n < 2 ^ 64)
    (counted : tasks < 2 ^ 64) where
  -- The start of a task without the wrap.
  abbrev start : ℕ → ℕ
  start t = t * n / tasks

  task_start-start : (t : ℕ) → t ≤ tasks → task_start n tasks t ≡ start t
  task_start-start t h =
      let below : t * n ≤ tasks * n = mul-le-mul_right n h in
      ap (λ k. k / tasks) (u64-small (t * n) (omega (arith, below, narrow)))

  start_mono : (s t : ℕ) → s ≤ t → start s ≤ start t
  start_mono s t h =
      let below = div-mul-le_self (s * n) tasks in
      let more : s * n ≤ t * n = mul-le-mul_right n h in
      (le-div_iff_mul-le some_task).1 (omega (arith, below, more))

  start-last : start tasks ≡ n
  start-last = mul-div_right n some_task

  start-first : start 0 ≡ 0
  start-first = let e : 0 * n ≡ 0 = omega arith in ap (λ k. k / tasks) e ∙ zero-div tasks

  -- The indices that a task runs.
  task_range : ℕ → List ℕ
  task_range t = range (start t) (start (t + 1) - start t)

  bulk_tasks-range :
      (t : ℕ) (ts : List ℕ)
      → t < tasks
      → bulk_tasks n tasks (t ∷ ts) ≡ task_range t ++ bulk_tasks n tasks ts
  unfolding bulk_tasks task_range
  bulk_tasks-range t ts lt =
      let next : u64 (t + 1) ≡ t + 1 = u64-small (t + 1) (omega arith) in
      rw next
        (rw (task_start-start t (omega arith)) (rw (task_start-start (t + 1) (omega arith)) refl))

  -- The task that runs an index.
  task_of : (m j : ℕ) → j < start m → (t : ℕ) × (t < m) × (start t ≤ j) × (j < start (t + 1))
  task_of zero j h = absurd (omega (arith, start-first, h))
  task_of (suc m) j h = elim (Bool-cases (ltb j (start m))) [
    | inl lower ↦ let (t, lt, lo, hi) = task_of m j (ltb→lt _ _ lower) in (t, omega arith, lo, hi)
    | inr here ↦
        let next : suc m ≡ m + 1 = omega arith in
        (m, omega arith, ltb-false→le _ _ here, subst (λ k. j < start k) next h)
  ]

  task-All :
      (order : List ℕ) → All (λ t. t < tasks) order → All (λ i. i < n) (bulk_tasks n tasks order)
  unfolding bulk_tasks task_range
  task-All [] h = tt
  task-All (t ∷ ts) (lt, h) = rw (bulk_tasks-range t ts lt) (
      All-append (λ i. i < n) _ _
        (All-range n (start t) (start (t + 1) - start t) (
          omega (
            arith,
            start_mono t (t + 1) (omega arith),
            start_mono (t + 1) tasks (omega arith),
            start-last,
          )))
        (task-All ts h))

  task-elem :
      (order : List ℕ) (t j : ℕ)
      → All (λ t. t < tasks) order
      → elem t order ≡ true
      → start t ≤ j
      → j < start (t + 1)
      → elem j (bulk_tasks n tasks order) ≡ true
  unfolding bulk_tasks task_range
  task-elem [] t j within h lo hi = cc
  task-elem (u ∷ us) t j (lt, within) h lo hi =
      rw (bulk_tasks-range u us lt) (elim (Bool-cases (t == u)) [
        | inl e ↦
            let same : t ≡ u = ground arith in
            elem-append_left j _ _ (
              subst (λ k. elem j (range (start k) (start (k + 1) - start k)) ≡ true) same
                (elem-range j (start t) (start (t + 1) - start t) lo (omega arith)))
        | inr e ↦ elem-append_right j _ _ (task-elem us t j within (rw e at h) lo hi)
      ])

-- Every index is run and no other, however the scheduler orders the tasks: when the order names each
-- task at least once and nothing else, the kernels of `bulk_for_each` are run at indices below n
-- only, and at each of them. A count of 0 tasks is taken as 1. The number of tasks, and its product
-- with n, are below 2^64.
pub bulk_for_each-covers :
    (num_tasks n : ℕ) (order : List ℕ)
    → at_least_one num_tasks < 2 ^ 64
    → at_least_one num_tasks * n < 2 ^ 64
    → All (λ t. t < at_least_one num_tasks) order
    → covers (at_least_one num_tasks) order ≡ true
    → All (λ i. i < n) (bulk_for_each num_tasks n order)
      × (covers n (bulk_for_each num_tasks n order) ≡ true)
unfolding bulk_for_each
bulk_for_each-covers num_tasks n order counted narrow within all =
    let tasks = at_least_one num_tasks in
    let positive : 0 < tasks = ground arith in
    (
      task-All n tasks positive narrow counted order within,
      covers_of n (bulk_tasks n tasks order) (λ j lt.
          let (t, small, lo, hi) =
            task_of n tasks positive narrow counted tasks j
              (omega (arith, start-last n tasks positive narrow counted)) in
          task-elem n tasks positive narrow counted order t j within
            (covers-elem tasks order t all small) lo hi),
    )
