-- ===== src/PricingCleanup/Queue.antt =====
-- What the console shows of the queue agrees with what a pass would attempt.
use enterprise_agentops.Base.{
  ℕ, ◌+◌, ◌≡◌, refl, sym, ap, ◌∙◌, Bool, true, false, ◌&&◌, List, [], ◌∷◌, length, leb, select,
  sort_by, sort_onto, insert_by, if◌then◌else◌, Bool-cases, inl, inr, arith,
}
use enterprise_agentops.PricingCleanup.Record.{CleanupState, is_active, Cleanup}
use enterprise_agentops.PricingCleanup.Store.{World, due}
use enterprise_agentops.PricingCleanup.Console.{
  is_open, is_overdue_state, older, open_records, Workload, nothing_counted, count_state, count_due,
  count_overdue, count_all, workload,
}

all_kept {ℓ} : {A : Type ℓ} → (xs : List A) → select (λ _. true) xs ≡ xs
all_kept [] = refl
all_kept (x ∷ xs) = ap (λ ys. x ∷ ys) (all_kept xs)

active-is_open : (s : CleanupState) (b : Bool) → (is_active s && b) ≡ true → is_open s ≡ true
active-is_open CleanupState.active b h = refl
active-is_open _ b h = cc

-- Sorting keeps how many rows have a property.
module _ {ℓ} {A : Type ℓ} (key : A → ℕ) (keep : A → Bool) where
  insert-count :
      (x : A) (ys : List A)
      → length (select keep (insert_by key x ys)) ≡ length (select keep (x ∷ ys))
  insert-count x [] = refl
  insert-count x (y ∷ ys) = ground (arith, insert-count x ys)

  sort_onto-count :
      (sorted xs : List A)
      → length (select keep (sort_onto key sorted xs))
        ≡ length (select keep sorted) + length (select keep xs)
  sort_onto-count sorted [] = omega arith
  sort_onto-count sorted (x ∷ xs) =
      ground (arith, sort_onto-count (insert_by key x sorted) xs, insert-count x sorted)

  sort-count : (xs : List A) → length (select keep (sort_by key xs)) ≡ length (select keep xs)
  sort-count xs = omega (arith, sort_onto-count [] xs)

  -- A filter that lets through what is counted
  select-count :
      (through : A → Bool) (xs : List A)
      → ((x : A) → keep x ≡ true → through x ≡ true)
      → length (select keep (select through xs)) ≡ length (select keep xs)
  select-count through [] h = refl
  select-count through (x ∷ xs) h = ground (arith, select-count through xs h, h x)

sort-length {ℓ} : {A : Type ℓ} → (key : A → ℕ) (xs : List A) → length (sort_by key xs) ≡ length xs
sort-length key xs =
    ap length (sym (all_kept (sort_by key xs)))
    ∙ (sort-count key (λ _. true) xs ∙ ap length (all_kept xs))

abbrev is_due : ℕ → Cleanup → Bool
is_due now r = is_active r.state && leb r.cleanup_at now

due-is_open : (now : ℕ) (r : Cleanup) → is_due now r ≡ true → is_open r.state ≡ true
due-is_open now r h = active-is_open r.state (leb r.cleanup_at now) h

-- One row adds one where it is due.
state-due : (s : CleanupState) (c : Workload) → (count_state s c).due_now ≡ c.due_now
state-due CleanupState.pending_write c = refl
state-due CleanupState.active c = refl
state-due CleanupState.claimed c = refl
state-due CleanupState.delete_started c = refl
state-due CleanupState.cleaned_up c = refl
state-due CleanupState.vanished c = refl
state-due CleanupState.needs_review c = refl
state-due CleanupState.unknown_cleanup_state c = refl
state-due CleanupState.manually_resolved c = refl

overdue-due : (now : ℕ) (r : Cleanup) (c : Workload) → (count_overdue now r c).due_now ≡ c.due_now
overdue-due now r c =
    elim (Bool-cases (
      (leb r.cleanup_at now && is_overdue_state r.state)
      && older c.oldest_overdue_at r.cleanup_at)) [ inl e ↦ rw e refl | inr e ↦ rw e refl ]

due-due :
    (now : ℕ) (r : Cleanup) (c : Workload)
    → (count_due now r c).due_now ≡ c.due_now + (if is_due now r then 1 else 0)
due-due now r c = elim (Bool-cases (is_due now r)) [
  | inl e ↦ rw e refl
  | inr e ↦ rw e (omega arith)
]

counted :
    (b : Bool) (n : ℕ) (r : Cleanup) (rs : List Cleanup)
    → (n + (if b then 1 else 0)) + length rs ≡ n + length (if b then r ∷ rs else rs)
counted true n r rs = omega arith
counted false n r rs = omega arith

count_all-due :
    (now : ℕ) (c : Workload) (rs : List Cleanup)
    → (count_all now c rs).due_now ≡ c.due_now + length (select (is_due now) rs)
count_all-due now c [] = omega arith
count_all-due now c (r ∷ rs) =
    let s = count_state r.state c in
    let d = count_due now r s in
    count_all-due now (count_overdue now r d) rs
    ∙ (ap (λ n. n + length (select (is_due now) rs))
          (overdue-due now r d
            ∙ (due-due now r s
                ∙ ap (λ n. n + (if is_due now r then 1 else 0)) (state-due r.state c)))
        ∙ counted (is_due now r) c.due_now r (select (is_due now) rs))

zero_plus : (n : ℕ) → 0 + n ≡ n
zero_plus n = omega arith

-- At any moment, the number that `workload` gives as due is the number of rows that `due` offers to a pass.
pub workload-due :
    {Outside : Type 0} (now : ℕ) (w : World Outside)
    → (workload now w).0.due_now ≡ length (due now w)
unfolding workload open_records due
workload-due now w =
    count_all-due now nothing_counted (open_records w)
    ∙ (zero_plus _
        ∙ (sort-count (λ (r : Cleanup). r.cleanup_at) (is_due now)
              (select (λ r. is_open r.state) w.rows)
            ∙ (select-count (λ (r : Cleanup). r.cleanup_at) (is_due now) (λ r. is_open r.state)
                  w.rows (due-is_open now)
                ∙ sym (sort-length (λ (r : Cleanup). r.cleanup_at) (select (is_due now) w.rows)))))
