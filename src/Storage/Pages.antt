-- ===== src/Storage/Pages.antt =====
-- What a query returns: the records that match the filter, a page of them.
use mathlib.Core.Logic.Or
use mathlib.Core.List.{
  Mem, Mem-prop, mem-cons_self, mem-cons_of_mem, mem-cons, not-mem-nil, mem-cast,
}
use mathlib.Core.Bool.{Bool-set}
use forgeiq.Prelude.{
  negsuc, if-holds, append-nil, append-nil, ℕ, zero, suc, ◌+◌, ◌≤◌, ◌<◌, String, ◌≡◌, refl, ◌∙◌, ap,
  Bool, true, false, ◌⊎◌, inl, inr, Option, none, some, List, [], ◌∷◌, ◌++◌, ℤ, pos, pos_part,
  length, take, drop, ◌==◌, arith, Bool-cases, eq_iff, length-take-le,
}
use forgeiq.Storage.{
  cap_at, skip_offset, skip_offset, MemoryStorage, AuditLog, AuditFilter, skips_audit, mismatch,
  too_early, too_late, collect, in_range, page, query_audit_logs,
}

-- An empty field of the filter asks for nothing.
abbrev pub IsWanted : String → String → Type 0
IsWanted want have = (want ≡ "") ⊎ (have ≡ want)

abbrev pub IsNotBefore : Option ℕ → ℕ → Type 0
IsNotBefore none t = Unit
IsNotBefore (some from) t = from ≤ t

abbrev pub IsNotAfter : Option ℕ → ℕ → Type 0
IsNotAfter none t = Unit
IsNotAfter (some to) t = t ≤ to

pub record IsMatch (f : AuditFilter) (l : AuditLog) : Type 0 where
  pub workflow_id : IsWanted f.workflow_id l.workflow_id
  pub action : IsWanted f.action l.action
  pub from : IsNotBefore f.from l.created_at
  pub to : IsNotAfter f.to l.created_at

mismatch-IsWanted : (want have : String) → mismatch want have ≡ false → IsWanted want have
mismatch-IsWanted want have h = elim (Bool-cases (want == "")) [
  | inl e ↦ inl ((eq_iff want "").0 e)
  | inr e ↦ inr ((eq_iff have want).0 (ground arith))
]

too_early-IsNotBefore : (from : Option ℕ) (t : ℕ) → too_early from t ≡ false → IsNotBefore from t
too_early-IsNotBefore none t h = tt
too_early-IsNotBefore (some from) t h = ground arith

too_late-IsNotAfter : (to : Option ℕ) (t : ℕ) → too_late to t ≡ false → IsNotAfter to t
too_late-IsNotAfter none t h = tt
too_late-IsNotAfter (some to) t h = ground arith

skips_audit-IsMatch : (f : AuditFilter) (l : AuditLog) → skips_audit f l ≡ false → IsMatch f l
skips_audit-IsMatch f l h = record {
  workflow_id = mismatch-IsWanted f.workflow_id l.workflow_id (ground arith);
  action = mismatch-IsWanted f.action l.action (ground arith);
  from = too_early-IsNotBefore f.from l.created_at (ground arith);
  to = too_late-IsNotAfter f.to l.created_at (ground arith);
}

suc_plus : (k n : ℕ) → suc k + n ≡ suc (k + n)
suc_plus k n = omega arith

module _ {ℓ} {A : Type ℓ} where
  collect-mem : (skips : A → Bool) (xs : List A) (a : A) → Mem a (collect skips xs) → Mem a xs
  unfolding collect
  collect-mem skips [] a m = m
  collect-mem skips (x ∷ xs) a m = elim (Bool-cases (skips x)) [
    | inl e ↦ mem-cons_of_mem x (collect-mem skips xs a (rw e at m))
    | inr e ↦
        Or.elim Mem-prop (mem-cons.0 (rw e at m)) (λ p. mem-cast p mem-cons_self)
          (λ k. mem-cons_of_mem x (collect-mem skips xs a k))
  ]

  collect_kept :
      (skips : A → Bool) (xs : List A) (a : A) → Mem a (collect skips xs) → skips a ≡ false
  unfolding collect
  collect_kept skips [] a m = absurd (not-mem-nil m)
  collect_kept skips (x ∷ xs) a m = elim (Bool-cases (skips x)) [
    | inl e ↦ collect_kept skips xs a (rw e at m)
    | inr e ↦
        Or.elim (Bool-set _ _) (mem-cons.0 (rw e at m)) (λ p. ap skips p ∙ e)
          (collect_kept skips xs a)
  ]

  take-mem : (n : ℕ) (xs : List A) (a : A) → Mem a (take n xs) → Mem a xs
  take-mem zero xs a m = absurd (not-mem-nil m)
  take-mem (suc n) [] a m = m
  take-mem (suc n) (x ∷ xs) a m =
      Or.elim Mem-prop (mem-cons.0 m) (λ p. mem-cast p mem-cons_self)
        (λ k. mem-cons_of_mem x (take-mem n xs a k))

  drop-mem : (n : ℕ) (xs : List A) (a : A) → Mem a (drop n xs) → Mem a xs
  drop-mem zero xs a m = m
  drop-mem (suc n) [] a m = m
  drop-mem (suc n) (x ∷ xs) a m = mem-cons_of_mem x (drop-mem n xs a m)

  length-drop : (n : ℕ) (xs : List A) → n ≤ length xs → n + length (drop n xs) ≡ length xs
  length-drop zero xs h = omega arith
  length-drop (suc n) [] h = omega (arith, h)
  length-drop (suc n) (x ∷ xs) h = omega (arith, length-drop n xs (omega (arith, h)))

  length-take : (n : ℕ) (xs : List A) → n ≤ length xs → length (take n xs) ≡ n
  length-take zero xs h = refl
  length-take (suc n) [] h = omega (arith, h)
  length-take (suc n) (x ∷ xs) h = omega (arith, length-take n xs (omega (arith, h)))

  take-drop : (n : ℕ) (xs : List A) → take n xs ++ drop n xs ≡ xs
  take-drop zero xs = refl
  take-drop (suc n) [] = refl
  take-drop (suc n) (x ∷ xs) = ap (λ ys. x ∷ ys) (take-drop n xs)

  drop_all : (n : ℕ) (xs : List A) → length xs ≤ n → drop n xs ≡ []
  drop_all zero [] h = refl
  drop_all zero (x ∷ xs) h = absurd (omega (arith, h))
  drop_all (suc n) [] h = refl
  drop_all (suc n) (x ∷ xs) h = drop_all n xs (omega (arith, h))

  drop-drop : (n k : ℕ) (xs : List A) → drop (k + n) xs ≡ drop n (drop k xs)
  drop-drop n zero xs = ap (λ m. drop m xs) (omega arith)
  drop-drop zero (suc k) [] = drop_all (suc k + 0) [] (omega arith)
  drop-drop (suc n) (suc k) [] = drop_all (suc k + suc n) [] (omega arith)
  drop-drop n (suc k) (x ∷ xs) = ap (λ m. drop m (x ∷ xs)) (suc_plus k n) ∙ drop-drop n k xs

  in_range-bounds :
      (n : ℤ) (xs : List A) → in_range n xs ≡ true → (0 < pos_part n) × (pos_part n < length xs)
  in_range-bounds (pos n) xs h = ground arith
  in_range-bounds (negsuc n) xs h = ground arith

  in_range-most :
      (n : ℤ) (xs : List A) → in_range n xs ≡ false → 0 < pos_part n → length xs ≤ pos_part n
  in_range-most (pos n) xs h k = ground arith
  in_range-most (negsuc n) xs h k = ground arith

  skip_offset_lem : (k : ℕ) (xs : List A) → k < length xs → skip_offset (pos k) xs ≡ drop k xs
  skip_offset_lem zero xs h = refl
  skip_offset_lem (suc k) xs h =
      if-holds (λ r. r ≡ drop (suc k) xs) (in_range (pos (suc k)) xs) (drop (suc k) xs) xs
        (λ t. refl) (λ t. absurd (ground arith))

  cap_at-drop : (n : ℕ) (xs : List A) → 0 < n → cap_at (pos n) xs ++ drop n xs ≡ xs
  cap_at-drop n xs h = elim (Bool-cases (in_range (pos n) xs)) [
    | inl e ↦ rw e (take-drop n xs)
    | inr e ↦ rw (e, drop_all n xs (ground arith)) (append-nil xs)
  ]

  page_tile :
      (n k : ℕ) (xs : List A)
      → 0 < n
      → k < length xs
      → page (pos n) (pos k) xs ++ drop (k + n) xs ≡ drop k xs
  unfolding page
  page_tile n k xs h l = rw (skip_offset_lem k xs l, drop-drop n k xs) (cap_at-drop n (drop k xs) h)

  skip_offset-nonempty : (o : ℤ) (xs : List A) → 0 < length xs → 0 < length (skip_offset o xs)
  skip_offset-nonempty o xs h =
      if-holds (λ r. 0 < length r) (in_range o xs) (drop (pos_part o) xs) xs
        (λ t.
          let b = in_range-bounds o xs t in
          omega (arith, b, length-drop (pos_part o) xs (omega (arith, b))))
        (λ t. h)

  cap_at-nonempty : (n : ℤ) (xs : List A) → 0 < length xs → 0 < length (cap_at n xs)
  cap_at-nonempty n xs h =
      if-holds (λ r. 0 < length r) (in_range n xs) (take (pos_part n) xs) xs
        (λ t.
          let b = in_range-bounds n xs t in
          omega (arith, b, length-take (pos_part n) xs (omega (arith, b))))
        (λ t. h)

  page-nonempty :
      (limit offset : ℤ) (xs : List A) → 0 < length xs → 0 < length (page limit offset xs)
  unfolding page
  page-nonempty limit offset xs h =
      cap_at-nonempty limit (skip_offset offset xs) (skip_offset-nonempty offset xs h)

  -- Of results that are not empty, pages of a positive size tile them: at an offset inside them, the
  -- page followed by what stands after it is what stands from the offset on. No page is empty,
  -- whatever the offset, so that one past the end does not show the end.
  pub page_lem :
      (n k : ℕ) (xs : List A)
      → 0 < n
      → 0 < length xs
      → (k < length xs → page (pos n) (pos k) xs ++ drop (k + n) xs ≡ drop k xs)
        × (0 < length (page (pos n) (pos k) xs))
  page_lem n k xs h l = (page_tile n k xs h, page-nonempty (pos n) (pos k) xs l)

  page-mem : (limit offset : ℤ) (xs : List A) (a : A) → Mem a (page limit offset xs) → Mem a xs
  unfolding page
  page-mem limit offset xs a m =
      let rest = skip_offset offset xs in
      if-holds (λ r. Mem a r → Mem a xs) (in_range offset xs) (drop (pos_part offset) xs) xs
        (λ t. drop-mem (pos_part offset) xs a) (λ t. λ k. k)
        (if-holds (λ r. Mem a r → Mem a rest) (in_range limit rest) (take (pos_part limit) rest)
          rest (λ t. take-mem (pos_part limit) rest a) (λ t. λ k. k) m)

  length-page-le :
      (limit offset : ℤ) (xs : List A)
      → 0 < pos_part limit
      → length (page limit offset xs) ≤ pos_part limit
  unfolding page
  length-page-le limit offset xs h =
      let rest = skip_offset offset xs in
      if-holds (λ r. length r ≤ pos_part limit) (in_range limit rest) (take (pos_part limit) rest)
        rest (λ t. length-take-le (pos_part limit) rest) (λ t. in_range-most limit rest t h)

-- With a filter, every audit log that a query returns is stored and matches each of the filter's
-- conditions, and where the limit is positive, there are at most as many as it says.
pub query_audit_logs-IsMatch :
    (m : MemoryStorage) (f : AuditFilter)
    → ((l : AuditLog) → Mem l (query_audit_logs m (some f)) → Mem l m.audit_logs × IsMatch f l)
      × (0 < pos_part f.limit → length (query_audit_logs m (some f)) ≤ pos_part f.limit)
unfolding query_audit_logs
query_audit_logs-IsMatch m f =
    let found = collect (skips_audit f) m.audit_logs in
    (
      λ l k.
          let k' = page-mem f.limit f.offset found l k in
          (
            collect-mem (skips_audit f) m.audit_logs l k',
            skips_audit-IsMatch f l (collect_kept (skips_audit f) m.audit_logs l k'),
          ),
      length-page-le f.limit f.offset found,
    )
