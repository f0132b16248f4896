-- ===== src/Governance/Send/Due.antt =====
-- Which votes a call takes up: `do_send_votes` of src/impls.rs.
use mathlib.Core.List.{Perm, perm_middle}
use mathlib.Core.List.Perm
use tellor_pallet.Base.{
  ℕ, zero, suc, ◌≤◌, ◌<◌, ◌≡◌, ◌⊎◌, ◌++◌, refl, ap, List, [], ◌∷◌, arith, leb, keep, take, length,
  Assoc, Bool-cases, inl, inr,
}
use tellor_pallet.Governance.Send.{
  Pending, scheduled, insert_by_schedule, sort_by_schedule, due_votes,
}

-- Every vote of the list is scheduled at the bound or before it.
abbrev pub AllDue : ℕ → List Pending → Type 0
AllDue t [] = Unit {0}
AllDue t (p ∷ ps) = (scheduled p ≤ t) × AllDue t ps

-- Every vote of the list is scheduled after the bound.
abbrev pub AllLate : ℕ → List Pending → Type 0
AllLate t [] = Unit {0}
AllLate t (p ∷ ps) = (t < scheduled p) × AllLate t ps

-- No vote of the list is scheduled before the bound.
abbrev pub NoneBefore : ℕ → List Pending → Type 0
NoneBefore t [] = Unit {0}
NoneBefore t (p ∷ ps) = (t ≤ scheduled p) × NoneBefore t ps

-- The votes stand in the order of their schedules.
abbrev pub InOrder : List Pending → Type 0
InOrder [] = Unit {0}
InOrder (p ∷ ps) = NoneBefore (scheduled p) ps × InOrder ps

keep-AllDue : (t : ℕ) (ps : List Pending) → AllDue t (keep (λ p. leb (scheduled p) t) ps)
keep-AllDue t [] = tt
keep-AllDue t (p ∷ ps) = elim (Bool-cases (leb (scheduled p) t)) [
  | inl due ↦ rw due (ground arith, keep-AllDue t ps)
  | inr late ↦ rw late (keep-AllDue t ps)
]

insert-AllDue :
    (t : ℕ) (p : Pending) (ps : List Pending)
    → scheduled p ≤ t
    → AllDue t ps
    → AllDue t (insert_by_schedule p ps)
unfolding insert_by_schedule
insert-AllDue t p [] h x = (h, tt)
insert-AllDue t p (q ∷ ps) h (here, rest) = elim (Bool-cases (leb (scheduled p) (scheduled q))) [
  | inl before ↦ rw before (h, (here, rest))
  | inr after ↦ rw after (here, insert-AllDue t p ps h rest)
]

sort-AllDue : (t : ℕ) (ps : List Pending) → AllDue t ps → AllDue t (sort_by_schedule ps)
unfolding sort_by_schedule
sort-AllDue t [] x = tt
sort-AllDue t (p ∷ ps) (here, rest) =
    insert-AllDue t p (sort_by_schedule ps) here (sort-AllDue t ps rest)

NoneBefore-le : (t u : ℕ) (ps : List Pending) → t ≤ u → NoneBefore u ps → NoneBefore t ps
NoneBefore-le t u [] h x = tt
NoneBefore-le t u (p ∷ ps) h (here, rest) = (omega arith, NoneBefore-le t u ps h rest)

insert-NoneBefore :
    (t : ℕ) (p : Pending) (ps : List Pending)
    → t ≤ scheduled p
    → NoneBefore t ps
    → NoneBefore t (insert_by_schedule p ps)
unfolding insert_by_schedule
insert-NoneBefore t p [] h x = (h, tt)
insert-NoneBefore t p (q ∷ ps) h (here, rest) =
    elim (Bool-cases (leb (scheduled p) (scheduled q))) [
      | inl before ↦ rw before (h, (here, rest))
      | inr after ↦ rw after (here, insert-NoneBefore t p ps h rest)
    ]

insert-InOrder : (p : Pending) (ps : List Pending) → InOrder ps → InOrder (insert_by_schedule p ps)
unfolding insert_by_schedule
insert-InOrder p [] x = (tt, tt)
insert-InOrder p (q ∷ ps) (first, rest) = elim (Bool-cases (leb (scheduled p) (scheduled q))) [
  | inl before ↦
      let le : scheduled p ≤ scheduled q = ground arith in
      rw before ((le, NoneBefore-le (scheduled p) (scheduled q) ps le first), (first, rest))
  | inr after ↦
      let le : scheduled q ≤ scheduled p = ground arith in
      rw after (insert-NoneBefore (scheduled q) p ps le first, insert-InOrder p ps rest)
]

sort-InOrder : (ps : List Pending) → InOrder (sort_by_schedule ps)
unfolding sort_by_schedule
sort-InOrder [] = tt
sort-InOrder (p ∷ ps) = insert-InOrder p (sort_by_schedule ps) (sort-InOrder ps)

-- What is taken and what is left of a list are its two parts, and nothing is left unless as many are
-- taken as may be.
take-parts :
    (n : ℕ) (ps : List Pending)
    → (rest : List Pending) × (take n ps ++ rest ≡ ps)
      × (length (take n ps) ≤ n)
      × ((length (take n ps) ≡ n) ⊎ (rest ≡ []))
take-parts zero ps = (ps, refl, omega arith, inl refl)
take-parts (suc n) [] = ([], refl, omega arith, inr refl)
take-parts (suc n) (p ∷ ps) =
    let (rest, parts, most, full) = take-parts n ps in
    (
      rest,
      ap (◌∷◌ p) parts,
      omega (arith, most),
      elim full [ inl all ↦ inl (ap suc all) | inr none_left ↦ inr none_left ],
    )

insert-Perm : (p : Pending) (ps : List Pending) → Perm (insert_by_schedule p ps) (p ∷ ps)
unfolding insert_by_schedule
insert-Perm p [] = Perm.rfl
insert-Perm p (q ∷ ps) = elim (Bool-cases (leb (scheduled p) (scheduled q))) [
  | inl before ↦ rw before Perm.rfl
  | inr after ↦ rw after (Perm.trans (Perm.cons q (insert-Perm p ps)) (Perm.swap p q ps))
]

sort-Perm : (ps : List Pending) → Perm (sort_by_schedule ps) ps
unfolding sort_by_schedule
sort-Perm [] = Perm.rfl
sort-Perm (p ∷ ps) = Perm.trans (insert-Perm p (sort_by_schedule ps)) (Perm.cons p (sort-Perm ps))

-- The votes that are due and those that are not make up the list.
keep-parts :
    (t : ℕ) (ps : List Pending)
    → (late : List Pending) × AllLate t late × Perm (keep (λ p. leb (scheduled p) t) ps ++ late) ps
keep-parts t [] = ([], tt, Perm.rfl)
keep-parts t (p ∷ ps) =
    let (late, after, parts) = keep-parts t ps in
    elim (Bool-cases (leb (scheduled p) t)) [
      | inl due ↦ rw due (late, after, Perm.cons p parts)
      | inr not_due ↦ rw not_due (
        p ∷ late,
        (ground arith, after),
        Perm.trans (perm_middle (keep (λ (q : Pending). leb (scheduled q) t) ps) late)
            (Perm.cons p parts),
      )
    ]

-- The votes that a call takes up, with the others that are due and those that are not yet due, are
-- the pending votes in some order. Those taken up come first in the order of the schedules, so no
-- vote that is left is scheduled before one that is taken up; they are as many as the call allows
-- at most, and exactly as many if a vote that is due is left.
pub due_votes-Due :
    (timestamp max : ℕ) (pending : Assoc (ℕ × ℕ))
    → (left : List Pending) × (late : List Pending) × Perm
        ((due_votes timestamp max pending ++ left) ++ late)
        pending
      × AllDue timestamp (due_votes timestamp max pending ++ left)
      × AllLate timestamp late
      × InOrder (due_votes timestamp max pending ++ left)
      × (length (due_votes timestamp max pending) ≤ max)
      × ((length (due_votes timestamp max pending) ≡ max) ⊎ (left ≡ []))
unfolding due_votes
due_votes-Due timestamp max pending =
    let due = keep (λ p. leb (scheduled p) timestamp) pending in
    let (late, after, all) = keep-parts timestamp pending in
    let (left, parts, most, full) = take-parts max (sort_by_schedule due) in
    (
      left,
      late,
      rw parts (Perm.trans (Perm.append_right late (sort-Perm due)) all),
      rw parts (sort-AllDue timestamp due (keep-AllDue timestamp pending)),
      after,
      rw parts (sort-InOrder due),
      most,
      full,
    )
