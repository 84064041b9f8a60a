-- ===== src/Avl/Words.antt =====
-- What the tree stands for: an ascending list of words, each with its count.
use Prim.Native.Nat.Ordering.{lt, eq, gt}
use jitcompilation.Prelude.{
  ℕ, ◌+◌, ◌≡◌, ◌≢◌, refl, List, [], ◌∷◌, ◌++◌, arith, ap, sym, inl, inr, append_assoc,
}
use jitcompilation.Avl.Strcmp.{
  strcmp, strcmp_cases, strcmp_refl, eq_of_strcmp, lt_of_gt, gt_of_lt, lt_trans,
}

abbrev pub Words : Type 0
Words = List (List ℕ × ℕ)

-- One more occurrence of a word; where it is new, the words `new` are put in its place.
unfoldable pub splice : Words → List ℕ → Words → Words
splice new w [] = new
splice new w ((k, c) ∷ xs) = elim (strcmp w k) [
  | lt ↦ new ++ (k, c) ∷ xs
  | eq ↦ (k, c + 1) ∷ xs
  | gt ↦ (k, c) ∷ splice new w xs
]

unfoldable pub insert_word : List ℕ → Words → Words
unfolding splice
insert_word w xs = splice ((w, 1) ∷ []) w xs

-- The count of a word, 0 if it is not there.
unfoldable pub count : List ℕ → Words → ℕ
count w [] = 0
count w ((k, c) ∷ xs) = elim (strcmp w k) [ eq ↦ c | _ ↦ count w xs ]

-- The sum of the counts.
unfoldable pub total : Words → ℕ
total [] = 0
total ((k, c) ∷ xs) = c + total xs

-- Every word stands before `w`; every word stands after `w`.
abbrev pub Before : List ℕ → Words → Type 0
Before w [] = Unit
Before w ((k, c) ∷ xs) = (strcmp k w ≡ lt) × Before w xs

abbrev pub After : List ℕ → Words → Type 0
After w [] = Unit
After w ((k, c) ∷ xs) = (strcmp w k ≡ lt) × After w xs

abbrev pub IsAscending : Words → Type 0
IsAscending [] = Unit
IsAscending ((k, c) ∷ xs) = After k xs × IsAscending xs

pub After-append : (w : List ℕ) (xs ys : Words) → After w (xs ++ ys) → After w xs × After w ys
After-append w [] ys h = (tt, h)
After-append w ((k, c) ∷ xs) ys h =
    let (left, right) = After-append w xs ys h.1 in ((h.0, left), right)

pub After-trans : (w v : List ℕ) (xs : Words) → strcmp w v ≡ lt → After v xs → After w xs
After-trans w v [] h a = tt
After-trans w v ((k, c) ∷ xs) h a = (lt_trans w v k h a.0, After-trans w v xs h a.1)

Before-trans : (w v : List ℕ) (xs : Words) → strcmp w v ≡ lt → Before w xs → Before v xs
Before-trans w v [] h b = tt
Before-trans w v ((k, c) ∷ xs) h b = (lt_trans k w v b.0 h, Before-trans w v xs h b.1)

-- An ascending list around one of its words.
pub record Around (xs : Words) (w : List ℕ) (ys : Words) : Type 0 where
  pub left : IsAscending xs
  pub before : Before w xs
  pub after : After w ys
  pub right : IsAscending ys

pub IsAscending-append :
    (xs : Words) (w : List ℕ) (c : ℕ) (ys : Words)
    → IsAscending (xs ++ (w, c) ∷ ys)
    → Around xs w ys
IsAscending-append [] w c ys h = record { left = tt; before = tt; after = h.0; right = h.1 }
IsAscending-append ((k, n) ∷ xs) w c ys h =
    let a = IsAscending-append xs w c ys h.1 in
    let s = After-append k xs ((w, c) ∷ ys) h.0 in
    record { left = (s.0, a.left); before = (s.1.0, a.before); after = a.after; right = a.right }

pub splice-left :
    (new : Words) (w k : List ℕ) (c : ℕ) (xs ys : Words)
    → strcmp w k ≡ lt
    → splice new w (xs ++ (k, c) ∷ ys) ≡ splice new w xs ++ (k, c) ∷ ys
unfolding splice
splice-left new w k c [] ys h = rw (h, splice)
splice-left new w k c ((j, n) ∷ xs) ys h = elim (strcmp_cases w j) [
  | inl below ↦ rw (below, splice) (sym (append_assoc new ((j, n) ∷ xs) ((k, c) ∷ ys)))
  | inr (inl same) ↦ rw (same, splice)
  | inr (inr above) ↦ rw (above, splice) (ap (λ zs. (j, n) ∷ zs) (splice-left new w k c xs ys h))
]

pub splice-right :
    (new : Words) (w k : List ℕ) (c : ℕ) (xs ys : Words)
    → strcmp w k ≡ gt
    → Before k xs
    → splice new w (xs ++ (k, c) ∷ ys) ≡ xs ++ (k, c) ∷ splice new w ys
unfolding splice
splice-right new w k c [] ys h b = rw (h, splice)
splice-right new w k c ((j, n) ∷ xs) ys h b =
    rw (gt_of_lt j w (lt_trans j k w b.0 (lt_of_gt w k h)), splice)
      (ap (λ zs. (j, n) ∷ zs) (splice-right new w k c xs ys h b.1))

pub splice-here :
    (new : Words) (w k : List ℕ) (c : ℕ) (xs ys : Words)
    → strcmp w k ≡ eq
    → Before k xs
    → splice new w (xs ++ (k, c) ∷ ys) ≡ xs ++ (k, c + 1) ∷ ys
unfolding splice
splice-here new w k c [] ys h b = rw (h, splice)
splice-here new w k c ((j, n) ∷ xs) ys h b =
    let above : strcmp w j ≡ gt = rw (eq_of_strcmp w k h) (gt_of_lt j k b.0) in
    rw (above, splice) (ap (λ zs. (j, n) ∷ zs) (splice-here new w k c xs ys h b.1))

-- `count` on an ascending list around a word.
pub count-After : (w : List ℕ) (xs : Words) → After w xs → count w xs ≡ 0
unfolding count
count-After w [] a = refl
count-After w ((k, c) ∷ xs) a = rw (a.0, count) (count-After w xs a.1)

pub count-left :
    (w k : List ℕ) (c : ℕ) (xs ys : Words)
    → strcmp w k ≡ lt
    → After k ys
    → count w (xs ++ (k, c) ∷ ys) ≡ count w xs
unfolding count
count-left w k c [] ys h a = rw (h, count) (count-After w ys (After-trans w k ys h a))
count-left w k c ((j, n) ∷ xs) ys h a = ground (arith, count-left w k c xs ys h a)

pub count-right :
    (w k : List ℕ) (c : ℕ) (xs ys : Words)
    → strcmp w k ≡ gt
    → Before k xs
    → count w (xs ++ (k, c) ∷ ys) ≡ count w ys
unfolding count
count-right w k c [] ys h b = rw (h, count)
count-right w k c ((j, n) ∷ xs) ys h b =
    rw (gt_of_lt j w (lt_trans j k w b.0 (lt_of_gt w k h)), count) (count-right w k c xs ys h b.1)

pub count-here :
    (w k : List ℕ) (c : ℕ) (xs ys : Words)
    → strcmp w k ≡ eq
    → Before k xs
    → count w (xs ++ (k, c) ∷ ys) ≡ c
unfolding count
count-here w k c [] ys h b = rw (h, count)
count-here w k c ((j, n) ∷ xs) ys h b =
    let above : strcmp w j ≡ gt = rw (eq_of_strcmp w k h) (gt_of_lt j k b.0) in
    rw (above, count) (count-here w k c xs ys h b.1)

-- An insertion counts one more of its word, and no other.
pub count-insert_word :
    (w v : List ℕ) (xs : Words)
    → IsAscending xs
    → count v (insert_word w xs) ≡ count v xs + elim (strcmp v w) [ eq ↦ 1 | _ ↦ 0 ]
unfolding count insert_word
count-insert_word w v [] h = ground arith
count-insert_word w v ((k, c) ∷ xs) h = ground (
  arith,
  count-insert_word w v xs h.1,
  eq_of_strcmp v w,
  eq_of_strcmp w k,
  strcmp_refl k,
  count-After w xs,
  After-trans w k xs,
)

pub total-insert_word : (w : List ℕ) (xs : Words) → total (insert_word w xs) ≡ total xs + 1
unfolding total insert_word
total-insert_word w [] = refl
total-insert_word w ((k, c) ∷ xs) = ground (arith, total-insert_word w xs)

After-insert_word :
    (w v : List ℕ) (xs : Words) → strcmp v w ≡ lt → After v xs → After v (insert_word w xs)
unfolding insert_word
After-insert_word w v [] h a = (h, tt)
After-insert_word w v ((k, c) ∷ xs) h a = ground (arith, After-insert_word w v xs h)

pub insert_word-IsAscending :
    (w : List ℕ) (xs : Words) → IsAscending xs → IsAscending (insert_word w xs)
unfolding insert_word
insert_word-IsAscending w [] h = (tt, tt)
insert_word-IsAscending w ((k, c) ∷ xs) h = ground (
  arith,
  insert_word-IsAscending w xs h.1,
  After-insert_word w k xs,
  lt_of_gt w k,
  After-trans w k xs,
)

-- A word that is not in the list.
abbrev pub IsNew : List ℕ → Words → Type 0
IsNew w [] = Unit
IsNew w ((k, c) ∷ xs) = (strcmp w k ≢ eq) × IsNew w xs

pub splice-nil : (w : List ℕ) (xs : Words) → IsNew w xs → splice [] w xs ≡ xs
unfolding splice
splice-nil w [] h = refl
splice-nil w ((k, c) ∷ xs) h = ground (arith, splice-nil w xs h.1)

pub total-append : (xs ys : Words) → total (xs ++ ys) ≡ total xs + total ys
unfolding total
total-append [] ys = omega arith
total-append ((k, c) ∷ xs) ys = omega (arith, total-append xs ys)
