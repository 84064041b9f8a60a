-- ===== src/Scheduler/Choice.antt =====
-- Which thread thread_candidate of p2/scheduler.c returns.
use jitcompilation.Prelude.{
  ℕ, zero, suc, ◌+◌, ◌<◌, ◌≤◌, ◌≡◌, ◌⊎◌, inl, inr, refl, sym, ap, ◌∙◌, subst, true, false, Option,
  none, some, List, [], ◌∷◌, ◌==◌, length, get_elem?, arith, dec_lt, ℕ_discrete, Bool-cases,
}
use jitcompilation.Scheduler.Threads.{
  Status, is_ready, next, is_same, or_head, Candidate, thread, null, fault, endless, search_from,
  start_of, thread_candidate,
}

-- The thread at a position is ready; it is there, and is not.
abbrev pub IsReady : List Status → ℕ → Type 0
IsReady ts j = (s : Status) × (get_elem? ts j ≡ some s) × (is_ready s ≡ true)

abbrev pub IsBusy : List Status → ℕ → Type 0
IsBusy ts j = (s : Status) × (get_elem? ts j ≡ some s) × (is_ready s ≡ false)

at : (ts : List Status) (j : ℕ) → j < length ts → IsReady ts j ⊎ IsBusy ts j
at [] j h = absurd (omega arith)
at (s ∷ ts) zero h = elim (Bool-cases (is_ready s)) [
  | inl ready ↦ inl (s, refl, ready)
  | inr busy ↦ inr (s, refl, busy)
]
at (s ∷ ts) (suc j) h = at ts j (omega arith)

-- The first ready thread in a stretch of positions: all before it are busy. NULL says that the whole
-- stretch is busy.
abbrev pub Picks : (ℕ → Type 0) → List Status → Candidate → Type 0
Picks InStretch ts (thread j) = IsReady ts j × InStretch j
Picks InStretch ts null = (j : ℕ) → InStretch j → IsBusy ts j
Picks InStretch ts fault = ⊥
Picks InStretch ts endless = ⊥

module _ (ts : List Status) (ref : Option ℕ) where
  step_ready :
      (f : ℕ) (c : Option ℕ)
      → IsReady ts (or_head c)
      → search_from ts ref (suc f) c ≡ thread (or_head c)
  unfolding search_from
  step_ready f c (s, e, ready) = rw (e, search_from) (rw ready refl)

  step_null :
      (f : ℕ) (c : Option ℕ)
      → IsBusy ts (or_head c)
      → is_same (next ts (or_head c)) ref ≡ true
      → search_from ts ref (suc f) c ≡ null
  unfolding search_from
  step_null f c (s, e, busy) same = rw (e, search_from) (rw (busy, search_from) (rw same refl))

  step_next :
      (f : ℕ) (c : Option ℕ)
      → IsBusy ts (or_head c)
      → is_same (next ts (or_head c)) ref ≡ false
      → search_from ts ref (suc f) c ≡ search_from ts ref f (next ts (or_head c))
  unfolding search_from
  step_next f c (s, e, busy) other = rw (e, search_from) (rw (busy, search_from) (rw other refl))

next-some : (ts : List Status) (c : ℕ) → c + 1 < length ts → next ts c ≡ some (c + 1)
unfolding next
next-some ts c h = ground arith

next-none : (ts : List Status) (c : ℕ) → ¬ (c + 1 < length ts) → next ts c ≡ none
unfolding next
next-none ts c h = ground arith

Picks-map :
    {S T : ℕ → Type 0} (ts : List Status) (r : Candidate)
    → ((j : ℕ) → S j → T j)
    → ((j : ℕ) → T j → S j ⊎ IsBusy ts j)
    → Picks S ts r
    → Picks T ts r
Picks-map ts (thread j) f g p = (p.0, f j p.1)
Picks-map ts null f g p = λ j t. elim (g j t) [ inl s ↦ p j s | inr busy ↦ busy ]
Picks-map ts fault f g p = p
Picks-map ts endless f g p = p

head_is_zero :
    (ts : List Status) (ref : Option ℕ) (f : ℕ)
    → search_from ts ref f none ≡ search_from ts ref f (some 0)
unfolding search_from
head_is_zero ts ref zero = refl
head_is_zero ts ref (suc f) = refl

module _ (ts : List Status) where
  only : (c j : ℕ) → IsBusy ts c → c ≤ j → j < c + 1 → IsBusy ts j
  only c j busy low high = subst (IsBusy ts) (omega arith) busy

  -- A stretch that begins at `c`, without `c` and with it.
  begins : (c j : ℕ) → IsBusy ts c → c ≤ j → (c + 1 ≤ j) ⊎ IsBusy ts j
  begins c j busy low = elim (ℕ_discrete c j) [
    | yes same ↦ inr (subst (IsBusy ts) same busy)
    | no ne ↦ inl (omega arith)
  ]

  next_is : (c r : ℕ) → c + 1 < length ts → is_same (next ts c) (some r) ≡ (c + 1 == r)
  next_is c r h = ap (λ o. is_same o (some r)) (next-some ts c h)

  goes_to :
      (ref : Option ℕ) (f c : ℕ)
      → IsBusy ts c
      → c + 1 < length ts
      → is_same (some (c + 1)) ref ≡ false
      → search_from ts ref (suc f) (some c) ≡ search_from ts ref f (some (c + 1))
  goes_to ref f c busy more other =
      step_next ts ref f (some c) busy (ap (λ o. is_same o ref) (next-some ts c more) ∙ other)
      ∙ ap (search_from ts ref f) (next-some ts c more)

  -- up to a position `r`
  Picks-until :
      (f r c : ℕ)
      → r < length ts
      → c < r
      → r ≤ c + f
      → Picks (λ j. (c ≤ j) × (j < r)) ts (search_from ts (some r) f (some c))
  Picks-until zero r c h less enough = absurd (omega arith)
  Picks-until (suc f) r c h less enough = elim (at ts c (omega arith)) [
    | inl ready ↦
        subst (Picks (λ j. (c ≤ j) × (j < r)) ts) (sym (step_ready ts (some r) f (some c) ready))
          (ready, (omega arith, less))
    | inr busy ↦ elim (ℕ_discrete (c + 1) r) [
      | yes last ↦
          subst (Picks (λ j. (c ≤ j) × (j < r)) ts)
            (sym (
              step_null ts (some r) f (some c) busy
                (next_is c r (omega arith) ∙ ground (arith, last))))
            λ j (low, high). only c j busy low (omega arith)
      | no more ↦
          subst (Picks (λ j. (c ≤ j) × (j < r)) ts)
            (sym (goes_to (some r) f c busy (omega arith) (ground (arith, more))))
            (Picks-map ts _ (λ j (low, high). (omega arith, high))
              (λ j (low, high). elim (begins c j busy low) [
                | inl above ↦ inl (above, high)
                | inr same ↦ inr same
              ])
              (Picks-until f r (c + 1) h (omega arith) (omega arith)))
    ]
  ]

  -- to the end of the list
  Picks-end :
      (f c : ℕ)
      → c < length ts
      → length ts ≤ c + f
      → Picks (λ j. (c ≤ j) × (j < length ts)) ts (search_from ts none f (some c))
  Picks-end zero c less enough = absurd (omega arith)
  Picks-end (suc f) c less enough = elim (at ts c less) [
    | inl ready ↦
        subst (Picks (λ j. (c ≤ j) × (j < length ts)) ts)
          (sym (step_ready ts none f (some c) ready)) (ready, (omega arith, less))
    | inr busy ↦ elim (dec_lt (c + 1) (length ts)) [
      | no last ↦
          subst (Picks (λ j. (c ≤ j) × (j < length ts)) ts)
            (sym
              (step_null ts none f (some c) busy (ap (λ o. is_same o none) (next-none ts c last))))
            λ j (low, high). only c j busy low (omega arith)
      | yes more ↦
          subst (Picks (λ j. (c ≤ j) × (j < length ts)) ts) (sym (goes_to none f c busy more refl))
            (Picks-map ts _ (λ j (low, high). (omega arith, high))
              (λ j (low, high). elim (begins c j busy low) [
                | inl above ↦ inl (above, high)
                | inr same ↦ inr same
              ])
              (Picks-end f (c + 1) more (omega arith)))
    ]
  ]

  -- to the end of the list, and on from its head up to a position `r`
  Picks-round :
      (f r c : ℕ)
      → 0 < r
      → r ≤ c
      → c < length ts
      → length ts + r ≤ c + f
      → Picks (λ j. ((c ≤ j) × (j < length ts)) ⊎ (j < r)) ts (search_from ts (some r) f (some c))
  Picks-round zero r c positive low less enough = absurd (omega arith)
  Picks-round (suc f) r c positive low less enough = elim (at ts c less) [
    | inl ready ↦
        subst (Picks (λ j. ((c ≤ j) × (j < length ts)) ⊎ (j < r)) ts)
          (sym (step_ready ts (some r) f (some c) ready)) (ready, inl (omega arith, less))
    | inr busy ↦ elim (dec_lt (c + 1) (length ts)) [
      | no last ↦
          subst (Picks (λ j. ((c ≤ j) × (j < length ts)) ⊎ (j < r)) ts)
            (sym (
              step_next ts (some r) f (some c) busy
                (ap (λ o. is_same o (some r)) (next-none ts c last))
              ∙ (ap (search_from ts (some r) f) (next-none ts c last)
                  ∙ head_is_zero ts (some r) f)))
            (Picks-map ts _ (λ j (from, high). inr high)
              (λ j in_stretch. elim in_stretch [
                | inl (from, high) ↦ inr (only c j busy from (omega arith))
                | inr high ↦ inl (omega arith, high)
              ])
              (Picks-until f r 0 (omega arith) positive (omega arith)))
      | yes more ↦
          subst (Picks (λ j. ((c ≤ j) × (j < length ts)) ⊎ (j < r)) ts)
            (sym (goes_to (some r) f c busy more (ground arith)))
            (Picks-map ts _
              (λ j in_stretch. elim in_stretch [
                | inl (from, high) ↦ inl (omega arith, high)
                | inr high ↦ inr high
              ])
              (λ j in_stretch. elim in_stretch [
                | inl (from, high) ↦ elim (begins c j busy from) [
                  | inl above ↦ inl (inl (above, high))
                  | inr same ↦ inr same
                ]
                | inr high ↦ inl (inr high)
              ])
              (Picks-round f r (c + 1) positive (omega arith) more (omega arith)))
    ]
  ]

-- After a thread of the list has run, thread_candidate comes to an end and reads nothing through
-- NULL: it returns a thread of the list that is ready, and NULL only where no thread is ready.
pub thread_candidate-Picks :
    (ts : List Status) (i : ℕ)
    → i < length ts
    → Picks
        (λ j. j < length ts)
        ts
        (thread_candidate (record { threads = ts; curr_thread = some i }))
unfolding thread_candidate start_of
thread_candidate-Picks ts i h = elim (dec_lt (i + 1) (length ts)) [
  | yes more ↦
      subst (λ o. Picks (λ j. j < length ts) ts (search_from ts o (length ts + 1) o))
        (sym (next-some ts i more))
        (Picks-map ts _
          (λ j in_stretch. elim in_stretch [ inl (from, high) ↦ high | inr high ↦ omega arith ])
          (λ j high. elim (dec_lt j (i + 1)) [
            | yes low ↦ inl (inr low)
            | no above ↦ inl (inl (omega arith, high))
          ])
          (Picks-round ts (length ts + 1) (i + 1) (i + 1) (omega arith) (omega arith) more
            (omega arith)))
  | no last ↦
      subst (λ o. Picks (λ j. j < length ts) ts (search_from ts o (length ts + 1) o))
        (sym (next-none ts i last))
        (subst (Picks (λ j. j < length ts) ts) (sym (head_is_zero ts none (length ts + 1))) (
          Picks-map ts _ (λ j (from, high). high) (λ j high. inl (omega arith, high))
            (Picks-end ts (length ts + 1) 0 (omega arith) (omega arith))))
]
