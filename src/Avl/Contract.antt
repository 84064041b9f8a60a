-- ===== src/Avl/Contract.antt =====
-- The contract of the handle of p3/avl.c: a valid tree is a list of counted words, in ascending order.
use jitcompilation.Prelude.{◌≡◌, ◌≢◌, ◌⊎◌, sym, subst, Option, none, some, [], length, arith}
use jitcompilation.Prelude.Int.{ℤ, pos, negsuc}
use jitcompilation.Avl.Tree.{Tree, State, traverse}
use jitcompilation.Avl.Words.{Words, total, IsAscending}
use jitcompilation.Avl.Order.{Counted}
use jitcompilation.Avl.Balance.{IsAvl}
use jitcompilation.Avl.Handle.{Avl, avl_traverse, avl_items, avl_unique}

pub record IsValid (avl : Avl) : Type 0 where
  pub ascending : IsAscending (avl_traverse avl)
  pub balanced : IsAvl avl.root
  pub items : avl_items avl ≡ total (avl_traverse avl)
  pub unique : avl_unique avl ≡ length (avl_traverse avl)

-- A call returns, with a result and a handle of which this holds.
abbrev pub Returns : (ℤ → Avl → Type 0) → Option (ℤ × Avl) → Type 0
Returns P none = ⊥
Returns P (some (code, avl)) = P code avl

-- A valid handle that reads as the list.
abbrev pub Shows : Words → Avl → Type 0
Shows ws avl = IsValid avl × (avl_traverse avl ≡ ws)

pub shown :
    (ws ws' : Words) (s s' : State) (t : Tree)
    → s.items ≡ total ws
    → s.unique ≡ length ws
    → IsAscending ws'
    → IsAvl t
    → traverse t ≡ ws'
    → Counted ws ws' s s'
    → Shows ws' (record { root = t; state = s' })
unfolding avl_traverse avl_items avl_unique
shown ws ws' s s' t items unique h balanced reads counted = (
  record {
    ascending = subst IsAscending (sym reads) h;
    balanced = balanced;
    items = rw reads (omega (arith, counted.items));
    unique = rw reads (omega (arith, counted.unique));
  },
  reads,
)

pub Returns-map :
    {P Q : ℤ → Avl → Type 0} (o : Option (ℤ × Avl))
    → ((code : ℤ) (avl : Avl) → P code avl → Q code avl)
    → Returns P o
    → Returns Q o
Returns-map none f p = p
Returns-map (some (code, avl)) f p = f code avl p

-- The answer of avl_insert, by the list after it: -1 says that the tree is empty still.
abbrev Answers : Words → ℤ → Avl → Type 0
Answers ws code avl =
    Shows ws avl × (((code ≡ pos 0) × (ws ≢ [])) ⊎ ((code ≡ negsuc 0) × (ws ≡ [])))

-- A call that returns is followed by another.
pub Returns-bind :
    {P : ℤ → Avl → Type 0} (Q : ℤ → Avl → Type 0) (o : Option (ℤ × Avl))
    (k : ℤ → Avl → Option (ℤ × Avl))
    → Returns P o
    → ((code : ℤ) (avl : Avl) → P code avl → Returns Q (k code avl))
    → Returns Q (elim o [ none ↦ none | some (code, avl) ↦ k code avl ])
Returns-bind Q none k p f = p
Returns-bind Q (some (code, avl)) k p f = f code avl p
