-- ===== src/Jit/Parser/Numbering.antt =====
-- How the parser numbers the nodes that it makes.
use jitcompilation.Prelude.{ℕ, suc, ◌<◌, ◌≡◌, arith}
use jitcompilation.Jit.Syntax.{Dag}

-- Read from left to right, the ids of the nodes are lo + 1, lo + 2, ..., hi.
abbrev pub Numbered : {V : Type 0} → ℕ → Dag V → ℕ → Type 0
Numbered lo (Dag.val i v) hi = (i ≡ suc lo) × (hi ≡ i)
Numbered lo (Dag.neg i d) hi = (i ≡ suc lo) × Numbered i d hi
Numbered lo (Dag.bin o i l r) hi = (m : ℕ) × (i ≡ suc m) × Numbered lo l m × Numbered i r hi

pub Numbered-lt : {V : Type 0} (d : Dag V) {lo hi : ℕ} → Numbered lo d hi → lo < hi
Numbered-lt (Dag.val i v) n = omega arith
Numbered-lt (Dag.neg i d) n = omega (arith, Numbered-lt d n.1)
Numbered-lt (Dag.bin o i l r) n = omega (arith, Numbered-lt l n.2, Numbered-lt r n.3)
