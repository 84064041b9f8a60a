-- ===== src/Avl/Undo.antt =====
-- The contract of avl_remove of p3/avl.c, and how an insertion, a search and a removal go together.
use jitcompilation.Prelude.{ℕ, ◌<◌, ◌≡◌, ◌⊎◌, refl, Option, none, some, List, arith}
use jitcompilation.Prelude.Int.{pos}
use jitcompilation.Avl.Tree.{Tree, State, traverse}
use jitcompilation.Avl.Words.{Words, count}
use jitcompilation.Avl.Erase.{remove_word, remove_word-IsAscending, Once}
use jitcompilation.Avl.Order.{Post}
use jitcompilation.Avl.Balance.{height, IsAvl}
use jitcompilation.Avl.Shrink.{Shrinks, remove_node-Shrinks}
use jitcompilation.Avl.Vacate.{IsPlain}
use jitcompilation.Avl.Removal.{remove_node-Post}
use jitcompilation.Avl.Remove.{remove_node}
use jitcompilation.Avl.Handle.{Avl, avl_traverse, avl_items, avl_unique, avl_remove}
use jitcompilation.Avl.Contract.{IsValid, Returns, Shows, shown}

-- A removal from a balanced tree reads nothing through NULL, returns 0, and leaves it balanced.
pub avl_remove-IsAvl :
    (avl : Avl) (w : List ℕ)
    → IsAvl avl.root
    → Returns (λ code avl'. (code ≡ pos 0) × IsAvl avl'.root) (avl_remove avl w)
unfolding avl_remove
avl_remove-IsAvl avl w h =
    go (remove_node avl.root w avl.state) (remove_node-Shrinks avl.root w avl.state h)
  where
    go :
        (o : Option (Tree × State))
        → Shrinks (height avl.root) o
        → Returns
            (λ code avl'. (code ≡ pos 0) × IsAvl avl'.root)
            (elim o [ none ↦ none | some (t, s) ↦ some (pos 0, record { root = t; state = s }) ])
    go none p = absurd p
    go (some (t, s)) p = (refl, p.0)

-- A removal from a valid tree, of a word that occurs more than once or where every word occurs
-- once, returns 0 and a valid tree with one occurrence less.
pub avl_remove-remove_word :
    (avl : Avl) (w : List ℕ)
    → IsValid avl
    → IsPlain w (avl_traverse avl)
    → Returns
        (λ code avl'. (code ≡ pos 0) × Shows (remove_word w (avl_traverse avl)) avl')
        (avl_remove avl w)
unfolding avl_remove avl_traverse avl_items avl_unique
avl_remove-remove_word avl w h plain =
    go (remove_node avl.root w avl.state) (remove_node-Shrinks avl.root w avl.state h.balanced) (
      remove_node-Post avl.root w avl.state h.ascending plain
        (omega (arith, h.items), omega (arith, h.unique)))
  where
    go :
        (o : Option (Tree × State))
        → Shrinks (height avl.root) o
        → Post (traverse avl.root) (remove_word w (traverse avl.root)) avl.state o
        → Returns
            (λ code avl'. (code ≡ pos 0) × Shows (remove_word w (avl_traverse avl)) avl')
            (elim o [ none ↦ none | some (t, s) ↦ some (pos 0, record { root = t; state = s }) ])
    go none p q = absurd p
    go (some (t, s)) p q = (
      refl,
      shown _ _ avl.state s t h.items h.unique (remove_word-IsAscending w _ h.ascending) p.0 q.0
          q.1,
    )

-- A list in which each word occurs once, or `w` occurs.
abbrev pub Allows : List ℕ → Words → Type 0
Allows w ws = Once ws ⊎ (0 < count w ws)
