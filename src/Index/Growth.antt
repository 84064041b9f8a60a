-- ===== src/Index/Growth.antt =====
-- The growth of the table of p4/index.c, and index_update and index_lookup as a whole.
use jitcompilation.Prelude.{
  ℕ, zero, suc, ◌≡◌, ◌≢◌, ◌⊎◌, inl, inr, refl, sym, ap, ◌∙◌, subst, Bool, Option, none, some, List,
  [], ◌∷◌, if◌then◌else◌, ◌==◌, length, get_elem?, replicate, arith, Option-cases, Bool-cases,
  ℕ_discrete,
}
use jitcompilation.Index.Hash.{key_of, key_of-ne-zero}
use jitcompilation.Index.Table.{
  Maps, Index, update, assign, lookup, index_lookup, create, move, rehash, is_loaded, Answer,
  answer, failure, exit, grow, index_update,
}
use jitcompilation.Index.Search.{==_self, ==_ne, key_there}
use jitcompilation.Index.Store.{
  IsSettled, IsAbsent, Stores, update-Stores, lookup-find, lookup-IsAbsent,
}

zeros : (n j : ℕ) {k off : ℕ} → get_elem? {A = ℕ × ℕ} (replicate n (0, 0)) j ≡ some (k, off) → 0 ≡ k
zeros zero j e = ground (arith, e)
zeros (suc n) zero e = key_there e
zeros (suc n) (suc j) e = zeros n j e

pub empty-IsSettled : (n : ℕ) → IsSettled (replicate n (0, 0))
empty-IsSettled n j k off e filled = absurd (filled (sym (zeros n j e)))

-- The offset of the last entry with the key, `o` where there is none.
unfoldable pub last_of : Maps → ℕ → Option ℕ → Option ℕ
last_of [] l o = o
last_of ((k, off) ∷ entries) l o = last_of entries l (if k == l then some off else o)

-- A table that has the offsets of the entries on top of those of `index`.
abbrev pub Overlays : Maps → Index → Option Index → Type 0
Overlays entries index none = Unit
Overlays entries index (some index') =
    IsSettled index'.maps × ((l : ℕ) → l ≢ 0 → lookup index' l ≡ last_of entries l (lookup index l))

stored_offset :
    (index index' : Index) (k off : ℕ)
    → Stores index index' k off
    → (l : ℕ) → l ≢ 0
    → lookup index' l ≡ (if k == l then some off else lookup index l)
stored_offset index index' k off s l filled = elim (ℕ_discrete k l) [
  | yes same ↦ rw (sym same) (rw (==_self k) s.stored)
  | no apart ↦ rw (==_ne k l apart) (s.kept l filled apart)
]

-- A table that has the entry on top of those of `index`.
abbrev Moves : Index → ℕ → ℕ → Option Index → Type 0
Moves index k off none = Unit
Moves index k off (some index') =
    IsSettled index'.maps
    × ((l : ℕ) → l ≢ 0 → lookup index' l ≡ (if k == l then some off else lookup index l))

move-Moves :
    (index : Index) (k off : ℕ) → IsSettled index.maps → Moves index k off (move index k off)
unfolding move
move-Moves index k off h = elim (ℕ_discrete k 0) [
  | yes empty ↦ rw (empty, move) (h, λ l filled. rw (==_ne 0 l (λ e. filled (sym e))) refl)
  | no filled ↦ elim (Option-cases (update index k)) [
    | inl stuck ↦ rw (==_ne k 0 filled, move) (rw (stuck, move) tt)
    | inr ((index', j), e) ↦
        let s = update-Stores k filled index h e off in
        rw (==_ne k 0 filled, move)
          (rw (e, move) (s.settled, stored_offset index (assign index' j off) k off s))
  ]
]

Overlays-step :
    (k off : ℕ) (entries : Maps) (index : Index) (o : Option Index)
    → Moves index k off o
    → ((index' : Index) → IsSettled index'.maps → Overlays entries index' (rehash entries index'))
    → Overlays
        ((k, off) ∷ entries)
        index
        (elim o [ none ↦ none | some index' ↦ rehash entries index' ])
unfolding last_of
Overlays-step k off entries index none m rest = tt
Overlays-step k off entries index (some index') m rest =
    over (rehash entries index') (rest index' m.0)
  where
    over : (o : Option Index) → Overlays entries index' o → Overlays ((k, off) ∷ entries) index o
    over none p = tt
    over (some index'') p = (p.0, λ l filled. p.1 l filled ∙ ap (last_of entries l) (m.1 l filled))

rehash-Overlays :
    (entries : Maps) (index : Index)
    → IsSettled index.maps
    → Overlays entries index (rehash entries index)
unfolding rehash last_of
rehash-Overlays [] index h = (h, λ l filled. refl)
rehash-Overlays ((k, off) ∷ entries) index h =
    Overlays-step k off entries index (move index k off) (move-Moves index k off h)
      (rehash-Overlays entries)

-- The last entry with a key is one of the entries with it, if there is one.
last_of-cases :
    (entries : Maps) (l : ℕ) (o : Option ℕ)
    → (IsAbsent entries l × (last_of entries l o ≡ o))
      ⊎ ((j : ℕ) × (off : ℕ) × (get_elem? entries j ≡ some (l, off))
          × (last_of entries l o ≡ some off))
unfolding last_of
last_of-cases [] l o = inl ((λ j off e. cc), refl)
last_of-cases ((k, off) ∷ entries) l o =
    elim (last_of-cases entries l (if k == l then some off else o)) [
      | inr (j, off', there, e) ↦ inr (suc j, off', there, e)
      | inl (absent, e) ↦ elim (ℕ_discrete k l) [
        | yes same ↦
            inr (0, off, ap (λ x. some (x, off)) same, e ∙ rw (sym same) (rw (==_self k) refl))
        | no apart ↦ inl (absent_too k off apart absent, e ∙ rw (==_ne k l apart) refl)
      ]
    ]
  where
    absent_too : (k off : ℕ) → k ≢ l → IsAbsent entries l → IsAbsent ((k, off) ∷ entries) l
    absent_too k off apart absent zero off' e = apart (key_there e)
    absent_too k off apart absent (suc j) off' e = absent j off' e

last_of-lookup :
    (index : Index) (l : ℕ)
    → l ≢ 0
    → IsSettled index.maps
    → last_of index.maps l none ≡ lookup index l
last_of-lookup index l filled h = elim (last_of-cases index.maps l none) [
  | inl (absent, e) ↦ e ∙ sym (lookup-IsAbsent index l filled absent)
  | inr (j, off, there, e) ↦ e ∙ sym (lookup-find index l filled (h j l off there filled))
]

-- A settled table that finds what `index` finds.
abbrev pub Agrees : Index → Answer Index → Type 0
Agrees index (answer index') =
    IsSettled index'.maps × ((l : ℕ) → l ≢ 0 → lookup index' l ≡ lookup index l)
Agrees index _ = Unit

-- The rehash of a settled table into an empty one.
rehashed :
    (index : Index) (n : ℕ)
    → IsSettled index.maps
    → Agrees index (elim (rehash index.maps (record { size = 0; maps = replicate n (0, 0) })) [
      | none ↦ exit
      | some index' ↦ answer index'
    ])
rehashed index n h =
    go (rehash index.maps blank) (rehash-Overlays index.maps blank (empty-IsSettled n))
  where
    blank : Index
    blank = record { size = 0; maps = replicate n (0, 0) }

    nothing : (l : ℕ) → l ≢ 0 → lookup blank l ≡ none
    nothing l filled = lookup-IsAbsent blank l filled (λ j off e. filled (sym (zeros n j e)))

    go :
        (o : Option Index)
        → Overlays index.maps blank o
        → Agrees index (elim o [ none ↦ exit | some index' ↦ answer index' ])
    go none p = tt
    go (some index') p = (
      p.0,
      λ l filled.
          p.1 l filled
          ∙ (ap (last_of index.maps l) (nothing l filled) ∙ last_of-lookup index l filled h),
    )

-- Where `grow` answers, on a settled table, the table is settled and finds what it found before.
pub grow-Agrees :
    (malloc : Bool) (index : Index) → IsSettled index.maps → Agrees index (grow malloc index)
unfolding grow create
grow-Agrees malloc index h = elim (Bool-cases (is_loaded index.size (length index.maps))) [
  | inr light ↦ rw (light, grow) (h, λ l filled. refl)
  | inl loaded ↦ elim (Bool-cases malloc) [
    | inr full ↦ rw (loaded, grow) (rw (full, create) tt)
    | inl room ↦ rw (loaded, grow) (rw (room, create) (rehashed index _ h))
  ]
]

-- An answer of index_update, through whose pointer any offset can be assigned.
abbrev Ready : Index → ℕ → Answer (Index × ℕ) → Type 0
Ready index key (answer (index', j)) = (off : ℕ) → Stores index (assign index' j off) key off
Ready index key _ = Unit

index_update-Ready :
    (malloc : Bool) (index : Index) (key_ : List ℕ)
    → IsSettled index.maps
    → Ready index (key_of key_) (index_update malloc index key_)
unfolding index_update
index_update-Ready malloc index key_ h = go (grow malloc index) (grow-Agrees malloc index h)
  where
    go :
        (a : Answer Index)
        → Agrees index a
        → Ready index (key_of key_) (elim a [
          | failure ↦ failure
          | exit ↦ exit
          | answer index' ↦ elim (update index' (key_of key_)) [
            | none ↦ exit
            | some (index'', j) ↦ answer (index'', j)
          ]
        ])
    go failure p = tt
    go exit p = tt
    go (answer index') p = elim (Option-cases (update index' (key_of key_))) [
      | inl stuck ↦ rw stuck tt
      | inr ((index'', j), e) ↦ rw e λ off.
          let s = update-Stores (key_of key_) (key_of-ne-zero key_) index' p.0 e off in
          record {
            settled = s.settled;
            stored = s.stored;
            kept = λ l filled apart. s.kept l filled apart ∙ p.1 l filled;
          }
    ]

-- In a settled table, where index_update answers for a key and an offset is assigned through its
-- pointer, the table is settled again, a search for the key finds that offset, and a search for a
-- key with another hash finds what it found before, whether or not the table grew.
pub index_lookup-index_update :
    (malloc : Bool) (index : Index) (key_ : List ℕ) {index' : Index} {j : ℕ}
    → IsSettled index.maps
    → index_update malloc index key_ ≡ answer (index', j)
    → (off : ℕ)
    → IsSettled (assign index' j off).maps
      × (index_lookup (assign index' j off) key_ ≡ some off)
      × ((other : List ℕ)
          → key_of key_ ≢ key_of other
          → index_lookup (assign index' j off) other ≡ index_lookup index other)
unfolding index_lookup
index_lookup-index_update malloc index key_ h e off =
    let s = subst (Ready index (key_of key_)) e (index_update-Ready malloc index key_ h) off in
    (s.settled, s.stored, λ other apart. s.kept (key_of other) (key_of-ne-zero other) apart)
