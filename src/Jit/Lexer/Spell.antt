-- ===== src/Jit/Lexer/Spell.antt =====
-- Tokens that are spelled out are read back.
use jitcompilation.Prelude.{
  ℕ, zero, suc, ◌+◌, ◌*◌, ◌≤◌, ◌<◌, Bool, true, false, none, some, List, [], ◌∷◌, ◌++◌, ◌≡◌, ◌≢◌,
  refl, sym, ap, ◌∙◌, arith, length, length-append, length-drop, drop, append_assoc, append-nil,
  Option-cases, Bool-cases, inl, inr,
}
use jitcompilation.Jit.Syntax.{Token}
use jitcompilation.Jit.Doubles.{Doubles}
use jitcompilation.Jit.Lexer.{
  Lexer, Lexed, done, error, out_of_fuel, operators, find_operator, isspace, mktoken, tokenize,
  lexer_open,
}

module _ (D : Doubles) (realloc : ℕ → Bool) where
  -- A property of the outcome, by the four ways to go round the loop.
  tokenize_step :
      (P : Lexed D.Val → Type 0) (f : ℕ) (l : Lexer D.Val) (c : ℕ) (s : List ℕ)
      → P error
      → ((t : Token D.Val) (l' : Lexer D.Val) (n : ℕ)
          → mktoken realloc l t ≡ some l'
          → P (tokenize D realloc f l' (drop n s)))
      → P (tokenize D realloc f l s)
      → P (tokenize D realloc (suc f) l (c ∷ s))
  unfolding tokenize
  tokenize_step P f l c s bad push skip =
      elim (Option-cases (find_operator {V = D.Val} c operators)) [
        | inr (t, op) ↦
            rw (op, tokenize)
              (elim (Option-cases (mktoken realloc l t)) [
                | inl full ↦ rw full bad
                | inr (l', grown) ↦ rw grown (push t l' 0 grown)
              ])
        | inl other ↦
            rw (other, tokenize)
              (elim (Bool-cases (isspace c)) [
                | inl space ↦ rw space skip
                | inr number ↦
                    rw number
                      (elim (Option-cases (mktoken realloc l (Token.val (D.strtod (c ∷ s)).0))) [
                        | inl full ↦ rw full bad
                        | inr (l', grown) ↦ rw grown (taken (D.strtod (c ∷ s)).1 l' grown)
                      ])
              ])
      ]
    where
      taken :
          (k : ℕ) (l' : Lexer D.Val)
          → mktoken realloc l (Token.val (D.strtod (c ∷ s)).0) ≡ some l'
          → P (elim k [ zero ↦ error | suc n ↦ tokenize D realloc f l' (drop n s) ])
      taken zero l' grown = bad
      taken (suc n) l' grown = push _ l' n grown

  tokenize-fuel :
      (f : ℕ) (l : Lexer D.Val) (s : List ℕ) → length s < f → tokenize D realloc f l s ≢ out_of_fuel
  unfolding tokenize
  tokenize-fuel zero l s h = elim h [ ]
  tokenize-fuel (suc f) l [] h = cc
  tokenize-fuel (suc f) l (c ∷ s) h =
      tokenize_step (λ r. r ≢ out_of_fuel) f l c s (cc)
        (λ t l' n grown. tokenize-fuel f l' (drop n s) (omega (arith, length-drop n s)))
        (tokenize-fuel f l s (omega arith))

  -- The fuel that `lexer_open` hands out is enough for every text.
  pub lexer_open-ne-out_of_fuel : (m : Bool) (s : List ℕ) → lexer_open D realloc m s ≢ out_of_fuel
  unfolding lexer_open
  lexer_open-ne-out_of_fuel m [] = cc
  lexer_open-ne-out_of_fuel true (c ∷ s) =
      tokenize-fuel (length (c ∷ s) + 1) _ (c ∷ s) (omega arith)
  lexer_open-ne-out_of_fuel false (c ∷ s) = cc

  -- The size of a lexer counts its tokens.
  abbrev pub Counts : Lexed D.Val → Type 0
  Counts (done l) = l.size ≡ length l.tokens
  Counts _ = Unit

  mktoken-Counts :
      (l : Lexer D.Val) (t : Token D.Val) {l' : Lexer D.Val}
      → mktoken realloc l t ≡ some l'
      → l.size ≡ length l.tokens
      → l'.size ≡ length l'.tokens
  unfolding mktoken
  mktoken-Counts l t grown h = ground (arith, length-append l.tokens (t ∷ []))

  tokenize-Counts :
      (f : ℕ) (l : Lexer D.Val) (s : List ℕ)
      → l.size ≡ length l.tokens
      → Counts (tokenize D realloc f l s)
  unfolding tokenize
  tokenize-Counts zero l s h = tt
  tokenize-Counts (suc f) l [] h = h
  tokenize-Counts (suc f) l (c ∷ s) h =
      tokenize_step Counts f l c s tt
        (λ t l' n grown. tokenize-Counts f l' (drop n s) (mktoken-Counts l t grown h))
        (tokenize-Counts f l s h)

  pub lexer_open-Counts : (m : Bool) (s : List ℕ) → Counts (lexer_open D realloc m s)
  unfolding lexer_open
  lexer_open-Counts m [] = tt
  lexer_open-Counts true (c ∷ s) =
      tokenize-Counts (length (c ∷ s) + 1) (record { size = 0; tokens = [] }) (c ∷ s) refl
  lexer_open-Counts false (c ∷ s) = tt

-- A spelling of a number that strtod reads back: it begins neither as an operator nor with a space, and
-- in front of a space strtod takes all of it. Finite numbers without a sign have one.
pub record Spells (D : Doubles) (v : D.Val) (text : List ℕ) : Type 0 where
  pub head : ℕ
  pub rest : List ℕ
  pub spelled : text ≡ head ∷ rest
  pub no_operator : find_operator {V = D.Val} head operators ≡ none
  pub no_space : isspace head ≡ false
  pub read : (s : List ℕ) → D.strtod (text ++ 32 ∷ s) ≡ (v, length text)

-- The numbers among the tokens have spellings.
abbrev pub Spelling : (D : Doubles) → (D.Val → List ℕ) → List (Token D.Val) → Type 0
Spelling D spell [] = Unit
Spelling D spell (Token.val v ∷ ts) = Spells D v (spell v) × Spelling D spell ts
Spelling D spell (Token.add ∷ ts) = Spelling D spell ts
Spelling D spell (Token.sub ∷ ts) = Spelling D spell ts
Spelling D spell (Token.mul ∷ ts) = Spelling D spell ts
Spelling D spell (Token.div ∷ ts) = Spelling D spell ts
Spelling D spell (Token.open_ ∷ ts) = Spelling D spell ts
Spelling D spell (Token.close ∷ ts) = Spelling D spell ts

Lexer_path :
    {V : Type 0} {m n : ℕ} {xs ys : List (Token V)}
    → m ≡ n
    → xs ≡ ys
    → ◌≡◌ {A = Lexer V} (record { size = m; tokens = xs }) (record { size = n; tokens = ys })
Lexer_path p q i = record { size = p i; tokens = q i }

drop-append : (xs ys : List ℕ) → drop (length xs) (xs ++ ys) ≡ ys
drop-append [] ys = refl
drop-append (x ∷ xs) ys = drop-append xs ys

module _ (D : Doubles) (spell : D.Val → List ℕ) where
  unfoldable pub spell_token : Token D.Val → List ℕ
  spell_token (Token.val v) = spell v
  spell_token Token.add = b'+' ∷ []
  spell_token Token.sub = b'-' ∷ []
  spell_token Token.mul = b'*' ∷ []
  spell_token Token.div = b'/' ∷ []
  spell_token Token.open_ = b'(' ∷ []
  spell_token Token.close = b')' ∷ []

  -- The tokens one after another, each followed by a space.
  unfoldable pub spell_tokens : List (Token D.Val) → List ℕ
  spell_tokens [] = []
  spell_tokens (t ∷ ts) = spell_token t ++ 32 ∷ spell_tokens ts

  module _ (realloc : ℕ → Bool) (grows : (n : ℕ) → realloc n ≡ true) where
    abbrev push : Lexer D.Val → Token D.Val → Lexer D.Val
    push l t = record { size = l.size + 1; tokens = l.tokens ++ t ∷ [] }

    mktoken_lem : (l : Lexer D.Val) (t : Token D.Val) → mktoken realloc l t ≡ some (push l t)
    unfolding mktoken
    mktoken_lem l t = ground (arith, grows l.size)

    space_step :
        (f : ℕ) (l : Lexer D.Val) (s : List ℕ)
        → tokenize D realloc (suc f) l (32 ∷ s) ≡ tokenize D realloc f l s
    unfolding tokenize find_operator isspace
    space_step f l s = refl

    abbrev OneStep : Token D.Val → Type 0
    OneStep t =
        (f : ℕ) (l : Lexer D.Val) (s : List ℕ)
        → tokenize D realloc (suc f) l (spell_token t ++ 32 ∷ s)
          ≡ tokenize D realloc f (push l t) (32 ∷ s)

    value_step : (v : D.Val) → Spells D v (spell v) → OneStep (Token.val v)
    unfolding spell_token tokenize find_operator
    value_step v law f l s =
        let reads = rw law.spelled at (law.read s) in
        rw law.spelled (
          rw (law.no_operator, tokenize)
            (rw law.no_space (
              rw reads (
                rw (mktoken_lem l (Token.val v))
                  (rw (ap (λ r. r.1) reads) (rw (drop-append law.rest (32 ∷ s))))))))

    token_step : (t : Token D.Val) (ts : List (Token D.Val)) → Spelling D spell (t ∷ ts) → OneStep t
    unfolding spell_token tokenize find_operator
    token_step (Token.val v) ts law f l s = value_step v law.0 f l s
    token_step Token.add ts law f l s = rw (mktoken_lem l Token.add, tokenize)
    token_step Token.sub ts law f l s = rw (mktoken_lem l Token.sub, tokenize)
    token_step Token.mul ts law f l s = rw (mktoken_lem l Token.mul, tokenize)
    token_step Token.div ts law f l s = rw (mktoken_lem l Token.div, tokenize)
    token_step Token.open_ ts law f l s = rw (mktoken_lem l Token.open_, tokenize)
    token_step Token.close ts law f l s = rw (mktoken_lem l Token.close, tokenize)

    Spelling-rest :
        (t : Token D.Val) (ts : List (Token D.Val))
        → Spelling D spell (t ∷ ts)
        → Spelling D spell ts
    Spelling-rest (Token.val v) ts law = law.1
    Spelling-rest Token.add ts law = law
    Spelling-rest Token.sub ts law = law
    Spelling-rest Token.mul ts law = law
    Spelling-rest Token.div ts law = law
    Spelling-rest Token.open_ ts law = law
    Spelling-rest Token.close ts law = law

    spell_loop :
        (ts : List (Token D.Val)) (f : ℕ) (l : Lexer D.Val)
        → Spelling D spell ts
        → 2 * length ts < f
        → tokenize D realloc f l (spell_tokens ts)
          ≡ done (record { size = l.size + length ts; tokens = l.tokens ++ ts })
    unfolding spell_tokens tokenize
    spell_loop [] zero l law h = elim h [ ]
    spell_loop [] (suc f) l law h = ap done (Lexer_path (omega arith) (sym (append-nil l.tokens)))
    spell_loop (t ∷ ts) zero l law h = absurd (omega arith)
    spell_loop (t ∷ ts) (suc zero) l law h = absurd (omega arith)
    spell_loop (t ∷ ts) (suc (suc f)) l law h =
        token_step t ts law (suc f) l (spell_tokens ts)
        ∙ (space_step f (push l t) (spell_tokens ts)
            ∙ (spell_loop ts f (push l t) (Spelling-rest t ts law) (omega arith)
                ∙ ap done (Lexer_path (omega arith) (append_assoc l.tokens (t ∷ []) ts))))

    length-spell_token_pos :
        (t : Token D.Val) (ts : List (Token D.Val))
        → Spelling D spell (t ∷ ts)
        → 0 < length (spell_token t)
    unfolding spell_token
    length-spell_token_pos (Token.val v) ts law = rw law.0.spelled (omega arith)
    length-spell_token_pos Token.add ts law = omega arith
    length-spell_token_pos Token.sub ts law = omega arith
    length-spell_token_pos Token.mul ts law = omega arith
    length-spell_token_pos Token.div ts law = omega arith
    length-spell_token_pos Token.open_ ts law = omega arith
    length-spell_token_pos Token.close ts law = omega arith

    length-spell_tokens :
        (ts : List (Token D.Val)) → Spelling D spell ts → 2 * length ts ≤ length (spell_tokens ts)
    unfolding spell_tokens
    length-spell_tokens [] law = omega arith
    length-spell_tokens (t ∷ ts) law = omega (
      arith,
      length-append (spell_token t) (32 ∷ spell_tokens ts),
      length-spell_token_pos t ts law,
      length-spell_tokens ts (Spelling-rest t ts law),
    )

    lexer_open_step :
        (text : List ℕ)
        → 0 < length text
        → lexer_open D realloc true text
          ≡ tokenize D realloc (length text + 1) (record { size = 0; tokens = [] }) text
    unfolding lexer_open
    lexer_open_step [] h = elim h [ ]
    lexer_open_step (c ∷ s) h = refl

    -- If every allocation succeeds and strtod reads the spelling of each number among the tokens back,
    -- lexer_open reads a list of one token or more back from its spelling, each token followed by a
    -- space.
    pub lexer_open-spell_tokens :
        (ts : List (Token D.Val))
        → 0 < length ts
        → Spelling D spell ts
        → lexer_open D realloc true (spell_tokens ts)
          ≡ done (record { size = length ts; tokens = ts })
    lexer_open-spell_tokens ts some_token law =
        lexer_open_step (spell_tokens ts) (omega (arith, length-spell_tokens ts law))
        ∙ spell_loop ts (length (spell_tokens ts) + 1) (record { size = 0; tokens = [] }) law
            (omega (arith, length-spell_tokens ts law))
        ∙ ap done (Lexer_path (omega arith) refl)
