-- ===== src/Index/Hash.antt =====
-- The hash of p4/index.c, on 64-bit words.
use Prim.Native.Nat.{bit_xor, bit_or}
use jitcompilation.Prelude.{
  ℕ, zero, suc, ◌+◌, ◌-◌, ◌*◌, ◌/◌, ◌%◌, ◌^◌, ◌≢◌, List, [], ◌∷◌, if◌then◌else◌, ltb, length, arith,
}

-- A value as a uint64_t.
unfoldable pub wrap : ℕ → ℕ
wrap n = n % 2 ^ 64

-- `(uint64_t)p[i]`: a `char` is signed, so that a byte from 128 on is extended by its sign.
unfoldable pub extended : ℕ → ℕ
extended p = if ltb p 128 then p else p + 2 ^ 64 - 256

-- `(x << k) | (x >> (64 - k))`
unfoldable pub rotate : ℕ → ℕ → ℕ
unfolding wrap
rotate x k = bit_or (wrap (x * 2 ^ k)) (x / 2 ^ (64 - k))

-- `x ^= y; y = rotate(y, k); x += y;`
unfoldable pub mix : ℕ → ℕ → ℕ → ℕ × ℕ
unfolding rotate wrap
mix x y k = (wrap (bit_xor x y + rotate y k), rotate y k)

pub record Lanes : Type 0 where
  pub a : ℕ
  pub b : ℕ
  pub c : ℕ
  pub d : ℕ

-- The body of the loop.
unfoldable pub absorb : ℕ → Lanes → Lanes
unfolding mix extended
absorb p v =
    let q = extended p in
    let a0 = wrap (v.a + q * 592821132889) in
    let b0 = wrap (v.b + q * 963726515729) in
    let c0 = wrap (v.c + q * 1765037224331) in
    let d0 = wrap (v.d + q * 2428095424619) in
    let (d1, c1) = mix d0 c0 15 in
    let (a1, d2) = mix a0 d1 52 in
    let (b1, a2) = mix b0 a1 26 in
    let (c2, b2) = mix c1 b1 51 in
    let (d3, c3) = mix d2 c2 28 in
    let (a3, d4) = mix a2 d3 9 in
    let (b3, a4) = mix b2 a3 47 in
    let (c4, b4) = mix c3 b3 54 in
    let (d5, c5) = mix d4 c4 32 in
    let (a5, d6) = mix a4 d5 25 in
    let (b5, a6) = mix b4 a5 63 in record { a = a6; b = b5; c = c5; d = d6 }

unfoldable pub absorb_all : List ℕ → Lanes → Lanes
unfolding absorb
absorb_all [] v = v
absorb_all (p ∷ ps) v = absorb_all ps (absorb p v)

unfoldable pub hash : List ℕ → ℕ
unfolding absorb_all wrap
hash buf =
    let n = wrap (length buf * 414507281407) in
    let v = absorb_all buf (record { a = n; b = n; c = n; d = n }) in wrap (v.a + v.b + v.c + v.d)

-- `key ? key : (key + 1)`
unfoldable pub key_of : List ℕ → ℕ
unfolding hash
key_of buf = elim (hash buf) [ zero ↦ 1 | suc n ↦ suc n ]

pub key_of-ne-zero : (buf : List ℕ) → key_of buf ≢ 0
unfolding key_of
key_of-ne-zero buf = ground arith
