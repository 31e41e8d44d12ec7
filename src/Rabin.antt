-- ===== src/Rabin.antt =====
-- utils/rabin.h, utils/rabin.cpp: the Rabin fingerprint, a remainder of polynomials over two
-- elements with the bits of a `uint64_t` for coefficients. chunk/rabin_cdc.cpp has `deg`, `mod` and
-- `append_byte` once more, word for word.
-- A table is the function that fills it. `rabin_init` fills the tables on its first call; all calls
-- have the polynomial of `rabin_t`, so the flag makes no difference to the tables.
pub mod Degree
mod Tests
use chunk_grouping.Prelude.{
  ℕ, zero, suc, ◌+◌, ◌-◌, ◌*◌, ◌/◌, ◌%◌, ◌^◌, Bool, true, false, ◌==◌, leb, ltb, if◌then◌else◌,
  Option, none, some, List, get_or, set, replicate, bit_and, bit_or, bit_xor, u8, u64,
}

abbrev pub winsize : ℕ
winsize = 48

abbrev pub polynomial : ℕ
polynomial = 0x3DA3358B4DC173

abbrev pub polynomial_shift : ℕ
polynomial_shift = 53 - 8

-- The loop of `deg` with its rounds left: `i` and `mask` at its head. `none` stands for -1.
unfoldable pub deg_loop : ℕ → ℕ → ℕ → ℕ → Option ℕ
deg_loop zero i mask p = none
deg_loop (suc rounds) i mask p =
    let rest = deg_loop rounds (i + 1) (mask / 2) p in
    if ltb 0 (bit_and mask p) then some (63 - i) else rest

unfoldable pub deg : ℕ → Option ℕ
unfolding deg_loop
deg p = deg_loop 64 0 0x8000000000000000 p

-- `deg(x) >= deg(p)`
abbrev pub deg_ge : Option ℕ → Option ℕ → Bool
deg_ge x none = true
deg_ge none (some m) = false
deg_ge (some n) (some m) = leb m n

-- `deg(x) - deg(p)`, for `deg(x) >= deg(p)`; -1 is 0 - 1
abbrev pub deg_sub : Option ℕ → Option ℕ → ℕ
deg_sub none m = 0
deg_sub (some n) none = n + 1
deg_sub (some n) (some m) = n - m

-- `x ^ (p << (deg(x) - deg(p)))`
unfoldable pub mod_body : ℕ → ℕ → ℕ
unfolding deg
mod_body x p = bit_xor x (u64 (p * 2 ^ deg_sub (deg x) (deg p)))

-- The loop of `mod` on fuel, `none` if the fuel runs out. `Degree` shows that 65 rounds are enough.
unfoldable pub mod_loop : ℕ → ℕ → ℕ → Option ℕ
unfolding deg mod_body
mod_loop zero x p = none
mod_loop (suc fuel) x p =
    let rest = mod_loop fuel (mod_body x p) p in if deg_ge (deg x) (deg p) then rest else some x

abbrev pub value : Option ℕ → ℕ
value none = 0
value (some x) = x

unfoldable pub mod_poly : ℕ → ℕ → ℕ
unfolding mod_loop
mod_poly x p = value (mod_loop 65 x p)

-- `hash <<= 8; hash |= b; return mod(hash, pol)`
unfoldable pub append_byte : ℕ → ℕ → ℕ → ℕ
unfolding mod_poly
append_byte hash b pol = mod_poly (bit_or (u64 (hash * 2 ^ 8)) b) pol

-- `rounds` zero bytes behind `hash`
unfoldable pub append_zeros : ℕ → ℕ → ℕ → ℕ
unfolding append_byte
append_zeros zero hash pol = hash
append_zeros (suc rounds) hash pol = append_zeros rounds (append_byte hash 0 pol) pol

-- the two loops of `calc_tables`
unfoldable pub out_table : ℕ → ℕ
unfolding append_zeros append_byte
out_table b = append_zeros (winsize - 1) (append_byte 0 b polynomial) polynomial

unfoldable pub mod_table : ℕ → ℕ
unfolding deg mod_poly
mod_table b =
    let shifted = u64 (b * 2 ^ deg_sub (deg polynomial) (some 0)) in
    bit_or (mod_poly shifted polynomial) shifted

-- `rabin_t`, less its constants
pub record RabinT : Type 0 where
  pub window : List ℕ
  pub wpos : ℕ
  pub digest : ℕ

unfoldable pub rabin_append : RabinT → ℕ → RabinT
unfolding mod_table
rabin_append h b =
    let index = u8 (h.digest / 2 ^ polynomial_shift) in
    record h { digest = bit_xor (bit_or (u64 (h.digest * 2 ^ 8)) b) (mod_table index) }

unfoldable pub rabin_slide : RabinT → ℕ → RabinT
unfolding rabin_append out_table
rabin_slide h b =
    let out = get_or h.window h.wpos 0 in
    rabin_append
      (record {
        window = set h.window h.wpos b;
        wpos = (h.wpos + 1) % winsize;
        digest = bit_xor h.digest (out_table out);
      })
      b

-- `rabin_reset`, which is all that `rabin_init` does once the tables are filled. Nothing of the
-- old state is left.
unfoldable pub rabin_init : RabinT
unfolding rabin_slide
rabin_init = rabin_slide (record { window = replicate winsize 0; wpos = 0; digest = 0 }) 1
