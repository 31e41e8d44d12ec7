-- ===== src/Rabin/Tests.antt =====
-- The remainder at a concrete polynomial.
use chunk_grouping.Prelude.{◌<◌, ◌^◌, ◌≡◌, some, arith}
use chunk_grouping.Rabin.{polynomial, mod_loop, mod_poly}
use chunk_grouping.Rabin.Degree.{mod_poly-lt}

mod_poly-lt_example :
    (mod_loop 65 0x80000000000000FF polynomial ≡ some (mod_poly 0x80000000000000FF polynomial))
    × (mod_poly 0x80000000000000FF polynomial < 2 ^ 53)
mod_poly-lt_example =
    mod_poly-lt 0x80000000000000FF polynomial 53 (omega arith) (omega arith) (omega arith)
      (omega arith)
