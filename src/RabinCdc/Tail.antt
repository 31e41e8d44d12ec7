-- ===== src/RabinCdc/Tail.antt =====
-- The tail of a file in which no size may end a chunk.
use chunk_grouping.Prelude.{
  ℕ, zero, suc, ◌<◌, ◌≡◌, ◌≢◌, refl, ◌∙◌, none, some, [], length, drop_all, arith,
}
use chunk_grouping.RabinCdc.{RabinCdc, Roll, cut_loop, get_next_chunk}
use chunk_grouping.RabinCdc.Loop.{Ends, at_cut, nowhere, cut_loop-Ends}
use chunk_grouping.RabinCdc.Step.{IsValid, Loses, IsUncut, lost-Loses}

-- A read with no byte left in the mapping.
cut_loop_past :
    (c : RabinCdc) (rounds chunk_size : ℕ) (r : Roll)
    → rounds ≢ 0
    → cut_loop c rounds chunk_size r [] ≡ none
unfolding cut_loop
cut_loop_past c zero chunk_size r ne = absurd (ne refl)
cut_loop_past c (suc rounds) chunk_size r ne = refl

past_end :
    (c : RabinCdc)
    → c.min_chunk_size < c.remaining_file_len
    → c.file_read_ptr ≡ []
    → get_next_chunk c ≡ none
unfolding get_next_chunk
past_end c h e = ground (arith, cut_loop_past c c.remaining_file_len 1 c.roll)

lost_case :
    (c : RabinCdc) (v : IsValid c)
    → c.min_chunk_size < c.remaining_file_len
    → IsUncut c
    → Ends c c.remaining_file_len 1 c.roll c.file_read_ptr
    → Loses c
lost_case c v h uncut (at_cut k lt here first e) = absurd (uncut k lt here)
lost_case c v h uncut (nowhere none_stops e) = lost-Loses c v h none_stops e

-- Where more than the minimum is left and no size up to the end of the file may end a chunk, the
-- call answers `nullptr` and keeps the length: what is left is in no chunk. One more call reads
-- past the mapping.
pub get_next_chunk_tail :
    (c : RabinCdc)
    → IsValid c
    → c.min_chunk_size < c.remaining_file_len
    → c.remaining_file_len ≡ length c.file_read_ptr
    → IsUncut c
    → (c' : RabinCdc) × (get_next_chunk c ≡ some (c', none))
      × (c'.remaining_file_len ≡ c.remaining_file_len)
      × (get_next_chunk c' ≡ none)
get_next_chunk_tail c v h whole uncut =
    let l =
      lost_case c v h uncut
        (cut_loop-Ends c c.remaining_file_len 1 c.roll c.file_read_ptr v.inside) in
    (
      l.next,
      l.returns,
      l.kept,
      past_end l.next (omega (arith, l.kept, l.min_kept))
          (l.ptr ∙ drop_all c.remaining_file_len c.file_read_ptr (omega arith)),
    )
