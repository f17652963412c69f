-- ===== src/Tests/Memory.antt =====
-- Physical memory and the frame allocator at concrete inputs (kernel/src/hal/boot.rs,
-- kernel/src/frames.rs).
use kernai.Base.{ℕ, zero, suc, ◌-◌, ◌^◌, ◌≡◌, refl, Bool, false, some, arith, sym, ◌%◌}
use kernai.Bits.{zero-bit_and}
use kernai.Hal.{pool_base}
use kernai.Frames.{Pool, pool_frames, test, take_frame, alloc, alloc_from, free}
use kernai.Frames.Alloc.{Allocates, alloc-Allocates, Frees, free-Frees, frame_address}
use kernai.Frames.Count.{IsCounted, count_below, alloc-IsCounted}

abbrev pub empty_pool : Pool
empty_pool = record { mem = λ a. 0; bitmap = λ w. 0; next_hint = 0; allocated = 0 }

count_below-none : (n : ℕ) (p : ℕ → Bool) → ((g : ℕ) → p g ≡ false) → count_below n p ≡ 0
unfolding count_below
count_below-none zero p h = refl
count_below-none (suc n) p h = rw (h n, count_below-none n p h) refl

test-empty_pool : (g : ℕ) → test g empty_pool ≡ false
unfolding test
test-empty_pool g = rw (zero-bit_and (2 ^ (g % 64))) refl

pub empty_pool-IsCounted : IsCounted empty_pool
empty_pool-IsCounted = record {
  counted = sym (count_below-none pool_frames (λ g. test g empty_pool) test-empty_pool);
}

abbrev pub one_taken : Pool
one_taken = (take_frame 0 empty_pool).1

first_round : (rounds : ℕ) → alloc_from (suc rounds) 0 0 empty_pool ≡ some (pool_base, one_taken)
unfolding alloc_from take_frame
first_round rounds = rw (test-empty_pool 0) refl

pub first_alloc : alloc empty_pool ≡ some (pool_base, one_taken)
unfolding alloc
first_alloc = first_round (pool_frames - 1)

alloc-Allocates_example : Allocates empty_pool (alloc empty_pool)
alloc-Allocates_example = alloc-Allocates empty_pool

free-Frees_example : Frees 0 one_taken (free (frame_address 0) one_taken)
free-Frees_example = free-Frees 0 one_taken (omega arith)

alloc-IsCounted_example : IsCounted one_taken
alloc-IsCounted_example =
    alloc-IsCounted empty_pool pool_base one_taken empty_pool-IsCounted first_alloc
