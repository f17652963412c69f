-- ===== src/Payload/Suites.antt =====
-- kernel/src/payload.rs: clearing the table and seeding the suites.
use kernai.Base.{ℕ, false, List, [], ◌∷◌, ◌==◌, if◌then◌else◌}
use kernai.Frames.{Pool, free}
use kernai.Mm.Space.{destroy}
use kernai.Payload.Slot.{Slot, Snapshot, State, no_pid}
use kernai.Payload.Keys.{clear_keys}
use kernai.Payload.Images.{Build, image_at}
use kernai.Payload.Table.{enqueue}
use kernai.Kernel.{Kernel}

-- What a snapshot owns goes back to the pool.
unfoldable pub free_snapshot : Snapshot → Pool → Snapshot × Pool
free_snapshot s p =
    let p1 = if s.root == 0 then p else destroy s.root p in
    let p2 = if s.frame == 0 then p1 else free s.frame p1 in
    if s.valid then (record s { valid = false; root = 0; frame = 0 }, p2) else (s, p)

-- The loop of `free_snapshots`.
unfoldable pub free_snapshots : List Snapshot → Pool → List Snapshot × Pool
unfolding free_snapshot
free_snapshots [] p = ([], p)
free_snapshots (s ∷ rest) p =
    let (s', p1) = free_snapshot s p in let (rest', p2) = free_snapshots rest p1 in (s' ∷ rest', p2)

unfoldable pub empty_slots : List Slot → List Slot
empty_slots [] = []
empty_slots (s ∷ rest) = record s { state = State.empty } ∷ empty_slots rest

unfoldable pub clear_table : Build → Kernel → Kernel
unfolding empty_slots free_snapshots
clear_table b k =
    let (snaps, pool) = free_snapshots k.snaps k.pool in
    record k {
      table = empty_slots k.table;
      snaps = snaps;
      pool = pool;
      auto_fork = 0;
      last_snap = 0;
      keys = if b.doom then clear_keys k.keys else k.keys;
    }

-- Each image is queued with its whole ceiling and no parent.
unfoldable pub enqueue_all : List ℕ → Kernel → Kernel
enqueue_all [] k = k
enqueue_all (image ∷ rest) k = enqueue_all rest (enqueue image (image_at image).caps no_pid k).1

unfoldable pub seed : Build → List ℕ → ℕ → Kernel → Kernel
unfolding clear_table enqueue_all
seed b queue forks k =
    let k' = enqueue_all queue (clear_table b k) in record k' { auto_fork = forks }

pub data Suite : Type 0 where
  m3 m4 m5 m6 m10 e2 e7 e5 eval craycast doom doom_fork : Suite

-- The images that `seed_suite_*` queues, by their places in `IMAGES`.
unfoldable pub suite_queue : Suite → List ℕ
suite_queue Suite.m3 = 0 ∷ 1 ∷ []
suite_queue Suite.m4 = 2 ∷ 3 ∷ 5 ∷ []
suite_queue Suite.m5 = 6 ∷ 7 ∷ 9 ∷ 0 ∷ []
suite_queue Suite.m6 = 8 ∷ []
suite_queue Suite.m10 = 10 ∷ []
suite_queue Suite.e2 = 16 ∷ []
suite_queue Suite.e7 = 22 ∷ []
suite_queue Suite.e5 = 23 ∷ []
suite_queue Suite.eval = 1 ∷ 6 ∷ 7 ∷ 13 ∷ 17 ∷ 18 ∷ 19 ∷ 20 ∷ 21 ∷ []
suite_queue Suite.craycast = 14 ∷ []
suite_queue Suite.doom = 15 ∷ []
suite_queue Suite.doom_fork = 15 ∷ []

-- How many continuations of a checkpoint the suite owes.
unfoldable pub suite_forks : Suite → ℕ
suite_forks Suite.m6 = 2
suite_forks Suite.doom_fork = 2
suite_forks _ = 0

unfoldable pub seed_suite : Build → Suite → Kernel → Kernel
unfolding seed suite_queue suite_forks
seed_suite b s k = seed b (suite_queue s) (suite_forks s) k
