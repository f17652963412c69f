-- ===== src/Payload/Soundness/Seeds.antt =====
-- Seeding a suite, kernel/src/payload.rs, while no payload has the CPU.
use kernai.Base.{
  ℕ, zero, suc, ◌≡◌, refl, sym, ◌∙◌, subst, inl, inr, Option-cases, true, List, [], ◌∷◌,
}
use kernai.Payload.Slot.{Slot, is_empty, no_pid}
use kernai.Payload.Images.{Build, image_at}
use kernai.Payload.Table.{enqueue, position}
use kernai.Payload.Suites.{
  Suite, empty_slots, clear_table, enqueue_all, seed, suite_queue, seed_suite,
}
use kernai.Payload.Lineage.{slot_of, IsAttenuated}
use kernai.Payload.Attenuation.{IsSound, enqueue-IsSound}
use kernai.Payload.Soundness.{Quiet, Quiet-IsSound}
use kernai.Rpc.Tools.{Verdict, served, seeded, crashed}
use kernai.Rpc.Dispatch.Answered.{Serves}
use kernai.Kernel.{Kernel, put_slot}

-- The kernel is sound and no payload has the CPU.
pub record IsIdle (k : Kernel) : Type 0 where
  pub sound : IsSound k
  pub idle : k.current ≡ no_pid

pub Quiet-IsIdle : (k k' : Kernel) → Quiet k k' → IsIdle k → IsIdle k'
Quiet-IsIdle k k' q s = record { sound = Quiet-IsSound k k' q s.sound; idle = q.current ∙ s.idle }

is_empty-empty_slots :
    (t : List Slot) (pid : ℕ) → is_empty (slot_of (empty_slots t) pid).state ≡ true
unfolding empty_slots
is_empty-empty_slots [] pid = refl
is_empty-empty_slots (s ∷ t) zero = refl
is_empty-empty_slots (s ∷ t) (suc pid) = is_empty-empty_slots t pid

empty_slots-IsAttenuated : (t : List Slot) → IsAttenuated (empty_slots t)
empty_slots-IsAttenuated t = record { obeys = λ pid o. cc (o.1, is_empty-empty_slots t pid) }

clear_table-IsIdle : (b : Build) (k : Kernel) → k.current ≡ no_pid → IsIdle (clear_table b k)
unfolding clear_table
clear_table-IsIdle b k h = record {
  sound = record { attenuated = empty_slots-IsAttenuated k.table; running = λ n. absurd (n h) };
  idle = h;
}

current-enqueue :
    (image caps parent : ℕ) (k : Kernel) → (enqueue image caps parent k).1.current ≡ k.current
unfolding enqueue put_slot
current-enqueue image caps parent k = elim (Option-cases (position is_empty k.table 0)) [
  | inl e ↦ rw (e, enqueue) refl
  | inr (pid, e) ↦ rw (e, enqueue) refl
]

enqueue_all-IsIdle : (images : List ℕ) (k : Kernel) → IsIdle k → IsIdle (enqueue_all images k)
unfolding enqueue_all
enqueue_all-IsIdle [] k s = s
enqueue_all-IsIdle (image ∷ rest) k s =
    enqueue_all-IsIdle rest (enqueue image (image_at image).caps no_pid k).1 (record {
      sound = enqueue-IsSound image (image_at image).caps no_pid k s.sound (λ p. absurd (p refl));
      idle = current-enqueue image (image_at image).caps no_pid k ∙ s.idle;
    })

-- A suite that is seeded while no payload has the CPU leaves the kernel sound, whatever the table
-- held before.
pub seed_suite-IsIdle :
    (b : Build) (suite : Suite) (k : Kernel) → k.current ≡ no_pid → IsIdle (seed_suite b suite k)
unfolding seed_suite seed
seed_suite-IsIdle b suite k h =
    let s = enqueue_all-IsIdle (suite_queue suite) (clear_table b k) (clear_table-IsIdle b k h) in
    record {
      sound = record { attenuated = s.sound.attenuated; running = s.sound.running };
      idle = s.idle;
    }

pub Serves-IsIdle :
    (b : Build) (k : Kernel) (r : Verdict × Kernel) → Serves b k r → IsIdle k → IsIdle r.1
Serves-IsIdle b k (served, k') (q, a) s = Quiet-IsIdle k k' q.quiet s
Serves-IsIdle b k (crashed, k') (n, q, a) s = Quiet-IsIdle k k' q.quiet s
Serves-IsIdle b k (seeded, k') (n, suite, k0, q, e, a) s =
    subst IsIdle (sym e) (seed_suite-IsIdle b suite k0 (q.quiet.current ∙ s.idle))
