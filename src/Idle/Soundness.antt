-- ===== src/Idle/Soundness.antt =====
-- kernel/src/main.rs: the kernel boots sound and stays sound through the idle loop.
use kernai.Base.{
  ℕ, zero, suc, ◌≡◌, refl, subst, inl, inr, Bool, true, false, Option, none, some, ◌==◌, Bool-cases,
  Option-cases, if◌then◌else◌,
}
use kernai.Payload.Images.{Build}
use kernai.Payload.Keys.{swallow_stray_key}
use kernai.Payload.Scheduler.{Outcome, to_user, to_idle, to_crash, out_of_fuel, emit_ring_dump, run}
use kernai.Payload.Lineage.{Keeps-refl}
use kernai.Payload.Attenuation.{IsSound}
use kernai.Payload.Soundness.{Quiet, Quiet-refl, emit-Quiet}
use kernai.Payload.Soundness.Seeds.{IsIdle, Quiet-IsIdle, seed_suite-IsIdle}
use kernai.Payload.Soundness.Passes.{Polls-Quiet, read_request-IsIdle, Left, Left-IsSound, run-Left}
use kernai.Rpc.Tools.{Verdict, served, seeded, crashed}
use kernai.Rpc.Request.Polls.{getchar-Polls}
use kernai.Idle.{filtered, suite_of_byte, command, idle_round, idle}
use kernai.Kernel.{Kernel, getchar}

filtered-Quiet : (b : Build) (c : Option ℕ) (k : Kernel) → Quiet k (filtered b c k).1
unfolding filtered
filtered-Quiet b none k = Quiet-refl k
filtered-Quiet b (some c) k = either b.doom
  where
    keyed : Option ℕ × Kernel
    keyed = (
      (if (swallow_stray_key c k.keys).0 then none else some c),
      record k { keys = (swallow_stray_key c k.keys).1 },
    )

    either : (d : Bool) → Quiet k (if d then keyed else (some c, k)).1
    either true = record { table = Keeps-refl k.table; current = refl }
    either false = Quiet-refl k

command-IsIdle : (b : Build) (c : ℕ) (k : Kernel) → IsIdle k → IsIdle (command b c k).1
unfolding command emit_ring_dump
command-IsIdle b c k s = elim (Bool-cases (c == 0xAA)) [
  | inl e ↦ rw (e, command) (read_request-IsIdle b k s)
  | inr e ↦ elim (Bool-cases (c == b'r')) [
    | inl f ↦ rw (e, command, f) (Quiet-IsIdle k _ (emit-Quiet _ k) s)
    | inr f ↦ elim (Bool-cases (c == b'x')) [
      | inl g ↦ rw (e, command, f, g) s
      | inr g ↦ elim (Option-cases (suite_of_byte b c)) [
        | inl h ↦ rw (e, command, f, g, h) s
        | inr (suite, h) ↦ rw (e, command, f, g, h) (seed_suite-IsIdle b suite k s.idle)
      ]
    ]
  ]
]

pub idle_round-IsIdle : (b : Build) (k : Kernel) → IsIdle k → IsIdle (idle_round b k).1
unfolding idle_round
idle_round-IsIdle b k s = elim (Option-cases (filtered b (getchar k).0 (getchar k).1).0) [
  | inl e ↦ rw (e, idle_round) ready
  | inr (c, e) ↦ rw (e, idle_round) (command-IsIdle b c _ ready)
]
  where
    ready : IsIdle (filtered b (getchar k).0 (getchar k).1).1
    ready =
        Quiet-IsIdle (getchar k).1 _ (filtered-Quiet b (getchar k).0 (getchar k).1)
          (Quiet-IsIdle k _ (Polls-Quiet k _ (getchar-Polls k)) s)

-- The idle loop, through any number of rounds and of passes of the scheduler, keeps a kernel sound
-- in which no payload has the CPU.
pub idle-IsSound :
    (rounds passes : ℕ) (b : Build) (k : Kernel) → IsIdle k → IsSound (idle rounds passes b k).1
unfolding idle
idle-IsSound zero passes b k s = s.sound
idle-IsSound (suc rounds) passes b k s = on_verdict (idle-IsSound rounds passes b) _ refl
  where
    k1 : Kernel
    k1 = (idle_round b k).1

    s1 : IsIdle k1
    s1 = idle_round-IsIdle b k s

    left : Left (run passes b k1)
    left = run-Left passes b k1 s1.sound

    Again : Type 0
    Again = (k : Kernel) → IsIdle k → IsSound (idle rounds passes b k).1

    on_outcome :
        Again
        → (idle_round b k).0 ≡ seeded
        → (o : Outcome) → (run passes b k1).0 ≡ o
        → IsSound (idle (suc rounds) passes b k).1
    on_outcome again e (to_user pid satp frame) f = rw (e, idle, f) (Left-IsSound _ left)
    on_outcome again e to_crash f = rw (e, idle, f) (Left-IsSound _ left)
    on_outcome again e out_of_fuel f = rw (e, idle, f) (Left-IsSound _ left)
    on_outcome again e to_idle f =
        rw (e, idle, f)
          (again (run passes b k1).1 (subst (λ o. Left (o, (run passes b k1).1)) f left))

    on_verdict :
        Again → (v : Verdict) → (idle_round b k).0 ≡ v → IsSound (idle (suc rounds) passes b k).1
    on_verdict again served e = rw (e, idle) (again k1 s1)
    on_verdict again crashed e = rw (e, idle) s1.sound
    on_verdict again seeded e = on_outcome again e _ refl
