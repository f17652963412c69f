-- ===== src/Payload/Soundness/Passes.antt =====
-- Whole passes of the scheduler of kernel/src/payload.rs (`run`) keep the process table sound.
use kernai.Base.{
  ℕ, zero, suc, ◌+◌, ◌≡◌, inl, inr, refl, sym, ◌∙◌, subst, ap, some, ◌==◌, length, Bool-cases,
  Option-cases,
}
use kernai.Payload.Images.{Build}
use kernai.Payload.Table.{emit_suite_done}
use kernai.Payload.Scheduler.{
  reap_terminated, Started, entered, load_failed, start, service_byte, service_one, service_console,
  enter_kernel, pick, run, emit_ring_dump, Outcome, to_user, to_idle, to_crash, out_of_fuel,
}
use kernai.Rpc.Tools.{Verdict, served, seeded, crashed}
use kernai.Rpc.Dispatch.{read_request, starts_object}
use kernai.Rpc.Dispatch.Serves.{dispatch-Serves}
use kernai.Rpc.Request.{read_frame}
use kernai.Rpc.Request.Polls.{Polls, getchar-Polls, read_frame-Polls}
use kernai.Text.Utf8.{trim_start}
use kernai.Payload.Soundness.Seeds.{IsIdle, Quiet-IsIdle, Serves-IsIdle}
use kernai.Kernel.{Kernel}
use kernai.Payload.Lineage.{Keeps, Keeps-refl}
use kernai.Payload.Attenuation.{IsSound}
use kernai.Payload.Soundness.{Quiet, Quiet-IsSound, emit-Quiet}
use kernai.Payload.Soundness.Running.{reap_terminated-Quiet, start-IsSound}
use kernai.Payload.Soundness.Picks.{Finds, pick_lem, current-pick}

pub Polls-Quiet : (k k' : Kernel) → Polls k k' → Quiet k k'
Polls-Quiet k k' p = record {
  table = subst (λ x. Keeps k.table x.table) (sym p.same) (Keeps-refl k.table);
  current = ap (λ x. x.current) p.same;
}

pub read_request-IsIdle : (b : Build) (k : Kernel) → IsIdle k → IsIdle (read_request b k).1
unfolding read_request
read_request-IsIdle b k s = elim (Option-cases (read_frame k).0) [
  | inl e ↦ rw (e, read_request) first
  | inr (json, e) ↦ elim (Bool-cases (starts_object (trim_start json))) [
    | inl f ↦
        rw (e, read_request, f)
          (Serves-IsIdle b (read_frame k).1 _ (dispatch-Serves b json (read_frame k).1) first)
    | inr f ↦ rw (e, read_request, f) first
  ]
]
  where
    first : IsIdle (read_frame k).1
    first = Quiet-IsIdle k _ (Polls-Quiet k _ (read_frame-Polls k)) s

service_byte-Quiet : (k : Kernel) → Quiet k (service_byte k).1
unfolding service_byte
service_byte-Quiet k = elim (Bool-cases (k.stashed_byte == 0)) [
  | inl e ↦ rw (e, service_byte) (Polls-Quiet k _ (getchar-Polls k))
  | inr e ↦ rw (e, service_byte) (record { table = Keeps-refl k.table; current = refl })
]

emit_suite_done-Quiet : (k : Kernel) → Quiet k (emit_suite_done k)
unfolding emit_suite_done
emit_suite_done-Quiet k = emit-Quiet _ k

service_one-IsIdle : (b : Build) (c : ℕ) (k : Kernel) → IsIdle k → IsIdle (service_one b c k).1
unfolding service_one emit_ring_dump
service_one-IsIdle b c k s = elim (Bool-cases (c == 0xAA)) [
  | inl e ↦ rw (e, service_one) (read_request-IsIdle b k s)
  | inr e ↦ elim (Bool-cases (c == b'r')) [
    | inl f ↦ rw (e, service_one, f) (Quiet-IsIdle k _ (emit-Quiet _ k) s)
    | inr f ↦ rw (e, service_one, f) s
  ]
]

service_console-IsIdle :
    (fuel : ℕ) (b : Build) (k : Kernel) → IsIdle k → IsIdle (service_console fuel b k).1
unfolding service_console
service_console-IsIdle zero b k s = s
service_console-IsIdle (suc fuel) b k s = elim (Option-cases (service_byte k).0) [
  | inl e ↦ rw (e, service_console) first
  | inr (c, e) ↦
      go c e (service_console-IsIdle fuel b (service_one b c (service_byte k).1).1) _ refl
]
  where
    k1 : Kernel
    k1 = (service_byte k).1

    first : IsIdle k1
    first = Quiet-IsIdle k k1 (service_byte-Quiet k) s

    idle : (c : ℕ) → IsIdle (service_one b c k1).1
    idle c = service_one-IsIdle b c k1 first

    go :
        (c : ℕ)
        → (service_byte k).0 ≡ some c
        → (IsIdle (service_one b c k1).1 → IsIdle (service_console fuel b (service_one b c k1).1).1)
        → (v : Verdict) → (service_one b c k1).0 ≡ v
        → IsIdle (service_console (suc fuel) b k).1
    go c e again served f = rw (e, service_console, f) (again (idle c))
    go c e again seeded f = rw (e, service_console, f) (idle c)
    go c e again crashed f = rw (e, service_console, f) (idle c)

enter_kernel-IsIdle : (k : Kernel) → IsSound k → IsIdle (enter_kernel k)
unfolding enter_kernel
enter_kernel-IsIdle k s = record {
  sound = record { attenuated = s.attenuated; running = λ n. absurd (n refl) };
  idle = refl;
}

-- What the scheduler leaves behind: a sound kernel, and for the idle loop one in which no payload
-- has the CPU.
abbrev pub Left : Outcome × Kernel → Type 0
Left (to_idle, k) = IsIdle k
Left (to_user pid satp frame, k) = IsSound k
Left (to_crash, k) = IsSound k
Left (out_of_fuel, k) = IsSound k

pub Left-IsSound : (r : Outcome × Kernel) → Left r → IsSound r.1
Left-IsSound (to_idle, k) h = h.sound
Left-IsSound (to_user pid satp frame, k) h = h
Left-IsSound (to_crash, k) h = h
Left-IsSound (out_of_fuel, k) h = h

pub run-Left : (fuel : ℕ) (b : Build) (k : Kernel) → IsSound k → Left (run fuel b k)
unfolding run
run-Left zero b k s = s
run-Left (suc fuel) b k s = on_verdict (run-Left fuel b) _ refl
  where
    k1 : Kernel
    k1 = reap_terminated (enter_kernel k)

    k2 : Kernel
    k2 = (service_console (length k1.rx + 2) b k1).1

    s2 : IsIdle k2
    s2 = service_console-IsIdle (length k1.rx + 2) b k1 (
        Quiet-IsIdle (enter_kernel k) k1 (reap_terminated-Quiet (enter_kernel k))
          (enter_kernel-IsIdle k s))

    k3 : Kernel
    k3 = (pick (reap_terminated k2)).1

    picked : IsSound k3 × Finds (pick (reap_terminated k2))
    picked = pick_lem (reap_terminated k2) (Quiet-IsSound k2 _ (reap_terminated-Quiet k2) s2.sound)

    idle3 : IsIdle k3
    idle3 = record {
      sound = picked.0;
      idle =
          current-pick (reap_terminated k2)
          ∙ (Quiet-IsIdle k2 (reap_terminated k2) (reap_terminated-Quiet k2) s2).idle;
    }

    entering : (pid : ℕ) → (pick (reap_terminated k2)).0 ≡ some pid → IsSound (start b pid k3).1
    entering pid q = start-IsSound b pid k3 picked.0 (subst (λ o. Finds (o, k3)) q picked.1)

    Again : Type 0
    Again = (k : Kernel) → IsSound k → Left (run fuel b k)

    started :
        Again
        → (service_console (length k1.rx + 2) b k1).0 ≡ served
        → (pid : ℕ) → (pick (reap_terminated k2)).0 ≡ some pid
        → (r : Started) → (start b pid k3).0 ≡ r
        → Left (run (suc fuel) b k)
    started again e pid q load_failed f = rw (e, run, q, f) (again _ (entering pid q))
    started again e pid q (entered satp frame) f =
        let s = entering pid q in
        rw (e, run, q, f) (record { attenuated = s.attenuated; running = s.running })

    on_verdict :
        Again
        → (v : Verdict) → (service_console (length k1.rx + 2) b k1).0 ≡ v
        → Left (run (suc fuel) b k)
    on_verdict again seeded e = rw (e, run) (again k2 s2.sound)
    on_verdict again crashed e = rw (e, run) s2.sound
    on_verdict again served e = elim (Option-cases (pick (reap_terminated k2)).0) [
      | inl q ↦ rw (e, run, q) (Quiet-IsIdle k3 _ (emit_suite_done-Quiet k3) idle3)
      | inr (pid, q) ↦ started again e pid q _ refl
    ]

-- However many passes the scheduler makes, and whatever requests it serves in them, it leaves a
-- sound kernel sound.
pub run-IsSound : (fuel : ℕ) (b : Build) (k : Kernel) → IsSound k → IsSound (run fuel b k).1
run-IsSound fuel b k s = Left-IsSound (run fuel b k) (run-Left fuel b k s)
