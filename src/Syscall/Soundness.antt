-- ===== src/Syscall/Soundness.antt =====
-- kernel/src/syscall.rs: every system call keeps the process table sound.
use kernai.Base.{
  ℕ, ◌%◌, ◌^◌, inl, inr, refl, Bool, true, false, ◌||◌, List, ◌==◌, ltb, min, length, Bool-cases,
  Option-cases, if◌then◌else◌,
}
use kernai.Text.{Text}
use kernai.Console.{capacity}
use kernai.Frames.{Pool}
use kernai.Mm.{AddressSpace, copy_from_user}
use kernai.Traps.Frame.{TrapFrame, a0, a1, a2, a7}
use kernai.Payload.Slot.{Cap}
use kernai.Payload.Images.{Build}
use kernai.Payload.Keys.{pop_key}
use kernai.Payload.Table.{current_pid, current_has, current_space, emit_denied}
use kernai.Payload.Checkpoint.{free_snap, copy_with_frame, record_snapshot, on_snapshot}
use kernai.Payload.Hooks.{sys_write, emit_output, on_yield, on_getkey, write_quota}
use kernai.Payload.Output.{
  blit_rows, send_blit, blit_in, on_blit, blit_text, blit_maxw, blit_maxh, chunk_text, send_chunk,
  on_frame_rgb, read_chunk, fb_chunk,
}
use kernai.Rpc.Ops.{fnv_offset}
use kernai.Text.{Text}
use kernai.Syscall.{
  Call, exit, write, yield, spawn, snapshot, blit, frame_rgb, getkey, call_of, perform, dispatch,
}
use kernai.Kernel.{Kernel, Body, emit, emit_as, take_id, put_snap, slot_at}
use kernai.Payload.Lineage.{Keeps-refl}
use kernai.Payload.Attenuation.{IsSound, on_exit-IsSound, on_spawn-IsSound}
use kernai.Payload.Soundness.{Quiet, Quiet-refl, Quiet-trans, Quiet-IsSound, emit-Quiet}

emit_denied-Quiet : (name : Text) (cap : Cap) (k : Kernel) → Quiet k (emit_denied name cap k)
unfolding emit_denied
emit_denied-Quiet name cap k = emit-Quiet _ k

emit_as-Quiet : (id : ℕ) (b : Body) (k : Kernel) → Quiet k (emit_as id b k)
unfolding emit_as
emit_as-Quiet id b k = record { table = Keeps-refl k.table; current = refl }

take_id-Quiet : (k : Kernel) → Quiet k (take_id k).1
unfolding take_id
take_id-Quiet k = record { table = Keeps-refl k.table; current = refl }

emit_output-Quiet : (ptr len : ℕ) (k : Kernel) → Quiet k (emit_output ptr len k).1
unfolding emit_output
emit_output-Quiet ptr len k = elim (Option-cases (current_space k)) [
  | inl e ↦ rw (e, emit_output) (Quiet-refl k)
  | inr (space, e) ↦ elim (Option-cases (copy_from_user space ptr (min len write_quota) k.pool)) [
    | inl f ↦ rw (e, emit_output, f) (Quiet-refl k)
    | inr (bytes, f) ↦ rw (e, emit_output, f) (emit-Quiet _ k)
  ]
]

sys_write-Quiet : (ptr len : ℕ) (k : Kernel) → Quiet k (sys_write ptr len k).1
unfolding sys_write
sys_write-Quiet ptr len k = elim (Bool-cases (current_has Cap.write k)) [
  | inr e ↦ rw (e, sys_write) (emit_denied-Quiet _ Cap.write k)
  | inl e ↦ elim (Bool-cases (emit_output ptr (min len write_quota) k).0) [
    | inl f ↦ rw (e, sys_write, f) (emit_output-Quiet ptr (min len write_quota) k)
    | inr f ↦ rw (e, sys_write, f) (emit_output-Quiet ptr (min len write_quota) k)
  ]
]

on_yield-Quiet : (k : Kernel) → Quiet k (on_yield k).1
unfolding on_yield
on_yield-Quiet k = elim (Bool-cases (current_has Cap.yield k)) [
  | inr e ↦ rw (e, on_yield) (emit_denied-Quiet _ Cap.yield k)
  | inl e ↦ elim (Option-cases (current_pid k)) [
    | inl f ↦ rw (e, on_yield, f) (Quiet-refl k)
    | inr (pid, f) ↦ rw (e, on_yield, f) (emit-Quiet _ k)
  ]
]

on_getkey-Quiet : (k : Kernel) → Quiet k (on_getkey k).1
unfolding on_getkey
on_getkey-Quiet k = elim (Option-cases (pop_key k.keys).0) [
  | inl e ↦ rw (e, on_getkey) (Quiet-refl k)
  | inr (b, e) ↦ rw (e, on_getkey) (record { table = Keeps-refl k.table; current = refl })
]

record_snapshot-Quiet :
    (f : TrapFrame) (pid sid copy frame : ℕ) (k : Kernel)
    → Quiet k (record_snapshot f pid sid copy frame k).1
unfolding record_snapshot put_snap emit slot_at
record_snapshot-Quiet f pid sid copy frame k = record { table = Keeps-refl k.table; current = refl }

on_snapshot-Quiet : (f : TrapFrame) (k : Kernel) → Quiet k (on_snapshot f k).1
unfolding on_snapshot
on_snapshot-Quiet f k = elim (Option-cases (current_pid k)) [
  | inl e ↦ rw (e, on_snapshot) (Quiet-refl k)
  | inr (pid, e) ↦ elim (Option-cases (current_space k)) [
    | inl g ↦ rw (e, on_snapshot, g) (Quiet-refl k)
    | inr (space, g) ↦ elim (Option-cases (free_snap k.snaps 0)) [
      | inl h ↦ rw (e, on_snapshot, g, h) (Quiet-refl k)
      | inr (sid, h) ↦ elim (Option-cases (copy_with_frame space k.pool).0) [
        | inl i ↦ rw (e, on_snapshot, g, h, i) (with_pool _)
        | inr ((copy, frame), i) ↦
            rw (e, on_snapshot, g, h, i)
              (Quiet-trans k _ _ (with_pool (copy_with_frame space k.pool).1)
                (record_snapshot-Quiet f pid sid copy frame _))
      ]
    ]
  ]
]
  where
    with_pool : (p : Pool) → Quiet k (record k { pool = p })
    with_pool p = record { table = Keeps-refl k.table; current = refl }

send_blit-Quiet :
    (id w h : ℕ) (rows : List Text) (checksum : ℕ) (k : Kernel)
    → Quiet k (send_blit id w h rows checksum k).1
unfolding send_blit
send_blit-Quiet id w h rows checksum k =
    elim (Bool-cases (ltb capacity (length (blit_text id k.current w h rows checksum)))) [
      | inl e ↦ rw (e, send_blit) (Quiet-refl k)
      | inr e ↦ rw (e, send_blit) (emit_as-Quiet id _ k)
    ]

blit_in-Quiet :
    (space : AddressSpace) (ptr w h : ℕ) (k : Kernel) → Quiet k (blit_in space ptr w h k).1
unfolding blit_in
blit_in-Quiet space ptr w h k =
    elim (Option-cases (blit_rows h 0 space ptr w fnv_offset (take_id k).1.pool)) [
      | inl e ↦ rw (e, blit_in) (take_id-Quiet k)
      | inr ((rows, checksum), e) ↦
          rw (e, blit_in)
            (Quiet-trans k (take_id k).1 _ (take_id-Quiet k)
              (send_blit-Quiet (take_id k).0 w h rows checksum (take_id k).1))
    ]

on_blit-Quiet : (ptr w h : ℕ) (k : Kernel) → Quiet k (on_blit ptr w h k).1
unfolding on_blit
on_blit-Quiet ptr w h k = elim (Bool-cases (current_has Cap.write k)) [
  | inr e ↦ rw (e, on_blit) (emit_denied-Quiet _ Cap.write k)
  | inl e ↦ elim (Bool-cases ((w == 0) || ((h == 0) || (ltb blit_maxw w || ltb blit_maxh h)))) [
    | inl f ↦ rw (e, on_blit, f) (Quiet-refl k)
    | inr f ↦ elim (Option-cases (current_space k)) [
      | inl g ↦ rw (e, on_blit, f, g) (Quiet-refl k)
      | inr (space, g) ↦ rw (e, on_blit, f, g) (blit_in-Quiet space ptr w h k)
    ]
  ]
]

send_chunk-Quiet : (seq : ℕ) (bytes : Text) (k : Kernel) → Quiet k (send_chunk seq bytes k).1
unfolding send_chunk
send_chunk-Quiet seq bytes k =
    elim (Bool-cases
      (ltb capacity (length (chunk_text (take_id k).0 (take_id k).1.current seq bytes)))) [
        | inl e ↦ rw (e, send_chunk) (take_id-Quiet k)
        | inr e ↦
            rw (e, send_chunk)
              (Quiet-trans k (take_id k).1 _ (take_id-Quiet k) (emit_as-Quiet _ _ (take_id k).1))
      ]

read_chunk-Quiet : (ptr len seq : ℕ) (k : Kernel) → Quiet k (read_chunk ptr len seq k).1
unfolding read_chunk
read_chunk-Quiet ptr len seq k = elim (Bool-cases ((len == 0) || ltb fb_chunk len)) [
  | inl g ↦ rw (g, read_chunk) (Quiet-refl k)
  | inr g ↦ elim (Option-cases (current_space k)) [
    | inl h ↦ rw (g, read_chunk, h) (Quiet-refl k)
    | inr (space, h) ↦ elim (Option-cases (copy_from_user space ptr len k.pool)) [
      | inl i ↦ rw (g, read_chunk, h, i) (Quiet-refl k)
      | inr (bytes, i) ↦ rw (g, read_chunk, h, i) (send_chunk-Quiet seq bytes k)
    ]
  ]
]

either-Quiet :
    (c : Bool) (k : Kernel) (r : ℕ × Kernel) → Quiet k r.1 → Quiet k (if c then (0, k) else r).1
either-Quiet true k r q = Quiet-refl k
either-Quiet false k r q = q

on_frame_rgb-Quiet : (ptr len seq : ℕ) (k : Kernel) → Quiet k (on_frame_rgb ptr len seq k).1
unfolding on_frame_rgb
on_frame_rgb-Quiet ptr len seq k = elim (Bool-cases (current_has Cap.write k)) [
  | inr e ↦ rw (e, on_frame_rgb) (emit_denied-Quiet _ Cap.write k)
  | inl e ↦
      rw (e, on_frame_rgb)
        (either-Quiet k.traps.autonomous k (read_chunk ptr len seq k)
          (read_chunk-Quiet ptr len seq k))
]

perform-IsSound : (c : Call) (f : TrapFrame) (k : Kernel) → IsSound k → IsSound (perform c f k).1
unfolding perform
perform-IsSound exit f k s = on_exit-IsSound (a0 f) k s
perform-IsSound write f k s = Quiet-IsSound k _ (sys_write-Quiet (a0 f) (a1 f) k) s
perform-IsSound yield f k s = Quiet-IsSound k _ (on_yield-Quiet k) s
perform-IsSound spawn f k s = on_spawn-IsSound (a0 f) (a1 f % 2 ^ 32) k s
perform-IsSound snapshot f k s = Quiet-IsSound k _ (on_snapshot-Quiet f k) s
perform-IsSound blit f k s = Quiet-IsSound k _ (on_blit-Quiet (a0 f) (a1 f) (a2 f) k) s
perform-IsSound frame_rgb f k s = Quiet-IsSound k _ (on_frame_rgb-Quiet (a0 f) (a1 f) (a2 f) k) s
perform-IsSound getkey f k s = Quiet-IsSound k _ (on_getkey-Quiet k) s

-- Every system call, known or not and whatever its arguments, keeps a kernel sound.
pub dispatch-IsSound :
    (b : Build) (f : TrapFrame) (k : Kernel) → IsSound k → IsSound (dispatch b f k).1
unfolding dispatch
dispatch-IsSound b f k s = elim (Option-cases (call_of b (a7 f))) [
  | inl e ↦ rw (e, dispatch) s
  | inr (c, e) ↦ rw (e, dispatch) (perform-IsSound c f k s)
]
