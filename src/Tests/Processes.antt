-- ===== src/Tests/Processes.antt =====
-- The process table and the scheduler at concrete inputs (kernel/src/payload.rs).
use kernai.Base.{ℕ, zero, suc, ◌≡◌, refl, ap, false, true, some, [], replicate, arith}
use kernai.Kernel.{Kernel, boot_state}
use kernai.Payload.Slot.{Slot, new_slot, is_empty, no_pid, Cap, max_proc}
use kernai.Payload.Images.{Build, spawnable_image}
use kernai.Payload.Table.{enqueue, current_has}
use kernai.Payload.Hooks.{on_spawn}
use kernai.Payload.Lineage.{
  Within, slot_of, IsOccupied, Descends, itself, child_of, Descends-Within,
}
use kernai.Payload.Attenuation.{IsSound, enqueue-IsSound, on_spawn-IsSound}
use kernai.Payload.Grants.{IsGrant, on_spawn-IsGrant}
use kernai.Tests.Memory.{empty_pool}

-- A kernel without payloads, whose clock stands still.
abbrev pub booted : Kernel
booted = boot_state empty_pool (λ n. 0) []

empty_slots-new : (n pid : ℕ) → slot_of (replicate n new_slot) pid ≡ new_slot
empty_slots-new zero pid = refl
empty_slots-new (suc n) zero = refl
empty_slots-new (suc n) (suc pid) = empty_slots-new n pid

booted-IsSound : IsSound booted
booted-IsSound = record {
  attenuated = record {
    obeys = λ pid o. absurd (cc (ap (λ s. is_empty s.state) (empty_slots-new max_proc pid), o.1));
  };
  running = λ n. absurd (n refl);
}

-- The image `spawner` is queued and runs in slot 0.
abbrev with_spawner : Kernel
with_spawner = (enqueue 3 5 no_pid booted).1

abbrev spawning : Kernel
spawning = record with_spawner { current = 0 }

spawning-IsSound : IsSound spawning
unfolding enqueue kernai.Payload.Table.position kernai.Kernel.put_slot
    kernai.Payload.Images.image_at
spawning-IsSound =
    let q = enqueue-IsSound 3 5 no_pid booted booted-IsSound (λ n. absurd (n refl)) in
    record { attenuated = q.attenuated; running = λ n. (omega arith, refl) }

-- It spawns `redelegator`, asking for every capability.
abbrev pub spawned : Kernel
spawned = (on_spawn 1 7 spawning).1

pub spawned-IsSound : IsSound spawned
spawned-IsSound = on_spawn-IsSound 1 7 spawning spawning-IsSound

on_spawn-IsSound_example : IsSound (on_spawn 1 7 spawning).1
on_spawn-IsSound_example = on_spawn-IsSound 1 7 spawning spawning-IsSound

child_pid : (on_spawn 1 7 spawning).0 ≡ 1
unfolding on_spawn enqueue kernai.Payload.Table.position kernai.Kernel.put_slot
    kernai.Payload.Images.image_at kernai.Payload.Table.current_pid current_has
    kernai.Kernel.slot_at kernai.Payload.Slot.cap_bit spawnable_image kernai.Kernel.emit
child_pid = refl

on_spawn-IsGrant_example :
    (image : ℕ) × (spawnable_image 1 ≡ some image)
    × (current_has Cap.spawn spawning ≡ true)
    × IsGrant spawning 0 image 7 1 (on_spawn 1 7 spawning)
on_spawn-IsGrant_example = on_spawn-IsGrant 1 7 1 spawning child_pid (omega arith)

occupied : IsOccupied spawned.table 1
unfolding on_spawn enqueue kernai.Payload.Table.position kernai.Kernel.put_slot
    kernai.Payload.Images.image_at kernai.Payload.Table.current_pid current_has
    kernai.Kernel.slot_at kernai.Payload.Slot.cap_bit spawnable_image kernai.Kernel.emit
occupied = (omega arith, refl)

descends : Descends spawned.table 1 0
unfolding on_spawn enqueue kernai.Payload.Table.position kernai.Kernel.put_slot
    kernai.Payload.Images.image_at kernai.Payload.Table.current_pid current_has
    kernai.Kernel.slot_at kernai.Payload.Slot.cap_bit spawnable_image kernai.Kernel.emit
descends = child_of 1 0 (λ e. omega (arith, e)) (itself 0)

Descends-Within_example : Within (slot_of spawned.table 1).caps (slot_of spawned.table 0).caps
Descends-Within_example = Descends-Within spawned.table spawned-IsSound.attenuated occupied descends

-- A build whose images are empty.
abbrev pub build : Build
build = record { cpayloads = false; doom = false; elf = λ n. [] }
