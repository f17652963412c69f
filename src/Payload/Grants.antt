-- ===== src/Payload/Grants.antt =====
-- What a payload gets from `spawn` (kernel/src/payload.rs, `on_spawn`).
use kernai.Base.{
  ℕ, ◌<◌, ◌≡◌, refl, subst, ap, true, Option, none, some, length, set, get_or-set_self, arith,
  Bool-cases, Option-cases, inl, inr,
}
use kernai.Payload.Slot.{Slot, Cap, new_slot, is_empty, max_proc}
use kernai.Payload.Images.{image_at, spawnable_image}
use kernai.Payload.Table.{position, queued_slot, enqueue, current_pid, current_has}
use kernai.Payload.Hooks.{attenuate, spawn_image, on_spawn}
use kernai.Payload.Checkpoint.{eagain}
use kernai.Kernel.{Kernel, Body, slot_at, put_slot, emit}
use kernai.Payload.Lineage.{
  Within, Within-trans, bit_and-Within_left, bit_and-Within_right, slot_of, position_lem,
}
use kernai.Payload.Attenuation.{attenuate-Within, current_pid-some}

-- The child's slot was empty; now it has the parent, the image and capabilities within the
-- request, the parent's and the image's ceiling.
abbrev pub IsGrant : Kernel → ℕ → ℕ → ℕ → ℕ → ℕ × Kernel → Type 0
IsGrant k parent image requested child (r, k') =
    (r ≡ child)
    × (child < length k.table)
    × (is_empty (slot_of k.table child).state ≡ true)
    × ((slot_of k'.table child).parent ≡ parent)
    × ((slot_of k'.table child).image ≡ image)
    × Within (slot_of k'.table child).caps requested
    × Within (slot_of k'.table child).caps (slot_of k.table parent).caps
    × Within (slot_of k'.table child).caps (image_at image).caps

enqueue_at :
    (image caps parent pid : ℕ) (k : Kernel)
    → position is_empty k.table 0 ≡ some pid
    → enqueue image caps parent k ≡ (some pid, put_slot pid (queued_slot image caps parent) k)
unfolding enqueue
enqueue_at image caps parent pid k e = rw (e, enqueue)

spawn_image_at :
    (parent image requested pid : ℕ) (k : Kernel)
    → position is_empty k.table 0 ≡ some pid
    → let granted = attenuate requested (slot_of k.table parent).caps image in
      spawn_image parent image requested k ≡ (
        pid,
        emit
            (Body.payload_spawn parent pid (slot_of k.table parent).caps requested granted)
            (put_slot pid (queued_slot image granted parent) k),
      )
unfolding spawn_image slot_at
spawn_image_at parent image requested pid k e =
    let caps = (slot_of k.table parent).caps in
    let granted = attenuate requested caps image in
    let answer : Option ℕ × Kernel → ℕ × Kernel = λ r. elim r.0 [
      | none ↦ (eagain, r.1)
      | some child ↦ (child, emit (Body.payload_spawn parent child caps requested granted) r.1)
    ] in
    ap answer (enqueue_at image granted parent pid k e)

spawn_image_full :
    (parent image requested : ℕ) (k : Kernel)
    → position is_empty k.table 0 ≡ none
    → (spawn_image parent image requested k).0 ≡ eagain
unfolding spawn_image enqueue
spawn_image_full parent image requested k e = rw (e, enqueue, spawn_image)

spawn_image-IsGrant :
    (parent image requested child : ℕ) (k : Kernel)
    → (spawn_image parent image requested k).0 ≡ child
    → child < max_proc
    → IsGrant k parent image requested child (spawn_image parent image requested k)
unfolding emit put_slot
spawn_image-IsGrant parent image requested child k h l =
    elim (Option-cases (position is_empty k.table 0)) [
      | inl e ↦ absurd (omega (arith, spawn_image_full parent image requested k e))
      | inr (pid, e) ↦
          let (i, at, m, em) = position_lem is_empty k.table 0 pid e in
          let (w1, w2, w3) = attenuate-Within requested (slot_of k.table parent).caps image in
          let pc : pid ≡ child = rw (spawn_image_at parent image requested pid k e) at h in
          let ic : i ≡ child = omega arith in
          rw (spawn_image_at parent image requested pid k e) (
            pc,
            omega arith,
            subst (λ c. is_empty (slot_of k.table c).state ≡ true) ic em,
            ap (λ x. x.parent) (filled pid (omega arith) pc),
            ap (λ x. x.image) (filled pid (omega arith) pc),
            rw (filled pid (omega arith) pc)
                (Within-trans _ granted _ (bit_and-Within_left granted ceiling) w1),
            rw (filled pid (omega arith) pc)
                (Within-trans _ granted _ (bit_and-Within_left granted ceiling) w2),
            rw (filled pid (omega arith) pc) (bit_and-Within_right granted ceiling),
          )
    ]
  where
    ceiling : ℕ
    ceiling = (image_at image).caps

    granted : ℕ
    granted = attenuate requested (slot_of k.table parent).caps image

    new : Slot
    new = queued_slot image granted parent

    filled :
        (pid : ℕ) → pid < length k.table → pid ≡ child → slot_of (set k.table pid new) child ≡ new
    filled pid in_table pc =
        subst (λ c. slot_of (set k.table pid new) c ≡ new) pc
          (get_or-set_self k.table pid new new_slot in_table)

-- A spawn that returns a pid and no errno was made by a running payload for an image that may be
-- spawned, and fills an empty slot with a child of the caller whose capabilities lie within the
-- request, within the caller's own and within the image's ceiling.
pub on_spawn-IsGrant :
    (selector requested child : ℕ) (k : Kernel)
    → (on_spawn selector requested k).0 ≡ child
    → child < max_proc
    → (image : ℕ) × (spawnable_image selector ≡ some image)
      × (current_has Cap.spawn k ≡ true)
      × IsGrant k k.current image requested child (on_spawn selector requested k)
unfolding on_spawn
on_spawn-IsGrant selector requested child k h l = elim (Option-cases (current_pid k)) [
  | inl e ↦ absurd (omega (arith, rw (e, on_spawn) at h))
  | inr (pid, e) ↦ elim (Bool-cases (current_has Cap.spawn k)) [
    | inr d ↦ absurd (omega (arith, rw (e, on_spawn, d) at h))
    | inl d ↦ elim (Option-cases (spawnable_image selector)) [
      | inl g ↦ absurd (omega (arith, rw (e, on_spawn, d, g) at h))
      | inr (image, g) ↦
          let (n, at) = current_pid-some k pid e in
          rw (e, on_spawn, d, g)
            (
              image,
              refl,
              refl,
              subst (λ p. IsGrant k p image requested child (spawn_image pid image requested k)) at
                  (spawn_image-IsGrant pid image requested child k (rw (e, on_spawn, d, g) at h) l),
            )
    ]
  ]
]
