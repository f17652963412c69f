-- ===== src/Payload/Attenuation.antt =====
-- Every operation of kernel/src/payload.rs keeps the capability lattice, and the running payload
-- has a slot.
use kernai.Base.{
  ℕ, ◌≡◌, ◌≢◌, ◌⊎◌, inl, inr, ◌∙◌, sym, refl, subst, ap, false, some, List, bit_and, ◌==◌, ==_iff,
  length-set, get_or-set_ne, arith, Bool-cases, Option-cases,
}
use kernai.Payload.Slot.{Slot, State, Cap, new_slot, is_empty, no_pid}
use kernai.Payload.Images.{image_at, spawnable_image}
use kernai.Payload.Table.{
  position, queued_slot, enqueue, current_pid, current_has, set_state, emit_denied,
}
use kernai.Payload.Hooks.{on_exit, attenuate, spawn_image, on_spawn}
use kernai.Kernel.{Kernel, Body, slot_at, put_slot, emit}
use kernai.Payload.Lineage.{
  Within, Within-trans, bit_and-Within_left, bit_and-Within_right, slot_of, IsOccupied,
  IsAttenuated, Keeps, Keeps-set, Keeps-IsAttenuated, fill-IsAttenuated, position_lem,
}

-- The table keeps the lattice, and `CURRENT` names an occupied slot or none.
pub record IsSound (k : Kernel) : Type 0 where
  pub attenuated : IsAttenuated k.table
  pub running : k.current ≢ no_pid → IsOccupied k.table k.current

-- The slot in which a pid stands is occupied also after a change that keeps every lineage.
pub Keeps-IsOccupied :
    (t t' : List Slot) (pid : ℕ) → Keeps t t' → IsOccupied t pid → IsOccupied t' pid
Keeps-IsOccupied t t' pid k o = (omega (arith, k.size, o.0), (k.each pid).occupied ∙ o.1)

pub Keeps-IsSound :
    (k k' : Kernel)
    → IsSound k
    → Keeps k.table k'.table
    → (k'.current ≡ k.current) ⊎ (k'.current ≡ no_pid)
    → IsSound k'
Keeps-IsSound k k' s h (inl c) = record {
  attenuated = Keeps-IsAttenuated k.table k'.table h s.attenuated;
  running = λ n.
      rw c
        (Keeps-IsOccupied k.table k'.table k.current h (s.running (subst (λ x. x ≢ no_pid) c n)));
}
Keeps-IsSound k k' s h (inr c) = record {
  attenuated = Keeps-IsAttenuated k.table k'.table h s.attenuated;
  running = λ n. absurd (n c);
}

abbrev pub CurrentFound : Kernel → ℕ → Type 0
CurrentFound k pid = (k.current ≢ no_pid) × (pid ≡ k.current)

pub current_pid-some : (k : Kernel) (pid : ℕ) → current_pid k ≡ some pid → CurrentFound k pid
unfolding current_pid
current_pid-some k pid h = ground arith

-- `exit` keeps the lattice.
pub on_exit-IsSound : (code : ℕ) (k : Kernel) → IsSound k → IsSound (on_exit code k)
unfolding on_exit put_slot slot_at emit
on_exit-IsSound code k s = elim (Bool-cases (k.current == no_pid)) [
  | inl e ↦ rw e s
  | inr e ↦ rw e (
      Keeps-IsSound k _ s
        (Keeps-set k.table k.current _ (record {
          occupied = sym (s.running (λ n. cc ((==_iff _ _).1 n))).1;
          image = refl;
          caps = refl;
          parent = refl;
        }))
        (inl refl))
]

-- A slot that is occupied may change its state to any but empty.
pub set_state-Keeps :
    (pid : ℕ) (st : State) (k : Kernel)
    → is_empty (slot_of k.table pid).state ≡ false
    → is_empty st ≡ false
    → Keeps k.table (set_state pid st k).table
unfolding put_slot slot_at
set_state-Keeps pid st k o e =
    Keeps-set k.table pid _
      (record { occupied = e ∙ sym o; image = refl; caps = refl; parent = refl })

pub table-emit : (b : Body) (k : Kernel) → (emit b k).table ≡ k.table
unfolding emit
table-emit b k = refl

pub current-emit : (b : Body) (k : Kernel) → (emit b k).current ≡ k.current
unfolding emit
current-emit b k = refl

-- The queue: a slot that `enqueue` fills is under the image's ceiling and what was asked for.
pub enqueue-IsSound :
    (image caps parent : ℕ) (k : Kernel)
    → IsSound k
    → (parent ≢ no_pid → IsOccupied k.table parent × Within caps (slot_of k.table parent).caps)
    → IsSound (enqueue image caps parent k).1
unfolding enqueue put_slot
enqueue-IsSound image caps parent k s h = elim (Option-cases (position is_empty k.table 0)) [
  | inl e ↦ rw (e, enqueue) s
  | inr (pid, e) ↦
      let (i, at, l, m) = position_lem is_empty k.table 0 pid e in
      let same : pid ≡ i = omega arith in
      rw (e, enqueue)
        (record {
          attenuated =
              fill-IsAttenuated k.table pid (queued_slot image caps parent) (omega arith)
                (rw same m)
                (record {
                  ceiling = bit_and-Within_right caps (image_at image).caps;
                  parent = λ p. (
                    (h p).0,
                    Within-trans _ caps _ (bit_and-Within_left caps (image_at image).caps) (h p).1,
                  );
                })
                s.attenuated;
          running = λ n.
              let o = s.running n in
              (
                omega (arith, length-set k.table pid (queued_slot image caps parent), o.0),
                ap (λ x. is_empty x.state)
                      (get_or-set_ne k.table pid k.current (queued_slot image caps parent) new_slot
                        (λ q. cc (o.1, m, same, q)))
                    ∙ o.1,
              );
        })
]

pub attenuate-Within :
    (requested parent_caps image : ℕ)
    → Within (attenuate requested parent_caps image) requested
      × Within (attenuate requested parent_caps image) parent_caps
      × Within (attenuate requested parent_caps image) (image_at image).caps
unfolding attenuate
attenuate-Within requested parent_caps image = (
  Within-trans _ (bit_and requested parent_caps) _ (bit_and-Within_left _ _)
      (bit_and-Within_left requested parent_caps),
  Within-trans _ (bit_and requested parent_caps) _ (bit_and-Within_left _ _)
      (bit_and-Within_right requested parent_caps),
  bit_and-Within_right _ _,
)

-- A spawn of an image keeps the lattice.
spawn_image-IsSound :
    (parent image requested : ℕ) (k : Kernel)
    → IsSound k
    → IsOccupied k.table parent
    → IsSound (spawn_image parent image requested k).1
unfolding spawn_image slot_at emit
spawn_image-IsSound parent image requested k s o =
    let granted = attenuate requested (slot_of k.table parent).caps image in
    let next =
      enqueue-IsSound image granted parent k s
        (λ n. (o, (attenuate-Within requested (slot_of k.table parent).caps image).1)) in
    elim (Option-cases (enqueue image granted parent k).0) [
      | inl e ↦ rw (e, spawn_image) next
      | inr (child, e) ↦
          rw (e, spawn_image) (record { attenuated = next.attenuated; running = next.running })
    ]

-- In a sound kernel every occupied slot holds only capabilities of its image's ceiling and, when it
-- has a parent, of that parent, whose slot is occupied; and `CURRENT` names an occupied slot or
-- none. `spawn` keeps a kernel sound on every branch, refusals included.
pub on_spawn-IsSound :
    (selector requested : ℕ) (k : Kernel) → IsSound k → IsSound (on_spawn selector requested k).1
unfolding on_spawn emit_denied emit
on_spawn-IsSound selector requested k s = elim (Option-cases (current_pid k)) [
  | inl e ↦ rw (e, on_spawn) s
  | inr (pid, e) ↦ elim (Bool-cases (current_has Cap.spawn k)) [
    | inr d ↦ rw (e, on_spawn, d) (record { attenuated = s.attenuated; running = s.running })
    | inl d ↦ elim (Option-cases (spawnable_image selector)) [
      | inl g ↦ rw (e, on_spawn, d, g) s
      | inr (image, g) ↦
          let (n, at) = current_pid-some k pid e in
          rw (e, on_spawn, d, g) (spawn_image-IsSound pid image requested k s (rw at (s.running n)))
    ]
  ]
]
