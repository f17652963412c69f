-- ===== src/Payload/Images.antt =====
-- kernel/src/payload.rs: the embedded images. Their ELF bytes are made by the build, so they come
-- with the cargo features as a parameter.
use Prim.Native.String.{String}
use kernai.Base.{
  ℕ, ◌*◌, ◌^◌, Bool, Option, none, some, List, [], ◌∷◌, ◌==◌, if◌then◌else◌, ◌&&◌, get_or, bit_or,
}
use kernai.Payload.Slot.{cap_write, cap_yield, cap_spawn}

-- The cargo features, and the bytes of each image in the order of `IMAGES`.
pub record Build : Type 0 where
  pub cpayloads : Bool
  pub doom : Bool
  pub elf : ℕ → List ℕ

pub record Image : Type 0 where
  pub name : String
  pub caps : ℕ
  pub deadline : ℕ

abbrev image : String → ℕ → ℕ → Image
image name caps deadline = record { name = name; caps = caps; deadline = deadline }

abbrev pub images : List Image
images =
    image "hello" cap_write 0
    ∷ image "crasher" cap_write 0
    ∷ image "muzzled" 0 0
    ∷ image "spawner" (bit_or cap_write cap_spawn) 0
    ∷ image "child" (bit_or cap_write cap_yield) 0
    ∷ image "runaway" cap_write 15000
    ∷ image "wild" cap_write 0
    ∷ image "wxviol" cap_write 0
    ∷ image "forker" cap_write 0
    ∷ image "leaker" cap_write 0
    ∷ image "delegator" (bit_or (bit_or cap_write cap_spawn) cap_yield) 0
    ∷ image "redelegator" (bit_or cap_write cap_spawn) 0
    ∷ image "worker" cap_write 0
    ∷ image "badjump" cap_write 0
    ∷ image "craycast" cap_write 0
    ∷ image "doom" cap_write 0
    ∷ image "livelock" cap_write 0
    ∷ image "breaker" cap_write 0
    ∷ image "misalign" cap_write 0
    ∷ image "nullread" cap_write 0
    ∷ image "execdata" cap_write 0
    ∷ image "stackover" cap_write 0
    ∷ image "fuzzdelegate" (bit_or (bit_or cap_write cap_yield) cap_spawn) 0
    ∷ image "injector" cap_write 0
    ∷ []

abbrev no_image : Image
no_image = image "?" 0 0

-- `IMAGES[image]`
unfoldable pub image_at : ℕ → Image
image_at i = get_or images i no_image

abbrev pub img_child : ℕ
img_child = 4

abbrev pub img_redelegator : ℕ
img_redelegator = 11

abbrev pub img_worker : ℕ
img_worker = 12

abbrev pub img_doom : ℕ
img_doom = 15

-- The window of an image as (va, pa, len): DOOM's IWAD, in a `doom` build.
unfoldable pub image_window : Build → ℕ → Option (ℕ × ℕ × ℕ)
image_window b i =
    if b.doom && (i == img_doom) then some (0x5000_0000, 0x8800_0000, 32 * 2 ^ 20) else none

unfoldable pub image_wants_input : Build → ℕ → Bool
image_wants_input b i = b.doom && (i == img_doom)

-- The images that a payload may spawn, by its selector.
unfoldable pub spawnable_image : ℕ → Option ℕ
spawnable_image selector =
    if selector == 0
    then some img_child
    else (if selector == 1
        then some img_redelegator
        else (if selector == 2 then some img_worker else none))
