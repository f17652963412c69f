-- ===== src/Rpc/Request/Polls.antt =====
-- kernel/src/rpc.rs: reading a frame changes nothing but the polls that are left.
use kernai.Base.{
  ℕ, zero, suc, ◌+◌, ◌≡◌, refl, ap, ◌∙◌, inl, inr, ◌||◌, Option, none, List, [], ◌∷◌, Bool-cases,
  Option-cases, ltb, ◌==◌,
}
use kernai.Rpc.Request.{
  max_req, max_stall_waits, getc_from, getc_stall, read_bytes, from_le, read_body, read_frame,
}
use kernai.Kernel.{Kernel, getchar}

abbrev pub with_rx : Kernel → List (Option ℕ) → Kernel
with_rx k rx = record k { rx = rx }

-- Only the polls differ.
pub record Polls (k k' : Kernel) : Type 0 where
  pub same : k' ≡ with_rx k k'.rx

pub Polls-refl : (k : Kernel) → Polls k k
Polls-refl k = record { same = refl }

pub Polls-trans : (k l m : Kernel) → Polls k l → Polls l m → Polls k m
Polls-trans k l m p q = record { same = q.same ∙ ap (λ x. with_rx x m.rx) p.same }

pub getchar-Polls : (k : Kernel) → Polls k (getchar k).1
unfolding getchar
getchar-Polls k = go k.rx
  where
    answer : List (Option ℕ) → Option ℕ × Kernel
    answer rx = elim rx [ [] ↦ (none, k) | b ∷ rest ↦ (b, with_rx k rest) ]

    go : (rx : List (Option ℕ)) → Polls k (answer rx).1
    go [] = Polls-refl k
    go (b ∷ rest) = record { same = refl }

getc_from-Polls : (left : ℕ) (k : Kernel) → Polls k (getc_from left k).1
unfolding getc_from
getc_from-Polls zero k = Polls-refl k
getc_from-Polls (suc left) k = elim (Option-cases (getchar k).0) [
  | inl e ↦
      rw (e, getc_from)
        (Polls-trans k (getchar k).1 _ (getchar-Polls k) (getc_from-Polls left (getchar k).1))
  | inr (b, e) ↦ rw (e, getc_from) (getchar-Polls k)
]

getc_stall-Polls : (k : Kernel) → Polls k (getc_stall k).1
unfolding getc_stall
getc_stall-Polls k = getc_from-Polls (max_stall_waits + 1) k

read_bytes-Polls : (n : ℕ) (k : Kernel) → Polls k (read_bytes n k).1
unfolding read_bytes
read_bytes-Polls zero k = Polls-refl k
read_bytes-Polls (suc n) k = either (read_bytes-Polls n (getc_stall k).1)
  where
    either :
        Polls (getc_stall k).1 (read_bytes n (getc_stall k).1).1 → Polls k (read_bytes (suc n) k).1
    either rest = elim (Option-cases (getc_stall k).0) [
      | inl e ↦ rw (e, read_bytes) (getc_stall-Polls k)
      | inr (c, e) ↦ elim (Option-cases (read_bytes n (getc_stall k).1).0) [
        | inl f ↦ rw (e, read_bytes, f) (Polls-trans k (getc_stall k).1 _ (getc_stall-Polls k) rest)
        | inr (t, f) ↦
            rw (e, read_bytes, f) (Polls-trans k (getc_stall k).1 _ (getc_stall-Polls k) rest)
      ]
    ]

read_body-Polls : (len : ℕ) (k : Kernel) → Polls k (read_body len k).1
unfolding read_body
read_body-Polls len k = elim (Bool-cases ((len == 0) || ltb max_req len)) [
  | inl r ↦ rw (r, read_body) (Polls-refl k)
  | inr r ↦ elim (Option-cases (read_bytes len k).0) [
    | inl e ↦ rw (r, read_body, e) (read_bytes-Polls len k)
    | inr (t, e) ↦ rw (r, read_body, e) (read_bytes-Polls len k)
  ]
]

pub read_frame-Polls : (k : Kernel) → Polls k (read_frame k).1
unfolding read_frame
read_frame-Polls k = elim (Option-cases (getc_stall k).0) [
  | inl e ↦ rw (e, read_frame) first
  | inr (m, e) ↦ elim (Bool-cases (m == 0x99)) [
    | inr n ↦ rw (e, read_frame, n) first
    | inl n ↦ elim (Option-cases (read_bytes 4 k1).0) [
      | inl f ↦ rw (e, read_frame, n, f) second
      | inr (lb, f) ↦
          rw (e, read_frame, n, f)
            (Polls-trans k (read_bytes 4 k1).1 _ second
              (read_body-Polls (from_le lb) (read_bytes 4 k1).1))
    ]
  ]
]
  where
    k1 : Kernel
    k1 = (getc_stall k).1

    first : Polls k k1
    first = getc_stall-Polls k

    second : Polls k (read_bytes 4 k1).1
    second = Polls-trans k k1 _ first (read_bytes-Polls 4 k1)
