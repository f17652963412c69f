-- ===== src/Rpc/Answers/Bounds.antt =====
-- kernel/src/rpc.rs: an answer always fits its frame.
use kernai.Base.{ℕ, ◌+◌, ◌≤◌, ◌≡◌, [], ◌∷◌, length, leb, leb→le, arith, Bool-cases, inl, inr}
use kernai.Text.{Text, bytes_of}
use kernai.Text.Numbers.{decimal}
use kernai.Text.Lengths.{length-joined, length-decimal}
use kernai.Console.{capacity}
use kernai.Rpc.Answers.{rpc_envelope, too_large, rpc_frame}

length-rpc_envelope :
    (id : ℕ) (body : Text) → length (rpc_envelope id body) ≡ 27 + length (decimal id) + length body
unfolding rpc_envelope bytes_of
length-rpc_envelope id body = omega (
  arith,
  length-joined (
      bytes_of "{\"id\":"
      ∷ decimal id
      ∷ bytes_of ",\"type\":\"rpc\",\"rpc\":"
      ∷ body
      ∷ bytes_of "}"
      ∷ []),
)

length-too_large : length too_large ≤ 128
unfolding too_large bytes_of
length-too_large = omega arith

-- Whatever a tool or a resource answers with, the frame that goes out holds at most 2048 bytes, so
-- that no answer is dropped.
pub length-rpc_frame : (id : ℕ) (body : Text) → length (rpc_frame id body) ≤ capacity
unfolding rpc_frame
length-rpc_frame id body = elim (Bool-cases (leb (length (rpc_envelope id body)) capacity)) [
  | inl e ↦ rw (e, rpc_frame) (leb→le _ _ e)
  | inr e ↦
      rw (e, rpc_frame)
        (omega (arith, length-rpc_envelope id too_large, length-too_large, length-decimal id))
]
