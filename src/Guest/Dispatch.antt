-- ===== src/Guest/Dispatch.antt =====
-- guest/intercept/hmcuda_dispatch.h: the two ways in which an entry point forwards its call.
use hm_cuda.Prelude.{
  ℕ, ◌+◌, Bool, List, [], ◌∷◌, zero, suc, Option, none, some, ltb, ◌==◌, if◌then◌else◌,
}
use hm_cuda.Command.{Request}
use hm_cuda.Wire.{Struct, sizeof}
use hm_cuda.Guest.{G, Status, ◌>>=◌, pure}
use hm_cuda.Guest.Transport.{Reply}

-- Where the response is wanted and there is one, its first member.
abbrev pub out_member : Bool → Reply → Status
out_member given (e, none) = (e, none)
out_member given (e, some member) =
    (e, if given then (if e == 0 then some (member 0) else none) else none)

module _ (fn : Request → ℕ → ℕ → G Reply) where
  -- HMCUDA_FORWARD, and HMCUDA_FORWARD_NOREQ where the struct has no members.
  unfoldable pub hmcuda_forward : Request → Struct → G ℕ
  hmcuda_forward r req = do rep ← fn r (sizeof req) 0; pure rep.0

  -- HMCUDA_FORWARD_RESP and HMCUDA_FORWARD_NOREQ_RESP; `given` tells that the pointer is not NULL.
  unfoldable pub hmcuda_forward_resp : Request → Struct → Struct → Bool → G Status
  hmcuda_forward_resp r req resp given = do
    rep ← fn r (sizeof req) (sizeof resp)
    pure (out_member given rep)

-- Consecutive members of a response.
abbrev pub members : ℕ → ℕ → (ℕ → ℕ) → List ℕ
members i zero member = []
members i (suc n) member = member i ∷ members (i + 1) n member

-- An array member, or a struct, that is copied out as a whole.
abbrev pub out_members : Bool → ℕ → ℕ → Reply → ℕ × Option (List ℕ)
out_members given i n (e, none) = (e, none)
out_members given i n (e, some member) =
    (e, if given then (if e == 0 then some (members i n member) else none) else none)

-- A text of a library: what it sent, or a fixed text.
pub data Text : Type 0 where
  text : List ℕ → Text
  unknown_text : Text

-- The bytes of a text in the thread's buffer of 256 bytes, before the final NUL.
abbrev pub text_of : (ℕ → ℕ) → Text
text_of member =
    if ltb 0 (member 0)
    then text (members 1 (if ltb (member 0) 256 then member 0 else 255) member)
    else unknown_text
