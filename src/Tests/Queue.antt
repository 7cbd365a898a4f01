-- ===== src/Tests/Queue.antt =====
-- The queue at concrete elements.
use hm_cuda.Prelude.{
  ℕ, ◌+◌, ◌%◌, ◌^◌, ◌≡◌, refl, true, false, List, [], ◌∷◌, some, inl, arith, length,
}
use hm_cuda.Resource.{hmcuda_ctx_get}
use hm_cuda.Command.{Element, Request, Response, runtime, init, u64_field}
use hm_cuda.Vhost.Queue.{
  place_response, push_len, response_bytes, hmcuda_process_vq, place_response_outside,
  push_len-response, get-process_vq-Other,
}
use hm_cuda.Tests.Backends.{first_session, two_sessions, succeeding, two_way}

-- A copy to the guest, and an allocation whose address is known.
abbrev copied : Response
copied = record { cuda_error = 0; payload = []; d2h_virtqueue = true }

abbrev allocated : Response
allocated = record { cuda_error = 0; payload = u64_field (some 8192) ∷ []; d2h_virtqueue = false }

-- Room for a header and eight bytes more, both ways.
abbrev roomy : Element
roomy = record {
  out_sg = record { base = 512; len = 16 } ∷ [];
  in_sg = record { base = 1024; len = 16 } ∷ [];
}

abbrev always_init : ℕ → List ℕ → Request
always_init cmd bytes = runtime init

place_response_outside_example :
    (place_response two_way copied (1 ∷ 2 ∷ 3 ∷ 4 ∷ 5 ∷ 6 ∷ 7 ∷ 8 ∷ []) two_sessions).1.memory 12
    ≡ 12
place_response_outside_example =
    place_response_outside two_way copied (1 ∷ 2 ∷ 3 ∷ 4 ∷ 5 ∷ 6 ∷ 7 ∷ 8 ∷ []) two_sessions 12 refl
      (inl (omega arith))

-- Five bytes of data, and a header in the last entry.
abbrev with_data : Element
with_data = record {
  out_sg = record { base = 512; len = 16 } ∷ [];
  in_sg =
      record { base = 10; len = 3 }
      ∷ record { base = 20; len = 2 }
      ∷ record { base = 30; len = 8 }
      ∷ [];
}

push_len-response_example :
    push_len with_data copied ≡ (length (response_bytes 0 7 copied) + 5) % 2 ^ 32
push_len-response_example =
    push_len-response 0 7 with_data copied
      (record { base = 10; len = 3 } ∷ record { base = 20; len = 2 } ∷ [])
      (record { base = 30; len = 8 }) refl

get-process_vq-Other_example :
    hmcuda_ctx_get 1 2
      (hmcuda_process_vq succeeding always_init 0 3 2 (roomy ∷ []) two_sessions).1.contexts
    ≡ some first_session
unfolding hmcuda_ctx_get
get-process_vq-Other_example =
    get-process_vq-Other succeeding always_init 0 3 2 1 2 refl (roomy ∷ []) two_sessions
