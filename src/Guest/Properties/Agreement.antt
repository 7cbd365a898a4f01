-- ===== src/Guest/Properties/Agreement.antt =====
-- The properties of a device, from the library of the host to the application in the guest.
use hm_cuda.Prelude.{ℕ, ◌≡◌, refl, ap, Bool, true, false, List, [], ◌∷◌, ◌&&◌, if◌then◌else◌}
use hm_cuda.Wire.Properties.{
  PropMember, clock_rate, device_overlap, kernel_exec_timeout_enabled, compute_mode,
  max_texture_1d_linear, memory_clock_rate, single_to_double_precision_perf_ratio,
  cooperative_multi_device_launch, reserved2, reserved, Properties, zeroed,
}
use hm_cuda.Core.Queries.{to_device_prop}
use hm_cuda.Guest.Properties.{hmcuda_prop_to_cuda}

-- The members that CUDART 13000 has dropped.
abbrev pub is_dropped : PropMember → Bool
is_dropped clock_rate = true
is_dropped device_overlap = true
is_dropped kernel_exec_timeout_enabled = true
is_dropped compute_mode = true
is_dropped max_texture_1d_linear = true
is_dropped memory_clock_rate = true
is_dropped single_to_double_precision_perf_ratio = true
is_dropped cooperative_multi_device_launch = true
is_dropped _ = false

-- The members that nobody may read.
abbrev pub is_reserved : PropMember → Bool
is_reserved reserved2 = true
is_reserved reserved = true
is_reserved _ = false

-- The library's value where a member is handed on, and zeros where it is not.
abbrev pub handed_on : Bool → List ℕ → List ℕ
handed_on b xs = if b then xs else zeroed xs

zeroed-zeroed : (xs : List ℕ) → zeroed (zeroed xs) ≡ zeroed xs
zeroed-zeroed [] = refl
zeroed-zeroed (x ∷ xs) = ap (λ t. 0 ∷ t) (zeroed-zeroed xs)

both_sides :
    (guest host : Bool) (xs : List ℕ)
    → (if guest then handed_on host xs else zeroed (handed_on host xs))
      ≡ handed_on (guest && host) xs
both_sides true host xs = refl
both_sides false true xs = refl
both_sides false false xs = zeroed-zeroed xs

-- Through the host's copy and the guest's, the application gets the library's value of every member
-- but the reserved ones, which it gets as zeros, and those that CUDART 13000 has dropped, which it gets
-- if the host and the guest are both built for an older version, and else as zeros.
pub prop_to_cuda-to_device_prop :
    (guest host : Bool) (prop : Properties) (m : PropMember)
    → hmcuda_prop_to_cuda guest (to_device_prop host prop) m ≡ (
        if is_reserved m
        then zeroed (prop m)
        else if is_dropped m
        then handed_on (guest && host) (prop m)
        else prop m)
unfolding hmcuda_prop_to_cuda to_device_prop
prop_to_cuda-to_device_prop guest host prop clock_rate = both_sides guest host (prop clock_rate)
prop_to_cuda-to_device_prop guest host prop device_overlap =
    both_sides guest host (prop device_overlap)
prop_to_cuda-to_device_prop guest host prop kernel_exec_timeout_enabled =
    both_sides guest host (prop kernel_exec_timeout_enabled)
prop_to_cuda-to_device_prop guest host prop compute_mode = both_sides guest host (prop compute_mode)
prop_to_cuda-to_device_prop guest host prop max_texture_1d_linear =
    both_sides guest host (prop max_texture_1d_linear)
prop_to_cuda-to_device_prop guest host prop memory_clock_rate =
    both_sides guest host (prop memory_clock_rate)
prop_to_cuda-to_device_prop guest host prop single_to_double_precision_perf_ratio =
    both_sides guest host (prop single_to_double_precision_perf_ratio)
prop_to_cuda-to_device_prop guest host prop cooperative_multi_device_launch =
    both_sides guest host (prop cooperative_multi_device_launch)
prop_to_cuda-to_device_prop guest host prop reserved2 = zeroed-zeroed (prop reserved2)
prop_to_cuda-to_device_prop guest host prop reserved = zeroed-zeroed (prop reserved)
prop_to_cuda-to_device_prop guest host prop _ = refl
