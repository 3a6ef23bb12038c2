-- ===== src/Policy/Digest.antt =====
-- `dtg_fnv1a64_bytes` of src/dstudio_task_policy.c: 64-bit arithmetic that wraps.
use Prim.Native.Nat.{bit_xor}
use dstudio.Base.{ℕ, ◌*◌, ◌%◌, ◌^◌, List, [], ◌∷◌, if◌then◌else◌, ◌==◌}

abbrev pub fnv_seed : ℕ
fnv_seed = 1469598103934665603

abbrev pub fnv_prime : ℕ
fnv_prime = 1099511628211

-- `hash ^= p[i]; hash *= 1099511628211;` for each byte.
unfoldable pub fnv_loop : ℕ → List ℕ → ℕ
fnv_loop hash [] = hash
fnv_loop hash (b ∷ bytes) = fnv_loop ((bit_xor hash b * fnv_prime) % 2 ^ 64) bytes

-- A hash of 0 asks for the seed.
unfoldable pub fnv1a64_bytes : ℕ → List ℕ → ℕ
fnv1a64_bytes hash bytes = if hash == 0 then fnv_loop fnv_seed bytes else fnv_loop hash bytes
