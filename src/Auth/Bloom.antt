-- ===== src/Auth/Bloom.antt =====
-- BloomFilterService of src/auth/bloom-filter.service.ts.
pub mod Positions
pub mod Membership
use Prim.Native.Nat.{bit_xor}
use redis_api.Common.{
  ℕ, ◌+◌, ◌*◌, ◌%◌, ◌^◌, ◌++◌, Bool, true, false, List, [], ◌∷◌, map, Answer, answer, error, all,
  ◌==◌, if◌then◌else◌,
}
use redis_api.Text.{Str, codes}
use redis_api.Effect.{ret, throw, call, rejected, ◌>>=◌, ◌>>◌}
use redis_api.Auth.{BitCommand, getbit, setbit, bit, Method}

abbrev pub bloom_key : Str
bloom_key = codes "bloom:usernames"

abbrev pub bit_size : ℕ
bit_size = 1_000_000

abbrev pub num_hashes : ℕ
num_hashes = 7

-- `>>> 0`: the bits of an int32 as a uint32; `Math.imul` is a product of such bits.
abbrev pub u32 : ℕ → ℕ
u32 n = n % 2 ^ 32

abbrev pub imul : ℕ → ℕ → ℕ
imul a b = u32 (a * b)

fnv1a_from : ℕ → Str → ℕ
fnv1a_from hash [] = hash
fnv1a_from hash (c ∷ s) = fnv1a_from (u32 (imul (bit_xor hash c) 0x01000193)) s

unfoldable pub fnv1a : Str → ℕ
unfolding fnv1a_from
fnv1a value = fnv1a_from 0x811c9dc5 value

djb2_from : ℕ → Str → ℕ
djb2_from hash [] = hash
djb2_from hash (c ∷ s) = djb2_from (u32 (bit_xor (imul hash 33) c)) s

unfoldable pub djb2 : Str → ℕ
unfolding djb2_from
djb2 value = djb2_from 5381 value

-- `h2`, forced odd
abbrev pub odd_hash : ℕ → ℕ
odd_hash h2raw = if h2raw % 2 == 0 then h2raw + 1 else h2raw

abbrev pub position : ℕ → ℕ → ℕ → ℕ
position h1 h2 i = (h1 + i * h2) % bit_size

unfoldable pub positions : Str → List ℕ
positions value =
    let h1 = fnv1a value % bit_size in
    let h2 = odd_hash (djb2 value % bit_size) in
    map (position h1 h2) (0 ∷ 1 ∷ 2 ∷ 3 ∷ 4 ∷ 5 ∷ 6 ∷ [])

-- On to the other commands, whatever this one was answered.
abbrev pub collect : (List ℕ → Bool → Method (List ℕ)) → List ℕ → Bool → Answer ℕ → Method (List ℕ)
collect others found failed (answer b) = others (found ++ b ∷ []) failed
collect others found failed error = others found true

-- `Promise.all`: every command is sent, and one that is rejected rejects the whole. `found` holds the
-- bits so far.
abbrev pub gather : BitCommand → List ℕ → List ℕ → Bool → Method (List ℕ)
gather command [] found failed = if failed then throw rejected else ret found
gather command (p ∷ ps) found failed =
    call (bit command bloom_key p) (collect (λ bits lost. gather command ps bits lost) found failed)

-- `mightExist`
unfoldable pub might_exist : Str → Method Bool
might_exist username = do
  bits ← gather getbit (positions username) [] false
  ret (all (λ b. b == 1) bits)

-- `add`
unfoldable pub add : Str → Method (Unit {0})
add username = do gather (setbit 1) (positions username) [] false; ret tt
