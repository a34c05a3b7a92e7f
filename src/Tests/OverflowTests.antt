-- ===== src/Tests/OverflowTests.antt =====
-- xv6/buffer_overflow.c and the load offset on small inputs.
use buffer_overflow_attack.Base.{
  List, arith, refl, replicate, some, take, ℕ, ◌+◌, ◌<◌, ◌≡◌, ◌≤◌, ◌⊎◌,
}
use buffer_overflow_attack.Str.{Memory, word_at}
use buffer_overflow_attack.Overflow.{
  store_bytes, main, payload_size, IsRun, return_address_hijacked, overflow_reach,
}

abbrev zeros : Memory
zeros x = 0

-- Twenty bytes 'x'.
abbrev exploit : List ℕ
exploit = replicate 20 b'x'

exploit-IsRun : IsRun zeros 200 100 20 exploit
unfolding store_bytes
exploit-IsRun = record {
  below = omega arith;
  text = record { chars = λ i lt e. ground arith; ends = refl };
}

-- A return address 12 bytes above the buffer.
return_address_hijacked_example :
    (m' : Memory) × (main 21 zeros 200 100 exploit ≡ some m')
    × (word_at m' 112 ≡ word_at (store_bytes zeros 200 (take payload_size exploit)) 212)
return_address_hijacked_example =
    return_address_hijacked 21 12 exploit-IsRun (omega arith) (omega arith)

overflow_reach_example :
    (m' : Memory) × (main 21 zeros 200 100 exploit ≡ some m')
    × ((x : ℕ) → (x < 100) ⊎ (121 ≤ x) → m' x ≡ store_bytes zeros 200 (take payload_size exploit) x)
    × ((i : ℕ)
        → i ≤ 20
        → m' (100 + i) ≡ store_bytes zeros 200 (take payload_size exploit) (200 + i))
overflow_reach_example = overflow_reach 21 exploit-IsRun (omega arith)

hijacked_word : word_at (store_bytes zeros 200 (take payload_size exploit)) 212 ≡ 0x78787878
unfolding word_at store_bytes
hijacked_word = refl
