-- ===== src/Transfers/Ids.antt =====
-- The ids of transfers, and those of requests.
use Prim.Native.Nat.{ℕ, ◌+◌, ◌%◌, ◌≤◌, ◌<◌}
use beta.Base.{◌≡◌, ◌↔◌, arith}
use beta.Base.Word.{u16_max}
use beta.Transfers.{transfer_id_of}

pub transfer_id_of_bounds : (n : ℕ) → (1 ≤ transfer_id_of n) × (transfer_id_of n < u16_max)
unfolding transfer_id_of
transfer_id_of_bounds n = (ground arith, ground arith)

-- Two transfers that are less than 65534 apart in the count get different ids from 1 to 65534,
-- unless the first count is a multiple of 65535 and the second is the next: then both ids are 1.
pub transfer_id_of_twice :
    (n m : ℕ)
    → n < m
    → m < n + 65534
    → (1 ≤ transfer_id_of n)
      × (transfer_id_of n ≤ 65534)
      × ((transfer_id_of n ≡ transfer_id_of m) ↔ ((n % u16_max ≡ 0) × (m ≡ n + 1)))
unfolding transfer_id_of
transfer_id_of_twice n m h k = ground arith
