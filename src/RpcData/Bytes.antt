-- ===== src/RpcData/Bytes.antt =====
-- htonl and ntohl, as rpc/detail/rpc_data.cc calls them: a uint32 as four bytes in network order.
use gboost_rpc.Base.{ℕ, ◌+◌, ◌*◌, ◌/◌, ◌%◌, ◌^◌, ◌<◌, ◌≡◌, refl, List, [], ◌∷◌, ◌++◌, arith, length}

unfoldable pub to_big_endian : ℕ → List ℕ
to_big_endian n = (n / 2 ^ 24 % 256) ∷ (n / 2 ^ 16 % 256) ∷ (n / 2 ^ 8 % 256) ∷ (n % 256) ∷ []

-- Reads four bytes; the code never asks for them where there are fewer.
unfoldable pub from_big_endian : List ℕ → ℕ
from_big_endian (a ∷ b ∷ c ∷ d ∷ rest) = a * 2 ^ 24 + b * 2 ^ 16 + c * 2 ^ 8 + d
from_big_endian _ = 0

pub from_big_endian-to_big_endian :
    (n : ℕ) (rest : List ℕ) → n < 2 ^ 32 → from_big_endian (to_big_endian n ++ rest) ≡ n
unfolding from_big_endian to_big_endian
from_big_endian-to_big_endian n rest h = omega arith

pub length-to_big_endian : (n : ℕ) → length (to_big_endian n) ≡ 4
unfolding to_big_endian
length-to_big_endian n = refl
