-- ===== src/Calculator/Consumer/Truncation.antt =====
-- The conversion of the OBU ID to the 32 bits of a request.
use toll_calc.Common.{ℕ, ◌+◌, ◌-◌, ◌^◌, ◌≡◌, ◌≤◌, arith}
use toll_calc.Common.Int.{pos, int32}
use toll_calc.Types.{ObuData}
use toll_calc.Calculator.Consumer.{request_of}

-- The request for an event keeps an OBU ID from 0 to 2^31 - 1, and the request for an event whose OBU
-- ID is larger by 2^32 has that same ID.
pub request_of_aliases :
    {F : Type 0} (dist : F) (d far : ObuData F) (k : ℕ)
    → d.obu_id ≡ pos k
    → far.obu_id ≡ pos (k + 2 ^ 32)
    → k ≤ 2 ^ 31 - 1
    → ((request_of dist d).obu_id ≡ d.obu_id) × ((request_of dist far).obu_id ≡ d.obu_id)
unfolding int32
request_of_aliases dist d far k near_id far_id small =
    rw (near_id, far_id) (ground arith, ground arith)
